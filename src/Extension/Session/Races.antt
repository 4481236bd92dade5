-- ===== src/Extension/Session/Races.antt =====
-- src/extension/sessionManager.ts: a session that ends while a handler waits, and errors in a replay.
use nettprogg_vsc.Common.{
  String, Text, List, [], ◌∷◌, true, false, none, some, ◌≡◌, refl, ap, ◌∙◌, arith,
}
use nettprogg_vsc.Crdt.Replica.{WasmModule}
use nettprogg_vsc.Transport.Interface.{CollaborationTransport, p2p, OperationEvent, SnapshotEvent}
use nettprogg_vsc.Extension.Session.{
  SessionConfig, Manager, ran, raised, after, flush_pending_snapshot_requests, flush_offline_queue,
  send_snapshots, Continuation, replay,
}
use nettprogg_vsc.Extension.Session.Handlers.{
  resume_joined, replay_operations, settle_replay, handle_transport_operation, finish_operation,
}
use nettprogg_vsc.Extension.Session.Handlers.Joining.{
  leave_session, connect, open_transport, handle_snapshot,
}

module _ (wasm : WasmModule) (net : CollaborationTransport) where
  abbrev M : Type 0
  M = Manager wasm net

  -- If the user leaves while `handleTransportJoined` awaits its render, the rest of it marks the
  -- manager, which has no session any more, as ready and connected, and then throws.
  pub resume_joined-leave_session :
      (m : M)
      → let r = resume_joined wasm net (leave_session wasm net m) in
        (r ≡ raised (after wasm net r))
        × ((after wasm net r).session ≡ none)
        × ((after wasm net r).sync_ready ≡ true)
        × ((after wasm net r).connected ≡ true)
  unfolding resume_joined leave_session flush_pending_snapshot_requests flush_offline_queue
  resume_joined-leave_session m = (refl, refl, refl, refl)

  send_snapshots_keep :
      (i : wasm.Instance) (ids : List String) (m : M)
      → let m' = send_snapshots wasm net i ids m in
        (m'.session ≡ m.session) × (m'.sync_ready ≡ m.sync_ready)
  unfolding send_snapshots
  send_snapshots_keep i [] m = (refl, refl)
  send_snapshots_keep i (id ∷ ids) m = send_snapshots_keep i ids _

  -- If the user moves on to a peer-to-peer session in that time, the rest of the old handler marks
  -- the new session as ready before any peer has answered, and no snapshot that arrives is
  -- adopted.
  pub resume_joined-connect :
      (m : M) (config : SessionConfig) (text : Text) (event : SnapshotEvent)
      → config.transport_mode ≡ p2p
      → let m' = after wasm net (resume_joined wasm net (connect wasm net config text m)) in
        (m'.sync_ready ≡ true)
        × (m'.crdt ≡ some (wasm.create m.client_id))
        × (handle_snapshot wasm net m'.session event m' ≡ ran m')
  unfolding resume_joined connect leave_session open_transport flush_pending_snapshot_requests
      flush_offline_queue send_snapshots handle_snapshot
  resume_joined-connect m config text event mode =
      rw (mode, flush_offline_queue, handle_snapshot) (refl, refl, refl)

  handle_refused :
      (m : M) (session : SessionConfig) (i : wasm.Instance) (event : OperationEvent)
      (k : Continuation)
      → m.sync_ready ≡ true
      → wasm.apply_operation i event.op ≡ none
      → handle_transport_operation wasm net (some session) (some i) event k m ≡ (raised m, false)
  unfolding handle_transport_operation finish_operation
  handle_refused m session i event k ready refused = ground arith

  -- An operation that the replica refuses ends the replay of the waiting operations with an error,
  -- whatever stands behind it: nothing of the rest is applied.
  pub replay_operations_refused :
      (m : M) (session : SessionConfig) (i : wasm.Instance) (event : OperationEvent)
      (rest : List OperationEvent)
      → m.session ≡ some session
      → m.crdt ≡ some i
      → m.sync_ready ≡ true
      → wasm.apply_operation i event.op ≡ none
      → replay_operations wasm net (event ∷ rest) m ≡ raised m
  unfolding replay_operations handle_transport_operation finish_operation
  replay_operations_refused m session i event rest in_session has_crdt ready refused =
      ap (λ r. settle_replay wasm net (replay_operations wasm net rest) r)
        (ap (λ s. handle_transport_operation wasm net s m.crdt event (replay rest) m) in_session
          ∙ ap (λ c. handle_transport_operation wasm net (some session) c event (replay rest) m)
              has_crdt
          ∙ handle_refused m session i event (replay rest) ready refused)
