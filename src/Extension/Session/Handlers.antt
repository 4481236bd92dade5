-- ===== src/Extension/Session/Handlers.antt =====
-- src/extension/sessionManager.ts: operations from others, and what follows a render.
pub mod Joining
pub mod Editing
use nettprogg_vsc.Common.{
  ℕ, suc, ◌+◌, ◌-◌, String, Text, List, [], ◌∷◌, ◌++◌, Bool, true, false, not, ◌&&◌, ◌||◌, Option,
  none, some, if◌then◌else◌, str_eq, ltb, ==_iff, length, map, filter, is_some, ◌==◌,
}
use nettprogg_vsc.Common.Sort.{sort}
use nettprogg_vsc.Crdt.{CrdtOperation, ApplyResult, ApplyStatus, applied, duplicate, queued}
use nettprogg_vsc.Crdt.Replica.{WasmModule, Outcome, returned, threw}
use nettprogg_vsc.Extension.DocumentAdapter.{TextChange, apply_text_changes, changes_to_operations}
use nettprogg_vsc.Transport.Interface.{
  CollaborationTransport, TransportMode, relay, p2p, PeerInfo, JoinedEvent, OperationEvent,
  SnapshotEvent,
}
use nettprogg_vsc.Extension.Session.{
  ConnectionState, idle, syncing, connected, disconnected, SessionConfig, Continuation, finish,
  joined_rest, replay, RenderTask, is_relay, Manager, Run, ran, raised, snapshot_rest,
  transport_send, send_all, flush_offline_queue, seed_crdt_from_document,
  flush_pending_snapshot_requests, request_p2p_snapshot_if_needed,
}

-- `a === b` on texts
abbrev pub text_eq : Text → Text → Bool
text_eq [] [] = true
text_eq (a ∷ s) (b ∷ t) = a == b && text_eq s t
text_eq _ _ = false

abbrev pub is_applied : ApplyStatus → Bool
is_applied applied = true
is_applied _ = false

abbrev pub contains : String → List String → Bool
contains a [] = false
contains a (b ∷ bs) = str_eq a b || contains a bs

abbrev pub first : List String → Option String
first [] = none
first (a ∷ rest) = some a

-- `Set.add`
abbrev pub add : String → List String → List String
add a set = if contains a set then set else set ++ a ∷ []

module _ (wasm : WasmModule) (net : CollaborationTransport) where
  abbrev pub M : Type 0
  M = Manager wasm net

  abbrev pub R : Type 0
  R = Run wasm net

  abbrev pub set_state : ConnectionState → M → M
  set_state state m = record m { status = state }

  -- The end of `handleTransportJoined`. `this.session.roomId` throws where no session is left.
  unfoldable pub resume_joined : M → R
  resume_joined m =
      let m1 = record m { sync_ready = true; connected = true } in
      let m2 = flush_pending_snapshot_requests wasm net m1.crdt m1 in
      let m3 = flush_offline_queue wasm net m2.session m2 in
      if is_some m3.session then ran (set_state connected m3) else raised m3

  -- What the render of `renderCrdtToDocument` is queued with
  unfoldable pub queue_render : SessionConfig → Continuation → M → M
  queue_render session k m = record m {
    render_queue =
        m.render_queue
        ++ record { version = m.session_version; document_uri = session.document_uri; next = k }
          ∷ [];
  }

  -- `handleTransportOperation` behind its guards, with the CRDT and what it makes of the operation.
  -- `k` is what the caller does when the handler is over.
  unfoldable pub finish_operation :
      SessionConfig
      → wasm.Instance
      → OperationEvent
      → Bool
      → Option (ApplyResult × wasm.Instance)
      → Continuation
      → M
      → R × Bool
  unfolding queue_render
  finish_operation session i event seen none k m = (raised m, false)
  finish_operation session i event seen (some (result, i')) k m =
      let forward = not (is_relay session.transport_mode) && not seen in
      let r = transport_send wasm net m.transport event.op event.source_client_id in
      let m1 = record m { crdt = some i' } in
      let m2 = if forward then record m1 { transport = r.1 } else m1 in
      if is_applied result.status
        || (ltb 0 result.drained || not (text_eq (wasm.to_string i) (wasm.to_string i')))
      then (ran (queue_render session k m2), true)
      else (ran m2, false)

  -- `handleTransportOperation`. The Boolean says whether it now awaits a render, which goes on
  -- with `k`.
  unfoldable pub handle_transport_operation :
      Option SessionConfig → Option wasm.Instance → OperationEvent → Continuation → M → R × Bool
  unfolding finish_operation
  handle_transport_operation (some session) (some i) event k m =
      if not (is_relay session.transport_mode) && not m.sync_ready
      then (
        ran (record m { pending_remote_operations = m.pending_remote_operations ++ event ∷ [] }),
        false,
      )
      else finish_operation session i event (wasm.has_seen i event.op)
          (wasm.apply_operation i event.op) k m
  handle_transport_operation _ _ event k m = (ran m, false)

  -- The rest of a round of `handleSnapshot`'s loop over the operations that had waited: a render
  -- that the operation asked for is awaited first.
  abbrev pub settle_replay : (M → R) → R × Bool → R
  settle_replay go_on (raised m, awaits) = raised m
  settle_replay go_on (ran m, true) = ran m
  settle_replay go_on (ran m, false) = go_on m

  -- That loop, and the end of `handleSnapshot`
  unfoldable pub replay_operations : List OperationEvent → M → R
  unfolding handle_transport_operation
  replay_operations [] m = if is_some m.session then ran (set_state connected m) else raised m
  replay_operations (event ∷ rest) m =
      settle_replay (replay_operations rest)
        (handle_transport_operation m.session m.crdt event (replay rest) m)

  -- What follows an `await` of a render
  unfoldable pub resume : Continuation → M → R
  unfolding resume_joined replay_operations
  resume finish m = ran m
  resume joined_rest m = resume_joined m
  resume snapshot_rest m =
      replay_operations m.pending_remote_operations (record m { pending_remote_operations = [] })
  resume (replay events) m = replay_operations events m

  -- `renderCrdtToDocument`, followed by `k`
  unfoldable pub render_crdt_to_document :
      Option SessionConfig → Option wasm.Instance → Continuation → M → R
  unfolding queue_render resume
  render_crdt_to_document (some session) (some i) k m = ran (queue_render session k m)
  render_crdt_to_document _ _ k m = resume k m
