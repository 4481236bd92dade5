-- ===== src/Extension/Session/Consistency/Joining.antt =====
-- src/extension/sessionManager.ts: consistency under joining, snapshots, presence and reconnecting.
use nettprogg_vsc.Common.{
  String, List, [], ◌∷◌, Bool, true, false, not, ◌&&◌, ◌||◌, Option, none, some, if◌then◌else◌, ◌≡◌,
  refl, ap, ◌∙◌, arith, is_some, branches, length,
}
use nettprogg_vsc.Crdt.{CrdtOperation}
use nettprogg_vsc.Crdt.Replica.{WasmModule, Outcome, returned, threw}
use nettprogg_vsc.Transport.Interface.{CollaborationTransport, PeerInfo, JoinedEvent, SnapshotEvent}
use nettprogg_vsc.Extension.Session.{
  connected, syncing, disconnected, SessionConfig, joined_rest, snapshot_rest, Manager, is_relay,
  seed_crdt_from_document, flush_pending_snapshot_requests, request_p2p_snapshot_if_needed,
}
use nettprogg_vsc.Extension.Session.Consistency.{Keeps, Keeps-refl, Keeps-trans, queues}
use nettprogg_vsc.Extension.Session.Consistency.Helpers.{
  KeepsRun, Alike-Keeps, set_crdt-Keeps, set_transport-Keeps, flush_pending-Keeps, request-Keeps,
  then_run-Keeps, seed-Keeps, transport_snapshot-none,
}
use nettprogg_vsc.Extension.Session.Consistency.Resuming.{
  set_state-Keeps, ready-Keeps, resume_joined-Keeps, render-Keeps,
}
use nettprogg_vsc.Extension.Session.Handlers.{resume_joined, first}
use nettprogg_vsc.Extension.Session.Handlers.Joining.{
  found_room, ask_room, join_p2p, apply_log, after_log, join_relay, handle_transport_joined,
  handle_snapshot_request, adopt_snapshot, handle_snapshot, schedule_reconnect,
  handle_transport_close, open_transport, reconnect, choose_provider, handle_presence,
  snapshot_candidates, is_candidate,
}

module _ (wasm : WasmModule) (net : CollaborationTransport) where
  abbrev M : Type 0
  M = Manager wasm net

  abbrev K : M → M → Type 0
  K = Keeps wasm net

  found_room-Keeps : (m : M) → KeepsRun wasm net m (found_room wasm net m)
  unfolding found_room
  found_room-Keeps m =
      then_run-Keeps wasm net m (seed_crdt_from_document wasm net m.session m.crdt m) _
        (seed-Keeps wasm net m.session m.crdt m refl)
        λ m1.
          let m2 : M = record m1 { sync_ready = true; connected = true } in
          Keeps-trans wasm net (ready-Keeps wasm net m1) (
            Keeps-trans wasm net (flush_pending-Keeps wasm net m1.crdt m2) (
              set_state-Keeps wasm net connected
                (flush_pending_snapshot_requests wasm net m1.crdt m2)))

  ask_room-Keeps : (provider : String) (m : M) → KeepsRun wasm net m (ask_room wasm net provider m)
  unfolding ask_room
  ask_room-Keeps provider m =
      let m1 : M = record m { snapshot_provider = some provider; snapshot_requested = false } in
      Keeps-trans wasm net (Alike-Keeps wasm net {m = m} {m' = m1} (ground arith)) (
        Keeps-trans wasm net (request-Keeps wasm net m.session m1)
          (set_state-Keeps wasm net syncing (request_p2p_snapshot_if_needed wasm net m.session m1)))

  join_p2p-Keeps : (ids : List String) (m : M) → KeepsRun wasm net m (join_p2p wasm net ids m)
  unfolding join_p2p
  join_p2p-Keeps [] m = found_room-Keeps m
  join_p2p-Keeps (provider ∷ rest) m = ask_room-Keeps provider m

  after_log-Keeps :
      (s : SessionConfig) (log : List CrdtOperation) (changed : Bool) (m : M)
      → KeepsRun wasm net m (after_log wasm net s log changed m)
  unfolding after_log
  after_log-Keeps s [] changed m =
      branches (KeepsRun wasm net m) (not m.seed_sent)
        (λ _.
          then_run-Keeps wasm net m (seed_crdt_from_document wasm net m.session m.crdt m)
            (resume_joined wasm net) (seed-Keeps wasm net m.session m.crdt m refl)
            (resume_joined-Keeps wasm net))
        (λ _.
          branches (KeepsRun wasm net m) changed
            (λ _. render-Keeps wasm net m.session m.crdt joined_rest m)
            (λ _. resume_joined-Keeps wasm net m))
  after_log-Keeps s (op ∷ ops) changed m = render-Keeps wasm net m.session m.crdt joined_rest m

  join_relay-Keeps :
      (s : SessionConfig) (log : List CrdtOperation) (o : Outcome wasm.Instance Bool) (m : M)
      → m.session ≡ some s
      → KeepsRun wasm net m (join_relay wasm net s log o m)
  unfolding join_relay
  join_relay-Keeps s log (threw i) m e = set_crdt-Keeps wasm net m i s e
  join_relay-Keeps s log (returned changed i) m e =
      Keeps-trans wasm net (set_crdt-Keeps wasm net m i s e)
        (after_log-Keeps s log changed (record m { crdt = some i }))

  pub joined-Keeps :
      (s : Option SessionConfig) (c : Option wasm.Instance) (event : JoinedEvent) (m : M)
      → m.session ≡ s
      → KeepsRun wasm net m (handle_transport_joined wasm net s c event m)
  unfolding handle_transport_joined
  joined-Keeps (some s) (some i) event m e =
      let m1 : M = record m { peer_count = length event.peers } in
      let counted : K m m1 = Alike-Keeps wasm net (ground arith) in
      branches (KeepsRun wasm net m) (is_relay s.transport_mode)
        (λ _.
          Keeps-trans wasm net counted
            (join_relay-Keeps s event.op_log (apply_log wasm net i event.op_log false) m1 e))
        (λ _. Keeps-trans wasm net counted (join_p2p-Keeps event.existing_peer_ids m1))
  joined-Keeps none c event m e = Keeps-refl wasm net m
  joined-Keeps (some s) none event m e = Keeps-refl wasm net m

  pub snapshot_request-Keeps :
      (c : Option wasm.Instance) (id : String) (m : M)
      → K m (handle_snapshot_request wasm net c id m)
  unfolding handle_snapshot_request
  snapshot_request-Keeps none id m = Keeps-refl wasm net m
  snapshot_request-Keeps (some i) id m =
      branches (K m) (not m.sync_ready) (λ _. Alike-Keeps wasm net (ground arith))
        (λ _. set_transport-Keeps wasm net m _ (transport_snapshot-none wasm net m.transport id i))

  adopt_snapshot-Keeps :
      (c : Option wasm.Instance) (s : SessionConfig) (m : M)
      → m.session ≡ some s
      → KeepsRun wasm net m (adopt_snapshot wasm net c m)
  unfolding adopt_snapshot
  adopt_snapshot-Keeps none s m e = Keeps-refl wasm net m
  adopt_snapshot-Keeps (some i) s m e =
      let m0 : M = record m { crdt = some i } in
      let m1 : M = record m0 { sync_ready = true; connected = true; seed_sent = true } in
      let m2 : M = flush_pending_snapshot_requests wasm net m1.crdt m1 in
      Keeps-trans wasm net (set_crdt-Keeps wasm net m i s e) (
        Keeps-trans wasm net (Alike-Keeps wasm net {m = m0} {m' = m1} (ground arith)) (
          Keeps-trans wasm net (flush_pending-Keeps wasm net m1.crdt m1)
            (render-Keeps wasm net m2.session m2.crdt snapshot_rest m2)))

  pub snapshot-Keeps :
      (s : Option SessionConfig) (event : SnapshotEvent) (m : M)
      → m.session ≡ s
      → KeepsRun wasm net m (handle_snapshot wasm net s event m)
  unfolding handle_snapshot
  snapshot-Keeps none event m e = Keeps-refl wasm net m
  snapshot-Keeps (some s) event m e =
      branches (KeepsRun wasm net m) (is_relay s.transport_mode || m.sync_ready)
        (λ _. Keeps-refl wasm net m)
        (λ _. adopt_snapshot-Keeps (wasm.from_snapshot event.snapshot m.client_id) s m e)

  schedule_reconnect-Keeps :
      (m : M) → queues wasm net m.session ≡ true → K m (schedule_reconnect wasm net m)
  unfolding schedule_reconnect
  schedule_reconnect-Keeps m h =
      branches (K m) (is_some m.session)
        (λ _. record {
          session = refl;
          no_crdt = λ x c. c;
          has_crdt = λ c. c;
          transport = λ x t. t;
          pending = λ x p. p;
          timer = λ x t. cc;
          queue = λ q x. x;
        })
        (λ _. Keeps-refl wasm net m)

  pub close-Keeps :
      (s : Option SessionConfig) (m : M) → m.session ≡ s → K m (handle_transport_close wasm net s m)
  unfolding handle_transport_close
  close-Keeps none m e = Keeps-refl wasm net m
  close-Keeps (some s) m e =
      let m1 : M = record m { connected = false; status = disconnected } in
      branches (K m) (is_relay s.transport_mode)
        (λ r.
          Keeps-trans wasm net (Alike-Keeps wasm net {m = m} {m' = m1} (ground arith))
            (schedule_reconnect-Keeps m1 (ap (queues wasm net) e ∙ r)))
        (λ _. Alike-Keeps wasm net (ground arith))

  -- A fired timer opens a transport anew, if there is still a session.
  open-Keeps :
      (s : Option SessionConfig) (m : M) → m.session ≡ s → K m (open_transport wasm net s m)
  unfolding open_transport
  open-Keeps none m e = Keeps-refl wasm net m
  open-Keeps (some s) m e = record {
    session = refl;
    no_crdt = λ x c. c;
    has_crdt = λ c. c;
    transport = λ x t. cc;
    pending = λ x p. p;
    timer = λ x t. refl;
    queue = λ q x. x;
  }

  pub reconnect-Keeps : (m : M) → K m (reconnect wasm net m)
  unfolding reconnect
  reconnect-Keeps m =
      let m1 : M = record m { reconnect_timer = false } in
      let unset : K m m1 = record {
        session = refl;
        no_crdt = λ x c. c;
        has_crdt = λ c. c;
        transport = λ x t. t;
        pending = λ x p. p;
        timer = λ x t. refl;
        queue = λ q x. x;
      } in
      Keeps-trans wasm net unset (open-Keeps m.session m1 refl)

module _ (wasm : WasmModule) (net : CollaborationTransport)
    (locale_after : String → String → Bool) where
  choose-Keeps :
      (candidates : List String) (m : Manager wasm net)
      → Keeps wasm net m (choose_provider wasm net locale_after candidates m)
  unfolding choose_provider
  choose-Keeps candidates m =
      let m1 : Manager wasm net = record m {
        snapshot_provider = first candidates;
        snapshot_requested = false;
      } in
      branches (Keeps wasm net m)
        (is_candidate wasm net locale_after m.snapshot_provider candidates)
        (λ _. Keeps-refl wasm net m)
        (λ _.
          Keeps-trans wasm net (Alike-Keeps wasm net {m = m} {m' = m1} (ground arith))
            (request-Keeps wasm net m.session m1))

  pub presence-Keeps :
      (s : Option SessionConfig) (peers : List PeerInfo) (m : Manager wasm net)
      → Keeps wasm net m (handle_presence wasm net locale_after s peers m)
  unfolding handle_presence
  presence-Keeps none peers m = Keeps-refl wasm net m
  presence-Keeps (some s) peers m =
      let m1 : Manager wasm net = record m { peer_count = length peers } in
      let candidates : List String = snapshot_candidates wasm net locale_after m.client_id peers in
      let m2 : Manager wasm net =
        if not (is_relay s.transport_mode) && not m.sync_ready
        then choose_provider wasm net locale_after candidates m1
        else m1 in
      let chosen : Keeps wasm net m1 m2 =
        branches (Keeps wasm net m1) (not (is_relay s.transport_mode) && not m.sync_ready)
          (λ _. choose-Keeps candidates m1) (λ _. Keeps-refl wasm net m1) in
      Keeps-trans wasm net (Alike-Keeps wasm net {m = m} {m' = m1} (ground arith))
        (Keeps-trans wasm net chosen (Alike-Keeps wasm net (ground arith)))
