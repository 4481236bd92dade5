-- ===== src/Extension/Session/Consistency/Resuming.antt =====
-- src/extension/sessionManager.ts: consistency under remote operations and what follows a render.
use nettprogg_vsc.Common.{
  List, [], ◌∷◌, ◌++◌, Bool, true, false, not, ◌&&◌, ◌||◌, Option, none, some, if◌then◌else◌, ◌≡◌,
  refl, ap, ◌∙◌, arith, is_some, branches, ltb,
}
use nettprogg_vsc.Crdt.{ApplyResult}
use nettprogg_vsc.Crdt.Replica.{WasmModule}
use nettprogg_vsc.Transport.Interface.{CollaborationTransport, OperationEvent}
use nettprogg_vsc.Extension.Session.{
  ConnectionState, connected, SessionConfig, Continuation, finish, joined_rest, snapshot_rest,
  replay, Manager, Run, ran, raised, is_relay, transport_send, flush_offline_queue,
  flush_pending_snapshot_requests,
}
use nettprogg_vsc.Extension.Session.Consistency.{
  Keeps, Keeps-refl, Keeps-trans, holds_back, transport_send-none,
}
use nettprogg_vsc.Extension.Session.Consistency.Helpers.{
  KeepsRun, Alike-Keeps, set_crdt-Keeps, set_transport-Keeps, flush_pending-Keeps,
  flush_offline-Keeps,
}
use nettprogg_vsc.Extension.Session.Handlers.{
  text_eq, is_applied, resume_joined, queue_render, finish_operation, handle_transport_operation,
  settle_replay, replay_operations, resume, render_crdt_to_document, set_state,
}

module _ (wasm : WasmModule) (net : CollaborationTransport) where
  abbrev M : Type 0
  M = Manager wasm net

  abbrev K : M → M → Type 0
  K = Keeps wasm net

  pub set_state-Keeps : (c : ConnectionState) (m : M) → K m (set_state wasm net c m)
  set_state-Keeps c m = Alike-Keeps wasm net (ground arith)

  pub ready-Keeps : (m : M) → K m (record m { sync_ready = true; connected = true })
  ready-Keeps m = Alike-Keeps wasm net (ground arith)

  pub resume_joined-Keeps : (m : M) → KeepsRun wasm net m (resume_joined wasm net m)
  unfolding resume_joined
  resume_joined-Keeps m =
      let m1 : M = record m { sync_ready = true; connected = true } in
      let m2 : M = flush_pending_snapshot_requests wasm net m1.crdt m1 in
      let m3 : M = flush_offline_queue wasm net m2.session m2 in
      let k : K m m3 = Keeps-trans wasm net (ready-Keeps m) (
        Keeps-trans wasm net (flush_pending-Keeps wasm net m1.crdt m1)
          (flush_offline-Keeps wasm net m2.session m2 refl)) in
      branches (KeepsRun wasm net m) (is_some m3.session)
        (λ _. Keeps-trans wasm net k (set_state-Keeps connected m3)) (λ _. k)

  pub queue_render-Keeps :
      (s : SessionConfig) (k : Continuation) (m : M) → K m (queue_render wasm net s k m)
  unfolding queue_render
  queue_render-Keeps s k m = Alike-Keeps wasm net (ground arith)

  finish_operation-Keeps :
      (s : SessionConfig) (i : wasm.Instance) (event : OperationEvent) (seen : Bool)
      (o : Option (ApplyResult × wasm.Instance)) (k : Continuation) (m : M)
      → m.session ≡ some s
      → KeepsRun wasm net m (finish_operation wasm net s i event seen o k m).0
  unfolding finish_operation
  finish_operation-Keeps s i event seen none k m e = Keeps-refl wasm net m
  finish_operation-Keeps s i event seen (some (result, i')) k m e =
      let m1 : M = record m { crdt = some i' } in
      let r = transport_send wasm net m.transport event.op event.source_client_id in
      let forward : Bool = not (is_relay s.transport_mode) && not seen in
      let m2 : M = if forward then record m1 { transport = r.1 } else m1 in
      let forwarded : K m1 m2 =
        branches (K m1) forward
          (λ _.
            set_transport-Keeps wasm net m1 r.1
              (transport_send-none wasm net m.transport event.op event.source_client_id))
          (λ _. Keeps-refl wasm net m1) in
      let kept : K m m2 = Keeps-trans wasm net (set_crdt-Keeps wasm net m i' s e) forwarded in
      branches (λ (p : Run wasm net × Bool). KeepsRun wasm net m p.0)
        (is_applied result.status
          || (ltb 0 result.drained || not (text_eq (wasm.to_string i) (wasm.to_string i'))))
        (λ _. Keeps-trans wasm net kept (queue_render-Keeps s k m2)) (λ _. kept)

  -- Holding an operation back, in a peer-to-peer session
  hold_back-Keeps :
      (m : M) (event : OperationEvent)
      → holds_back wasm net m.session ≡ true
      → K m (record m { pending_remote_operations = m.pending_remote_operations ++ event ∷ [] })
  hold_back-Keeps m event h = record {
    session = refl;
    no_crdt = λ x c. c;
    has_crdt = λ c. c;
    transport = λ x t. t;
    pending = λ x p. cc;
    timer = λ x t. t;
    queue = λ q x. x;
  }

  pub handle_operation-Keeps :
      (s : Option SessionConfig) (c : Option wasm.Instance) (event : OperationEvent)
      (k : Continuation) (m : M)
      → m.session ≡ s
      → KeepsRun wasm net m (handle_transport_operation wasm net s c event k m).0
  unfolding handle_transport_operation
  handle_operation-Keeps (some s) (some i) event k m e =
      branches (λ (p : Run wasm net × Bool). KeepsRun wasm net m p.0)
        (not (is_relay s.transport_mode) && not m.sync_ready)
        (λ waits. hold_back-Keeps m event (ap (holds_back wasm net) e ∙ ground arith))
        (λ _.
          finish_operation-Keeps s i event (wasm.has_seen i event.op)
            (wasm.apply_operation i event.op) k m e)
  handle_operation-Keeps none c event k m e = Keeps-refl wasm net m
  handle_operation-Keeps (some s) none event k m e = Keeps-refl wasm net m

  settle_replay-Keeps :
      (m : M) (go_on : M → Run wasm net) (r : Run wasm net × Bool)
      → KeepsRun wasm net m r.0
      → ((m' : M) → KeepsRun wasm net m' (go_on m'))
      → KeepsRun wasm net m (settle_replay wasm net go_on r)
  settle_replay-Keeps m go_on (raised m', awaits) h k = h
  settle_replay-Keeps m go_on (ran m', true) h k = h
  settle_replay-Keeps m go_on (ran m', false) h k = Keeps-trans wasm net h (k m')

  pub replay-Keeps :
      (events : List OperationEvent) (m : M)
      → KeepsRun wasm net m (replay_operations wasm net events m)
  unfolding replay_operations
  replay-Keeps [] m =
      branches (KeepsRun wasm net m) (is_some m.session) (λ _. set_state-Keeps connected m)
        (λ _. Keeps-refl wasm net m)
  replay-Keeps (event ∷ rest) m =
      settle_replay-Keeps m (replay_operations wasm net rest)
        (handle_transport_operation wasm net m.session m.crdt event (replay rest) m)
        (handle_operation-Keeps m.session m.crdt event (replay rest) m refl) (replay-Keeps rest)

  drop_pending-Keeps : (m : M) → K m (record m { pending_remote_operations = [] })
  drop_pending-Keeps m = record {
    session = refl;
    no_crdt = λ x c. c;
    has_crdt = λ c. c;
    transport = λ x t. t;
    pending = λ x p. refl;
    timer = λ x t. t;
    queue = λ q x. x;
  }

  pub resume-Keeps : (k : Continuation) (m : M) → KeepsRun wasm net m (resume wasm net k m)
  unfolding resume
  resume-Keeps finish m = Keeps-refl wasm net m
  resume-Keeps joined_rest m = resume_joined-Keeps m
  resume-Keeps snapshot_rest m =
      Keeps-trans wasm net (drop_pending-Keeps m)
        (replay-Keeps m.pending_remote_operations (record m { pending_remote_operations = [] }))
  resume-Keeps (replay events) m = replay-Keeps events m

  pub render-Keeps :
      (s : Option SessionConfig) (c : Option wasm.Instance) (k : Continuation) (m : M)
      → KeepsRun wasm net m (render_crdt_to_document wasm net s c k m)
  unfolding render_crdt_to_document
  render-Keeps (some s) (some i) k m = queue_render-Keeps s k m
  render-Keeps none c k m = resume-Keeps k m
  render-Keeps (some s) none k m = resume-Keeps k m
