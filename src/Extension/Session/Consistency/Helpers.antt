-- ===== src/Extension/Session/Consistency/Helpers.antt =====
-- src/extension/sessionManager.ts: consistency under the small operations.
use nettprogg_vsc.Common.{
  String, Text, List, [], ◌∷◌, true, Option, none, some, ◌≡◌, refl, ap, ◌∙◌, arith, is_some,
  branches,
}
use nettprogg_vsc.Common.Int.{pos}
use nettprogg_vsc.Crdt.{CrdtOperation}
use nettprogg_vsc.Crdt.Replica.{WasmModule, Outcome, returned, threw, insert_text}
use nettprogg_vsc.Extension.DocumentAdapter.{wrapped}
use nettprogg_vsc.Transport.Interface.{CollaborationTransport}
use nettprogg_vsc.Extension.Session.{
  SessionConfig, Manager, Run, ran, raised, after, then_run, is_relay, transport_request,
  transport_snapshot, flush_offline_queue, seed_with, seed_text, seed_crdt_from_document,
  send_snapshots, flush_pending_snapshot_requests, request_p2p_snapshot_if_needed,
}
use nettprogg_vsc.Extension.Session.Consistency.{Keeps, Keeps-refl, Keeps-trans, send_all-Keeps}

module _ (wasm : WasmModule) (net : CollaborationTransport) where
  abbrev M : Type 0
  M = Manager wasm net

  abbrev K : M → M → Type 0
  K = Keeps wasm net

  -- A step that changes none of the fields in question.
  pub record Alike (m m' : M) : Type 0 where
    pub session : m'.session ≡ m.session
    pub crdt : m'.crdt ≡ m.crdt
    pub transport : m'.transport ≡ m.transport
    pub pending : m'.pending_remote_operations ≡ m.pending_remote_operations
    pub timer : m'.reconnect_timer ≡ m.reconnect_timer
    pub queue : m'.offline_queue ≡ m.offline_queue

  pub Alike-Keeps : {m m' : M} → Alike m m' → K m m'
  Alike-Keeps a = record {
    session = a.session;
    no_crdt = λ e h. a.crdt ∙ h;
    has_crdt = λ h. ap is_some a.crdt ∙ h;
    transport = λ e h. a.transport ∙ h;
    pending = λ e h. a.pending ∙ h;
    timer = λ e h. a.timer ∙ h;
    queue = λ q h. a.queue ∙ h;
  }

  -- A new replica in a session
  pub set_crdt-Keeps :
      (m : M) (i : wasm.Instance) (s : SessionConfig)
      → m.session ≡ some s
      → K m (record m { crdt = some i })
  set_crdt-Keeps m i s e = record {
    session = refl;
    no_crdt = λ x h. cc;
    has_crdt = λ h. refl;
    transport = λ x h. h;
    pending = λ x h. h;
    timer = λ x h. h;
    queue = λ q h. h;
  }

  pub set_transport-Keeps :
      (m : M) (t : Option net.State)
      → (m.transport ≡ none → t ≡ none)
      → K m (record m { transport = t })
  set_transport-Keeps m t f = record {
    session = refl;
    no_crdt = λ x h. h;
    has_crdt = λ h. h;
    transport = λ x h. f h;
    pending = λ x h. h;
    timer = λ x h. h;
    queue = λ q h. h;
  }

  pub transport_snapshot-none :
      (t : Option net.State) (id : String) (i : wasm.Instance)
      → t ≡ none
      → transport_snapshot wasm net t id (wasm.snapshot i) ≡ none
  transport_snapshot-none none id i e = refl
  transport_snapshot-none (some t) id i e = cc

  transport_request-none :
      (t : Option net.State) (provider : Option String)
      → t ≡ none
      → (transport_request wasm net t provider).1 ≡ none
  transport_request-none none provider e = refl
  transport_request-none (some t) provider e = cc

  send_snapshots-Keeps :
      (i : wasm.Instance) (ids : List String) (m : M) → K m (send_snapshots wasm net i ids m)
  unfolding send_snapshots
  send_snapshots-Keeps i [] m = Keeps-refl wasm net m
  send_snapshots-Keeps i (id ∷ ids) m =
      Keeps-trans wasm net (set_transport-Keeps m _ (transport_snapshot-none m.transport id i))
        (send_snapshots-Keeps i ids _)

  pub flush_pending-Keeps :
      (c : Option wasm.Instance) (m : M) → K m (flush_pending_snapshot_requests wasm net c m)
  unfolding flush_pending_snapshot_requests
  flush_pending-Keeps none m = Keeps-refl wasm net m
  flush_pending-Keeps (some i) m =
      branches (K m) m.sync_ready
        (λ _.
          Keeps-trans wasm net
            (Alike-Keeps {m' = record m { pending_snapshot_requests = [] }} (ground arith))
            (send_snapshots-Keeps i m.pending_snapshot_requests
              (record m { pending_snapshot_requests = [] })))
        (λ _. Keeps-refl wasm net m)

  empty_queue-Keeps : (m : M) → K m (record m { offline_queue = [] })
  empty_queue-Keeps m = record {
    session = refl;
    no_crdt = λ x h. h;
    has_crdt = λ h. h;
    transport = λ x h. h;
    pending = λ x h. h;
    timer = λ x h. h;
    queue = λ q h. refl;
  }

  pub flush_offline-Keeps :
      (s : Option SessionConfig) (m : M) → m.session ≡ s → K m (flush_offline_queue wasm net s m)
  unfolding flush_offline_queue
  flush_offline-Keeps none m e = Keeps-refl wasm net m
  flush_offline-Keeps (some s) m e =
      branches (K m) (is_relay s.transport_mode)
        (λ r.
          Keeps-trans wasm net (empty_queue-Keeps m)
            (send_all-Keeps wasm net m.offline_queue (record m { offline_queue = [] })))
        (λ _. Keeps-refl wasm net m)

  pub request-Keeps :
      (s : Option SessionConfig) (m : M) → K m (request_p2p_snapshot_if_needed wasm net s m)
  unfolding request_p2p_snapshot_if_needed
  request-Keeps none m = Keeps-refl wasm net m
  request-Keeps (some s) m =
      let stay = λ (_ : Unit {0}). Keeps-refl wasm net m in
      branches (K m) (is_relay s.transport_mode) (λ _. stay tt)
        λ _.
          branches (K m) m.sync_ready (λ _. stay tt)
            λ _.
              branches (K m) m.snapshot_requested (λ _. stay tt)
                λ _.
                  Keeps-trans wasm net
                    (set_transport-Keeps m _
                      (transport_request-none m.transport m.snapshot_provider))
                    (Alike-Keeps (ground arith))

  abbrev pub KeepsRun : M → Run wasm net → Type 0
  KeepsRun m r = K m (after wasm net r)

  pub then_run-Keeps :
      (m : M) (r : Run wasm net) (f : M → Run wasm net)
      → KeepsRun m r
      → ((m' : M) → KeepsRun m' (f m'))
      → KeepsRun m (then_run wasm net r f)
  then_run-Keeps m (ran m') f h k = Keeps-trans wasm net h (k m')
  then_run-Keeps m (raised m') f h k = h

  seed_with-Keeps :
      (o : Outcome wasm.Instance (List CrdtOperation)) (m : M) (s : SessionConfig)
      → m.session ≡ some s
      → KeepsRun m (seed_with wasm net o m)
  unfolding seed_with
  seed_with-Keeps (threw i) m s e = set_crdt-Keeps m i s e
  seed_with-Keeps (returned ops i) m s e =
      Keeps-trans wasm net (set_crdt-Keeps m i s e) (send_all-Keeps wasm net ops _)

  seed_text-Keeps :
      (text : Text) (i : wasm.Instance) (m : M) (s : SessionConfig)
      → m.session ≡ some s
      → KeepsRun m (seed_text wasm net text i m)
  unfolding seed_text
  seed_text-Keeps [] i m s e = Keeps-refl wasm net m
  seed_text-Keeps (c ∷ text) i m s e =
      seed_with-Keeps (wrapped CrdtOperation.insert (insert_text wasm i (pos 0) (c ∷ text))) m s e

  pub seed-Keeps :
      (s : Option SessionConfig) (c : Option wasm.Instance) (m : M)
      → m.session ≡ s
      → KeepsRun m (seed_crdt_from_document wasm net s c m)
  unfolding seed_crdt_from_document
  seed-Keeps (some s) (some i) m e =
      branches (KeepsRun m) m.seed_sent (λ _. Keeps-refl wasm net m)
        λ _.
          Keeps-trans wasm net (Alike-Keeps {m' = record m { seed_sent = true }} (ground arith))
            (seed_text-Keeps s.seed_text i (record m { seed_sent = true }) s e)
  seed-Keeps none c m e = Keeps-refl wasm net m
  seed-Keeps (some s) none m e = Keeps-refl wasm net m
