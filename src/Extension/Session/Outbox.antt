-- ===== src/Extension/Session/Outbox.antt =====
-- src/extension/sessionManager.ts: operations on their way out.
use mathlib.Core.List.{Perm, perm_append_singleton}
use mathlib.Core.List.Perm
use nettprogg_vsc.Common.{
  String, List, [], ◌∷◌, ◌++◌, false, Option, none, some, ◌≡◌, refl, sym, ap, ◌∙◌, inl, inr,
  Bool-cases, append_assoc, append-nil, cond, arith, subst,
}
use nettprogg_vsc.Crdt.{CrdtOperation}
use nettprogg_vsc.Crdt.Replica.{WasmModule}
use nettprogg_vsc.Transport.Interface.{CollaborationTransport, relay, Accepts}
use nettprogg_vsc.Extension.Session.{
  SessionConfig, Manager, transport_send, send_in, send_operation, send_all, flush_offline_queue,
}

module _ (wasm : WasmModule) (net : CollaborationTransport) where
  abbrev M : Type 0
  M = Manager wasm net

  -- What sending leaves alone.
  pub record SameSession (m m' : M) : Type 0 where
    pub session : m'.session ≡ m.session
    pub crdt : m'.crdt ≡ m.crdt
    pub shadow : m'.document_shadow_text ≡ m.document_shadow_text
    pub renders : m'.render_queue ≡ m.render_queue
    pub pending : m'.pending_remote_operations ≡ m.pending_remote_operations
    pub timer : m'.reconnect_timer ≡ m.reconnect_timer
    pub ready : m'.sync_ready ≡ m.sync_ready

  send_operation-SameSession :
      (s : Option SessionConfig) (op : CrdtOperation) (m : M)
      → SameSession m (send_operation wasm net s op m)
  unfolding send_operation
  send_operation-SameSession none op m = ground arith
  send_operation-SameSession (some s) op m = ground arith

  SameSession-trans : {a b c : M} → SameSession a b → SameSession b c → SameSession a c
  SameSession-trans h k = ground arith

  pub send_all-SameSession :
      (ops : List CrdtOperation) (m : M) → SameSession m (send_all wasm net ops m)
  unfolding send_all
  send_all-SameSession [] m = ground arith
  send_all-SameSession (op ∷ ops) m =
      SameSession-trans (send_operation-SameSession m.session op m)
        (send_all-SameSession ops (send_operation wasm net m.session op m))

  module _ (law : Accepts net) where
    open law use {accepted, accepted-send}

    abbrev accepted_by : Option net.State → List CrdtOperation
    accepted_by none = []
    accepted_by (some t) = accepted t

    -- The operations that the transport has accepted, and those that wait for it.
    abbrev pub outgoing : M → List CrdtOperation
    outgoing m = accepted_by m.transport ++ m.offline_queue

    transport_send_accepted :
        (t : Option net.State) (op : CrdtOperation)
        → let r = transport_send wasm net t op none in
          accepted_by r.1 ≡ cond r.0 (accepted_by t ++ op ∷ []) (accepted_by t)
    transport_send_accepted none op = refl
    transport_send_accepted (some t) op = accepted-send t op none

    move_last :
        (xs ys : List CrdtOperation) (op : CrdtOperation)
        → Perm ((xs ++ op ∷ []) ++ ys) ((xs ++ ys) ++ op ∷ [])
    move_last xs ys op =
        rw (append_assoc xs (op ∷ []) ys, append_assoc xs ys (op ∷ []))
          (Perm.append_left xs (Perm.symm (perm_append_singleton op ys)))

    send_in_perm :
        (s : SessionConfig) (op : CrdtOperation) (m : M)
        → s.transport_mode ≡ relay
        → Perm (outgoing (send_in wasm net s op m)) (outgoing m ++ op ∷ [])
    unfolding send_in
    send_in_perm s op m mode =
        let r = transport_send wasm net m.transport op none in
        let e = transport_send_accepted m.transport op in
        elim (Bool-cases r.0) [
          | inl sent ↦
              let taken : accepted_by r.1 ≡ accepted_by m.transport ++ op ∷ [] = rw sent at e in
              rw (sent, send_in) (rw taken (move_last (accepted_by m.transport) m.offline_queue op))
          | inr unsent ↦
              let kept : accepted_by r.1 ≡ accepted_by m.transport = rw unsent at e in
              rw (unsent, mode, send_in)
                (rw kept (
                  rw (append_assoc (accepted_by m.transport) m.offline_queue (op ∷ []))
                    (Perm.refl _)))
        ]

    send_operation_perm :
        (s : SessionConfig) (op : CrdtOperation) (m : M)
        → m.session ≡ some s
        → s.transport_mode ≡ relay
        → Perm (outgoing (send_operation wasm net m.session op m)) (outgoing m ++ op ∷ [])
    unfolding send_operation
    send_operation_perm s op m e mode =
        rw (ap (λ c. send_operation wasm net c op m) e) (send_in_perm s op m mode)

    -- In a relay session, whatever the transport answers: the operations accepted by the transport
    -- and those queued for it, together, are those from before and the new ones, each as often as
    -- before. None is lost and none is sent twice.
    pub send_all-conserves :
        (s : SessionConfig) (ops : List CrdtOperation) (m : M)
        → m.session ≡ some s
        → s.transport_mode ≡ relay
        → Perm (outgoing (send_all wasm net ops m)) (outgoing m ++ ops)
    unfolding send_all
    send_all-conserves s [] m e mode = rw append-nil (Perm.refl _)
    send_all-conserves s (op ∷ ops) m e mode =
        let m' = send_operation wasm net m.session op m in
        let same = send_operation-SameSession m.session op m in
        let step : Perm (outgoing m') (outgoing m ++ op ∷ []) = send_operation_perm s op m e mode in
        Perm.trans (send_all-conserves s ops m' (same.session ∙ e) mode)
          (rw (append_assoc (outgoing m) (op ∷ []) ops) at (Perm.append_right ops step))

    -- Flushing the offline queue of a relay session loses and repeats nothing either.
    pub flush_offline_queue-conserves :
        (s : SessionConfig) (m : M)
        → m.session ≡ some s
        → s.transport_mode ≡ relay
        → Perm (outgoing (flush_offline_queue wasm net m.session m)) (outgoing m)
    unfolding flush_offline_queue
    flush_offline_queue-conserves s m e mode = rw (ap (λ c. flush_offline_queue wasm net c m) e) (
        rw (mode, flush_offline_queue)
          (rw append-nil at
            (send_all-conserves s m.offline_queue (record m { offline_queue = [] }) e mode)))

  -- No transport, or one that refuses every operation and stays as it is
  abbrev pub Rejects : Option net.State → Type 0
  Rejects none = Unit
  Rejects (some t) =
      (op : CrdtOperation) (except : Option String) → net.send_operation t op except ≡ (false, t)

  transport_send_rejected :
      (t : Option net.State) (op : CrdtOperation)
      → Rejects t
      → ((transport_send wasm net t op none).0 ≡ false)
        × Rejects (transport_send wasm net t op none).1
  transport_send_rejected none op h = (refl, tt)
  transport_send_rejected (some t) op h =
      (ap (λ r. r.0) (h op none), subst (λ r. Rejects (some r.1)) (sym (h op none)) h)

  send_in_rejected :
      (s : SessionConfig) (op : CrdtOperation) (m : M)
      → s.transport_mode ≡ relay
      → Rejects m.transport
      → let m' = send_in wasm net s op m in
        (m'.offline_queue ≡ m.offline_queue ++ op ∷ []) × Rejects m'.transport
  unfolding send_in
  send_in_rejected s op m mode h =
      let (no_, still) = transport_send_rejected m.transport op h in
      (rw (no_, mode, send_in), rw (no_, mode, send_in) still)

  send_operation_rejected :
      (s : SessionConfig) (op : CrdtOperation) (m : M)
      → m.session ≡ some s
      → s.transport_mode ≡ relay
      → Rejects m.transport
      → let m' = send_operation wasm net m.session op m in
        (m'.offline_queue ≡ m.offline_queue ++ op ∷ []) × Rejects m'.transport
  unfolding send_operation
  send_operation_rejected s op m e mode h =
      subst
        (λ c.
          let m' = send_operation wasm net c op m in
          (m'.offline_queue ≡ m.offline_queue ++ op ∷ []) × Rejects m'.transport)
        (sym e) (send_in_rejected s op m mode h)

  send_all_rejected :
      (s : SessionConfig) (ops : List CrdtOperation) (m : M)
      → m.session ≡ some s
      → s.transport_mode ≡ relay
      → Rejects m.transport
      → (send_all wasm net ops m).offline_queue ≡ m.offline_queue ++ ops
  unfolding send_all
  send_all_rejected s [] m e mode h = sym (append-nil m.offline_queue)
  send_all_rejected s (op ∷ ops) m e mode h =
      let (queue, still) = send_operation_rejected s op m e mode h in
      let same = send_operation-SameSession m.session op m in
      send_all_rejected s ops (send_operation wasm net m.session op m) (same.session ∙ e) mode still
      ∙ (ap (λ q. q ++ ops) queue ∙ append_assoc m.offline_queue (op ∷ []) ops)

  -- While a relay session has no transport, or one that refuses every operation and stays as it is, a
  -- flush leaves the offline queue as it is, in the same order.
  pub flush_offline_queue_rejected :
      (s : SessionConfig) (m : M)
      → m.session ≡ some s
      → s.transport_mode ≡ relay
      → Rejects m.transport
      → (flush_offline_queue wasm net m.session m).offline_queue ≡ m.offline_queue
  unfolding flush_offline_queue
  flush_offline_queue_rejected s m e mode h =
      ap (λ c. (flush_offline_queue wasm net c m).offline_queue) e
      ∙ rw (mode, flush_offline_queue)
          (send_all_rejected s m.offline_queue (record m { offline_queue = [] }) e mode h)
