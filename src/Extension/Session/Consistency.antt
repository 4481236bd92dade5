-- ===== src/Extension/Session/Consistency.antt =====
-- src/extension/sessionManager.ts: which fields of a manager belong together.
pub mod Helpers
pub mod Resuming
pub mod Joining
pub mod Editing
pub mod Steps
use nettprogg_vsc.Common.{
  ℕ, String, Text, List, [], ◌∷◌, ◌++◌, Bool, true, false, not, ◌&&◌, ◌||◌, Option, none, some,
  if◌then◌else◌, ◌≡◌, refl, ap, ◌∙◌, ◌⊎◌, inl, inr, arith, is_some, Option-cases, Bool-cases, subst,
  sym,
}
use nettprogg_vsc.Crdt.{CrdtOperation}
use nettprogg_vsc.Crdt.Replica.{WasmModule, Outcome, returned, threw}
use nettprogg_vsc.Transport.Interface.{
  CollaborationTransport, TransportMode, relay, p2p, OperationEvent,
}
use nettprogg_vsc.Extension.Session.{
  SessionConfig, Continuation, finish, joined_rest, snapshot_rest, replay, Manager, Run, ran,
  raised, after, then_run, is_relay, transport_send, transport_request, transport_snapshot, send_in,
  send_operation, send_all, flush_offline_queue, seed_with, seed_text, seed_crdt_from_document,
  send_snapshots, flush_pending_snapshot_requests, request_p2p_snapshot_if_needed,
}

module _ (wasm : WasmModule) (net : CollaborationTransport) where
  abbrev M : Type 0
  M = Manager wasm net

  abbrev pub FitsMode : TransportMode → M → Type 0
  FitsMode relay m = m.pending_remote_operations ≡ []
  FitsMode p2p m = (m.offline_queue ≡ []) × (m.reconnect_timer ≡ false)

  abbrev pub Fits : Option SessionConfig → M → Type 0
  Fits none m =
      (m.crdt ≡ none)
      × (m.transport ≡ none)
      × (m.offline_queue ≡ [])
      × (m.pending_remote_operations ≡ [])
      × (m.reconnect_timer ≡ false)
  Fits (some session) m = (is_some m.crdt ≡ true) × FitsMode session.transport_mode m

  -- Without a session there is no replica, no transport, nothing queued and no reconnection
  -- scheduled. In a session there is a replica; a relay session holds no remote operation back,
  -- and a peer-to-peer session queues nothing and schedules no reconnection.
  abbrev pub IsConsistent : M → Type 0
  IsConsistent m = Fits m.session m

  abbrev pub queues : Option SessionConfig → Bool
  queues none = false
  queues (some session) = is_relay session.transport_mode

  abbrev pub holds_back : Option SessionConfig → Bool
  holds_back none = false
  holds_back (some session) = not (is_relay session.transport_mode)

  -- What all steps but leaving and connecting keep.
  pub record Keeps (m m' : M) : Type 0 where
    pub session : m'.session ≡ m.session
    pub no_crdt : m.session ≡ none → m.crdt ≡ none → m'.crdt ≡ none
    pub has_crdt : is_some m.crdt ≡ true → is_some m'.crdt ≡ true
    pub transport : m.session ≡ none → m.transport ≡ none → m'.transport ≡ none
    pub pending :
        holds_back m.session ≡ false
        → m.pending_remote_operations ≡ []
        → m'.pending_remote_operations ≡ []
    pub timer : queues m.session ≡ false → m.reconnect_timer ≡ false → m'.reconnect_timer ≡ false
    pub queue : queues m.session ≡ false → m.offline_queue ≡ [] → m'.offline_queue ≡ []

  FitsMode-Keeps :
      (mode : TransportMode) (m m' : M)
      → Keeps m m'
      → queues m.session ≡ is_relay mode
      → holds_back m.session ≡ not (is_relay mode)
      → FitsMode mode m
      → FitsMode mode m'
  FitsMode-Keeps relay m m' k q b h = k.pending b h
  FitsMode-Keeps p2p m m' k q b (h, t) = (k.queue q h, k.timer q t)

  Fits-Keeps :
      (o : Option SessionConfig) (m m' : M) → m.session ≡ o → Keeps m m' → Fits o m → Fits o m'
  Fits-Keeps none m m' e k (c, t, q, p, r) = (
    k.no_crdt e c,
    k.transport e t,
    k.queue (ap queues e) q,
    k.pending (ap holds_back e) p,
    k.timer (ap queues e) r,
  )
  Fits-Keeps (some s) m m' e k (c, h) =
      (k.has_crdt c, FitsMode-Keeps s.transport_mode m m' k (ap queues e) (ap holds_back e) h)

  pub Keeps-IsConsistent : {m m' : M} → Keeps m m' → IsConsistent m → IsConsistent m'
  Keeps-IsConsistent {m} {m'} k h =
      subst (λ o. Fits o m') (sym k.session) (Fits-Keeps m.session m m' refl k h)

  pub Keeps-refl : (m : M) → Keeps m m
  Keeps-refl m = record {
    session = refl;
    no_crdt = λ e h. h;
    has_crdt = λ h. h;
    transport = λ e h. h;
    pending = λ e h. h;
    timer = λ e h. h;
    queue = λ e h. h;
  }

  pub Keeps-trans : {a b c : M} → Keeps a b → Keeps b c → Keeps a c
  Keeps-trans h k = record {
    session = k.session ∙ h.session;
    no_crdt = λ e x. k.no_crdt (h.session ∙ e) (h.no_crdt e x);
    has_crdt = λ x. k.has_crdt (h.has_crdt x);
    transport = λ e x. k.transport (h.session ∙ e) (h.transport e x);
    pending = λ e x. k.pending (ap holds_back h.session ∙ e) (h.pending e x);
    timer = λ e x. k.timer (ap queues h.session ∙ e) (h.timer e x);
    queue = λ e x. k.queue (ap queues h.session ∙ e) (h.queue e x);
  }

  pub transport_send-none :
      (t : Option net.State) (op : CrdtOperation) (except : Option String)
      → t ≡ none
      → (transport_send wasm net t op except).1 ≡ none
  transport_send-none none op except e = refl
  transport_send-none (some t) op except e = cc

  send_operation-Keeps :
      (s : Option SessionConfig) (op : CrdtOperation) (m : M)
      → m.session ≡ s
      → Keeps m (send_operation wasm net s op m)
  unfolding send_operation send_in
  send_operation-Keeps none op m e = Keeps-refl m
  send_operation-Keeps (some s) op m e = record {
    session = ground arith;
    no_crdt = λ x h. ground arith;
    has_crdt = λ h. ground arith;
    transport = λ x h. ground (arith, transport_send-none m.transport op none h);
    pending = λ b h. ground arith;
    timer = λ q h. ground arith;
    queue = λ q h. ground arith;
  }

  pub send_all-Keeps : (ops : List CrdtOperation) (m : M) → Keeps m (send_all wasm net ops m)
  unfolding send_all
  send_all-Keeps [] m = Keeps-refl m
  send_all-Keeps (op ∷ ops) m =
      Keeps-trans (send_operation-Keeps m.session op m refl)
        (send_all-Keeps ops (send_operation wasm net m.session op m))
