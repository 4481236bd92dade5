-- ===== src/Extension/Session/Flushing.antt =====
-- src/extension/sessionManager.ts, `flushOfflineQueue` over src/transport/relayTransport.ts.
use nettprogg_vsc.Common.{
  List, [], ◌∷◌, ◌++◌, true, false, none, some, ◌≡◌, refl, sym, ap, ◌∙◌, append_assoc, append-nil,
  subst, Bool, not, ◌&&◌, branches,
}
use nettprogg_vsc.Crdt.{CrdtOperation}
use nettprogg_vsc.Crdt.Replica.{WasmModule}
use nettprogg_vsc.Transport.Interface.{relay}
use nettprogg_vsc.Transport.Relay
use nettprogg_vsc.Transport.Sockets.{SocketLibrary, IsOrdered}
use nettprogg_vsc.Transport.Relay.{RelayTransport, relay_transport, ClientMessage}
use nettprogg_vsc.Transport.Relay.Delivery.{
  accepted_on, send_operation-accepted, IsOpenOn, send_operation-IsOpenOn,
}
use nettprogg_vsc.Extension.Session.{
  SessionConfig, Manager, is_relay, transport_send, send_in, send_operation, send_all,
  flush_offline_queue,
}

not_refused : (a b : Bool) → a ≡ true → (not a && b) ≡ true → ⊥
not_refused true b e h = cc
not_refused false b e h = cc

module _ (wasm : WasmModule) (ws : SocketLibrary ClientMessage) (law : IsOrdered ws) where
  abbrev M : Type 0
  M = Manager wasm (relay_transport ws)

  -- The state during a flush: a session, a transport on an open socket, and what has been sent on it.
  pub record Flowing (m : M) (s : SessionConfig) (queue sent : List CrdtOperation) : Type 0 where
    pub in_session : m.session ≡ some s
    pub transport : RelayTransport ws
    pub has_transport : m.transport ≡ some transport
    pub opened : IsOpenOn ws law transport.socket
    pub queued : m.offline_queue ≡ queue
    pub on_socket : accepted_on ws law transport.socket ≡ sent

  send_in-Flowing :
      (m : M) (s : SessionConfig) (op : CrdtOperation) (queue sent : List CrdtOperation)
      → Flowing m s queue sent
      → Flowing (send_in wasm (relay_transport ws) s op m) s queue (sent ++ op ∷ [])
  unfolding send_in
  send_in-Flowing m s op queue sent f =
      let q = Relay.send_operation ws op f.transport in
      let (taken, still) = send_operation-IsOpenOn ws law f.transport op f.opened in
      let r = transport_send wasm (relay_transport ws) m.transport op none in
      let same : r ≡ (q.0, some q.1) =
        ap (λ t. transport_send wasm (relay_transport ws) t op none) f.has_transport in
      let now_sent : accepted_on ws law q.1.socket ≡ sent ++ op ∷ [] =
        rw (taken, f.on_socket) at (send_operation-accepted ws law f.transport op) in
      branches (λ m'. Flowing m' s queue (sent ++ op ∷ [])) (not r.0 && is_relay s.transport_mode)
        (λ refused. absurd (not_refused r.0 _ (ap (λ p. p.0) same ∙ taken) refused))
        (λ _. record {
          in_session = f.in_session;
          transport = q.1;
          has_transport = ap (λ p. p.1) same;
          opened = still;
          queued = f.queued;
          on_socket = now_sent;
        })

  send_all-Flowing :
      (ops : List CrdtOperation) (m : M) (s : SessionConfig) (queue sent : List CrdtOperation)
      → Flowing m s queue sent
      → Flowing (send_all wasm (relay_transport ws) ops m) s queue (sent ++ ops)
  unfolding send_all send_operation
  send_all-Flowing [] m s queue sent f = rw append-nil f
  send_all-Flowing (op ∷ ops) m s queue sent f =
      let m' = send_operation wasm (relay_transport ws) m.session op m in
      let first : Flowing m' s queue (sent ++ op ∷ []) =
        subst
          (λ o. Flowing (send_operation wasm (relay_transport ws) o op m) s queue (sent ++ op ∷ []))
          (sym f.in_session) (send_in-Flowing m s op queue sent f) in
      subst (λ all. Flowing (send_all wasm (relay_transport ws) ops m') s queue all)
        (append_assoc sent (op ∷ []) ops) (send_all-Flowing ops m' s queue (sent ++ op ∷ []) first)

  -- The queue of `m'` is empty, and `sent` is what its transport has sent.
  abbrev pub HasSent : M → List CrdtOperation → Type 0
  HasSent m' sent =
      (m'.offline_queue ≡ [])
      × ((t : RelayTransport ws) × (m'.transport ≡ some t) × (accepted_on ws law t.socket ≡ sent))

  -- In a relay session over a transport whose socket is open, a flush puts the operations of the
  -- offline queue on the socket, all of them, once each and in order, behind those sent before,
  -- and leaves the queue empty.
  pub flush_offline_queue-delivers :
      (m : M) (s : SessionConfig) (t : RelayTransport ws)
      → m.session ≡ some s
      → s.transport_mode ≡ relay
      → m.transport ≡ some t
      → IsOpenOn ws law t.socket
      → HasSent
          (flush_offline_queue wasm (relay_transport ws) m.session m)
          (accepted_on ws law t.socket ++ m.offline_queue)
  unfolding flush_offline_queue
  flush_offline_queue-delivers m s t in_session mode has_transport opened =
      let m0 : M = record m { offline_queue = [] } in
      let start : Flowing m0 s [] (accepted_on ws law t.socket) = record {
        in_session = in_session;
        transport = t;
        has_transport = has_transport;
        opened = opened;
        queued = refl;
        on_socket = refl;
      } in
      let done = send_all-Flowing m.offline_queue m0 s [] (accepted_on ws law t.socket) start in
      let run : flush_offline_queue wasm (relay_transport ws) m.session m
          ≡ send_all wasm (relay_transport ws) m.offline_queue m0 =
        ap (λ o. flush_offline_queue wasm (relay_transport ws) o m) in_session
        ∙ rw (mode, flush_offline_queue) in
      subst (λ m'. HasSent m' (accepted_on ws law t.socket ++ m.offline_queue)) (sym run)
        (done.queued, (done.transport, done.has_transport, done.on_socket))
