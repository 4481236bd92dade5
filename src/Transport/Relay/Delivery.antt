-- ===== src/Transport/Relay/Delivery.antt =====
-- src/transport/relayTransport.ts: what is put on the socket.
use nettprogg_vsc.Common.{
  List, [], ◌∷◌, ◌++◌, true, Option, none, some, ◌≡◌, refl, ap, ◌∙◌, cond, Bool-cases, inl, inr,
}
use nettprogg_vsc.Crdt.{CrdtOperation}
use nettprogg_vsc.Transport.Interface.{Accepts}
use nettprogg_vsc.Transport.Sockets.{SocketLibrary, IsOrdered}
use nettprogg_vsc.Transport.Relay.{
  ClientMessage, join, RelayTransport, send_on, send_raw, send_operation, relay_transport,
}

-- The operations among some messages
unfoldable pub operations_of : List ClientMessage → List CrdtOperation
operations_of [] = []
operations_of (join room_id client_id ∷ messages) = operations_of messages
operations_of (ClientMessage.operation room_id client_id op ∷ messages) =
    op ∷ operations_of messages

operations_of-append :
    (messages : List ClientMessage) (m : ClientMessage)
    → operations_of (messages ++ m ∷ []) ≡ operations_of messages ++ operations_of (m ∷ [])
unfolding operations_of
operations_of-append [] m = refl
operations_of-append (join room_id client_id ∷ messages) m = operations_of-append messages m
operations_of-append (ClientMessage.operation room_id client_id op ∷ messages) m =
    ap (λ ops. op ∷ ops) (operations_of-append messages m)

module _ (ws : SocketLibrary ClientMessage) (law : IsOrdered ws) where
  open law use {sent, sent-send, is_open-send}

  -- The operations that a transport has sent on its socket
  unfoldable pub accepted_on : Option ws.Socket → List CrdtOperation
  accepted_on none = []
  accepted_on (some socket) = operations_of (sent socket)

  send_on-accepted :
      (socket : Option ws.Socket) (message : ClientMessage) (t : RelayTransport ws)
      → t.socket ≡ socket
      → let r = send_on ws socket message t in
        accepted_on r.1.socket
        ≡ cond r.0 (accepted_on t.socket ++ operations_of (message ∷ [])) (accepted_on t.socket)
  unfolding accepted_on
  send_on-accepted none message t e = refl
  send_on-accepted (some socket) message t e = elim (Bool-cases (ws.is_open socket)) [
    | inl opened ↦
        let sent_on =
          ap operations_of (sent-send socket message opened)
          ∙ operations_of-append (sent socket) message in
        let before : accepted_on t.socket ≡ operations_of (sent socket) = ap accepted_on e in
        rw (opened, before) sent_on
    | inr closed ↦ rw closed
  ]

  -- The relay transport accepts an operation, and says so, exactly when it puts it on its socket
  -- behind those from before; otherwise nothing is sent.
  pub send_operation-accepted :
      (t : RelayTransport ws) (op : CrdtOperation)
      → let r = send_operation ws op t in
        accepted_on r.1.socket ≡ cond r.0 (accepted_on t.socket ++ op ∷ []) (accepted_on t.socket)
  unfolding send_operation send_raw operations_of
  send_operation-accepted t op =
      send_on-accepted t.socket (ClientMessage.operation t.room_id t.client_id op) t refl

  -- A transport with an open socket
  abbrev pub IsOpenOn : Option ws.Socket → Type 0
  IsOpenOn none = ⊥
  IsOpenOn (some socket) = ws.is_open socket ≡ true

  send_on-IsOpenOn :
      (socket : Option ws.Socket) (message : ClientMessage) (t : RelayTransport ws)
      → IsOpenOn socket
      → let r = send_on ws socket message t in (r.0 ≡ true) × IsOpenOn r.1.socket
  send_on-IsOpenOn none message t h = elim h [ ]
  send_on-IsOpenOn (some socket) message t h = rw h (refl, is_open-send socket message h)

  pub send_operation-IsOpenOn :
      (t : RelayTransport ws) (op : CrdtOperation)
      → IsOpenOn t.socket
      → let r = send_operation ws op t in (r.0 ≡ true) × IsOpenOn r.1.socket
  unfolding send_operation send_raw
  send_operation-IsOpenOn t op h =
      send_on-IsOpenOn t.socket (ClientMessage.operation t.room_id t.client_id op) t h

  abbrev pub relay_transport-Accepts : Accepts (relay_transport ws)
  relay_transport-Accepts = record {
    accepted = λ t. accepted_on t.socket;
    accepted-send = λ t op except. send_operation-accepted t op;
  }
