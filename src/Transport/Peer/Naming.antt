-- ===== src/Transport/Peer/Naming.antt =====
-- src/transport/p2pMeshTransport.ts: a peer keeps its name while messages are sent to it.
use nettprogg_vsc.Common.{
  List, [], ◌∷◌, Bool-cases, Option, none, some, ◌≡◌, refl, ◌∙◌, inl, inr, String,
}
use nettprogg_vsc.Transport.Rtc.{Rtc}
use nettprogg_vsc.Transport.DataMessages.{P2PDataMessage}
use nettprogg_vsc.Transport.Peer.{
  MeshPeer, SendAttemptResult, sent, retry, failed, send_to_peer, send_open, settle_send,
  try_send_data_message, try_found, try_on, flush_peer_queue, flush_loop, after_attempt, is_ready,
  exceeds, is_congested, enqueue, clear_peer_flush_timer,
}

module _ (rtc : Rtc) where
  try_found-client_id :
      (o : Option rtc.Channel) (peer : MeshPeer rtc) (message : P2PDataMessage)
      → (try_found rtc o peer message).1.client_id ≡ peer.client_id
  unfolding try_found try_on
  try_found-client_id none peer message = refl
  try_found-client_id (some channel) peer message =
      elim (Bool-cases (exceeds rtc (rtc.max_message_size channel) message)) [
        | inl e ↦ rw e
        | inr e ↦ rw e
      ]

  try-client_id :
      (peer : MeshPeer rtc) (message : P2PDataMessage)
      → (try_send_data_message rtc peer message).1.client_id ≡ peer.client_id
  unfolding try_send_data_message
  try-client_id peer message = elim (Bool-cases (is_ready rtc peer)) [
    | inl e ↦ rw e (try_found-client_id peer.data_channel peer message)
    | inr e ↦ rw e
  ]

  after_attempt-client_id :
      (r : SendAttemptResult) (message : P2PDataMessage) (rest : List P2PDataMessage)
      (after go_on : MeshPeer rtc) (name : String)
      → after.client_id ≡ name
      → go_on.client_id ≡ name
      → (after_attempt rtc r message rest after go_on).client_id ≡ name
  unfolding after_attempt
  after_attempt-client_id retry message rest after go_on name e f = e
  after_attempt-client_id failed message rest after go_on name e f = f
  after_attempt-client_id sent message rest after go_on name e f =
      elim (Bool-cases (is_congested rtc after)) [ inl c ↦ rw c e | inr c ↦ rw c f ]

  flush_loop-client_id :
      (messages : List P2PDataMessage) (peer : MeshPeer rtc)
      → (flush_loop rtc messages peer).client_id ≡ peer.client_id
  unfolding flush_loop
  flush_loop-client_id [] peer = refl
  flush_loop-client_id (message ∷ rest) peer =
      let r = try_send_data_message rtc peer message in
      after_attempt-client_id r.0 message rest r.1 (flush_loop rtc rest r.1) peer.client_id
        (try-client_id peer message) (flush_loop-client_id rest r.1 ∙ try-client_id peer message)

  pub flush_peer_queue-client_id :
      (peer : MeshPeer rtc) → (flush_peer_queue rtc peer).client_id ≡ peer.client_id
  unfolding flush_peer_queue
  flush_peer_queue-client_id peer =
      let peer' = clear_peer_flush_timer rtc peer in
      elim (Bool-cases (is_ready rtc peer')) [
        | inl e ↦ rw e (flush_loop-client_id peer'.queued_messages peer')
        | inr e ↦ rw e
      ]

  settle_send-client_id :
      (r : SendAttemptResult) (message : P2PDataMessage) (after : MeshPeer rtc)
      → (settle_send rtc r message after).1.client_id ≡ after.client_id
  unfolding settle_send
  settle_send-client_id sent message after = refl
  settle_send-client_id retry message after = refl
  settle_send-client_id failed message after = refl

  send_open-client_id :
      (queue : List P2PDataMessage) (peer : MeshPeer rtc) (message : P2PDataMessage)
      → (send_open rtc queue peer message).1.client_id ≡ peer.client_id
  unfolding send_open
  send_open-client_id [] peer message =
      let r = try_send_data_message rtc peer message in
      settle_send-client_id r.0 message r.1 ∙ try-client_id peer message
  send_open-client_id (first ∷ rest) peer message =
      flush_peer_queue-client_id (enqueue rtc peer message)

  pub send_to_peer-client_id :
      (peer : MeshPeer rtc) (message : P2PDataMessage)
      → (send_to_peer rtc peer message).1.client_id ≡ peer.client_id
  unfolding send_to_peer
  send_to_peer-client_id peer message = elim (Bool-cases (is_ready rtc peer)) [
    | inl e ↦ rw e (send_open-client_id peer.queued_messages peer message)
    | inr e ↦ rw e
  ]
