-- ===== src/Transport/Peer/Progress.antt =====
-- src/transport/p2pMeshTransport.ts: what waits on an open channel, and what is refused.
use nettprogg_vsc.Common.{
  List, [], ◌∷◌, ◌+◌, Bool, true, false, Option, none, some, ◌≡◌, refl, ◌⊎◌, inl, inr, arith,
  Bool-cases, ◌∙◌,
}
use nettprogg_vsc.Transport.Rtc.{Rtc}
use nettprogg_vsc.Transport.DataMessages.{P2PDataMessage}
use nettprogg_vsc.Transport.Peer.{
  MeshPeer, SendAttemptResult, sent, retry, failed, exceeds, is_ready, try_on, try_found,
  try_send_data_message, clear_peer_flush_timer, is_congested, flush_loop, after_attempt,
  flush_peer_queue, enqueue, send_open, send_to_peer, settle_send,
}

module _ (rtc : Rtc) where
  -- Nothing waits, or a flush is scheduled.
  abbrev pub Progresses : MeshPeer rtc → Type 0
  Progresses peer = (peer.queued_messages ≡ []) ⊎ (peer.flush_timer ≡ true)

  after_attempt-Progresses :
      (result : SendAttemptResult) (message : P2PDataMessage) (rest : List P2PDataMessage)
      (after go_on : MeshPeer rtc)
      → Progresses go_on
      → Progresses (after_attempt rtc result message rest after go_on)
  unfolding after_attempt
  after_attempt-Progresses retry message rest after go_on p = inr refl
  after_attempt-Progresses failed message rest after go_on p = p
  after_attempt-Progresses sent message rest after go_on p =
      elim (Bool-cases (is_congested rtc after)) [ inl e ↦ rw e (inr refl) | inr e ↦ rw e p ]

  flush_loop-Progresses :
      (messages : List P2PDataMessage) (peer : MeshPeer rtc)
      → Progresses (flush_loop rtc messages peer)
  unfolding flush_loop
  flush_loop-Progresses [] peer = inl refl
  flush_loop-Progresses (message ∷ rest) peer =
      let r = try_send_data_message rtc peer message in
      after_attempt-Progresses r.0 message rest r.1 (flush_loop rtc rest r.1)
        (flush_loop-Progresses rest r.1)

  flush_peer_queue-Progresses :
      (peer : MeshPeer rtc) → is_ready rtc peer ≡ true → Progresses (flush_peer_queue rtc peer)
  unfolding flush_peer_queue
  flush_peer_queue-Progresses peer ready =
      rw ready (flush_loop-Progresses peer.queued_messages (clear_peer_flush_timer rtc peer))

  settle_send-Progresses :
      (result : SendAttemptResult) (message : P2PDataMessage) (after : MeshPeer rtc)
      → after.queued_messages ≡ []
      → Progresses (settle_send rtc result message after).1
  unfolding settle_send
  settle_send-Progresses sent message after e = inl e
  settle_send-Progresses retry message after e = inr refl
  settle_send-Progresses failed message after e = inl e

  try_send_queue :
      (peer : MeshPeer rtc) (message : P2PDataMessage)
      → (try_send_data_message rtc peer message).1.queued_messages ≡ peer.queued_messages
  unfolding try_send_data_message try_found try_on
  try_send_queue peer message = ground arith

  send_open-Progresses :
      (queued : List P2PDataMessage) (peer : MeshPeer rtc) (message : P2PDataMessage)
      → peer.queued_messages ≡ queued
      → is_ready rtc peer ≡ true
      → Progresses (send_open rtc queued peer message).1
  unfolding send_open
  send_open-Progresses [] peer message e ready =
      let r = try_send_data_message rtc peer message in
      settle_send-Progresses r.0 message r.1 (try_send_queue peer message ∙ e)
  send_open-Progresses (first ∷ rest) peer message e ready =
      flush_peer_queue-Progresses (enqueue rtc peer message) ready

  -- After a message is sent to a peer whose channel is open, either nothing waits in the peer's
  -- queue or its next flush is scheduled.
  pub send_to_peer-Progresses :
      (peer : MeshPeer rtc) (message : P2PDataMessage)
      → is_ready rtc peer ≡ true
      → Progresses (send_to_peer rtc peer message).1
  unfolding send_to_peer
  send_to_peer-Progresses peer message ready =
      rw ready (send_open-Progresses peer.queued_messages peer message refl ready)

  abbrev pub IsRefused : MeshPeer rtc → P2PDataMessage → Bool × MeshPeer rtc → Type 0
  IsRefused peer message r =
      (channel : rtc.Channel) × (peer.data_channel ≡ some channel)
      × (exceeds rtc (rtc.max_message_size channel) message ≡ true)
      × (peer.queued_messages ≡ [])
      × (r.1 ≡ record peer { too_large = peer.too_large + 1 })

  settle_found_refusal :
      (peer : MeshPeer rtc) (channel : Option rtc.Channel) (message : P2PDataMessage)
      → peer.data_channel ≡ channel
      → peer.queued_messages ≡ []
      → let r = try_found rtc channel peer message in
        (settle_send rtc r.0 message r.1).0 ≡ false
        → IsRefused peer message (settle_send rtc r.0 message r.1)
  unfolding settle_send try_found try_on
  settle_found_refusal peer none message e q h = cc
  settle_found_refusal peer (some channel) message e q h =
      elim (Bool-cases (exceeds rtc (rtc.max_message_size channel) message)) [
        | inl large ↦ (channel, e, large, q, rw large)
        | inr small ↦ ground arith
      ]

  send_open_refusal :
      (queued : List P2PDataMessage) (peer : MeshPeer rtc) (message : P2PDataMessage)
      → peer.queued_messages ≡ queued
      → is_ready rtc peer ≡ true
      → (send_open rtc queued peer message).0 ≡ false
      → IsRefused peer message (send_open rtc queued peer message)
  unfolding send_open try_send_data_message
  send_open_refusal [] peer message e ready h = rw ready (
      settle_found_refusal peer peer.data_channel message refl e
        (rw (ready, send_open, try_send_data_message) at h))
  send_open_refusal (first ∷ rest) peer message e ready h = cc

  -- Sending is reported as failed only where the message is above the limit of the peer's channel;
  -- nothing waits in the queue then, and all that changes is that the error is reported once.
  pub send_to_peer_refusal :
      (peer : MeshPeer rtc) (message : P2PDataMessage)
      → (send_to_peer rtc peer message).0 ≡ false
      → IsRefused peer message (send_to_peer rtc peer message)
  unfolding send_to_peer
  send_to_peer_refusal peer message h = elim (Bool-cases (is_ready rtc peer)) [
    | inl ready ↦
        rw ready (send_open_refusal peer.queued_messages peer message refl ready (rw ready at h))
    | inr unready ↦ let bad : true ≡ false = rw unready at h in cc
  ]
