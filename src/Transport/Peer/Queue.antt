-- ===== src/Transport/Peer/Queue.antt =====
-- src/transport/p2pMeshTransport.ts: what a channel has taken and what waits for it.
use nettprogg_vsc.Common.{
  ℕ, List, [], ◌∷◌, ◌++◌, true, false, Option, none, some, Text, ◌≡◌, refl, inl, inr, map, filter,
  not, arith, Bool-cases, append_assoc, ◌∙◌, subst, sym,
}
use nettprogg_vsc.Common.Repeats.{Repeats, same, again, Repeats-trans}
use nettprogg_vsc.Transport.Rtc.{Rtc, TakesMessages}
use nettprogg_vsc.Transport.DataMessages.{P2PDataMessage}
use nettprogg_vsc.Transport.Peer.{
  MeshPeer, SendAttemptResult, sent, retry, failed, exceeds, is_ready, try_on, try_found,
  try_send_data_message, clear_peer_flush_timer, is_congested, flush_loop, flush_peer_queue,
  enqueue, send_open, send_to_peer, settle_send, after_attempt,
}

module _ (rtc : Rtc) (law : TakesMessages rtc) where
  open law use {history, history-sent, history-buffered, max_message_size-send}

  -- What is sent of some messages over a channel with a given limit: all but the too large ones.
  unfoldable pub payloads : ℕ → List P2PDataMessage → List Text
  payloads limit messages =
      map rtc.stringify (filter (λ message. not (exceeds rtc limit message)) messages)

  -- All that the other side gets, now or later: what the channel has taken, then what waits.
  unfoldable pub stream : Option rtc.Channel → List P2PDataMessage → List Text
  stream none messages = map rtc.stringify messages
  stream (some channel) messages =
      history channel ++ payloads (rtc.max_message_size channel) messages

  payloads_small :
      (limit : ℕ) (message : P2PDataMessage) (rest : List P2PDataMessage)
      → exceeds rtc limit message ≡ false
      → payloads limit (message ∷ rest) ≡ rtc.stringify message ∷ payloads limit rest
  unfolding payloads
  payloads_small limit message rest e = rw e

  payloads_large :
      (limit : ℕ) (message : P2PDataMessage) (rest : List P2PDataMessage)
      → exceeds rtc limit message ≡ true
      → payloads limit (message ∷ rest) ≡ payloads limit rest
  unfolding payloads
  payloads_large limit message rest e = rw e

  -- What is left of a queue by an attempt to send its first message.
  abbrev left : SendAttemptResult → P2PDataMessage → List P2PDataMessage → List P2PDataMessage
  left retry message rest = message ∷ rest
  left _ message rest = rest

  buffered-stream :
      (channel : rtc.Channel) (payload : Text) (rest : List Text)
      → (rtc.send_message channel payload).0 ≡ false
      → Repeats
          (history channel ++ payload ∷ rest)
          (history (rtc.send_message channel payload).1 ++ payload ∷ rest)
  buffered-stream channel payload rest e = elim (history-buffered channel payload e) [
    | inl taken ↦ rw (taken, append_assoc) (again (history channel) payload rest same)
    | inr left_out ↦ rw left_out same
  ]

  -- An attempt moves a message from the queue to the channel, drops a too large one, or leaves it
  -- in the queue, whether the channel has taken it or not.
  try_on-stream :
      (peer : MeshPeer rtc) (channel : rtc.Channel) (message : P2PDataMessage)
      (rest : List P2PDataMessage)
      → peer.data_channel ≡ some channel
      → let r = try_on rtc peer channel message in
        Repeats
          (stream (some channel) (message ∷ rest))
          (stream r.1.data_channel (left r.0 message rest))
  unfolding try_on stream
  try_on-stream peer channel message rest e =
      let limit : ℕ = rtc.max_message_size channel in
      let payload : Text = rtc.stringify message in
      elim (Bool-cases (exceeds rtc limit message)) [
        | inl large ↦ rw (large, e, payloads_large limit message rest large) same
        | inr small ↦ elim (Bool-cases (rtc.send_message channel payload).0) [
          | inl accepted ↦
              rw
                (
                  small,
                  accepted,
                  max_message_size-send channel payload,
                  history-sent channel payload accepted,
                  payloads_small limit message rest small,
                  append_assoc,
                )
                same
          | inr refused ↦
              rw
                (
                  small,
                  refused,
                  max_message_size-send channel payload,
                  payloads_small limit message rest small,
                )
                (buffered-stream channel payload (payloads limit rest) refused)
        ]
      ]

  try_found-stream :
      (peer : MeshPeer rtc) (channel : Option rtc.Channel) (message : P2PDataMessage)
      (rest : List P2PDataMessage)
      → peer.data_channel ≡ channel
      → let r = try_found rtc channel peer message in
        Repeats (stream channel (message ∷ rest)) (stream r.1.data_channel (left r.0 message rest))
  unfolding try_found
  try_found-stream peer none message rest e = rw e same
  try_found-stream peer (some channel) message rest e = try_on-stream peer channel message rest e

  try_send_stream :
      (peer : MeshPeer rtc) (message : P2PDataMessage) (rest : List P2PDataMessage)
      → let r = try_send_data_message rtc peer message in
        Repeats
          (stream peer.data_channel (message ∷ rest))
          (stream r.1.data_channel (left r.0 message rest))
  unfolding try_send_data_message
  try_send_stream peer message rest = elim (Bool-cases (is_ready rtc peer)) [
    | inl ready ↦ rw ready (try_found-stream peer peer.data_channel message rest refl)
    | inr unready ↦ rw unready same
  ]

  after_attempt-stream :
      (result : SendAttemptResult) (message : P2PDataMessage) (rest : List P2PDataMessage)
      (after go_on : MeshPeer rtc)
      → Repeats (stream after.data_channel rest) (stream go_on.data_channel go_on.queued_messages)
      → let done = after_attempt rtc result message rest after go_on in
        Repeats
          (stream after.data_channel (left result message rest))
          (stream done.data_channel done.queued_messages)
  unfolding after_attempt
  after_attempt-stream retry message rest after go_on ih = same
  after_attempt-stream failed message rest after go_on ih = ih
  after_attempt-stream sent message rest after go_on ih =
      elim (Bool-cases (is_congested rtc after)) [ inl e ↦ rw e same | inr e ↦ rw e ih ]

  flush_loop-stream :
      (messages : List P2PDataMessage) (peer : MeshPeer rtc)
      → let after = flush_loop rtc messages peer in
        Repeats
          (stream peer.data_channel messages)
          (stream after.data_channel after.queued_messages)
  unfolding flush_loop
  flush_loop-stream [] peer = same
  flush_loop-stream (message ∷ rest) peer =
      let r = try_send_data_message rtc peer message in
      Repeats-trans (try_send_stream peer message rest) (
        after_attempt-stream r.0 message rest r.1 (flush_loop rtc rest r.1)
          (flush_loop-stream rest r.1))

  flush_peer_queue-stream :
      (peer : MeshPeer rtc)
      → let after = flush_peer_queue rtc peer in
        Repeats
          (stream peer.data_channel peer.queued_messages)
          (stream after.data_channel after.queued_messages)
  unfolding flush_peer_queue
  flush_peer_queue-stream peer = elim (Bool-cases (is_ready rtc peer)) [
    | inl ready ↦
        rw ready (flush_loop-stream peer.queued_messages (clear_peer_flush_timer rtc peer))
    | inr unready ↦ rw unready same
  ]

  settle_send-stream :
      (result : SendAttemptResult) (message : P2PDataMessage) (after : MeshPeer rtc)
      → after.queued_messages ≡ []
      → let r = settle_send rtc result message after in
        Repeats
          (stream after.data_channel (left result message []))
          (stream r.1.data_channel r.1.queued_messages)
  unfolding settle_send
  settle_send-stream sent message after e = rw e same
  settle_send-stream retry message after e = rw e same
  settle_send-stream failed message after e = rw e same

  try_send_queue :
      (peer : MeshPeer rtc) (message : P2PDataMessage)
      → (try_send_data_message rtc peer message).1.queued_messages ≡ peer.queued_messages
  unfolding try_send_data_message try_found try_on
  try_send_queue peer message = ground arith

  send_open-stream :
      (queued : List P2PDataMessage) (peer : MeshPeer rtc) (message : P2PDataMessage)
      → peer.queued_messages ≡ queued
      → let r = send_open rtc queued peer message in
        Repeats
          (stream peer.data_channel (peer.queued_messages ++ message ∷ []))
          (stream r.1.data_channel r.1.queued_messages)
  unfolding send_open
  send_open-stream [] peer message e =
      let r = try_send_data_message rtc peer message in
      Repeats-trans
        (subst
          (λ queued.
            Repeats (stream peer.data_channel (queued ++ message ∷ []))
              (stream r.1.data_channel (left r.0 message [])))
          (sym e) (try_send_stream peer message []))
        (settle_send-stream r.0 message r.1 (try_send_queue peer message ∙ e))
  send_open-stream (first ∷ rest) peer message e =
      flush_peer_queue-stream (enqueue rtc peer message)

  pub send_to_peer-stream :
      (peer : MeshPeer rtc) (message : P2PDataMessage)
      → let r = send_to_peer rtc peer message in
        Repeats
          (stream peer.data_channel (peer.queued_messages ++ message ∷ []))
          (stream r.1.data_channel r.1.queued_messages)
  unfolding send_to_peer
  send_to_peer-stream peer message = elim (Bool-cases (is_ready rtc peer)) [
    | inl ready ↦ rw ready (send_open-stream peer.queued_messages peer message refl)
    | inr unready ↦ rw unready same
  ]
