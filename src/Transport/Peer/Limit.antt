-- ===== src/Transport/Peer/Limit.antt =====
-- src/transport/p2pMeshTransport.ts: the size limit of a peer's channel, and several messages.
use nettprogg_vsc.Common.{
  ℕ, Text, List, [], ◌∷◌, ◌++◌, Bool, Option, none, some, ◌≡◌, refl, sym, ap, ◌∙◌, branches, map,
  append_assoc, append-nil, map-append, Bool-cases, inl, inr,
}
use nettprogg_vsc.Common.Repeats.{Repeats, Repeats-eq, Repeats-trans, Repeats-append}
use nettprogg_vsc.Transport.Rtc.{Rtc, TakesMessages}
use nettprogg_vsc.Transport.DataMessages.{P2PDataMessage}
use nettprogg_vsc.Transport.Peer.{
  MeshPeer, SendAttemptResult, sent, retry, failed, exceeds, is_ready, try_on, try_found,
  try_send_data_message, clear_peer_flush_timer, is_congested, flush_loop, after_attempt,
  flush_peer_queue, enqueue, send_open, send_to_peer, settle_send,
}
use nettprogg_vsc.Transport.Peer.Queue.{stream, payloads, send_to_peer-stream}

module _ (rtc : Rtc) (law : TakesMessages rtc) where
  abbrev limit_of : Option rtc.Channel → Option ℕ
  limit_of none = none
  limit_of (some channel) = some (rtc.max_message_size channel)

  -- The second peer's channel has the limit of the first's.
  abbrev SameLimit : MeshPeer rtc → MeshPeer rtc → Type 0
  SameLimit peer after = limit_of after.data_channel ≡ limit_of peer.data_channel

  try_on-SameLimit :
      (peer : MeshPeer rtc) (channel : rtc.Channel) (message : P2PDataMessage)
      → peer.data_channel ≡ some channel
      → SameLimit peer (try_on rtc peer channel message).1
  unfolding try_on
  try_on-SameLimit peer channel message e =
      branches (λ (r : SendAttemptResult × MeshPeer rtc). SameLimit peer r.1)
        (exceeds rtc (rtc.max_message_size channel) message) (λ _. refl)
        (λ _.
          ap some (law.max_message_size-send channel (rtc.stringify message)) ∙ sym (ap limit_of e))

  try_found-SameLimit :
      (o : Option rtc.Channel) (peer : MeshPeer rtc) (message : P2PDataMessage)
      → peer.data_channel ≡ o
      → SameLimit peer (try_found rtc o peer message).1
  unfolding try_found
  try_found-SameLimit none peer message e = refl
  try_found-SameLimit (some channel) peer message e = try_on-SameLimit peer channel message e

  try_send-SameLimit :
      (peer : MeshPeer rtc) (message : P2PDataMessage)
      → SameLimit peer (try_send_data_message rtc peer message).1
  unfolding try_send_data_message
  try_send-SameLimit peer message =
      branches (λ (r : SendAttemptResult × MeshPeer rtc). SameLimit peer r.1) (is_ready rtc peer)
        (λ _. try_found-SameLimit peer.data_channel peer message refl) (λ _. refl)

  after_attempt-SameLimit :
      (result : SendAttemptResult) (message : P2PDataMessage) (rest : List P2PDataMessage)
      (after go_on : MeshPeer rtc)
      → SameLimit after go_on
      → SameLimit after (after_attempt rtc result message rest after go_on)
  unfolding after_attempt
  after_attempt-SameLimit retry message rest after go_on h = refl
  after_attempt-SameLimit failed message rest after go_on h = h
  after_attempt-SameLimit sent message rest after go_on h =
      branches (SameLimit after) (is_congested rtc after) (λ _. refl) (λ _. h)

  flush_loop-SameLimit :
      (messages : List P2PDataMessage) (peer : MeshPeer rtc)
      → SameLimit peer (flush_loop rtc messages peer)
  unfolding flush_loop
  flush_loop-SameLimit [] peer = refl
  flush_loop-SameLimit (message ∷ rest) peer =
      let r = try_send_data_message rtc peer message in
      after_attempt-SameLimit r.0 message rest r.1 (flush_loop rtc rest r.1)
        (flush_loop-SameLimit rest r.1)
      ∙ try_send-SameLimit peer message

  flush_peer_queue-SameLimit : (peer : MeshPeer rtc) → SameLimit peer (flush_peer_queue rtc peer)
  unfolding flush_peer_queue
  flush_peer_queue-SameLimit peer =
      branches (SameLimit peer) (is_ready rtc peer)
        (λ _. flush_loop-SameLimit peer.queued_messages (clear_peer_flush_timer rtc peer))
        (λ _. refl)

  settle_send-SameLimit :
      (result : SendAttemptResult) (message : P2PDataMessage) (after : MeshPeer rtc)
      → SameLimit after (settle_send rtc result message after).1
  unfolding settle_send
  settle_send-SameLimit sent message after = refl
  settle_send-SameLimit retry message after = refl
  settle_send-SameLimit failed message after = refl

  send_open-SameLimit :
      (queued : List P2PDataMessage) (peer : MeshPeer rtc) (message : P2PDataMessage)
      → SameLimit peer (send_open rtc queued peer message).1
  unfolding send_open
  send_open-SameLimit [] peer message =
      let r = try_send_data_message rtc peer message in
      settle_send-SameLimit r.0 message r.1 ∙ try_send-SameLimit peer message
  send_open-SameLimit (first ∷ rest) peer message =
      flush_peer_queue-SameLimit (enqueue rtc peer message)

  send_to_peer-SameLimit :
      (peer : MeshPeer rtc) (message : P2PDataMessage)
      → SameLimit peer (send_to_peer rtc peer message).1
  unfolding send_to_peer
  send_to_peer-SameLimit peer message =
      branches (λ (r : Bool × MeshPeer rtc). SameLimit peer r.1) (is_ready rtc peer)
        (λ _. send_open-SameLimit peer.queued_messages peer message) (λ _. refl)

  -- What further messages add to a stream
  abbrev added : Option ℕ → List P2PDataMessage → List Text
  added none messages = map rtc.stringify messages
  added (some limit) messages = payloads rtc law limit messages

  payloads-append :
      (limit : ℕ) (xs ys : List P2PDataMessage)
      → payloads rtc law limit (xs ++ ys) ≡ payloads rtc law limit xs ++ payloads rtc law limit ys
  unfolding payloads
  payloads-append limit [] ys = refl
  payloads-append limit (x ∷ xs) ys = elim (Bool-cases (exceeds rtc limit x)) [
    | inl large ↦ rw large (payloads-append limit xs ys)
    | inr small ↦ rw small (ap (λ rest. rtc.stringify x ∷ rest) (payloads-append limit xs ys))
  ]

  stream-append :
      (o : Option rtc.Channel) (xs ys : List P2PDataMessage)
      → stream rtc law o (xs ++ ys) ≡ stream rtc law o xs ++ added (limit_of o) ys
  unfolding stream
  stream-append none xs ys = map-append rtc.stringify xs ys
  stream-append (some channel) xs ys =
      ap (λ rest. law.history channel ++ rest)
        (payloads-append (rtc.max_message_size channel) xs ys)
      ∙ sym (append_assoc (law.history channel) _ _)

  -- Several messages to one peer, one after the other
  unfoldable pub send_each : List P2PDataMessage → MeshPeer rtc → MeshPeer rtc
  send_each [] peer = peer
  send_each (message ∷ messages) peer = send_each messages (send_to_peer rtc peer message).1

  pub send_each-stream :
      (messages : List P2PDataMessage) (peer : MeshPeer rtc)
      → let peer' = send_each messages peer in
        Repeats
          (stream rtc law peer.data_channel (peer.queued_messages ++ messages))
          (stream rtc law peer'.data_channel peer'.queued_messages)
  unfolding send_each
  send_each-stream [] peer =
      Repeats-eq (ap (stream rtc law peer.data_channel) (append-nil peer.queued_messages))
  send_each-stream (message ∷ messages) peer =
      let next = (send_to_peer rtc peer message).1 in
      let queue = peer.queued_messages ++ message ∷ [] in
      let split_ : stream rtc law peer.data_channel (peer.queued_messages ++ message ∷ messages)
          ≡ stream rtc law peer.data_channel queue ++ added (limit_of next.data_channel) messages =
        ap (stream rtc law peer.data_channel)
          (sym (append_assoc peer.queued_messages (message ∷ []) messages))
        ∙ (stream-append peer.data_channel queue messages
            ∙ ap (λ o. stream rtc law peer.data_channel queue ++ added o messages)
                (sym (send_to_peer-SameLimit peer message))) in
      let first : Repeats
          (stream rtc law peer.data_channel queue ++ added (limit_of next.data_channel) messages)
          (stream rtc law next.data_channel (next.queued_messages ++ messages)) =
        Repeats-trans
          (Repeats-append (added (limit_of next.data_channel) messages)
            (send_to_peer-stream rtc law peer message))
          (Repeats-eq (sym (stream-append next.data_channel next.queued_messages messages))) in
      Repeats-trans (Repeats-eq split_) (Repeats-trans first (send_each-stream messages next))
