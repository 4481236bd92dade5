-- ===== src/Transport/Peer.antt =====
-- src/transport/p2pMeshTransport.ts: one peer of the mesh and the queue of messages to it.
pub mod Queue
pub mod Progress
pub mod Buffering
pub mod Limit
pub mod Naming
use nettprogg_vsc.Common.{
  ℕ, String, List, [], ◌∷◌, ◌++◌, Bool, true, false, ◌&&◌, ◌+◌, Option, none, some, ltb, leb,
  if◌then◌else◌, Text,
}
use nettprogg_vsc.Transport.Rtc.{Rtc}
use nettprogg_vsc.Transport.DataMessages.{P2PDataMessage}

-- DATA_CHANNEL_BUFFER_HIGH_WATERMARK
abbrev pub buffer_high_watermark : ℕ
buffer_high_watermark = 262144

-- SendAttemptResult
pub data SendAttemptResult : Type 0 where
  sent retry failed : SendAttemptResult

-- RemoteCandidate
pub record RemoteCandidate : Type 0 where
  pub candidate : Text
  pub mid : String

module _ (rtc : Rtc) where
  open rtc use {Channel, Connection}

  -- MeshPeer. `flush_timer` says whether a flush is scheduled. `too_large` counts the calls of
  -- `onError` about messages above the channel's limit.
  pub record MeshPeer : Type 0 where
    pub client_id : String
    pub connected_at : ℕ
    pub peer_connection : Connection
    pub data_channel : Option Channel
    pub channel_open : Bool
    pub flush_timer : Bool
    pub queued_messages : List P2PDataMessage
    pub pending_candidates : List RemoteCandidate
    pub too_large : ℕ

  abbrev pub channel_is_open : Option rtc.Channel → Bool
  channel_is_open none = false
  channel_is_open (some channel) = rtc.is_open channel

  -- `peer.channelOpen && peer.dataChannel?.isOpen()`
  abbrev pub is_ready : MeshPeer → Bool
  is_ready peer = peer.channel_open && channel_is_open peer.data_channel

  -- `maxMessageSize > 0 && Buffer.byteLength(payload) > maxMessageSize`
  unfoldable pub exceeds : ℕ → P2PDataMessage → Bool
  exceeds limit message = ltb 0 limit && ltb limit (rtc.byte_length (rtc.stringify message))

  -- `trySendDataMessage` behind its first guard
  unfoldable pub try_on : MeshPeer → rtc.Channel → P2PDataMessage → SendAttemptResult × MeshPeer
  try_on peer channel message =
      if exceeds (rtc.max_message_size channel) message
      then (failed, record peer { too_large = peer.too_large + 1 })
      else (let (accepted, after) = rtc.send_message channel (rtc.stringify message) in
          (if accepted then sent else retry, record peer { data_channel = some after }))

  unfoldable pub try_found :
      Option Channel → MeshPeer → P2PDataMessage → SendAttemptResult × MeshPeer
  unfolding try_on
  try_found none peer message = (retry, peer)
  try_found (some channel) peer message = try_on peer channel message

  -- `trySendDataMessage`
  unfoldable pub try_send_data_message : MeshPeer → P2PDataMessage → SendAttemptResult × MeshPeer
  unfolding try_found
  try_send_data_message peer message =
      if is_ready peer then try_found peer.data_channel peer message else (retry, peer)

  -- `schedulePeerQueueFlush`
  abbrev pub schedule_peer_queue_flush : MeshPeer → MeshPeer
  schedule_peer_queue_flush peer = record peer { flush_timer = true }

  -- `clearPeerFlushTimer`
  abbrev pub clear_peer_flush_timer : MeshPeer → MeshPeer
  clear_peer_flush_timer peer = record peer { flush_timer = false }

  -- `(peer.dataChannel?.bufferedAmount() ?? 0) >= DATA_CHANNEL_BUFFER_HIGH_WATERMARK`
  abbrev pub is_congested : MeshPeer → Bool
  is_congested peer = elim peer.data_channel [
    | none ↦ false
    | some channel ↦ leb buffer_high_watermark (rtc.buffered_amount channel)
  ]

  -- The rest of a round of `flushPeerQueue`'s loop, after an attempt with the first message;
  -- `go_on` is what the next rounds give.
  pub after_attempt :
      SendAttemptResult → P2PDataMessage → List P2PDataMessage → MeshPeer → MeshPeer → MeshPeer
  after_attempt retry message rest after go_on =
      schedule_peer_queue_flush (record after { queued_messages = message ∷ rest })
  after_attempt failed message rest after go_on = go_on
  after_attempt sent message rest after go_on =
      if is_congested after
      then schedule_peer_queue_flush (record after { queued_messages = rest })
      else go_on

  -- The `while` loop of `flushPeerQueue` over the queued messages.
  pub flush_loop : List P2PDataMessage → MeshPeer → MeshPeer
  unfolding after_attempt
  flush_loop [] peer = record peer { queued_messages = [] }
  flush_loop (message ∷ rest) peer =
      let r = try_send_data_message peer message in
      after_attempt r.0 message rest r.1 (flush_loop rest r.1)

  -- `flushPeerQueue`
  pub flush_peer_queue : MeshPeer → MeshPeer
  unfolding flush_loop
  flush_peer_queue peer =
      let peer' = clear_peer_flush_timer peer in
      if is_ready peer' then flush_loop peer'.queued_messages peer' else peer'

  abbrev pub enqueue : MeshPeer → P2PDataMessage → MeshPeer
  enqueue peer message = record peer { queued_messages = peer.queued_messages ++ message ∷ [] }

  -- The end of `sendDataMessage`, after the attempt.
  unfoldable pub settle_send : SendAttemptResult → P2PDataMessage → MeshPeer → Bool × MeshPeer
  settle_send sent message after = (true, after)
  settle_send retry message after = (true, schedule_peer_queue_flush (enqueue after message))
  settle_send failed message after = (false, after)

  -- `sendDataMessage` to a peer whose channel is open, by its queue
  unfoldable pub send_open : List P2PDataMessage → MeshPeer → P2PDataMessage → Bool × MeshPeer
  unfolding settle_send
  send_open [] peer message =
      let r = try_send_data_message peer message in settle_send r.0 message r.1
  send_open (first ∷ rest) peer message = (true, flush_peer_queue (enqueue peer message))

  -- `sendDataMessage` to a peer that was found
  unfoldable pub send_to_peer : MeshPeer → P2PDataMessage → Bool × MeshPeer
  unfolding send_open
  send_to_peer peer message =
      if is_ready peer
      then send_open peer.queued_messages peer message
      else (true, enqueue peer message)
