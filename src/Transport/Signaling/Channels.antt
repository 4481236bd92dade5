-- ===== src/Transport/Signaling/Channels.antt =====
-- src/transport/p2pMeshTransport.ts: `handleDataMessage`, and the other events of a peer's channel
-- and connection.
pub mod Sources
use nettprogg_vsc.Common.{
  ℕ, String, Text, ◌++◌, Bool, true, false, not, ◌||◌, Option, none, some, if◌then◌else◌, str_eq,
  str_append, List, [], ◌∷◌,
}
use nettprogg_vsc.Crdt.{TextCrdtSnapshot}
use nettprogg_vsc.Transport.Chunks.{SnapshotChunk, handle_snapshot_chunk}
use nettprogg_vsc.Transport.DataMessages.{
  P2PDataMessage, hello, operation, snapshot_request, snapshot, snapshot_chunk,
}
use nettprogg_vsc.Transport.Interface.{on_operation, on_snapshot_request, on_snapshot, on_error}
use nettprogg_vsc.Transport.Peer.{clear_peer_flush_timer, flush_peer_queue}
use nettprogg_vsc.Transport.Rtc.{Rtc}
use nettprogg_vsc.Transport.Sockets.{SocketLibrary}
use nettprogg_vsc.Transport.Signaling.{SignalingClientMessage, report}
use nettprogg_vsc.Transport.Signaling.Opening.{Transport, change_peer}

-- What a channel's message event gets: `JSON.parse` throws an error with a text, or its value is one
-- that `isP2PDataMessage` refuses, or a message.
pub data Inbound : Type 0 where
  unparsed : String → Inbound
  invalid : Inbound
  valid : P2PDataMessage → Inbound

-- `Invalid P2P data message from ${peerId}.`
abbrev invalid_text : String → String
invalid_text id = str_append "Invalid P2P data message from " (str_append id ".")

-- `P2P identity mismatch: expected ${peerId}, got ${parsed.clientId}.`
abbrev mismatch_text : String → String → String
mismatch_text expected got =
    str_append "P2P identity mismatch: expected "
      (str_append expected (str_append ", got " (str_append got ".")))

-- `P2P peer ${peer.clientId}: ${error}`
abbrev channel_error_text : String → String → String
channel_error_text id text = str_append "P2P peer " (str_append id (str_append ": " text))

-- The texts of errors: of that which `decode` throws, and of that, if any, with which the session's
-- `onSnapshot` rejects a snapshot.
pub record Errors : Type 0 where
  pub undecodable : String
  pub refusal : TextCrdtSnapshot → Option String

-- `decode` is `JSON.parse` of the text that base64 encodes.
module _ (rtc : Rtc) (ws : SocketLibrary SignalingClientMessage)
    (decode : Text → Option TextCrdtSnapshot) (errors : Errors) where
  -- The `catch` after the session's handler
  abbrev report_refusal : Option String → Transport rtc ws → Transport rtc ws
  report_refusal none t = t
  report_refusal (some text) t = report rtc ws (on_error text) t

  -- The `try` block of `handleSnapshotChunk`, from the parsing on
  abbrev report_snapshot : Option TextCrdtSnapshot → String → Transport rtc ws → Transport rtc ws
  report_snapshot none id t = report rtc ws (on_error errors.undecodable) t
  report_snapshot (some state) id t =
      report_refusal (errors.refusal state)
        (report rtc ws (on_snapshot (record { snapshot = state; source_client_id = some id })) t)

  abbrev report_complete : Option Text → String → Transport rtc ws → Transport rtc ws
  report_complete none id t = t
  report_complete (some encoded) id t = report_snapshot (decode encoded) id t

  -- `handleSnapshotChunk`
  pub take_chunk : ℕ → String → SnapshotChunk → Transport rtc ws → Transport rtc ws
  take_chunk now id chunk t =
      let r = handle_snapshot_chunk now id chunk t.snapshot_chunks in
      report_complete r.1 id (record t { snapshot_chunks = r.0 })

  -- `handleDataMessage`, of the channel to the peer with the id, behind its guards
  pub handle_message : ℕ → String → P2PDataMessage → Transport rtc ws → Transport rtc ws
  unfolding take_chunk
  handle_message now id (hello client_id) t =
      if not (str_eq client_id id)
      then report rtc ws (on_error (mismatch_text id client_id)) t
      else t
  handle_message now id (operation client_id op) t =
      report rtc ws (on_operation (record { op = op; source_client_id = some id })) t
  handle_message now id (snapshot_request client_id) t = report rtc ws (on_snapshot_request id) t
  handle_message now id (snapshot client_id state) t =
      report rtc ws (on_snapshot (record { snapshot = state; source_client_id = some id })) t
  handle_message now id (snapshot_chunk client_id chunk) t = take_chunk now id chunk t

  -- `handleDataMessage`
  pub handle_data_message : ℕ → String → Inbound → Transport rtc ws → Transport rtc ws
  unfolding handle_message
  handle_data_message now id (unparsed text) t = report rtc ws (on_error text) t
  handle_data_message now id invalid t = report rtc ws (on_error (invalid_text id)) t
  handle_data_message now id (valid message) t = handle_message now id message t

module _ (rtc : Rtc) (ws : SocketLibrary SignalingClientMessage) where
  -- The channel's event `closed`
  unfoldable pub channel_closed : String → Transport rtc ws → Transport rtc ws
  unfolding change_peer
  channel_closed id t =
      change_peer rtc ws id
        (λ peer. clear_peer_flush_timer rtc (record peer { channel_open = false })) t

  -- The channel's event `error`
  unfoldable pub channel_error : String → String → Transport rtc ws → Transport rtc ws
  channel_error id text t = report rtc ws (on_error (channel_error_text id text)) t

  -- The channel's event `bufferedAmountLow`, and the timer's callback
  unfoldable pub flush_peer : String → Transport rtc ws → Transport rtc ws
  unfolding change_peer
  flush_peer id t = change_peer rtc ws id (flush_peer_queue rtc) t

  -- The connection's event `stateChange`
  unfoldable pub state_change : String → String → Transport rtc ws → Transport rtc ws
  unfolding change_peer
  state_change id state t =
      if str_eq state "closed" || str_eq state "failed"
      then change_peer rtc ws id (λ peer. record peer { channel_open = false }) t
      else t
