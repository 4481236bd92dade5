-- ===== src/Transport/Snapshots.antt =====
-- src/transport/p2pMeshTransport.ts, `sendSnapshot`: a snapshot goes to a peer in one message, or in
-- chunks.
pub mod Sending
pub mod Keys
use nettprogg_vsc.Common.{
  ℕ, String, Text, List, [], ◌∷◌, Bool, true, false, ◌&&◌, if◌then◌else◌, leb, map,
}
use nettprogg_vsc.Crdt.{TextCrdtSnapshot}
use nettprogg_vsc.Transport.Chunks.{snapshot_chunk_size, chunk_count, chunk_messages}
use nettprogg_vsc.Transport.DataMessages.{P2PDataMessage, snapshot, snapshot_chunk}
use nettprogg_vsc.Transport.Rtc.{Rtc}
use nettprogg_vsc.Transport.Mesh.{Peers, send_data_message}

module _ (rtc : Rtc) where
  -- The loop over the chunks, with what `sent` is so far
  pub send_chunks : String → List P2PDataMessage → Bool → Peers rtc → Bool × Peers rtc
  send_chunks id [] sent peers = (sent, peers)
  send_chunks id (message ∷ messages) sent peers =
      let r = send_data_message rtc id message peers in send_chunks id messages (r.0 && sent) r.1

  -- The messages that a large snapshot is cut into
  abbrev pub cut : String → String → Text → List P2PDataMessage
  cut client_id snapshot_id encoded = map (snapshot_chunk client_id) (
      chunk_messages snapshot_chunk_size encoded snapshot_id 0
        (chunk_count snapshot_chunk_size encoded))

  -- `sendSnapshot` of a client with the given id. `to_json` is `JSON.stringify`, and `base64` the
  -- encoding of a text's UTF-8 bytes.
  module _ (to_json : TextCrdtSnapshot → Text) (base64 : Text → Text) where
    pub send_snapshot : String → String → TextCrdtSnapshot → String → Peers rtc → Bool × Peers rtc
    unfolding send_chunks
    send_snapshot client_id id state snapshot_id peers =
        let snapshot_json = to_json state in
        if leb (rtc.byte_length snapshot_json) snapshot_chunk_size
        then send_data_message rtc id (snapshot client_id state) peers
        else send_chunks id (cut client_id snapshot_id (base64 snapshot_json)) true peers
