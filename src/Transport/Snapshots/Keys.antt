-- ===== src/Transport/Snapshots/Keys.antt =====
-- src/transport/p2pMeshTransport.ts, `sendSnapshot`: the map of peers stays keyed by their names.
use nettprogg_vsc.Common.{String, Text, List, [], ◌∷◌, Bool, true, ◌&&◌, leb, Bool-cases, inl, inr}
use nettprogg_vsc.Crdt.{TextCrdtSnapshot}
use nettprogg_vsc.Transport.Chunks.{snapshot_chunk_size}
use nettprogg_vsc.Transport.DataMessages.{P2PDataMessage, snapshot}
use nettprogg_vsc.Transport.Rtc.{Rtc}
use nettprogg_vsc.Transport.Mesh.{Peers, send_data_message}
use nettprogg_vsc.Transport.Mesh.Keys.{IsKeyed, send_data_message-IsKeyed}
use nettprogg_vsc.Transport.Snapshots.{send_chunks, cut, send_snapshot}

module _ (rtc : Rtc) where
  send_chunks-IsKeyed :
      (id : String) (messages : List P2PDataMessage) (sent : Bool) (peers : Peers rtc)
      → IsKeyed rtc peers
      → IsKeyed rtc (send_chunks rtc id messages sent peers).1
  unfolding send_chunks
  send_chunks-IsKeyed id [] sent peers h = h
  send_chunks-IsKeyed id (message ∷ messages) sent peers h =
      let r = send_data_message rtc id message peers in
      send_chunks-IsKeyed id messages (r.0 && sent) r.1
        (send_data_message-IsKeyed rtc id message peers h)

  pub send_snapshot-IsKeyed :
      (to_json : TextCrdtSnapshot → Text) (base64 : Text → Text) (client_id id snapshot_id : String)
      (state : TextCrdtSnapshot) (peers : Peers rtc)
      → IsKeyed rtc peers
      → IsKeyed rtc (send_snapshot rtc to_json base64 client_id id state snapshot_id peers).1
  unfolding send_snapshot
  send_snapshot-IsKeyed to_json base64 client_id id snapshot_id state peers h =
      elim (Bool-cases (leb (rtc.byte_length (to_json state)) snapshot_chunk_size)) [
        | inl e ↦ rw e (send_data_message-IsKeyed rtc id (snapshot client_id state) peers h)
        | inr e ↦ rw e (
            send_chunks-IsKeyed id (cut rtc client_id snapshot_id (base64 (to_json state))) true
              peers h)
      ]
