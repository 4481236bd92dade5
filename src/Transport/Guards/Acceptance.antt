-- ===== src/Transport/Guards/Acceptance.antt =====
-- src/transport/p2pDataMessages.ts: the objects that are sent, and the test of the receiver.
use nettprogg_vsc.Common.{
  ℕ, zero, suc, ◌+◌, ◌<◌, String, Text, true, ◌≡◌, refl, All, arith, ◌↔◌, map, ◌≤◌,
}
use nettprogg_vsc.Common.Int.{pos}
use nettprogg_vsc.Transport.Chunks.{chunk_message, chunk_messages, chunk_count}
use nettprogg_vsc.Transport.DataMessages.{
  P2PDataMessage, hello, operation, snapshot_request, snapshot, snapshot_chunk,
}
use nettprogg_vsc.Crdt.{CrdtOperation, TextCrdtSnapshot}
use nettprogg_vsc.Common.Json.{Json, integer, text, object, Fields, no_field, field}
use nettprogg_vsc.Transport.Guards.{is_chunk, is_p2p_data_message}

-- The objects that the transport sends. The texts of chunks, and the objects of operations and
-- snapshots, are what the arguments make of them.
module _ (shown : Text → String) (of_operation : CrdtOperation → Fields)
    (of_snapshot : TextCrdtSnapshot → Fields) where
  pub to_json : P2PDataMessage → Json
  to_json (hello id) = object (field "type" (text "hello") (field "clientId" (text id) no_field))
  to_json (operation id op) = object (
      field "type" (text "operation")
        (field "clientId" (text id) (field "op" (object (of_operation op)) no_field)))
  to_json (snapshot_request id) =
      object (field "type" (text "snapshot-request") (field "clientId" (text id) no_field))
  to_json (snapshot id state) = object (
      field "type" (text "snapshot")
        (field "clientId" (text id) (field "snapshot" (object (of_snapshot state)) no_field)))
  to_json (snapshot_chunk id c) = object (
      field "type" (text "snapshot-chunk") (
        field "clientId" (text id) (
          field "snapshotId" (text c.snapshot_id) (
            field "index" (integer (pos c.index)) (
              field "total" (integer (pos c.total))
                (field "chunk" (text (shown c.chunk)) no_field))))))

  abbrev pub HasIndex : P2PDataMessage → Type 0
  HasIndex (snapshot_chunk id c) = c.index < c.total
  HasIndex _ = Unit

  -- A message that a peer sends passes the test of the peer that gets it exactly if it is no chunk,
  -- or a chunk whose index is below its total.
  pub is_p2p_data_message_iff :
      (m : P2PDataMessage) → (is_p2p_data_message (to_json m) ≡ true) ↔ HasIndex m
  unfolding is_p2p_data_message to_json is_chunk
  is_p2p_data_message_iff (hello id) = (λ h. tt, λ h. refl)
  is_p2p_data_message_iff (operation id op) = (λ h. tt, λ h. refl)
  is_p2p_data_message_iff (snapshot_request id) = (λ h. tt, λ h. refl)
  is_p2p_data_message_iff (snapshot id state) = (λ h. tt, λ h. refl)
  is_p2p_data_message_iff (snapshot_chunk id c) = (λ h. ground arith, λ h. ground arith)

  module _ (size : ℕ) (encoded : Text) (client_id snapshot_id : String) where
    abbrev IsAccepted : P2PDataMessage → Type 0
    IsAccepted m = is_p2p_data_message (to_json m) ≡ true

    chunk_messages_from :
        (index left : ℕ)
        → index + left ≤ chunk_count size encoded
        → All IsAccepted
            (map (snapshot_chunk client_id) (chunk_messages size encoded snapshot_id index left))
    unfolding chunk_messages
    chunk_messages_from index zero h = tt
    chunk_messages_from index (suc left) h = (
      (is_p2p_data_message_iff
            (snapshot_chunk client_id (chunk_message size encoded snapshot_id index))).1
          (omega (arith, h)),
      chunk_messages_from (suc index) left (omega (arith, h)),
    )

    -- Every chunk that a snapshot is cut into passes the test of the peer that gets it.
    pub chunk_messages-IsAccepted :
        All
          (λ m. is_p2p_data_message (to_json m) ≡ true)
          (map
            (snapshot_chunk client_id)
            (chunk_messages size encoded snapshot_id 0 (chunk_count size encoded)))
    chunk_messages-IsAccepted = chunk_messages_from 0 (chunk_count size encoded) (omega arith)
