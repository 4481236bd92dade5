-- ===== src/Transport/DataMessages.antt =====
-- src/transport/p2pDataMessages.ts: what peers send one another.
use nettprogg_vsc.Common.{String}
use nettprogg_vsc.Crdt.{CrdtOperation, TextCrdtSnapshot}
use nettprogg_vsc.Transport.Chunks.{SnapshotChunk}

pub data P2PDataMessage : Type 0 where
  hello : String → P2PDataMessage
  operation : String → CrdtOperation → P2PDataMessage
  snapshot_request : String → P2PDataMessage
  snapshot : String → TextCrdtSnapshot → P2PDataMessage
  snapshot_chunk : String → SnapshotChunk → P2PDataMessage
