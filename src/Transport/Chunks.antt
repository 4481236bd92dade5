-- ===== src/Transport/Chunks.antt =====
-- src/transport/p2pMeshTransport.ts: snapshots in chunks. `sendSnapshot` cuts the encoded snapshot,
-- and `handleSnapshotChunk` puts it together again.
pub mod Reassembly
pub mod Delivery
pub mod Bounds
use nettprogg_vsc.Common.{
  ℕ, zero, suc, ◌+◌, ◌-◌, ◌*◌, ◌/◌, List, [], ◌∷◌, ◌++◌, Option, none, some, Bool, String, Text,
  str_append, ◌==◌, not, ◌||◌, if◌then◌else◌, leb, ltb, length, take, drop, set, get_elem?,
  replicate,
}
use nettprogg_vsc.Common.Dict.{Dict, lookup, insert, delete, keep_if}

-- SNAPSHOT_CHUNK_SIZE and SNAPSHOT_CHUNK_TTL_MS
abbrev pub snapshot_chunk_size : ℕ
snapshot_chunk_size = 16384

abbrev pub snapshot_chunk_ttl_ms : ℕ
snapshot_chunk_ttl_ms = 60000

-- `text.slice(from, to)` at `from ≤ to`
abbrev pub slice : ℕ → ℕ → Text → Text
slice from to text = take (to - from) (drop from text)

-- `Math.ceil(encoded.length / size)`
unfoldable pub chunk_count : ℕ → Text → ℕ
chunk_count size encoded = (length encoded + (size - 1)) / size

-- `encoded.slice(index * size, (index + 1) * size)`
pub chunk_at : ℕ → Text → ℕ → Text
chunk_at size encoded index = slice (index * size) ((index + 1) * size) encoded

-- P2PSnapshotChunkMessage, less its type tag and its `clientId`, which the handler does not read
pub record SnapshotChunk : Type 0 where
  pub snapshot_id : String
  pub index : ℕ
  pub total : ℕ
  pub chunk : Text

-- The message of one round of `sendSnapshot`'s loop.
abbrev pub chunk_message : ℕ → Text → String → ℕ → SnapshotChunk
chunk_message size encoded snapshot_id index = record {
  snapshot_id = snapshot_id;
  index = index;
  total = chunk_count size encoded;
  chunk = chunk_at size encoded index;
}

-- The rounds from `index` on, `left` of them.
unfoldable pub chunk_messages : ℕ → Text → String → ℕ → ℕ → List SnapshotChunk
chunk_messages size encoded snapshot_id index zero = []
chunk_messages size encoded snapshot_id index (suc left) =
    chunk_message size encoded snapshot_id index
    ∷ chunk_messages size encoded snapshot_id (suc index) left

-- SnapshotChunkBuffer
pub record ChunkBuffer : Type 0 where
  pub chunks : List (Option Text)
  pub created_at : ℕ
  pub received : ℕ
  pub total : ℕ

-- `cleanupSnapshotChunks`. Where `now` is below the time to live the cutoff is negative in the
-- source and 0 here, and neither drops a buffer.
pub cleanup : ℕ → Dict ChunkBuffer → Dict ChunkBuffer
cleanup now = keep_if (λ b. leb (now - snapshot_chunk_ttl_ms) b.created_at)

pub new_buffer : ℕ → ℕ → ChunkBuffer
new_buffer now total = record {
  chunks = replicate total none;
  created_at = now;
  received = 0;
  total = total;
}

-- The buffer that a chunk goes to: the one found, if its total agrees.
pub buffer_for : ℕ → ℕ → Option ChunkBuffer → ChunkBuffer
unfolding new_buffer
buffer_for now total none = new_buffer now total
buffer_for now total (some b) = if b.total == total then b else new_buffer now total

abbrev pub is_missing : Option (Option Text) → Bool
is_missing (some (some c)) = Bool.false
is_missing _ = Bool.true

-- `chunks[index] = chunk`, counted if nothing stood there. The index is below the total, which
-- `isP2PDataMessage` has checked before, and the total is the number of slots.
pub store : ℕ → Text → ChunkBuffer → ChunkBuffer
store index chunk b = record b {
  chunks = set b.chunks index (some chunk);
  received = if is_missing (get_elem? b.chunks index) then b.received + 1 else b.received;
}

-- `chunks.join("")`, in which `undefined` is the empty text
pub join : List (Option Text) → Text
join [] = []
join (none ∷ cs) = join cs
join (some c ∷ cs) = c ++ join cs

pub chunk_key : String → String → String
chunk_key peer_id snapshot_id = str_append peer_id (str_append ":" snapshot_id)

-- The end of `handleSnapshotChunk`: the buffer goes into the map, and comes out of it once full.
pub finish_chunk : String → ChunkBuffer → Dict ChunkBuffer → Dict ChunkBuffer × Option Text
unfolding join
finish_chunk key buffer kept =
    if ltb buffer.received buffer.total
    then (insert key buffer kept, none)
    else (delete key (insert key buffer kept), some (join buffer.chunks))

-- `handleSnapshotChunk` up to the decoding: the buffers afterwards, and the encoded snapshot if
-- this chunk was the last one missing.
pub handle_snapshot_chunk :
    ℕ → String → SnapshotChunk → Dict ChunkBuffer → Dict ChunkBuffer × Option Text
handle_snapshot_chunk now peer_id message buffers =
    let key = chunk_key peer_id message.snapshot_id in
    let kept = cleanup now buffers in
    let buffer = buffer_for now message.total (lookup key kept) in
    finish_chunk key (store message.index message.chunk buffer) kept
