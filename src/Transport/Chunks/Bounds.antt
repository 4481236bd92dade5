-- ===== src/Transport/Chunks/Bounds.antt =====
-- src/transport/p2pMeshTransport.ts, `sendSnapshot`: how large the chunks of a snapshot are.
use Prim.Native.Nat.{min}
use nettprogg_vsc.Common.{
  ℕ, zero, suc, ◌+◌, ◌-◌, ◌*◌, ◌<◌, ◌≤◌, ◌≡◌, refl, String, Text, ◌∙◌, All, arith, length, drop,
  length-take, length-drop,
}
use nettprogg_vsc.Transport.Chunks.{
  SnapshotChunk, chunk_count, chunk_at, chunk_message, chunk_messages,
}

-- The chunk is not empty, has at most the given size, and stands below its total.
abbrev pub Fits : ℕ → SnapshotChunk → Type 0
Fits size c = (0 < length c.chunk) × (length c.chunk ≤ size) × (c.index < c.total)

module _ (size : ℕ) (encoded : Text) where
  length-chunk_at :
      (index : ℕ) → length (chunk_at size encoded index) ≡ min size (length encoded - index * size)
  unfolding chunk_at
  length-chunk_at index =
      let width : (index + 1) * size - index * size ≡ size = omega arith in
      rw width
        (length-take size (drop (index * size) encoded) ∙ rw (length-drop (index * size) encoded))

  starts_within :
      (index : ℕ) → index < chunk_count size encoded → 0 < size → index * size < length encoded
  unfolding chunk_count
  starts_within index h pos = grind arith

  chunk_message-Fits :
      (snapshot_id : String) (index : ℕ)
      → 0 < size
      → index < chunk_count size encoded
      → Fits size (chunk_message size encoded snapshot_id index)
  chunk_message-Fits snapshot_id index pos h = (
    omega (arith, length-chunk_at index, starts_within index h pos, pos),
    omega (arith, length-chunk_at index),
    h,
  )

  chunk_messages-Fits_from :
      (snapshot_id : String) (index left : ℕ)
      → 0 < size
      → index + left ≤ chunk_count size encoded
      → All (Fits size) (chunk_messages size encoded snapshot_id index left)
  unfolding chunk_messages
  chunk_messages-Fits_from snapshot_id index zero pos h = tt
  chunk_messages-Fits_from snapshot_id index (suc left) pos h = (
    chunk_message-Fits snapshot_id index pos (omega (arith, h)),
    chunk_messages-Fits_from snapshot_id (suc index) left pos (omega (arith, h)),
  )

  length-chunk_messages :
      (snapshot_id : String) (index left : ℕ)
      → length (chunk_messages size encoded snapshot_id index left) ≡ left
  unfolding chunk_messages
  length-chunk_messages snapshot_id index zero = refl
  length-chunk_messages snapshot_id index (suc left) =
      omega (arith, length-chunk_messages snapshot_id (suc index) left)

  -- Every chunk that a snapshot is cut into, at a positive chunk size, has at least one code unit and
  -- at most that size, and an index below its total; there are as many as that total.
  pub chunk_messages-Fits :
      (snapshot_id : String)
      → 0 < size
      → let chunks = chunk_messages size encoded snapshot_id 0 (chunk_count size encoded) in
        All (Fits size) chunks × (length chunks ≡ chunk_count size encoded)
  chunk_messages-Fits snapshot_id pos = (
    chunk_messages-Fits_from snapshot_id 0 (chunk_count size encoded) pos (omega arith),
    length-chunk_messages snapshot_id 0 (chunk_count size encoded),
  )
