-- ===== src/Transport/Chunks/Reassembly.antt =====
-- src/transport/p2pMeshTransport.ts: the buffer of a snapshot while its chunks arrive.
use nettprogg_vsc.Common.{
  ℕ, zero, suc, ◌+◌, ◌-◌, ◌*◌, ◌<◌, ◌≤◌, ◌≡◌, refl, List, [], ◌∷◌, ◌++◌, Option, none, some, String,
  Text, if◌then◌else◌, leb, ltb, ltb→lt, le→leb, ==_iff, length, drop, set, get_elem?, replicate,
  arith, sym, ap, ◌⊎◌, ◌∙◌, inl, inr, Bool-cases, take-append-drop, drop-drop, drop_all, append-nil,
  append_assoc, length-set, length-replicate,
}
use native.Mathlib.Nat.{add-zero, zero-add}
use nettprogg_vsc.Common.Dict.{
  Dict, lookup, insert, lookup-insert_self, lookup-delete_self, lookup-keep_if, lookup-keep_if-none,
}
use nettprogg_vsc.Transport.Chunks.{
  chunk_count, chunk_at, ChunkBuffer, cleanup, new_buffer, buffer_for, store, join, is_missing,
  finish_chunk, chunk_key, handle_snapshot_chunk, snapshot_chunk_ttl_ms, chunk_message,
}

pub count_some : List (Option Text) → ℕ
count_some [] = 0
count_some (none ∷ cs) = count_some cs
count_some (some c ∷ cs) = suc (count_some cs)

count_some-le : (cs : List (Option Text)) → count_some cs ≤ length cs
unfolding count_some
count_some-le [] = omega arith
count_some-le (none ∷ cs) = omega (arith, count_some-le cs)
count_some-le (some c ∷ cs) = omega (arith, count_some-le cs)

module _ (size : ℕ) (encoded : Text) where
  -- Every slot from position `k` on is empty or holds the chunk of its index.
  abbrev pub Partial : ℕ → List (Option Text) → Type 0
  Partial k [] = Unit
  Partial k (none ∷ cs) = Partial (suc k) cs
  Partial k (some c ∷ cs) = (c ≡ chunk_at size encoded k) × Partial (suc k) cs

  Partial-replicate : (k n : ℕ) → Partial k (replicate n none)
  Partial-replicate k zero = tt
  Partial-replicate k (suc n) = Partial-replicate (suc k) n

  Partial-set :
      (k i : ℕ) (cs : List (Option Text))
      → Partial k cs
      → Partial k (set cs i (some (chunk_at size encoded (k + i))))
  Partial-set k i [] h = tt
  Partial-set k zero (none ∷ cs) h = (rw add-zero, h)
  Partial-set k zero (some c ∷ cs) h = (rw add-zero, h.1)
  Partial-set k (suc i) (none ∷ cs) h =
      let e : k + suc i ≡ suc k + i = omega arith in rw e (Partial-set (suc k) i cs h)
  Partial-set k (suc i) (some c ∷ cs) h =
      let e : k + suc i ≡ suc k + i = omega arith in rw e (h.0, Partial-set (suc k) i cs h.1)

  chunk_at-append :
      (k : ℕ) → chunk_at size encoded k ++ drop (suc k * size) encoded ≡ drop (k * size) encoded
  unfolding chunk_at
  chunk_at-append k =
      let width : (k + 1) * size - k * size ≡ size = omega arith in
      let next : suc k * size ≡ k * size + size = omega arith in
      rw (width, next, ← drop-drop size (k * size) encoded, take-append-drop)

  join_full :
      (k : ℕ) (cs : List (Option Text))
      → Partial k cs
      → count_some cs ≡ length cs
      → join cs ++ drop ((k + length cs) * size) encoded ≡ drop (k * size) encoded
  unfolding join count_some
  join_full k [] h e = rw add-zero
  join_full k (none ∷ cs) h e = absurd (omega (arith, count_some-le cs))
  join_full k (some c ∷ cs) h e =
      let shift : k + suc (length cs) ≡ suc k + length cs = omega arith in
      rw (append_assoc, shift, join_full (suc k) cs h.1 (omega arith), h.0) (chunk_at-append k)

count_some-replicate : (n : ℕ) → count_some (replicate n none) ≡ 0
unfolding count_some
count_some-replicate zero = refl
count_some-replicate (suc n) = count_some-replicate n

count_some-set :
    (cs : List (Option Text)) (i : ℕ) (c : Text)
    → i < length cs
    → count_some (set cs i (some c))
      ≡ (if is_missing (get_elem? cs i) then count_some cs + 1 else count_some cs)
unfolding count_some
count_some-set [] i c h = absurd (omega arith)
count_some-set (none ∷ cs) zero c h = omega arith
count_some-set (some d ∷ cs) zero c h = refl
count_some-set (none ∷ cs) (suc i) c h = count_some-set cs i c (omega arith)
count_some-set (some d ∷ cs) (suc i) c h = ground (arith, count_some-set cs i c)

-- What is known of the buffer that `total` chunks of a snapshot go to: `remaining` of them are
-- still to come, it was made at `start`, and nothing but the right chunks is in it.
pub record IsOpen (size : ℕ) (encoded : Text) (start : ℕ) (b : ChunkBuffer) : Type 0 where
  pub partial : Partial size encoded 0 b.chunks
  pub counted : b.received ≡ count_some b.chunks
  pub sized : length b.chunks ≡ chunk_count size encoded
  pub whole : b.total ≡ chunk_count size encoded
  pub started : b.created_at ≡ start

pub new_buffer-IsOpen :
    (size : ℕ) (encoded : Text) (now : ℕ)
    → IsOpen size encoded now (new_buffer now (chunk_count size encoded))
unfolding new_buffer
new_buffer-IsOpen size encoded now = record {
  partial = Partial-replicate size encoded 0 (chunk_count size encoded);
  counted = sym (count_some-replicate (chunk_count size encoded));
  sized = length-replicate (chunk_count size encoded) none;
  whole = refl;
  started = refl;
}

pub store-IsOpen :
    (size : ℕ) (encoded : Text) (start i : ℕ) (b : ChunkBuffer)
    → IsOpen size encoded start b
    → i < chunk_count size encoded
    → IsOpen size encoded start (store i (chunk_at size encoded i) b)
unfolding store
store-IsOpen size encoded start i b h lt = record {
  partial = rw zero-add at (Partial-set size encoded 0 i b.chunks h.partial);
  counted = ground (arith, count_some-set b.chunks i (chunk_at size encoded i), h.counted, h.sized);
  sized = length-set b.chunks i _ ∙ h.sized;
  whole = h.whole;
  started = h.started;
}

chunk_count-covers :
    (size : ℕ) (encoded : Text) → 0 < size → length encoded ≤ chunk_count size encoded * size
unfolding chunk_count
chunk_count-covers size encoded h = grind arith

-- A buffer with no slot left holds the whole snapshot.
IsOpen-join :
    (size : ℕ) (encoded : Text) (start : ℕ) (b : ChunkBuffer)
    → 0 < size
    → IsOpen size encoded start b
    → b.total ≤ b.received
    → join b.chunks ≡ encoded
IsOpen-join size encoded start b pos h full =
    let e : count_some b.chunks ≡ length b.chunks =
      omega (arith, count_some-le b.chunks, h.counted, h.sized, h.whole) in
    let rest : drop ((0 + length b.chunks) * size) encoded ≡ [] =
      drop_all _ encoded (rw h.sized (rw zero-add (chunk_count-covers size encoded pos))) in
    let none_before : 0 * size ≡ 0 = omega arith in
    rw (rest, append-nil, none_before) at (join_full size encoded 0 b.chunks h.partial e)

module _ (size : ℕ) (encoded : Text) (pos : 0 < size) (peer_id snapshot_id : String) where
  abbrev pub key : String
  key = chunk_key peer_id snapshot_id

  abbrev pub handle : ℕ → ℕ → Dict ChunkBuffer → Dict ChunkBuffer × Option Text
  handle now i = handle_snapshot_chunk now peer_id (chunk_message size encoded snapshot_id i)

  -- The buffer that the chunk would go to.
  abbrev pub found : ℕ → Dict ChunkBuffer → ChunkBuffer
  found now m = buffer_for now (chunk_count size encoded) (lookup key (cleanup now m))

  abbrev pub Waits : ChunkBuffer → Dict ChunkBuffer × Option Text → Type 0
  Waits b r = (b.received < chunk_count size encoded) × (lookup key r.0 ≡ some b) × (r.1 ≡ none)

  abbrev pub Completes : ChunkBuffer → Dict ChunkBuffer × Option Text → Type 0
  Completes b r =
      (chunk_count size encoded ≤ b.received) × (lookup key r.0 ≡ none) × (r.1 ≡ some encoded)

  finish_lem :
      (start : ℕ) (m : Dict ChunkBuffer) (b : ChunkBuffer)
      → IsOpen size encoded start b
      → Waits b (finish_chunk key b m) ⊎ Completes b (finish_chunk key b m)
  unfolding finish_chunk
  finish_lem start m b h = elim (Bool-cases (ltb b.received b.total)) [
    | inl more ↦ inl (
      rw (← h.whole) (ltb→lt b.received b.total more),
      rw more (lookup-insert_self key b m),
      rw more,
    )
    | inr done ↦
        let full : b.total ≤ b.received = ground arith in
        inr (
          rw (← h.whole) full,
          rw done (lookup-delete_self key (insert key b m)),
          rw done (ap some (IsOpen-join size encoded start b pos h full)),
        )
  ]

  pub handle_lem :
      (start now i : ℕ) (m : Dict ChunkBuffer) (b : ChunkBuffer)
      → found now m ≡ b
      → IsOpen size encoded start b
      → i < chunk_count size encoded
      → let b' = store i (chunk_at size encoded i) b in
        Waits b' (handle now i m) ⊎ Completes b' (handle now i m)
  unfolding handle_snapshot_chunk
  handle_lem start now i m b e h lt = rw e (
      finish_lem start (cleanup now m) (store i (chunk_at size encoded i) b)
        (store-IsOpen size encoded start i b h lt))

  -- The buffer is found again while it is younger than the time to live.
  pub found_again :
      (start now : ℕ) (m : Dict ChunkBuffer) (b : ChunkBuffer)
      → lookup key m ≡ some b
      → IsOpen size encoded start b
      → now - snapshot_chunk_ttl_ms ≤ start
      → found now m ≡ b
  unfolding cleanup buffer_for
  found_again start now m b e h fresh = rw (
    lookup-keep_if (λ c. leb (now - snapshot_chunk_ttl_ms) c.created_at) key b m e
        (le→leb _ _ (rw h.started fresh)),
    (==_iff b.total (chunk_count size encoded)).1 h.whole,
  )

  pub found_first :
      (now : ℕ) (m : Dict ChunkBuffer)
      → lookup key m ≡ none
      → found now m ≡ new_buffer now (chunk_count size encoded)
  unfolding cleanup buffer_for
  found_first now m e =
      rw (lookup-keep_if-none (λ c. leb (now - snapshot_chunk_ttl_ms) c.created_at) key m e)
