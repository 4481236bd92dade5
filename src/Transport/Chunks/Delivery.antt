-- ===== src/Transport/Chunks/Delivery.antt =====
-- src/transport/p2pMeshTransport.ts: sequences of chunk arrivals from one peer.
use nettprogg_vsc.Common.{
  ℕ, zero, suc, ◌+◌, ◌-◌, ◌<◌, ◌≤◌, ◌≡◌, ◌≢◌, refl, List, [], ◌∷◌, Option, none, some, String, Text,
  length, get_elem?, replicate, All, arith, inl, inr, get_elem?-set_ne,
}
use nettprogg_vsc.Common.Dict.{Dict, lookup}
use nettprogg_vsc.Transport.Chunks.{
  chunk_count, chunk_at, ChunkBuffer, new_buffer, store, snapshot_chunk_ttl_ms, chunk_key,
}
use nettprogg_vsc.Transport.Chunks.Reassembly.{
  IsOpen, new_buffer-IsOpen, store-IsOpen, handle, key, found, handle_lem, found_again, found_first,
}

-- A chunk's time of arrival and its index.
abbrev pub Arrival : Type 0
Arrival = ℕ × ℕ

abbrev add_output : Option Text → List Text → List Text
add_output none out = out
add_output (some text) out = text ∷ out

-- No index twice.
abbrev pub Distinct : List Arrival → Type 0
Distinct [] = Unit
Distinct (a ∷ later) = All (λ c. a.1 ≢ c.1) later × Distinct later

-- Less than the time to live after the first chunk.
abbrev pub Timely : ℕ → List Arrival → Type 0
Timely start = All (λ a. a.0 - snapshot_chunk_ttl_ms ≤ start)

get_elem?-replicate :
    (n i : ℕ) → i < n → get_elem? (replicate {A = Option Text} n none) i ≡ some none
get_elem?-replicate zero i h = absurd (omega arith)
get_elem?-replicate (suc n) zero h = refl
get_elem?-replicate (suc n) (suc i) h = get_elem?-replicate n i (omega arith)

module _ (size : ℕ) (encoded : Text) (pos : 0 < size) (peer_id snapshot_id : String) where
  abbrev step : Arrival → Dict ChunkBuffer → Dict ChunkBuffer × Option Text
  step a = handle size encoded pos peer_id snapshot_id a.0 a.1

  -- The buffers after some arrivals, and the snapshots that came out on the way.
  pub receive_all : List Arrival → Dict ChunkBuffer → Dict ChunkBuffer × List Text
  receive_all [] m = (m, [])
  receive_all (a ∷ later) m =
      let r = step a m in let rest = receive_all later r.0 in (rest.0, add_output r.1 rest.1)

  abbrev IsMissing : ChunkBuffer → Arrival → Type 0
  IsMissing b a = (a.1 < chunk_count size encoded) × (get_elem? b.chunks a.1 ≡ some none)

  store-IsMissing :
      (b : ChunkBuffer) (a : Arrival) (later : List Arrival)
      → All (λ c. a.1 ≢ c.1) later
      → All (IsMissing b) later
      → All (IsMissing (store a.1 (chunk_at size encoded a.1) b)) later
  unfolding store
  store-IsMissing b a [] d h = tt
  store-IsMissing b a (c ∷ later) (ne, d) ((lt, e), h) = (
    (lt, rw (get_elem?-set_ne b.chunks (some (chunk_at size encoded a.1)) ne) e),
    store-IsMissing b a later d h,
  )

  store-received :
      (b : ChunkBuffer) (i : ℕ) (c : Text)
      → get_elem? b.chunks i ≡ some none
      → (store i c b).received ≡ b.received + 1
  unfolding store
  store-received b i c e = rw e

  receive_all_from :
      (start : ℕ) (a : Arrival) (later : List Arrival) (m : Dict ChunkBuffer) (b : ChunkBuffer)
      → found size encoded pos peer_id snapshot_id a.0 m ≡ b
      → IsOpen size encoded start b
      → All (IsMissing b) (a ∷ later)
      → Distinct (a ∷ later)
      → Timely start later
      → b.received + length (a ∷ later) ≡ chunk_count size encoded
      → ((receive_all (a ∷ later) m).1 ≡ encoded ∷ [])
        × (lookup (key size encoded pos peer_id snapshot_id) (receive_all (a ∷ later) m).0 ≡ none)
  unfolding receive_all
  receive_all_from start a [] m b e h ((lt, empty), _) d late count =
      elim (handle_lem size encoded pos peer_id snapshot_id start a.0 a.1 m b e h lt) [
        | inl w ↦
            absurd
              (omega (arith, w.0, store-received b a.1 (chunk_at size encoded a.1) empty, count))
        | inr c ↦ (rw c.2, c.1)
      ]
  receive_all_from start a (a' ∷ later) m b e h ((lt, empty), missing) (ne, d) (fresh, late) count =
      elim (handle_lem size encoded pos peer_id snapshot_id start a.0 a.1 m b e h lt) [
        | inl w ↦
            let b' : ChunkBuffer = store a.1 (chunk_at size encoded a.1) b in
            let h' : IsOpen size encoded start b' = store-IsOpen size encoded start a.1 b h lt in
            rw w.2 (
              receive_all_from start a' later (step a m).0 b'
                (found_again size encoded pos peer_id snapshot_id start a'.0 (step a m).0 b' w.1 h'
                  fresh)
                h' (store-IsMissing b a (a' ∷ later) ne missing) d late
                (omega (arith, store-received b a.1 (chunk_at size encoded a.1) empty, count)))
        | inr c ↦
            absurd
              (omega (arith, c.0, store-received b a.1 (chunk_at size encoded a.1) empty, count))
      ]

  new_buffer-IsMissing :
      (now : ℕ) (later : List Arrival)
      → All (λ a. a.1 < chunk_count size encoded) later
      → All (IsMissing (new_buffer now (chunk_count size encoded))) later
  unfolding new_buffer
  new_buffer-IsMissing now [] h = tt
  new_buffer-IsMissing now (a ∷ later) (lt, h) = (
    (lt, get_elem?-replicate (chunk_count size encoded) a.1 lt),
    new_buffer-IsMissing now later h,
  )

  -- A snapshot whose chunks all arrive once, in any order and within the time to live of the
  -- first, comes out exactly once, whole, and leaves no buffer behind.
  pub receive_all_lem :
      (a : Arrival) (later : List Arrival) (m : Dict ChunkBuffer)
      → lookup (chunk_key peer_id snapshot_id) m ≡ none
      → All (λ c. c.1 < chunk_count size encoded) (a ∷ later)
      → Distinct (a ∷ later)
      → Timely a.0 later
      → length (a ∷ later) ≡ chunk_count size encoded
      → ((receive_all (a ∷ later) m).1 ≡ encoded ∷ [])
        × (lookup (chunk_key peer_id snapshot_id) (receive_all (a ∷ later) m).0 ≡ none)
  unfolding new_buffer
  receive_all_lem a later m e range d late count =
      receive_all_from a.0 a later m (new_buffer a.0 (chunk_count size encoded))
        (found_first size encoded pos peer_id snapshot_id a.0 m e)
        (new_buffer-IsOpen size encoded a.0) (new_buffer-IsMissing a.0 (a ∷ later) range) d late
        (omega (arith, count))
