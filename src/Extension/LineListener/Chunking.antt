-- ===== src/Extension/LineListener/Chunking.antt =====
-- src/extension/localRustServer.ts, `attachLineListener`: how output comes in chunks.
use nettprogg_vsc.Common.{
  ℕ, zero, suc, ◌<◌, List, [], ◌∷◌, ◌++◌, ◌==◌, if◌then◌else◌, map, ◌≡◌, refl, none, some, length,
  take, drop, arith, Option-cases, append_assoc, append-nil, inl, inr, ap, sym, ◌∙◌, Bool-cases,
  length-drop, true, map-append,
}
use mathlib.Core.List.{flatten}
use nettprogg_vsc.Extension.LineListener.{
  Text, Stream, index_of_newline, strip_cr, take_line, drain, on_data, on_end, feed, fresh,
}

-- The complete lines of a text and what follows the last line break, code unit by code unit.
abbrev pub Split : Type 0
Split = List Text × Text

pub push_unit : ℕ → Split → Split
push_unit c ([], r) = if c == 10 then ([] ∷ [], r) else ([], c ∷ r)
push_unit c (l ∷ ls, r) = if c == 10 then ([] ∷ l ∷ ls, r) else ((c ∷ l) ∷ ls, r)

pub split : Text → Split
unfolding push_unit
split [] = ([], [])
split (c ∷ s) = push_unit c (split s)

abbrev prefix_lines : List Text → Split → Split
prefix_lines ls p = (ls ++ p.0, p.1)

push_break : (c : ℕ) (p : Split) → (c == 10) ≡ true → push_unit c p ≡ ([] ∷ p.0, p.1)
unfolding push_unit
push_break c ([], r) e = rw e
push_break c (l ∷ ls, r) e = rw e

split-append_from :
    (c : ℕ) (p : Split) (t : Text)
    → push_unit c (prefix_lines p.0 (split (p.1 ++ t)))
      ≡ prefix_lines (push_unit c p).0 (split ((push_unit c p).1 ++ t))
unfolding push_unit split
split-append_from c ([], r) t = elim (Bool-cases (c == 10)) [
  | inl e ↦ rw (e, push_unit) (push_break c (split (r ++ t)) e)
  | inr e ↦ rw e
]
split-append_from c (l ∷ ls, r) t = elim (Bool-cases (c == 10)) [ inl e ↦ rw e | inr e ↦ rw e ]

split-append : (s t : Text) → split (s ++ t) ≡ prefix_lines (split s).0 (split ((split s).1 ++ t))
unfolding split
split-append [] t = refl
split-append (c ∷ s) t = rw (split-append s t) (split-append_from c (split s) t)

split_no_newline : (s : Text) → index_of_newline s ≡ none → split s ≡ ([], s)
unfolding split push_unit index_of_newline
split_no_newline [] e = refl
split_no_newline (c ∷ s) e = elim (Bool-cases (c == 10)) [
  | inl h ↦ ground arith
  | inr h ↦ elim (Option-cases (index_of_newline s)) [
    | inl q ↦ rw (split_no_newline s q, h)
    | inr (j, q) ↦ ground arith
  ]
]

split_at_newline :
    (s : Text) (i : ℕ)
    → index_of_newline s ≡ some i
    → split s ≡ prefix_lines (take i s ∷ []) (split (drop (suc i) s))
unfolding split push_unit index_of_newline
split_at_newline [] i e = cc
split_at_newline (c ∷ s) zero e = elim (Bool-cases (c == 10)) [
  | inl h ↦ push_break c (split s) h
  | inr h ↦ ground arith
]
split_at_newline (c ∷ s) (suc i) e = elim (Bool-cases (c == 10)) [
  | inl h ↦ ground arith
  | inr h ↦ rw (split_at_newline s i (ground arith), h)
]

abbrev pub shown : List Text → Split → Stream
shown ls p = record { buffer = p.1; lines = ls ++ map strip_cr p.0 }

index_of-lt : (s : Text) (i : ℕ) → index_of_newline s ≡ some i → i < length s
unfolding index_of_newline
index_of-lt [] i e = cc
index_of-lt (c ∷ s) zero e = omega arith
index_of-lt (c ∷ s) (suc i) e = omega (arith, index_of-lt s i (ground arith))

-- The loop ends for want of a line break, and finds every line.
drain_lem :
    (fuel : ℕ) (s : Stream) → length s.buffer < fuel → drain fuel s ≡ shown s.lines (split s.buffer)
unfolding drain take_line
drain_lem zero s h = elim h [ ]
drain_lem (suc fuel) s h = elim (Option-cases (index_of_newline s.buffer)) [
  | inl e ↦ rw (e, drain, split_no_newline s.buffer e, append-nil)
  | inr (i, e) ↦ rw (
    e,
    drain,
    drain_lem fuel (take_line i s)
        (omega (arith, index_of-lt s.buffer i e, length-drop (suc i) s.buffer)),
    split_at_newline s.buffer i e,
    append_assoc,
  )
]

shown-append :
    (ls : List Text) (p q : Split)
    → shown (ls ++ map strip_cr p.0) q ≡ shown ls (prefix_lines p.0 q)
shown-append ls p q = rw (map-append, append_assoc)

-- One chunk: the complete lines of what waited and the chunk are handed on, and the rest waits.
pub on_data_lem :
    (s : Stream) (chunk : Text) → on_data s chunk ≡ shown s.lines (split (s.buffer ++ chunk))
unfolding on_data
on_data_lem s chunk =
    drain_lem (suc (length (s.buffer ++ chunk)))
      (record { buffer = s.buffer ++ chunk; lines = s.lines }) (omega arith)

abbrev pub leftover : Text → List Text
leftover [] = []
leftover (c ∷ text) = (c ∷ text) ∷ []

on_end_buffer :
    (text : Text) (ls : List Text)
    → on_end (record { buffer = text; lines = ls })
      ≡ record { buffer = []; lines = ls ++ leftover text }
unfolding on_end
on_end_buffer [] ls = ap (λ all. record { buffer = []; lines = all }) (sym (append-nil ls))
on_end_buffer (c ∷ text) ls = refl

-- The end: what waited is handed on as a line, unless nothing did.
pub on_end_lem :
    (s : Stream) → on_end s ≡ record { buffer = []; lines = s.lines ++ leftover s.buffer }
on_end_lem s = on_end_buffer s.buffer s.lines

pub drop-append {ℓ} : {A : Type ℓ} (xs ys : List A) → drop (length xs) (xs ++ ys) ≡ ys
drop-append [] ys = refl
drop-append (x ∷ xs) ys = drop-append xs ys

on_data-split :
    (seen chunk : Text) → on_data (shown [] (split seen)) chunk ≡ shown [] (split (seen ++ chunk))
on_data-split seen chunk =
    on_data_lem (shown [] (split seen)) chunk
    ∙ shown-append [] (split seen) (split ((split seen).1 ++ chunk))
    ∙ ap (shown []) (sym (split-append seen chunk))

feed-split :
    (seen : Text) (chunks : List Text)
    → feed (shown [] (split seen)) chunks ≡ shown [] (split (seen ++ flatten chunks))
unfolding feed flatten
feed-split seen [] = rw (append-nil seen)
feed-split seen (chunk ∷ chunks) =
    rw (on_data-split seen chunk, feed-split (seen ++ chunk) chunks, append_assoc)

-- Whatever the chunks, the lines handed on are the complete lines of the whole output, each less
-- a carriage return at its end, and the buffer holds what follows the last line break.
pub feed_lem :
    (chunks : List Text)
    → feed fresh chunks ≡ record {
      buffer = (split (flatten chunks)).1;
      lines = map strip_cr (split (flatten chunks)).0;
    }
unfolding split
feed_lem chunks = feed-split [] chunks

-- Output cut into chunks in two ways gives the same lines, and the same after `end`.
pub feed_rechunk :
    (chunks others : List Text)
    → flatten chunks ≡ flatten others
    → (feed fresh chunks ≡ feed fresh others)
      × (on_end (feed fresh chunks) ≡ on_end (feed fresh others))
feed_rechunk chunks others e =
    let same : feed fresh chunks ≡ feed fresh others = rw (feed_lem chunks, feed_lem others, e) in
    (same, ap on_end same)
