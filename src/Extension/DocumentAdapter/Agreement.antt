-- ===== src/Extension/DocumentAdapter/Agreement.antt =====
-- src/extension/documentAdapter.ts: changesToOperations beside applyTextChanges.
use nettprogg_vsc.Common.{
  ℕ, zero, suc, Text, List, [], ◌∷◌, ◌++◌, none, some, true, false, length, take, drop, map, lt→ltb,
  ◌≡◌, refl, ◌+◌, ◌≤◌, All, arith, sym, ap, ◌∙◌, inl, inr, Option-cases, take-append-drop, subst,
}
use nettprogg_vsc.Common.Int.{ℤ, pos, negsuc, ◌+ℤ◌, ltb_ℤ, leb_ℤ}
use nettprogg_vsc.Common.Sort.{sort-All}
use native.Mathlib.Nat.{add-zero}
use nettprogg_vsc.Crdt.{CrdtOperation}
use nettprogg_vsc.Crdt.Replica.{
  WasmModule, Outcome, returned, EditsText, Holds, IsPlain, IsCurrent, insert_text-eq-returned,
  delete_text-eq-returned,
}
use nettprogg_vsc.Extension.DocumentAdapter.{
  TextChange, apply_change, apply_sorted, apply_text_changes, pushed, delete_part, insert_part,
  operations_sorted, changes_to_operations, by_offset,
}

IsPlain-append : (s t : Text) → IsPlain s → IsPlain t → IsPlain (s ++ t)
IsPlain-append [] t hs ht = ht
IsPlain-append (c ∷ s) t (h, hs) ht = (h, IsPlain-append s t hs ht)

IsPlain-take : (n : ℕ) (s : Text) → IsPlain s → IsPlain (take n s)
IsPlain-take zero s h = tt
IsPlain-take (suc n) [] h = tt
IsPlain-take (suc n) (c ∷ s) (h, hs) = (h, IsPlain-take n s hs)

IsPlain-drop : (n : ℕ) (s : Text) → IsPlain s → IsPlain (drop n s)
IsPlain-drop zero s h = h
IsPlain-drop (suc n) [] h = tt
IsPlain-drop (suc n) (c ∷ s) (h, hs) = IsPlain-drop n s hs

take-append_take : (n : ℕ) (s t : Text) → n ≤ length s → take n (take n s ++ t) ≡ take n s
take-append_take zero s t h = refl
take-append_take (suc n) [] t h = absurd (omega arith)
take-append_take (suc n) (c ∷ s) t h = ap (◌∷◌ c) (take-append_take n s t (omega arith))

drop-append_take : (n : ℕ) (s t : Text) → n ≤ length s → drop n (take n s ++ t) ≡ t
drop-append_take zero s t h = refl
drop-append_take (suc n) [] t h = absurd (omega arith)
drop-append_take (suc n) (c ∷ s) t h = drop-append_take n s t (omega arith)

length-append_take : (n : ℕ) (s t : Text) → n ≤ length s → n ≤ length (take n s ++ t)
length-append_take zero s t h = omega arith
length-append_take (suc n) [] t h = absurd (omega arith)
length-append_take (suc n) (c ∷ s) t h = omega (arith, length-append_take n s t)

-- A change that passes the range check has natural offsets.
record InRange (text next : Text) (change : TextChange) : Type 0 where
  start : ℕ
  count : ℕ
  offset_eq : change.range_offset ≡ pos start
  length_eq : change.range_length ≡ pos count
  fits : start + count ≤ length text
  next_eq : next ≡ take start text ++ (change.text ++ drop (start + count) text)

in_range :
    (text next : Text) (offset count : ℤ) (new : Text)
    → apply_change text (record { range_offset = offset; range_length = count; text = new })
      ≡ some next
    → InRange text next (record { range_offset = offset; range_length = count; text = new })
unfolding apply_change ◌+ℤ◌
in_range text next (pos s) (pos l) new e = record {
  start = s;
  count = l;
  offset_eq = refl;
  length_eq = refl;
  fits = ground arith;
  next_eq = ground arith;
}
in_range text next (pos s) (negsuc l) new e = absurd (ground arith)
in_range text next (negsuc s) count new e = absurd (ground arith)

positive : (n : ℕ) → ltb_ℤ (pos 0) (pos (suc n)) ≡ true
positive n = ground arith

nonzero : (n : ℕ) → leb_ℤ (pos (suc n)) (pos 0) ≡ false
nonzero n = ground arith

module _ (wasm : WasmModule) (law : EditsText wasm) where
  open wasm use {Instance, to_string}

  -- A call that returns, with the text that it leaves.
  abbrev pub Gives : Outcome Instance (List CrdtOperation) → Text → Type 0
  Gives outcome text =
      (ops : List CrdtOperation) × (after : Instance) × (outcome ≡ returned ops after)
      × Holds wasm text after

  pushed-Gives :
      (outcome : Outcome Instance (List CrdtOperation))
      (rest : Instance → Outcome Instance (List CrdtOperation)) (text next : Text)
      → Gives outcome text
      → ((crdt : Instance) → Holds wasm text crdt → Gives (rest crdt) next)
      → Gives (pushed outcome rest) next
  pushed-Gives outcome rest text next (ops, after, e, h) k =
      let (more, last, e', h') = k after h in (ops ++ more, last, rw (e, pushed, e'), h')

  delete_part-Gives :
      (crdt : Instance) (start count : ℕ) (new : Text)
      → IsCurrent wasm crdt
      → IsPlain (to_string crdt)
      → start + count ≤ length (to_string crdt)
      → Gives
          (delete_part wasm crdt
            (record { range_offset = pos start; range_length = pos count; text = new }))
          (take start (to_string crdt) ++ drop (start + count) (to_string crdt))
  unfolding delete_part
  delete_part-Gives crdt start zero new current plain h =
      ([], crdt, refl, (rw add-zero (sym (take-append-drop start (to_string crdt))), current))
  delete_part-Gives crdt start (suc count) new current plain h =
      let (ops, after, e, t) = law.delete_edits crdt start (suc count) current plain h in
      (
        map CrdtOperation.delete ops,
        after,
        rw (
          positive count,
          delete_text-eq-returned wasm crdt after (pos start) (pos (suc count)) ops (nonzero count)
              e,
        ),
        t,
      )

  insert_part-Gives :
      (crdt : Instance) (start : ℕ) (count : ℤ) (new : Text)
      → IsCurrent wasm crdt
      → IsPlain (to_string crdt)
      → IsPlain new
      → start ≤ length (to_string crdt)
      → Gives
          (insert_part wasm crdt
            (record { range_offset = pos start; range_length = count; text = new }))
          (take start (to_string crdt) ++ (new ++ drop start (to_string crdt)))
  unfolding insert_part
  insert_part-Gives crdt start count [] current plain _ h =
      ([], crdt, refl, (sym (take-append-drop start (to_string crdt)), current))
  insert_part-Gives crdt start count (c ∷ new) current plain plain' h =
      let (ops, after, e, t) = law.insert_edits crdt start (c ∷ new) current plain plain' h in
      (
        map CrdtOperation.insert ops,
        after,
        rw (
          lt→ltb 0 (suc (length new)) (omega arith),
          insert_text-eq-returned wasm crdt after (pos start) c new ops e,
        ),
        t,
      )

  abbrev round :
      Instance
      → TextChange
      → (Instance → Outcome Instance (List CrdtOperation))
      → Outcome Instance (List CrdtOperation)
  round crdt change rest =
      pushed (delete_part wasm crdt change) λ crdt'. pushed (insert_part wasm crdt' change) rest

  -- One change: deletion, then insertion at the same place.
  round-Gives_at :
      (crdt : Instance) (start count : ℕ) (new : Text)
      (rest : Instance → Outcome Instance (List CrdtOperation)) (final : Text)
      → IsCurrent wasm crdt
      → IsPlain (to_string crdt)
      → IsPlain new
      → start + count ≤ length (to_string crdt)
      → ((after : Instance)
          → Holds wasm
              (take start (to_string crdt) ++ (new ++ drop (start + count) (to_string crdt)))
              after
          → Gives (rest after) final)
      → Gives
          (round crdt
            (record { range_offset = pos start; range_length = pos count; text = new })
            rest)
          final
  round-Gives_at crdt start count new rest final current plain plain_new fits k =
      let T : Text = to_string crdt in
      let mid : Text = take start T ++ drop (start + count) T in
      let within : start ≤ length T = omega arith in
      let plain_mid : IsPlain mid =
        IsPlain-append (take start T) _ (IsPlain-take start T plain)
          (IsPlain-drop (start + count) T plain) in
      pushed-Gives _ _ mid final (delete_part-Gives crdt start count new current plain fits)
        λ crdt' (h, current').
          pushed-Gives _ rest (take start T ++ (new ++ drop (start + count) T)) final
            (rw
              (
                h,
                take-append_take start T (drop (start + count) T) within,
                drop-append_take start T (drop (start + count) T) within,
              )
              at
              (insert_part-Gives crdt' start (pos count) new current' (rw h plain_mid) plain_new
                (rw h (length-append_take start T (drop (start + count) T) within))))
            k

  round-Gives :
      (crdt : Instance) (next : Text) (change : TextChange)
      (rest : Instance → Outcome Instance (List CrdtOperation)) (final : Text)
      → IsCurrent wasm crdt
      → IsPlain (to_string crdt)
      → IsPlain change.text
      → apply_change (to_string crdt) change ≡ some next
      → ((after : Instance) → Holds wasm next after → Gives (rest after) final)
      → Gives (round crdt change rest) final
  round-Gives crdt next change rest final current plain plain_new e k =
      let r =
        in_range (to_string crdt) next change.range_offset change.range_length change.text e in
      let change_eq : change
          ≡ record { range_offset = pos r.start; range_length = pos r.count; text = change.text } =
        λ i. record {
          range_offset = r.offset_eq i;
          range_length = r.length_eq i;
          text = change.text;
        } in
      subst (λ c. Gives (round crdt c rest) final) (sym change_eq)
        (round-Gives_at crdt r.start r.count change.text rest final current plain plain_new r.fits
          λ after (h, current'). k after (h ∙ sym r.next_eq, current'))

  apply_change-IsPlain :
      (text next : Text) (change : TextChange)
      → IsPlain text
      → IsPlain change.text
      → apply_change text change ≡ some next
      → IsPlain next
  apply_change-IsPlain text next change plain plain_new e =
      let r = in_range text next change.range_offset change.range_length change.text e in
      rw r.next_eq (
        IsPlain-append (take r.start text) _ (IsPlain-take r.start text plain)
          (IsPlain-append change.text _ plain_new (IsPlain-drop (r.start + r.count) text plain)))

  sorted-Gives :
      (crdt : Instance) (text : Text) (changes : List TextChange) (final : Text)
      → Holds wasm text crdt
      → IsPlain text
      → All (λ c. IsPlain c.text) changes
      → apply_sorted text changes ≡ some final
      → Gives (operations_sorted wasm crdt changes) final
  unfolding apply_sorted operations_sorted
  sorted-Gives crdt text [] final (same, current) plain plain_new e =
      ([], crdt, refl, (same ∙ (cc), current))
  sorted-Gives crdt text (change ∷ changes) final (same, current) plain (p, ps) e =
      elim (Option-cases (apply_change text change)) [
        | inl bad ↦ let no_ : none ≡ some final = rw (bad, apply_sorted) at e in cc
        | inr (next, ok) ↦
            round-Gives crdt next change _ final current (rw same plain) p (rw same ok) λ after h.
              sorted-Gives after next changes final h
                (apply_change-IsPlain text next change plain p ok) ps (rw (ok, apply_sorted) at e)
      ]

  -- Where the editor's own reading of some changes succeeds, on the text of a replica that is
  -- current and with no surrogates in text and changes, translating them succeeds too, and leaves
  -- the replica current and its text equal to the editor's.
  pub changes_to_operations-agrees :
      (crdt : Instance) (changes : List TextChange) (final : Text)
      → IsCurrent wasm crdt
      → IsPlain (to_string crdt)
      → All (λ c. IsPlain c.text) changes
      → apply_text_changes (to_string crdt) changes ≡ some final
      → (ops : List CrdtOperation) × (after : Instance) × (changes_to_operations wasm changes crdt
          ≡ returned ops after)
        × Holds wasm final after
  unfolding changes_to_operations apply_text_changes
  changes_to_operations-agrees crdt changes final current plain plain_new e =
      sorted-Gives crdt (to_string crdt) (by_offset changes) final (refl, current) plain
        (sort-All _ (λ c. IsPlain c.text) changes plain_new) e
