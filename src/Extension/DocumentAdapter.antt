-- ===== src/Extension/DocumentAdapter.antt =====
-- src/extension/documentAdapter.ts: the editor's content changes, applied to a plain text and to
-- the replicated text.
pub mod Agreement
use nettprogg_vsc.Common.{
  ℕ, Text, List, [], ◌∷◌, ◌++◌, Option, none, some, Bool, ◌||◌, if◌then◌else◌, length, take, drop,
  map, ltb,
}
use nettprogg_vsc.Common.Int.{ℤ, pos, ◌+ℤ◌, ltb_ℤ, pos_part}
use nettprogg_vsc.Common.Sort.{sort}
use nettprogg_vsc.Crdt.{CrdtOperation}
use nettprogg_vsc.Crdt.Replica.{WasmModule, Outcome, returned, threw, insert_text, delete_text}

-- `TextDocumentContentChangeLike`
pub record TextChange : Type 0 where
  pub range_offset : ℤ
  pub range_length : ℤ
  pub text : Text

-- The comparator `b.rangeOffset - a.rangeOffset`: greater offsets come first.
abbrev pub by_offset : List TextChange → List TextChange
by_offset = sort (λ a b. ltb_ℤ a.range_offset b.range_offset)

-- One round of `applyTextChanges`; `none` is the RangeError.
unfoldable pub apply_change : Text → TextChange → Option Text
unfolding ◌+ℤ◌
apply_change text change =
    let start = change.range_offset in
    let end_ = change.range_offset +ℤ change.range_length in
    if ltb_ℤ start (pos 0) || (ltb_ℤ end_ start || ltb_ℤ (pos (length text)) end_)
    then none
    else some (take (pos_part start) text ++ (change.text ++ drop (pos_part end_) text))

-- The loop of `applyTextChanges`, over sorted changes
unfoldable pub apply_sorted : Text → List TextChange → Option Text
apply_sorted text [] = some text
apply_sorted text (change ∷ changes) = elim (apply_change text change) [
  | none ↦ none
  | some next ↦ apply_sorted next changes
]

-- `applyTextChanges`
unfoldable pub apply_text_changes : Text → List TextChange → Option Text
unfolding apply_sorted
apply_text_changes text changes = apply_sorted text (by_offset changes)

-- `operations.push(...ops)` for the operations of one call, and then the rest
abbrev pub pushed :
    {I : Type 0}
    → Outcome I (List CrdtOperation)
    → (I → Outcome I (List CrdtOperation))
    → Outcome I (List CrdtOperation)
pushed (threw crdt) rest = threw crdt
pushed (returned ops crdt) rest = elim (rest crdt) [
  | threw crdt' ↦ threw crdt'
  | returned more crdt' ↦ returned (ops ++ more) crdt'
]

abbrev pub wrapped :
    {I A : Type 0} → (A → CrdtOperation) → Outcome I (List A) → Outcome I (List CrdtOperation)
wrapped f (threw crdt) = threw crdt
wrapped f (returned ops crdt) = returned (map f ops) crdt

module _ (wasm : WasmModule) where
  open wasm use {Instance}

  -- The two halves of a round of `changesToOperations`
  unfoldable pub delete_part : Instance → TextChange → Outcome Instance (List CrdtOperation)
  delete_part crdt change =
      if ltb_ℤ (pos 0) change.range_length
      then wrapped CrdtOperation.delete
          (delete_text wasm crdt change.range_offset change.range_length)
      else returned [] crdt

  unfoldable pub insert_part : Instance → TextChange → Outcome Instance (List CrdtOperation)
  insert_part crdt change =
      if ltb 0 (length change.text)
      then wrapped CrdtOperation.insert (insert_text wasm crdt change.range_offset change.text)
      else returned [] crdt

  -- The loop of `changesToOperations`, over sorted changes
  unfoldable pub operations_sorted :
      Instance → List TextChange → Outcome Instance (List CrdtOperation)
  unfolding delete_part insert_part
  operations_sorted crdt [] = returned [] crdt
  operations_sorted crdt (change ∷ changes) =
      pushed (delete_part crdt change)
        λ crdt'. pushed (insert_part crdt' change) λ crdt''. operations_sorted crdt'' changes

  -- `changesToOperations`
  unfoldable pub changes_to_operations :
      List TextChange → Instance → Outcome Instance (List CrdtOperation)
  unfolding operations_sorted
  changes_to_operations changes crdt = operations_sorted crdt (by_offset changes)
