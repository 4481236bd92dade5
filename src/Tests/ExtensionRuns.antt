-- ===== src/Tests/ExtensionRuns.antt =====
-- Runs of the line listener and of the document adapter.
use mathlib.Core.List.{flatten}
use nettprogg_vsc.Common.{arith, ℕ, Text, List, [], ◌∷◌, ◌≡◌, refl, map}
use nettprogg_vsc.Common.Int.{pos}
use nettprogg_vsc.Crdt.{CrdtOperation}
use nettprogg_vsc.Crdt.Replica.{returned, Holds}
use nettprogg_vsc.Extension.LineListener.{bytes, receive_lines, fresh, strip_cr}
use nettprogg_vsc.Extension.LineListener.Chunking.{split}
use nettprogg_vsc.Extension.LineListener.Decoding.{DecodesUtf8, receive_lines_lem}
use nettprogg_vsc.Extension.DocumentAdapter.{
  TextChange, apply_change, apply_sorted, apply_text_changes, changes_to_operations,
}
use nettprogg_vsc.Extension.DocumentAdapter.Agreement.{changes_to_operations-agrees}
use nettprogg_vsc.Tests.Doubles.{text_module, text_module-EditsText}

-- "a\r\nb" in three pieces, where every byte is a character
abbrev pieces : List (List ℕ)
pieces = (97 ∷ 13 ∷ []) ∷ (10 ∷ []) ∷ (98 ∷ []) ∷ []

abbrev as_they_are : List ℕ → Text
as_they_are encoded = encoded

abbrev as_they_are-DecodesUtf8 : DecodesUtf8 as_they_are
as_they_are-DecodesUtf8 = record { decode-empty = refl; decode-append = λ before behind h. refl }

abbrev whole : Text
whole = 97 ∷ 13 ∷ 10 ∷ 98 ∷ []

receive_lines_lem_example :
    receive_lines as_they_are fresh (map bytes pieces)
    ≡ record { buffer = (split whole).1; lines = map strip_cr (split whole).0 }
unfolding flatten
receive_lines_lem_example =
    receive_lines_lem as_they_are as_they_are-DecodesUtf8 pieces (refl, (refl, (refl, tt)))

-- In "abc", "b" goes and "xy" is put at the end.
abbrev changes : List TextChange
changes =
    record { range_offset = pos 1; range_length = pos 1; text = [] }
    ∷ record { range_offset = pos 3; range_length = pos 0; text = 120 ∷ 121 ∷ [] }
    ∷ []

changes_to_operations-agrees_example :
    (ops : List CrdtOperation) × (after : Text) × (changes_to_operations text_module changes
        (97 ∷ 98 ∷ 99 ∷ [])
      ≡ returned ops after)
    × Holds text_module (97 ∷ 99 ∷ 120 ∷ 121 ∷ []) after
unfolding apply_text_changes apply_sorted apply_change
changes_to_operations-agrees_example =
    changes_to_operations-agrees text_module text_module-EditsText (97 ∷ 98 ∷ 99 ∷ []) changes
      (97 ∷ 99 ∷ 120 ∷ 121 ∷ []) (omega arith, tt) (refl, (refl, (refl, tt)))
      (tt, ((refl, (refl, tt)), tt)) refl
