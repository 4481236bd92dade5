-- ===== src/Extension/LineListener/Decoding.antt =====
-- src/extension/localRustServer.ts, `attachLineListener`: lines of output that comes as bytes.
use nettprogg_vsc.Common.{
  ℕ, List, [], ◌∷◌, ◌++◌, Bool, true, ◌||◌, ltb, leb, map, ◌≡◌, refl, sym, ap, ◌∙◌, All,
}
use mathlib.Core.List.{flatten}
use nettprogg_vsc.Extension.LineListener.{
  Text, Stream, bytes, strip_cr, on_data, feed, fresh, receive_lines,
}
use nettprogg_vsc.Extension.LineListener.Chunking.{split, feed_lem}

-- The bytes, if any, begin with one that does not continue a character of UTF-8.
abbrev pub starts_character : List ℕ → Bool
starts_character [] = true
starts_character (c ∷ encoded) = ltb c 128 || leb 192 c

-- What is relied on of `toString("utf8")`, for correct and incorrect bytes alike: a byte that does not
-- continue a character begins a new one, whatever is before it.
pub record DecodesUtf8 (decode : List ℕ → Text) : Type 0 where
  pub decode-empty : decode [] ≡ []
  pub decode-append :
      (before behind : List ℕ)
      → starts_character behind ≡ true
      → decode (before ++ behind) ≡ decode before ++ decode behind

abbrev pub StartCharacters : List (List ℕ) → Type 0
StartCharacters = All (λ encoded. starts_character encoded ≡ true)

starts_append :
    (before behind : List ℕ)
    → starts_character before ≡ true
    → starts_character behind ≡ true
    → starts_character (before ++ behind) ≡ true
starts_append [] behind h k = k
starts_append (c ∷ before) behind h k = h

starts_flatten :
    (chunks : List (List ℕ)) → StartCharacters chunks → starts_character (flatten chunks) ≡ true
unfolding flatten
starts_flatten [] h = refl
starts_flatten (chunk ∷ chunks) (h, hs) =
    starts_append chunk (flatten chunks) h (starts_flatten chunks hs)

module _ (decode : List ℕ → Text) (law : DecodesUtf8 decode) where
  decode-flatten :
      (chunks : List (List ℕ))
      → StartCharacters chunks
      → flatten (map decode chunks) ≡ decode (flatten chunks)
  unfolding flatten
  decode-flatten [] h = sym law.decode-empty
  decode-flatten (chunk ∷ chunks) (h, hs) =
      ap (λ rest. decode chunk ++ rest) (decode-flatten chunks hs)
      ∙ sym (law.decode-append chunk (flatten chunks) (starts_flatten chunks hs))

  receive_lines-feed :
      (s : Stream) (chunks : List (List ℕ))
      → receive_lines decode s (map bytes chunks) ≡ feed s (map decode chunks)
  unfolding receive_lines feed
  receive_lines-feed s [] = refl
  receive_lines-feed s (chunk ∷ chunks) = receive_lines-feed (on_data s (decode chunk)) chunks

  -- However the bytes of an output are cut into chunks, if no cut is inside a character: the lines
  -- handed on are the complete lines of the whole output, decoded as one, each less a carriage return
  -- at its end, and the buffer holds what follows the last line break.
  pub receive_lines_lem :
      (chunks : List (List ℕ))
      → StartCharacters chunks
      → let whole = split (decode (flatten chunks)) in
        receive_lines decode fresh (map bytes chunks)
        ≡ record { buffer = whole.1; lines = map strip_cr whole.0 }
  receive_lines_lem chunks h =
      receive_lines-feed fresh chunks
      ∙ (feed_lem (map decode chunks)
          ∙ ap (λ text. record { buffer = (split text).1; lines = map strip_cr (split text).0 })
              (decode-flatten chunks h))
