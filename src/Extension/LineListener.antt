-- ===== src/Extension/LineListener.antt =====
-- src/extension/localRustServer.ts, `attachLineListener`: splitting a child's output into lines.
-- Text is a list of UTF-16 code units.
pub mod Chunking
pub mod Decoding
use nettprogg_vsc.Common.{
  ℕ, zero, suc, List, [], ◌∷◌, ◌++◌, ◌==◌, if◌then◌else◌, Option, none, some, length, take, drop,
}
use mathlib.Core.Option

abbrev pub Text : Type 0
Text = List ℕ

-- `text.indexOf("\n")`, `none` for -1
pub index_of_newline : Text → Option ℕ
index_of_newline [] = none
index_of_newline (c ∷ s) = if c == 10 then some 0 else Option.map suc (index_of_newline s)

-- `line.replace(/\r$/, "")`: the end of the whole text, as the flag m is not set
pub strip_cr : Text → Text
strip_cr [] = []
strip_cr (c ∷ []) = if c == 13 then [] else c ∷ []
strip_cr (c ∷ d ∷ s) = c ∷ strip_cr (d ∷ s)

-- The variables that the listener keeps for one stream, and the lines that it has handed on.
pub record Stream : Type 0 where
  pub buffer : Text
  pub lines : List Text

abbrev pub fresh : Stream
fresh = record { buffer = []; lines = [] }

-- One line out of the buffer: the body of the `while` loop at a line break found at `i`.
pub take_line : ℕ → Stream → Stream
unfolding strip_cr
take_line i s = record {
  buffer = drop (suc i) s.buffer;
  lines = s.lines ++ strip_cr (take i s.buffer) ∷ [];
}

-- The `while` loop. Every round takes a code unit at least, so the buffer's length is enough fuel.
pub drain : ℕ → Stream → Stream
unfolding index_of_newline
drain zero s = s
drain (suc fuel) s = elim (index_of_newline s.buffer) [
  | none ↦ s
  | some i ↦ drain fuel (take_line i s)
]

-- What a `data` event delivers: a string, or bytes that are decoded, each chunk by itself.
pub data Chunk : Type 0 where
  string : Text → Chunk
  bytes : List ℕ → Chunk

-- The handler of `data`, behind the decoding of the chunk.
unfoldable pub on_data : Stream → Text → Stream
unfolding drain take_line
on_data s chunk =
    let buffer = s.buffer ++ chunk in
    drain (suc (length buffer)) (record { buffer = buffer; lines = s.lines })

-- The handler of `end`: what is left is handed on as it is.
pub on_end : Stream → Stream
on_end s = elim s.buffer [
  | [] ↦ s
  | c ∷ rest ↦ record { buffer = []; lines = s.lines ++ s.buffer ∷ [] }
]

-- The texts of a stream's chunks in order.
unfoldable pub feed : Stream → List Text → Stream
unfolding on_data
feed s [] = s
feed s (chunk ∷ chunks) = feed (on_data s chunk) chunks

-- `decode` is `chunk.toString("utf8")`.
module _ (decode : List ℕ → Text) where
  abbrev pub chunk_text : Chunk → Text
  chunk_text (string text) = text
  chunk_text (bytes encoded) = decode encoded

  -- The handler of `data`
  abbrev pub receive : Stream → Chunk → Stream
  receive s chunk = on_data s (chunk_text chunk)

  -- A stream's `data` events in order
  pub receive_lines : Stream → List Chunk → Stream
  receive_lines s [] = s
  receive_lines s (chunk ∷ chunks) = receive_lines (receive s chunk) chunks
