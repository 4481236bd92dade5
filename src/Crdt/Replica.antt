-- ===== src/Crdt/Replica.antt =====
-- src/crdt/textCrdt.ts. The compiled module is built from crates/crdt-core and is no part of the
-- TypeScript sources: it is the parameter `WasmModule` here, and the class `TextCrdt` around it is
-- modelled. `none` is a thrown error.
use nettprogg_vsc.Common.{
  ℕ, String, Text, List, [], ◌∷◌, ◌++◌, Option, none, some, Bool, false, ◌&&◌, ◌≡◌, refl, ap, ◌∙◌,
  ◌≤◌, ◌+◌, length, take, drop, leb, map, if◌then◌else◌, All,
}
use nettprogg_vsc.Common.Int.{ℤ, pos, leb_ℤ}
use nettprogg_vsc.Crdt.{CrdtOperation, InsertOp, DeleteOp, ApplyResult, TextCrdtSnapshot}

-- `WasmTextCrdtInstance` and `WasmTextCrdtCtor`. A call that mutates returns the new instance;
-- one that throws leaves the instance as it was.
pub record WasmModule : Type 1 where
  pub Instance : Type 0
  pub create : String → Instance
  pub from_snapshot : TextCrdtSnapshot → String → Option Instance
  pub insert : Instance → ℤ → Text → Option (List CrdtOperation × Instance)
  pub delete : Instance → ℤ → ℤ → Option (List CrdtOperation × Instance)
  pub apply_operation : Instance → CrdtOperation → Option (ApplyResult × Instance)
  pub has_seen : Instance → CrdtOperation → Bool
  pub snapshot : Instance → TextCrdtSnapshot
  pub to_string : Instance → Text

-- No UTF-16 surrogates: every code unit is a character.
abbrev pub is_surrogate : ℕ → Bool
is_surrogate c = leb 55296 c && leb c 57343

abbrev pub IsPlain : Text → Type 0
IsPlain = All (λ c. is_surrogate c ≡ false)

-- What a mutating method of the class does: it returns, or throws with the instance left in some
-- state.
pub data Outcome (I : Type 0) (A : Type 0) : Type 0 where
  returned : A → I → Outcome I A
  threw : I → Outcome I A

abbrev pub instance_after : {I A : Type 0} → Outcome I A → I
instance_after (returned a i) = i
instance_after (threw i) = i

-- `ops.map` with the check of `insert`: the first operation of another type throws.
unfoldable pub only_inserts : List CrdtOperation → Option (List InsertOp)
only_inserts [] = some []
only_inserts (CrdtOperation.insert op ∷ ops) = elim (only_inserts ops) [
  | none ↦ none
  | some rest ↦ some (op ∷ rest)
]
only_inserts (CrdtOperation.delete op ∷ ops) = none

pub only_deletes : List CrdtOperation → Option (List DeleteOp)
only_deletes [] = some []
only_deletes (CrdtOperation.delete op ∷ ops) = elim (only_deletes ops) [
  | none ↦ none
  | some rest ↦ some (op ∷ rest)
]
only_deletes (CrdtOperation.insert op ∷ ops) = none

abbrev kept : {I B : Type 0} → I → Option B → Outcome I B
kept i none = threw i
kept i (some b) = returned b i

abbrev checked : {I A B : Type 0} → (A → Option B) → I → Option (A × I) → Outcome I B
checked f before none = threw before
checked f before (some r) = kept r.1 (f r.0)

pub only_inserts-map :
    (ops : List InsertOp) → only_inserts (map CrdtOperation.insert ops) ≡ some ops
unfolding only_inserts
only_inserts-map [] = refl
only_inserts-map (op ∷ ops) = rw (only_inserts-map ops)

pub only_deletes-map :
    (ops : List DeleteOp) → only_deletes (map CrdtOperation.delete ops) ≡ some ops
unfolding only_deletes
only_deletes-map [] = refl
only_deletes-map (op ∷ ops) = rw (only_deletes-map ops)

module _ (wasm : WasmModule) where
  open wasm use {Instance}

  -- `TextCrdt.insert`
  unfoldable pub insert_text : Instance → ℤ → Text → Outcome Instance (List InsertOp)
  insert_text crdt index [] = returned [] crdt
  insert_text crdt index (c ∷ text) = checked only_inserts crdt (wasm.insert crdt index (c ∷ text))

  -- `TextCrdt.delete`
  unfoldable pub delete_text : Instance → ℤ → ℤ → Outcome Instance (List DeleteOp)
  delete_text crdt index count =
      if leb_ℤ count (pos 0)
      then returned [] crdt
      else checked only_deletes crdt (wasm.delete crdt index count)

  pub insert_text-eq-returned :
      (crdt after : Instance) (index : ℤ) (c : ℕ) (text : Text) (ops : List InsertOp)
      → wasm.insert crdt index (c ∷ text) ≡ some (map CrdtOperation.insert ops, after)
      → insert_text crdt index (c ∷ text) ≡ returned ops after
  unfolding insert_text
  insert_text-eq-returned crdt after index c text ops e =
      ap (checked only_inserts crdt) e ∙ ap (kept after) (only_inserts-map ops)

  pub delete_text-eq-returned :
      (crdt after : Instance) (index count : ℤ) (ops : List DeleteOp)
      → leb_ℤ count (pos 0) ≡ false
      → wasm.delete crdt index count ≡ some (map CrdtOperation.delete ops, after)
      → delete_text crdt index count ≡ returned ops after
  unfolding delete_text
  delete_text-eq-returned crdt after index count ops some_ e =
      rw some_ (ap (checked only_deletes crdt) e ∙ ap (kept after) (only_deletes-map ops))

  -- No element of a replica has a counter above the replica's own. A replica raises its counter
  -- for its own operations only, so this holds as long as it has taken none that is newer.
  abbrev pub IsCurrent : Instance → Type 0
  IsCurrent crdt =
      All (λ e. e.id.counter ≤ (wasm.snapshot crdt).counter) (wasm.snapshot crdt).elements

  -- A current replica with a given text
  abbrev pub Holds : Text → Instance → Type 0
  Holds text crdt = (wasm.to_string crdt ≡ text) × IsCurrent crdt

  -- What is relied on: a local edit within the text of a replica that is current succeeds,
  -- returns operations of its own kind, edits the text as a list, and leaves the replica current.
  -- In a replica that is not, a new element may be sorted behind older ones. An
  -- instance counts characters and the editor UTF-16 code units, so this is asked for texts without
  -- surrogates only.
  pub record EditsText : Type 0 where
    pub insert_edits :
        (crdt : Instance) (index : ℕ) (text : Text)
        → IsCurrent crdt
        → IsPlain (wasm.to_string crdt)
        → IsPlain text
        → index ≤ length (wasm.to_string crdt)
        → (ops : List InsertOp) × (after : Instance) × (wasm.insert crdt (pos index) text
            ≡ some (map CrdtOperation.insert ops, after))
          × Holds
              (take index (wasm.to_string crdt) ++ (text ++ drop index (wasm.to_string crdt)))
              after
    pub delete_edits :
        (crdt : Instance) (index count : ℕ)
        → IsCurrent crdt
        → IsPlain (wasm.to_string crdt)
        → index + count ≤ length (wasm.to_string crdt)
        → (ops : List DeleteOp) × (after : Instance) × (wasm.delete crdt (pos index) (pos count)
            ≡ some (map CrdtOperation.delete ops, after))
          × Holds
              (take index (wasm.to_string crdt) ++ drop (index + count) (wasm.to_string crdt))
              after
