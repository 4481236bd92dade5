-- ===== src/Common/Dict.antt =====
-- A JavaScript `Map` with text keys: an association list in the order of insertion.
use nettprogg_vsc.Common.{
  Bool, true, String, List, [], ◌∷◌, Option, none, some, ◌≡◌, refl, str_eq, eq_iff, eq_refl,
  if◌then◌else◌, arith, All, map,
}

abbrev pub Dict {ℓ} : Type ℓ → Type ℓ
Dict V = List (String × V)

module _ {ℓ} {V : Type ℓ} where
  -- `map.get(k)`
  abbrev pub lookup : String → Dict V → Option V
  lookup k [] = none
  lookup k ((j, v) ∷ m) = if str_eq j k then some v else lookup k m

  -- `map.set(k, v)`: a key that is there keeps its place.
  abbrev pub insert : String → V → Dict V → Dict V
  insert k v [] = (k, v) ∷ []
  insert k v ((j, w) ∷ m) = if str_eq j k then (j, v) ∷ m else (j, w) ∷ insert k v m

  -- `map.delete(k)`
  abbrev pub delete : String → Dict V → Dict V
  delete k [] = []
  delete k ((j, w) ∷ m) = if str_eq j k then delete k m else (j, w) ∷ delete k m

  -- Deletes the entries that fail a test, as a loop over the map does.
  abbrev pub keep_if : (V → Bool) → Dict V → Dict V
  keep_if p [] = []
  keep_if p ((j, w) ∷ m) = if p w then (j, w) ∷ keep_if p m else keep_if p m

  abbrev pub values : Dict V → List V
  values = map (λ e. e.1)

  abbrev pub keys : Dict V → List String
  keys = map (λ e. e.0)

  pub lookup-insert :
      (k j : String) (v : V) (m : Dict V)
      → lookup j (insert k v m) ≡ (if str_eq k j then some v else lookup j m)
  lookup-insert k j v [] = refl
  lookup-insert k j v ((i, w) ∷ m) =
      ground (arith, eq_iff k j, eq_iff i k, eq_iff i j, lookup-insert k j v m)

  pub lookup-delete :
      (k j : String) (m : Dict V)
      → lookup j (delete k m) ≡ (if str_eq k j then none else lookup j m)
  lookup-delete k j [] = ground arith
  lookup-delete k j ((i, w) ∷ m) =
      ground (arith, eq_iff k j, eq_iff i k, eq_iff i j, lookup-delete k j m)

  -- An entry that passes the test is found as before.
  pub lookup-keep_if :
      (p : V → Bool) (k : String) (v : V) (m : Dict V)
      → lookup k m ≡ some v
      → p v ≡ true
      → lookup k (keep_if p m) ≡ some v
  lookup-keep_if p k v [] e h = cc
  lookup-keep_if p k v ((i, w) ∷ m) e h = ground (arith, lookup-keep_if p k v m)

  pub insert-All {κ} :
      (P : V → Type κ) (k : String) (v : V) (m : Dict V)
      → P v
      → All (λ e. P e.1) m
      → All (λ e. P e.1) (insert k v m)
  insert-All P k v [] p h = (p, tt)
  insert-All P k v ((i, w) ∷ m) p (q, h) = ground (arith, insert-All P k v m p h)

  pub lookup-keep_if-none :
      (p : V → Bool) (k : String) (m : Dict V) → lookup k m ≡ none → lookup k (keep_if p m) ≡ none
  lookup-keep_if-none p k [] e = refl
  lookup-keep_if-none p k ((i, w) ∷ m) e = ground (arith, lookup-keep_if-none p k m)

module _ {ℓ} {V : Type ℓ} where
  pub lookup-insert_self : (k : String) (v : V) (m : Dict V) → lookup k (insert k v m) ≡ some v
  lookup-insert_self k v m = rw (lookup-insert k k v m, eq_refl k)

  pub lookup-delete_self : (k : String) (m : Dict V) → lookup k (delete k m) ≡ none
  lookup-delete_self k m = rw (lookup-delete k k m, eq_refl k)
