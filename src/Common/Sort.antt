-- ===== src/Common/Sort.antt =====
-- `Array.prototype.sort`, which is stable: an insertion sort by a comparator's "comes after".
use mathlib.Core.Bool.{Bool}
use mathlib.Core.List.{List, [], ◌∷◌, Perm}
use mathlib.Core.List.Perm
use nettprogg_vsc.Common.{if◌then◌else◌, All, inl, inr, Bool-cases}

module _ {ℓ} {A : Type ℓ} (after : A → A → Bool) where
  -- `after x y` is `compare(x, y) > 0`.
  abbrev pub sort_insert : A → List A → List A
  sort_insert x [] = x ∷ []
  sort_insert x (y ∷ ys) = if after x y then y ∷ sort_insert x ys else x ∷ y ∷ ys

  abbrev pub sort : List A → List A
  sort [] = []
  sort (x ∷ xs) = sort_insert x (sort xs)

  pub sort_insert-All {κ} :
      (P : A → Type κ) (x : A) (ys : List A) → P x → All P ys → All P (sort_insert x ys)
  sort_insert-All P x [] p h = (p, tt)
  sort_insert-All P x (y ∷ ys) p (q, h) = elim (Bool-cases (after x y)) [
    | inl e ↦ rw e (q, sort_insert-All P x ys p h)
    | inr e ↦ rw e (p, (q, h))
  ]

  pub sort-All {κ} : (P : A → Type κ) (xs : List A) → All P xs → All P (sort xs)
  sort-All P [] h = tt
  sort-All P (x ∷ xs) (p, h) = sort_insert-All P x (sort xs) p (sort-All P xs h)

  pub sort_insert-perm : (x : A) (ys : List A) → Perm (sort_insert x ys) (x ∷ ys)
  sort_insert-perm x [] = Perm.refl _
  sort_insert-perm x (y ∷ ys) = elim (Bool-cases (after x y)) [
    | inl e ↦ rw e (Perm.trans (Perm.cons y (sort_insert-perm x ys)) (Perm.swap x y ys))
    | inr e ↦ rw e (Perm.refl _)
  ]

  pub sort-perm : (xs : List A) → Perm (sort xs) xs
  sort-perm [] = Perm.refl _
  sort-perm (x ∷ xs) = Perm.trans (sort_insert-perm x (sort xs)) (Perm.cons x (sort-perm xs))
