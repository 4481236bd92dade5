-- ===== src/Common/Repeats.antt =====
-- Lists in which some elements are said twice or more, one after the other.
use nettprogg_vsc.Common.{List, ◌∷◌, ◌++◌, ◌≡◌, append_assoc, subst, sym}

-- The second list is the first with some of its elements repeated on the spot.
pub data Repeats {ℓ} {A : Type ℓ} (s : List A) : List A → Type ℓ where
  same : Repeats s s
  again :
      (xs : List A) (x : A) (ys : List A) → Repeats s (xs ++ x ∷ ys) → Repeats s (xs ++ x ∷ x ∷ ys)

pub Repeats-eq {ℓ} : {A : Type ℓ} {s t : List A} → s ≡ t → Repeats s t
Repeats-eq {s = s} e = subst (Repeats s) e same

pub Repeats-trans {ℓ} : {A : Type ℓ} {s t u : List A} → Repeats s t → Repeats t u → Repeats s u
Repeats-trans h same = h
Repeats-trans h (again xs x ys r) = again xs x ys (Repeats-trans h r)

pub Repeats-append {ℓ} :
    {A : Type ℓ} {s t : List A} (more : List A) → Repeats s t → Repeats (s ++ more) (t ++ more)
Repeats-append more same = same
Repeats-append {s = s} more (again xs x ys r) =
    subst (Repeats (s ++ more)) (sym (append_assoc xs (x ∷ x ∷ ys) more)) (
      again xs x (ys ++ more)
        (subst (Repeats (s ++ more)) (append_assoc xs (x ∷ ys) more) (Repeats-append more r)))
