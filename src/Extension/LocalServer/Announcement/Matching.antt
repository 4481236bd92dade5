-- ===== src/Extension/LocalServer/Announcement/Matching.antt =====
-- src/extension/localRustServer.ts: what the regular expression of `onLine` finds.
use Prim.Native.Nat.{◌^◌}
use native.Mathlib.Nat.{pow-succ'}
use nettprogg_vsc.Common.{
  suc, ℕ, ◌+◌, ◌*◌, ◌-◌, Text, [], ◌∷◌, ◌++◌, true, false, ◌==◌, none, some, ◌≡◌, refl, ap, ◌∙◌,
  arith, All, map, length,
}
use nettprogg_vsc.Extension.LocalServer.Announcement.{
  lower, is_digit, keyword, after_keyword, after_colon, after_host, read_digits, read_port, then_on,
  host_and_port, port_at, port_in, or_else,
}

-- The number that some digits denote
unfoldable pub value : Text → ℕ
value [] = 0
value (d ∷ ds) = (d - 48) * 10 ^ length ds + value ds

-- A text that does not go on with a digit
abbrev pub NoDigit : Text → Type 0
NoDigit [] = Unit
NoDigit (c ∷ s) = is_digit c ≡ false

after_keyword-append :
    (ks word s : Text) → map lower word ≡ ks → after_keyword ks (word ++ s) ≡ some s
unfolding after_keyword
after_keyword-append [] [] s e = refl
after_keyword-append [] (c ∷ word) s e = cc
after_keyword-append (k ∷ ks) [] s e = cc
after_keyword-append (k ∷ ks) (c ∷ word) s e = ground (arith, after_keyword-append ks word s)

after_colon-append :
    (host s : Text) → All (λ c. (c == 58) ≡ false) host → after_colon (host ++ 58 ∷ s) ≡ some s
unfolding after_colon
after_colon-append [] s h = refl
after_colon-append (c ∷ host) s (e, h) = rw e (after_colon-append host s h)

carry : (n d m v : ℕ) → (n * 10 + d) * 10 ^ m + v ≡ n * 10 ^ suc m + (d * 10 ^ m + v)
carry n d m v = rw (pow-succ' 10 m) (grind arith)

read_digits-append :
    (n : ℕ) (ds rest : Text)
    → All (λ c. is_digit c ≡ true) ds
    → NoDigit rest
    → read_digits n (ds ++ rest) ≡ n * 10 ^ length ds + value ds
unfolding read_digits value
read_digits-append n [] [] h e = omega arith
read_digits-append n [] (c ∷ rest) h e = rw e (omega arith)
read_digits-append n (d ∷ ds) rest (e, h) q =
    rw e
      (read_digits-append (n * 10 + (d - 48)) ds rest h q ∙ carry n (d - 48) (length ds) (value ds))

-- A host, a colon, some digits and what follows them
abbrev pub address : Text → Text → Text → Text
address host ds rest = host ++ (58 ∷ (ds ++ rest))

port_at-append :
    (word host ds rest : Text) (h d : ℕ)
    → map lower word ≡ keyword
    → All (λ c. (c == 58) ≡ false) (h ∷ host)
    → All (λ c. is_digit c ≡ true) (d ∷ ds)
    → NoDigit rest
    → port_at (word ++ address (h ∷ host) (d ∷ ds) rest) ≡ some (value (d ∷ ds))
unfolding port_at after_host read_port value
port_at-append word host ds rest h d kw (no_colon, no_colons) (digit, digits) end =
    ap (λ o. then_on o host_and_port)
      (after_keyword-append keyword word (address (h ∷ host) (d ∷ ds) rest) kw)
    ∙ rw (no_colon, after_host)
        (ap (λ o. then_on o read_port) (after_colon-append host ((d ∷ ds) ++ rest) no_colons)
          ∙ rw (digit, read_port) (ap some (read_digits-append (d - 48) ds rest digits end)))

-- No match begins within `pre`, which stands before `s`.
abbrev pub NoMatch : Text → Text → Type 0
NoMatch [] s = Unit
NoMatch (c ∷ pre) s = (port_at (c ∷ (pre ++ s)) ≡ none) × NoMatch pre s

port_in-append :
    (pre s : Text) (p : ℕ) → NoMatch pre s → port_at s ≡ some p → port_in (pre ++ s) ≡ some p
unfolding port_in port_at after_keyword
port_in-append [] [] p h e = cc
port_in-append [] (c ∷ s) p h e = ap (λ o. or_else o (port_in s)) e
port_in-append (c ∷ pre) s p (no_match, h) e =
    ap (λ o. or_else o (port_in (pre ++ s))) no_match ∙ port_in-append pre s p h e

-- In a line that says "listening on ws://", in small or capital letters, then a host without a
-- colon, a colon and some digits, with no earlier such place, the number that all these digits
-- denote is found, whatever follows them.
pub port_in_lem :
    (pre word host ds rest : Text) (h d : ℕ)
    → map lower word ≡ keyword
    → All (λ c. (c == 58) ≡ false) (h ∷ host)
    → All (λ c. is_digit c ≡ true) (d ∷ ds)
    → NoDigit rest
    → NoMatch pre (word ++ address (h ∷ host) (d ∷ ds) rest)
    → port_in (pre ++ (word ++ address (h ∷ host) (d ∷ ds) rest)) ≡ some (value (d ∷ ds))
port_in_lem pre word host ds rest h d kw colons digits end no_match =
    port_in-append pre (word ++ address (h ∷ host) (d ∷ ds) rest) (value (d ∷ ds)) no_match
      (port_at-append word host ds rest h d kw colons digits end)
