-- ===== src/Extension/LocalServer/Announcement.antt =====
-- src/extension/localRustServer.ts: the port in a line of a server's output, which is what the
-- regular expression `/listening on ws:\/\/[^:]+:(\d+)/i` finds in the trimmed line.
pub mod Matching
use nettprogg_vsc.Common.{
  ℕ, ◌+◌, ◌*◌, ◌-◌, Text, List, [], ◌∷◌, ◌++◌, Bool, true, false, ◌&&◌, ◌||◌, ◌==◌, leb, Option,
  none, some, if◌then◌else◌,
}
use mathlib.Core.List.{reverse}

-- What `trim` takes for white space
abbrev pub is_space : ℕ → Bool
is_space c =
    (leb 9 c && leb c 13)
    || (c == 32
        || (c == 160
            || (c == 5760
                || ((leb 8192 c && leb c 8202)
                    || (c == 8232
                        || (c == 8233
                            || (c == 8239 || (c == 8287 || (c == 12288 || c == 65279)))))))))

pub trim_start : Text → Text
trim_start [] = []
trim_start (c ∷ s) = if is_space c then trim_start s else c ∷ s

-- `trim`
pub trim : Text → Text
unfolding trim_start
trim s = reverse (trim_start (reverse (trim_start s)))

-- A letter of the alphabet in lower case: the flag `i`, for a pattern of such letters
abbrev pub lower : ℕ → ℕ
lower c = if leb 65 c && leb c 90 then c + 32 else c

abbrev pub is_digit : ℕ → Bool
is_digit c = leb 48 c && leb c 57

-- "listening on ws://"
abbrev pub keyword : Text
keyword =
    108 ∷ 105 ∷ 115 ∷ 116 ∷ 101 ∷ 110 ∷ 105 ∷ 110 ∷ 103 ∷ 32 ∷ 111 ∷ 110 ∷ 32 ∷ 119 ∷ 115 ∷ 58 ∷ 47
    ∷ 47 ∷ []

-- What follows the keyword, if the text begins with it
unfoldable pub after_keyword : Text → Text → Option Text
after_keyword [] s = some s
after_keyword (k ∷ ks) [] = none
after_keyword (k ∷ ks) (c ∷ s) = if lower c == k then after_keyword ks s else none

-- `[^:]*:`, and what follows it
pub after_colon : Text → Option Text
after_colon [] = none
after_colon (c ∷ s) = if c == 58 then some s else after_colon s

-- `[^:]+:`
pub after_host : Text → Option Text
unfolding after_colon
after_host [] = none
after_host (c ∷ s) = if c == 58 then none else after_colon s

-- `\d*` and `parseInt`, on top of the digits before. The number is exact in the source below 2 ^ 53.
pub read_digits : ℕ → Text → ℕ
read_digits n [] = n
read_digits n (c ∷ s) = if is_digit c then read_digits (n * 10 + (c - 48)) s else n

-- `(\d+)`
pub read_port : Text → Option ℕ
unfolding read_digits
read_port [] = none
read_port (c ∷ s) = if is_digit c then some (read_digits (c - 48) s) else none

abbrev pub then_on : Option Text → (Text → Option ℕ) → Option ℕ
then_on none f = none
then_on (some s) f = f s

abbrev pub host_and_port : Text → Option ℕ
host_and_port s = then_on (after_host s) read_port

-- A match at the beginning of the text
unfoldable pub port_at : Text → Option ℕ
unfolding after_keyword after_host read_port
port_at s = then_on (after_keyword keyword s) host_and_port

abbrev pub or_else : Option ℕ → Option ℕ → Option ℕ
or_else none other = other
or_else (some p) other = some p

-- The leftmost match
pub port_in : Text → Option ℕ
unfolding port_at
port_in [] = none
port_in (c ∷ s) = or_else (port_at (c ∷ s)) (port_in s)

-- The port in a line, as `onLine` finds it
unfoldable pub announced : Text → Option ℕ
unfolding trim port_in
announced line = port_in (trim line)
