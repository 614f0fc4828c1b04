-- ===== src/Js.antt =====
-- The string and number functions of JavaScript that the panel's code calls: `includes` of one
-- character, `split` by a character and by /\s+/, `trim`, `parseInt(_, 10)` and `%`.
-- `none` stands for NaN. Numbers are exact, where JavaScript rounds beyond 2^53.
pub mod Splitting
pub mod Decimal
pub mod Words
use mathlib.Core.Option
use mathlib.Core.List.{reverse}
use troxe_host.Common.{
  ℕ, zero, suc, ◌+◌, ◌-◌, ◌*◌, ◌%◌, Bool, true, false, ◌&&◌, ◌||◌, Option, none, some, List, [],
  ◌∷◌, Text, any, leb, ◌==◌, if◌then◌else◌,
}
use troxe_host.Common.Int.{ℤ, pos, negsuc, pos_part, neg_part, sub_ℕ}

unfoldable pub includes : ℕ → Text → Bool
includes c s = any (λ d. d == c) s

-- `c` put in front of the first piece
abbrev pub cons_head : ℕ → List Text → List Text
cons_head c [] = (c ∷ []) ∷ []
cons_head c (w ∷ ws) = (c ∷ w) ∷ ws

-- `s.split(sep)` for a one-character separator
unfoldable pub split_on : ℕ → Text → List Text
split_on sep [] = [] ∷ []
split_on sep (c ∷ s) = let rest = split_on sep s in if c == sep then [] ∷ rest else cons_head c rest

-- `s.substring(0, n)`
unfoldable pub take : ℕ → Text → Text
take zero s = []
take (suc n) [] = []
take (suc n) (c ∷ s) = c ∷ take n s

-- `s.substring(n)`
unfoldable pub drop : ℕ → Text → Text
drop zero s = s
drop (suc n) [] = []
drop (suc n) (c ∷ s) = drop n s

-- `s.startsWith(p)`
abbrev pub starts_with : Text → Text → Bool
starts_with [] s = true
starts_with (c ∷ p) [] = false
starts_with (c ∷ p) (d ∷ s) = c == d && starts_with p s

-- white space and line terminators, as `\s` and `trim` have them
unfoldable pub is_space : ℕ → Bool
is_space c =
    leb 9 c && leb c 13
    || c == 32
    || c == 160
    || c == 5760
    || leb 8192 c && leb c 8202
    || c == 8232
    || c == 8233
    || c == 8239
    || c == 8287
    || c == 12288
    || c == 65279

abbrev starts_space : Text → Bool
starts_space [] = false
starts_space (c ∷ s) = is_space c

-- `s.split(/\s+/)`: a run of spaces is one separator
unfoldable pub split_spaces : Text → List Text
split_spaces [] = [] ∷ []
split_spaces (c ∷ s) =
    let rest = split_spaces s in
    if is_space c then (if starts_space s then rest else [] ∷ rest) else cons_head c rest

unfoldable pub trim_start : Text → Text
trim_start [] = []
trim_start (c ∷ s) = if is_space c then trim_start s else c ∷ s

unfoldable pub trim : Text → Text
unfolding trim_start
trim s = reverse (trim_start (reverse (trim_start s)))

abbrev pub is_digit : ℕ → Bool
is_digit c = leb 48 c && leb c 57

abbrev so_far : Option ℕ → ℕ
so_far none = 0
so_far (some n) = n

-- the longest run of digits; `none` when there is none
unfoldable pub digits_from : Option ℕ → Text → Option ℕ
digits_from acc [] = acc
digits_from acc (c ∷ s) =
    let more = digits_from (some (so_far acc * 10 + (c - 48))) s in if is_digit c then more else acc

abbrev negate : ℕ → ℤ
negate n = sub_ℕ 0 n

signed : Text → Option ℤ
unfolding digits_from
signed [] = none
signed (c ∷ s) =
    if c == b'-'
    then Option.map negate (digits_from none s)
    else if c == b'+'
    then Option.map pos (digits_from none s)
    else Option.map pos (digits_from none (c ∷ s))

-- `parseInt(s, 10)`
unfoldable pub parse_int : Text → Option ℤ
unfolding signed trim_start
parse_int s = signed (trim_start s)

-- `parseInt` of what may be undefined, which reads the text "undefined"
abbrev pub parse_int? : Option Text → Option ℤ
parse_int? none = none
parse_int? (some s) = parse_int s

abbrev magnitude : ℤ → ℕ
magnitude n = pos_part n + neg_part n

-- `a % b`: it has the sign of `a`, and `a % 0` is NaN
unfoldable pub rem : ℤ → ℤ → Option ℤ
rem a b =
    let r = magnitude a % magnitude b in
    if magnitude b == 0 then none else some (if neg_part a == 0 then pos r else negate r)

-- `x === 0`
abbrev pub is_zero : Option ℤ → Bool
is_zero none = false
is_zero (some n) = magnitude n == 0
