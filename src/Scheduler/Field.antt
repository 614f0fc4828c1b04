-- ===== src/Scheduler/Field.antt =====
-- `matchField` of panel/src/services/scheduler.ts: one field of a cron expression.
pub mod Items
use troxe_host.Common.{
  ℕ, Bool, true, false, ◌&&◌, Option, none, some, List, [], ◌∷◌, Text, ◌==◌, leb, any, text_eq,
  if◌then◌else◌, ◌+◌, ◌≡◌, refl, codes,
}
use troxe_host.Common.Int.{ℤ, pos, pos_part, neg_part, ◌-ℤ◌}
use troxe_host.Js.{includes, split_on, parse_int, parse_int?, rem, is_zero, is_space}

-- `const [first] = pieces`
abbrev first : List Text → Option Text
first [] = none
first (w ∷ ws) = some w

-- `const [_, second] = pieces`
abbrev second : List Text → Option Text
second [] = none
second (w ∷ ws) = first ws

abbrev or_empty : Option Text → Text
or_empty none = []
or_empty (some w) = w

-- `a - b` and `a % b` where one side may be NaN
abbrev minus : ℕ → Option ℤ → Option ℤ
minus value none = none
minus value (some start) = some (pos value -ℤ start)

abbrev rem? : Option ℤ → Option ℤ → Option ℤ
rem? (some a) (some b) = rem a b
rem? _ _ = none

-- `a <= b`, false where a side is NaN
abbrev le? : Option ℤ → Option ℤ → Bool
le? (some a) (some b) = leb (pos_part a + neg_part b) (pos_part b + neg_part a)
le? _ _ = false

-- `a === value`, false where the side is NaN
abbrev is_value : Option ℤ → ℕ → Bool
is_value none value = false
is_value (some a) value = pos_part a == value && neg_part a == 0

-- the branch for a part with a "/": `range` and `step` are the pieces around it
match_step : Text → Option Text → ℕ → Bool
match_step range step_str value =
    let step = parse_int? step_str in
    if text_eq range (b'*' ∷ [])
    then is_zero (rem? (some (pos value)) step)
    else is_zero (rem? (minus value (parse_int? (first (split_on b'-' range)))) step)

-- the branch for a part with a "-" and no "/"
match_range : List Text → ℕ → Bool
match_range pieces value =
    le? (parse_int? (first pieces)) (some (pos value))
    && le? (some (pos value)) (parse_int? (second pieces))

-- one round of the loop over the parts: whether it returns true
match_part : ℕ → Text → Bool
unfolding match_step match_range
match_part value part =
    if includes b'/' part
    then match_step (or_empty (first (split_on b'/' part))) (second (split_on b'/' part)) value
    else if includes b'-' part
    then match_range (split_on b'-' part) value
    else is_value (parse_int part) value

unfoldable pub match_field : Text → ℕ → Bool
unfolding match_part
match_field field value =
    if text_eq field (b'*' ∷ []) then true else any (match_part value) (split_on b',' field)

-- the inputs of tests/scheduler.test.ts
match_field_tests :
    (match_field (codes "*") 59 ≡ true)
    × (match_field (codes "5") 6 ≡ false)
    × (match_field (codes "1,3,5") 3 ≡ true)
    × (match_field (codes "10-20") 21 ≡ false)
    × (match_field (codes "*/15") 30 ≡ true)
    × (match_field (codes "*/15") 20 ≡ false)
    × (match_field (codes "5-59/10") 25 ≡ true)
    × (match_field (codes "5-59/10") 16 ≡ false)
    × (match_field (codes "abc") 0 ≡ false)
unfolding match_field text_eq includes split_on parse_int is_space rem ◌-ℤ◌
match_field_tests = (refl, refl, refl, refl, refl, refl, refl, refl, refl)
