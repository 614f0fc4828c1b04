-- ===== src/Scheduler/Field/Items.antt =====
-- The written forms of a cron field, and what `match_field` makes of each. `print_field` writes a
-- field as a user of the panel does, with a comma between its items.
use troxe_host.Common.{
  ℕ, ◌+◌, ◌-◌, ◌*◌, ◌%◌, ◌<◌, ◌≡◌, refl, ◌∙◌, Bool, true, false, ◌&&◌, List, [], ◌∷◌, ◌++◌, map,
  Text, arith, ◌==◌, leb, any, text_eq, if◌then◌else◌,
}
use troxe_host.Common.Int.{pos, ◌-ℤ◌}
use troxe_host.Js.{includes, split_on, rem, is_zero}
use troxe_host.Js.Splitting.{join, Free, split_on-join, includes-append, includes-append_right}
use troxe_host.Js.Decimal.{
  print, parse_int-print, includes-print, HasDigit, HasDigit-append, print-HasDigit,
}
use troxe_host.Scheduler.Field.{match_field, match_part}

-- "*/n", "a-b/n", "a-b" and "a"
pub data Item : Type 0 where
  every : ℕ → Item
  range_step : ℕ → ℕ → ℕ → Item
  between : ℕ → ℕ → Item
  exactly : ℕ → Item

pub print_item : Item → Text
print_item (every n) = join b'/' (b'*' ∷ []) (print n ∷ [])
print_item (range_step a b n) = join b'/' (join b'-' (print a) (print b ∷ [])) (print n ∷ [])
print_item (between a b) = join b'-' (print a) (print b ∷ [])
print_item (exactly a) = print a

pub print_field : Item → List Item → Text
unfolding print_item
print_field i is = join b',' (print_item i) (map print_item is)

abbrev pub divides : ℕ → ℕ → Bool
divides n d = if n == 0 then false else d % n == 0

-- What the code takes an item to mean. The end `b` of a range with a step has no part in it.
abbrev pub accepts : ℕ → Item → Bool
accepts value (every n) = divides n value
accepts value (range_step a b n) = divides n ((value - a) + (a - value))
accepts value (between a b) = leb a value && leb value b
accepts value (exactly a) = a == value

is_zero-rem : (a n : ℕ) → is_zero (rem (pos a) (pos n)) ≡ divides n a
unfolding rem
is_zero-rem a n = ground arith

is_zero-rem_minus :
    (v a n : ℕ) → is_zero (rem (pos v -ℤ pos a) (pos n)) ≡ divides n ((v - a) + (a - v))
unfolding rem ◌-ℤ◌
is_zero-rem_minus v a n = ground arith

join_two : (sep : ℕ) (w v : Text) → join sep w (v ∷ []) ≡ w ++ sep ∷ v
unfolding join
join_two sep w v = refl

includes-join_two :
    (c sep : ℕ) (w v : Text)
    → (sep == c) ≡ false
    → includes c w ≡ false
    → includes c v ≡ false
    → includes c (join sep w (v ∷ [])) ≡ false
unfolding join
includes-join_two c sep w v d h k =
    includes-append c w (sep ∷ v) h (unfold includes in ground arith)

includes-join_sep : (sep : ℕ) (w v : Text) → includes sep (join sep w (v ∷ [])) ≡ true
unfolding join
includes-join_sep sep w v = includes-append_right sep w (sep ∷ v) (unfold includes in ground arith)

split_on-join_two :
    (sep : ℕ) (w v : Text)
    → includes sep w ≡ false
    → includes sep v ≡ false
    → split_on sep (join sep w (v ∷ [])) ≡ w ∷ v ∷ []
split_on-join_two sep w v h k = split_on-join sep w (v ∷ []) h (k, tt)

text_eq-HasDigit : (s : Text) → HasDigit s → text_eq s (b'*' ∷ []) ≡ false
unfolding text_eq
text_eq-HasDigit [] h = elim h [ ]
text_eq-HasDigit (c ∷ s) h = ground arith

HasDigit-join : (sep : ℕ) (w : Text) (ws : List Text) → HasDigit w → HasDigit (join sep w ws)
unfolding join
HasDigit-join sep w [] h = h
HasDigit-join sep w (v ∷ ws) h = HasDigit-append w (sep ∷ join sep v ws) h

match_part-every : (v n : ℕ) → match_part v (print_item (every n)) ≡ divides n v
unfolding match_part print_item
match_part-every v n =
    rw
      (
        includes-join_sep b'/' (b'*' ∷ []) (print n),
        split_on-join_two b'/' (b'*' ∷ []) (print n) (unfold includes in refl)
            (includes-print b'/' n refl),
        parse_int-print,
      )
      (unfold text_eq in is_zero-rem v n)

slash_free : (a b : ℕ) → includes b'/' (join b'-' (print a) (print b ∷ [])) ≡ false
slash_free a b =
    includes-join_two b'/' b'-' (print a) (print b) refl (includes-print b'/' a refl)
      (includes-print b'/' b refl)

split_on-range :
    (a b : ℕ) → split_on b'-' (join b'-' (print a) (print b ∷ [])) ≡ print a ∷ print b ∷ []
split_on-range a b =
    split_on-join_two b'-' (print a) (print b) (includes-print b'-' a refl)
      (includes-print b'-' b refl)

match_part-range_step :
    (v a b n : ℕ) → match_part v (print_item (range_step a b n)) ≡ divides n ((v - a) + (a - v))
unfolding match_part print_item
match_part-range_step v a b n =
    let range = join b'-' (print a) (print b ∷ []) in
    rw
      (
        includes-join_sep b'/' range (print n),
        split_on-join_two b'/' range (print n) (slash_free a b) (includes-print b'/' n refl),
        text_eq-HasDigit range (HasDigit-join b'-' (print a) (print b ∷ []) (print-HasDigit a)),
        split_on-range a b,
        parse_int-print n,
        parse_int-print a,
      )
      (is_zero-rem_minus v a n)

match_part-between : (v a b : ℕ) → match_part v (print_item (between a b)) ≡ (leb a v && leb v b)
unfolding match_part print_item
match_part-between v a b =
    rw
      (
        slash_free a b,
        includes-join_sep b'-' (print a) (print b),
        split_on-range a b,
        parse_int-print a,
        parse_int-print b,
      )
      (ground arith)

match_part-exactly : (v a : ℕ) → match_part v (print_item (exactly a)) ≡ (a == v)
unfolding match_part print_item
match_part-exactly v a =
    rw (includes-print b'/' a refl, includes-print b'-' a refl, parse_int-print a) (ground arith)

match_part-print_item : (v : ℕ) (i : Item) → match_part v (print_item i) ≡ accepts v i
match_part-print_item v (every n) = match_part-every v n
match_part-print_item v (range_step a b n) = match_part-range_step v a b n
match_part-print_item v (between a b) = match_part-between v a b
match_part-print_item v (exactly a) = match_part-exactly v a

any-match_part :
    (v : ℕ) (is : List Item) → any (match_part v) (map print_item is) ≡ any (accepts v) is
any-match_part v [] = refl
any-match_part v (i ∷ is) = rw (match_part-print_item v i, any-match_part v is)

comma_free : (i : Item) → includes b',' (print_item i) ≡ false
unfolding print_item
comma_free (every n) =
    includes-join_two b',' b'/' (b'*' ∷ []) (print n) refl (unfold includes in refl)
      (includes-print b',' n refl)
comma_free (range_step a b n) =
    includes-join_two b',' b'/' (join b'-' (print a) (print b ∷ [])) (print n) refl
      (includes-join_two b',' b'-' (print a) (print b) refl (includes-print b',' a refl)
        (includes-print b',' b refl))
      (includes-print b',' n refl)
comma_free (between a b) =
    includes-join_two b',' b'-' (print a) (print b) refl (includes-print b',' a refl)
      (includes-print b',' b refl)
comma_free (exactly a) = includes-print b',' a refl

no_comma-map : (is : List Item) → Free b',' (map print_item is)
no_comma-map [] = tt
no_comma-map (i ∷ is) = (comma_free i, no_comma-map is)

print_item-not_star :
    (i : Item) (ws : List Text) → text_eq (join b',' (print_item i) ws) (b'*' ∷ []) ≡ false
unfolding print_item
print_item-not_star (every n) [] = unfold join text_eq in refl
print_item-not_star (every n) (w ∷ ws) = unfold join text_eq in refl
print_item-not_star (range_step a b n) ws = text_eq-HasDigit _ (
    HasDigit-join b',' _ ws (
      HasDigit-join b'/' _ (print n ∷ []) (HasDigit-join b'-' _ (print b ∷ []) (print-HasDigit a))))
print_item-not_star (between a b) ws =
    text_eq-HasDigit _
      (HasDigit-join b',' _ ws (HasDigit-join b'-' _ (print b ∷ []) (print-HasDigit a)))
print_item-not_star (exactly a) ws = text_eq-HasDigit _ (HasDigit-join b',' _ ws (print-HasDigit a))

-- A field that was written from items matches a value exactly when one of its items accepts it.
pub match_field-print_field :
    (i : Item) (is : List Item) (v : ℕ)
    → match_field (print_field i is) v ≡ any (accepts v) (i ∷ is)
unfolding match_field print_field
match_field-print_field i is v =
    rw
      (
        print_item-not_star i (map print_item is),
        split_on-join b',' (print_item i) (map print_item is) (comma_free i) (no_comma-map is),
      )
      (any-match_part v (i ∷ is))

divides-mul : (a n k : ℕ) → 0 < n → divides n (a + k * n - a + (a - (a + k * n))) ≡ true
divides-mul a n k h = let r : (k * n) % n ≡ 0 = grind arith in ground (arith, r)

-- The end of a range with a step is ignored: every value from the start on that is a multiple of
-- the step away from it matches, also one past the end.
pub range_step_overshoot :
    (a b n k : ℕ) → 0 < n → match_field (print_field (range_step a b n) []) (a + k * n) ≡ true
range_step_overshoot a b n k pos_n =
    match_field-print_field (range_step a b n) [] (a + k * n) ∙ rw (divides-mul a n k pos_n)
