-- ===== src/Js/Decimal.antt =====
-- Decimal numerals: what `parseInt` reads back of a printed number.
use mathlib.Core.List.{append_assoc, append-nil}
use mathlib.Core.Option
use troxe_host.Common.{
  ℕ, zero, suc, ◌+◌, ◌/◌, ◌%◌, ◌<◌, ◌≡◌, refl, true, false, none, some, [], ◌∷◌, ◌++◌, Text, arith,
  ltb, if◌then◌else◌, Bool-cases, inl, inr, ◌∙◌, ap, All, All-append, codes,
}
use troxe_host.Common.Int.{pos, negsuc}
use troxe_host.Js.{includes, is_digit, is_space, digits_from, parse_int}

print_on : ℕ → ℕ → Text
print_on zero n = []
print_on (suc k) n =
    let higher = print_on k (n / 10) in
    if ltb n 10 then (48 + n) ∷ [] else higher ++ (48 + n % 10) ∷ []

-- a number in decimal
unfoldable pub print : ℕ → Text
unfolding print_on
print n = print_on (suc n) n

digits_from-print_on :
    (k n : ℕ) (s : Text) → n < k → digits_from none (print_on k n ++ s) ≡ digits_from (some n) s
unfolding print_on digits_from
digits_from-print_on zero n s h = absurd (omega arith)
digits_from-print_on (suc k) n s h = elim (Bool-cases (ltb n 10)) [
  | inl small ↦ ground arith
  | inr large ↦
      rw (large, append_assoc)
        (digits_from-print_on k (n / 10) ((48 + n % 10) ∷ s) (ground arith) ∙ ground arith)
]

digit_low : (n : ℕ) → is_digit (48 + n % 10) ≡ true
digit_low n = ground arith

print_on-digits : (k n : ℕ) → All (λ c. is_digit c ≡ true) (print_on k n)
unfolding print_on
print_on-digits zero n = tt
print_on-digits (suc k) n = elim (Bool-cases (ltb n 10)) [
  | inl small ↦ rw small (ground arith, tt)
  | inr large ↦ rw large (
      All-append (λ c. is_digit c ≡ true) (print_on k (n / 10)) ((48 + n % 10) ∷ [])
        (print_on-digits k (n / 10)) (digit_low n, tt))
]

includes-digits :
    (c : ℕ) (s : Text) → is_digit c ≡ false → All (λ d. is_digit d ≡ true) s → includes c s ≡ false
unfolding includes
includes-digits c [] h k = refl
includes-digits c (d ∷ s) h (k, ks) = ground (arith, includes-digits c s h ks)

-- No character but a digit is in a printed number.
pub includes-print : (c n : ℕ) → is_digit c ≡ false → includes c (print n) ≡ false
unfolding print
includes-print c n h = includes-digits c (print_on (suc n) n) h (print_on-digits (suc n) n)

abbrev pub HasDigit : Text → Type 0
HasDigit [] = ⊥
HasDigit (c ∷ s) = is_digit c ≡ true

pub HasDigit-append : (s t : Text) → HasDigit s → HasDigit (s ++ t)
HasDigit-append [] t h = elim h [ ]
HasDigit-append (c ∷ s) t h = h

print_on-HasDigit : (k n : ℕ) → n < k → HasDigit (print_on k n)
unfolding print_on
print_on-HasDigit zero n h = absurd (omega arith)
print_on-HasDigit (suc k) n h = elim (Bool-cases (ltb n 10)) [
  | inl small ↦ rw small (ground arith)
  | inr large ↦ rw large (
      HasDigit-append (print_on k (n / 10)) ((48 + n % 10) ∷ [])
        (print_on-HasDigit k (n / 10) (ground arith)))
]

parse_int-digit : (s : Text) → HasDigit s → parse_int s ≡ Option.map pos (digits_from none s)
unfolding parse_int is_space
parse_int-digit [] h = elim h [ ]
parse_int-digit (c ∷ s) h = ground arith

pub print-HasDigit : (n : ℕ) → HasDigit (print n)
unfolding print
print-HasDigit n = print_on-HasDigit (suc n) n (omega arith)

-- Printing a number and reading it back gives the number.
pub parse_int-print : (n : ℕ) → parse_int (print n) ≡ some (pos n)
unfolding print digits_from
parse_int-print n =
    parse_int-digit (print_on (suc n) n) (print_on-HasDigit (suc n) n (omega arith))
    ∙ ap (Option.map pos) (rw append-nil at (digits_from-print_on (suc n) n [] (omega arith)))

print_12 : (print 120 ≡ codes "120") × (parse_int (codes " -42x") ≡ some (negsuc 41))
unfolding print parse_int is_space
print_12 = (refl, refl)
