-- ===== src/Db/Counting.antt =====
-- How many rows pass a test, after an insertion, an update or a deletion.
use mathlib.Core.Option
use mathlib.Core.Option.{some-injective}
use mathlib.Core.Path.{subst}
use troxe_host.Common.{
  ◌+◌, ◌≤◌, Bool, true, false, none, some, List, [], ◌∷◌, ◌++◌, ◌≡◌, refl, arith, Bool-cases, inl,
  inr, if◌then◌else◌, All,
}
use troxe_host.Db.Table.{find_where, count_where, update_where, delete_where}

module _ {ℓ} {A : Type ℓ} (p : A → Bool) where
  pub count_where-append :
      (rs : List A) (r : A)
      → count_where p (rs ++ r ∷ []) ≡ count_where p rs + (if p r then 1 else 0)
  unfolding count_where
  count_where-append [] r = omega arith
  count_where-append (x ∷ rs) r = rw (count_where-append rs r) (omega arith)

  pub count_where-none :
      (q : A → Bool) (rs : List A)
      → ((r : A) → p r ≡ true → q r ≡ true)
      → find_where q rs ≡ none
      → count_where p rs ≡ 0
  unfolding find_where count_where
  count_where-none q [] implies h = refl
  count_where-none q (r ∷ rs) implies h = elim (Bool-cases (q r)) [
    | inl hit ↦ ground (arith, hit)
    | inr miss ↦ elim (Bool-cases (p r)) [
      | inl holds ↦ ground (arith, miss, implies r holds)
      | inr fails ↦
          let rest = count_where-none q rs implies (rw miss at h) in rw (fails, rest) (omega arith)
    ]
  ]

  pub count_where-update_where :
      (q : A → Bool) (f : A → A) (rs : List A)
      → ((r : A) → q r ≡ true → p (f r) ≡ p r)
      → count_where p (update_where q f rs) ≡ count_where p rs
  unfolding count_where update_where
  count_where-update_where q f [] keep = refl
  count_where-update_where q f (r ∷ rs) keep = elim (Bool-cases (q r)) [
    | inl hit ↦ rw (hit, keep r hit, count_where-update_where q f rs keep) refl
    | inr miss ↦ rw (miss, count_where-update_where q f rs keep) refl
  ]

  pub count_where-delete_where :
      (q : A → Bool) (rs : List A) → count_where p (delete_where q rs) ≤ count_where p rs
  unfolding count_where delete_where
  count_where-delete_where q [] = omega arith
  count_where-delete_where q (r ∷ rs) = elim (Bool-cases (q r)) [
    | inl hit ↦ rw hit (omega (arith, count_where-delete_where q rs))
    | inr miss ↦ rw miss (omega (arith, count_where-delete_where q rs))
  ]

  -- A table where no row passes a test.
  pub none_counted : (rs : List A) → count_where p rs ≡ 0 → All (λ r. p r ≡ false) rs
  unfolding count_where
  none_counted [] h = tt
  none_counted (r ∷ rs) h = elim (Bool-cases (p r)) [
    | inl hit ↦ ground (arith, hit)
    | inr miss ↦
        let less : 0 + count_where p rs ≡ 0 = rw miss at h in
        (miss, none_counted rs (omega (arith, less)))
  ]

  pub none_found : (rs : List A) → find_where p rs ≡ none → count_where p rs ≡ 0
  unfolding count_where find_where
  none_found [] h = refl
  none_found (r ∷ rs) h = elim (Bool-cases (p r)) [
    | inl hit ↦ ground (arith, hit)
    | inr miss ↦ let rest = none_found rs (rw miss at h) in rw (miss, rest) (omega arith)
  ]

  pub some_counted : (rs : List A) {r : A} → find_where p rs ≡ some r → 1 ≤ count_where p rs
  unfolding count_where find_where
  some_counted [] h = cc
  some_counted (r ∷ rs) h = elim (Bool-cases (p r)) [
    | inl hit ↦ rw hit (omega arith)
    | inr miss ↦ let rest = some_counted rs (rw miss at h) in rw miss (omega (arith, rest))
  ]

-- A row that is inserted where no row passed a test.
pub find_where-append {ℓ} :
    {A : Type ℓ} (p : A → Bool) (rs : List A) (r : A)
    → find_where p rs ≡ none
    → p r ≡ true
    → find_where p (rs ++ r ∷ []) ≡ some r
unfolding find_where
find_where-append p [] r h k = rw k refl
find_where-append p (x ∷ rs) r h k = elim (Bool-cases (p x)) [
  | inl hit ↦ ground (arith, hit, h)
  | inr miss ↦ rw miss (find_where-append p rs r (rw miss at h) k)
]

-- What a query finds after an update that its test does not see.
pub find_where-update_each {ℓ} :
    {A : Type ℓ} (p q : A → Bool) (f : A → A) (rs : List A)
    → ((r : A) → p (f r) ≡ p r)
    → find_where p (update_where q f rs)
      ≡ Option.map (λ r. if q r then f r else r) (find_where p rs)
unfolding find_where update_where
find_where-update_each p q f [] keep = refl
find_where-update_each p q f (r ∷ rs) keep = elim (Bool-cases (q r)) [
  | inl hit ↦ elim (Bool-cases (p r)) [
    | inl found ↦ rw (hit, keep r, found, hit) refl
    | inr other ↦ rw (hit, keep r, other) (find_where-update_each p q f rs keep)
  ]
  | inr miss ↦ elim (Bool-cases (p r)) [
    | inl found ↦ rw (miss, found, miss) refl
    | inr other ↦ rw (miss, other) (find_where-update_each p q f rs keep)
  ]
]

-- Where no row passes a test, none passes a narrower one.
pub find_where-none_counted {ℓ} :
    {A : Type ℓ} (p q : A → Bool) (rs : List A)
    → ((r : A) → p r ≡ true → q r ≡ true)
    → count_where q rs ≡ 0
    → find_where p rs ≡ none
unfolding find_where count_where
find_where-none_counted p q [] implies h = refl
find_where-none_counted p q (r ∷ rs) implies h = elim (Bool-cases (p r)) [
  | inl hit ↦ ground (arith, implies r hit, h)
  | inr miss ↦ rw miss (find_where-none_counted p q rs implies (omega (arith, h)))
]

-- A property of all rows, of the one that is found.
pub All-find_where {ℓ κ} :
    {A : Type ℓ} (P : A → Type κ) (p : A → Bool) (rs : List A) {r : A}
    → find_where p rs ≡ some r
    → All P rs
    → P r
unfolding find_where
All-find_where P p [] h k = cc
All-find_where P p (x ∷ rs) h (k, ks) = elim (Bool-cases (p x)) [
  | inl hit ↦ subst P (some-injective _ _ (rw hit at h)) k
  | inr miss ↦ All-find_where P p rs (rw miss at h) ks
]

-- Rows that are all changed by one function.
pub All-update_where {ℓ κ} :
    {A : Type ℓ} (P Q : A → Type κ) (q : A → Bool) (f : A → A) (rs : List A)
    → ((r : A) → q r ≡ true → P r → Q (f r))
    → ((r : A) → q r ≡ false → P r → Q r)
    → All P rs
    → All Q (update_where q f rs)
unfolding update_where
All-update_where P Q q f [] on_hit on_miss h = tt
All-update_where P Q q f (r ∷ rs) on_hit on_miss (h, hs) = elim (Bool-cases (q r)) [
  | inl hit ↦ rw hit (on_hit r hit h, All-update_where P Q q f rs on_hit on_miss hs)
  | inr miss ↦ rw miss (on_miss r miss h, All-update_where P Q q f rs on_hit on_miss hs)
]

pub All-delete_where {ℓ κ} :
    {A : Type ℓ} (P : A → Type κ) (q : A → Bool) (rs : List A)
    → All P rs
    → All P (delete_where q rs)
unfolding delete_where
All-delete_where P q [] h = tt
All-delete_where P q (r ∷ rs) (h, hs) = elim (Bool-cases (q r)) [
  | inl hit ↦ rw hit (All-delete_where P q rs hs)
  | inr miss ↦ rw miss (h, All-delete_where P q rs hs)
]

pub All-map {ℓ κ} :
    {A : Type ℓ} (P Q : A → Type κ) (rs : List A) → ((r : A) → P r → Q r) → All P rs → All Q rs
All-map P Q [] f h = tt
All-map P Q (r ∷ rs) f (h, hs) = (f r h, All-map P Q rs f hs)

pub All-both {ℓ κ} :
    {A : Type ℓ} (P Q R : A → Type κ) (rs : List A)
    → ((r : A) → P r → Q r → R r)
    → All P rs
    → All Q rs
    → All R rs
All-both P Q R [] f h k = tt
All-both P Q R (r ∷ rs) f (h, hs) (k, ks) = (f r h k, All-both P Q R rs f hs ks)
