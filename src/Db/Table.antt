-- ===== src/Db/Table.antt =====
-- `SELECT`, `UPDATE` and `DELETE` with a `WHERE` clause over the rows of one table.
use mathlib.Core.Option
use troxe_host.Common.{
  ap, ℕ, ◌+◌, ◌≡◌, refl, Bool, true, false, Option, none, some, List, [], ◌∷◌, arith, if◌then◌else◌,
  Bool-cases, inl, inr,
}

module _ {ℓ} {A : Type ℓ} where
  -- the first row of `SELECT … WHERE p`
  unfoldable pub find_where : (A → Bool) → List A → Option A
  find_where p [] = none
  find_where p (r ∷ rs) = if p r then some r else find_where p rs

  -- the rows of `SELECT … WHERE p`
  unfoldable pub select_where : (A → Bool) → List A → List A
  select_where p [] = []
  select_where p (r ∷ rs) = let rest = select_where p rs in if p r then r ∷ rest else rest

  -- `UPDATE … SET f WHERE p`
  unfoldable pub update_where : (A → Bool) → (A → A) → List A → List A
  update_where p f [] = []
  update_where p f (r ∷ rs) = (if p r then f r else r) ∷ update_where p f rs

  -- `DELETE … WHERE p`
  unfoldable pub delete_where : (A → Bool) → List A → List A
  delete_where p [] = []
  delete_where p (r ∷ rs) = let rest = delete_where p rs in if p r then rest else r ∷ rest

  -- `SELECT COUNT(*) … WHERE p`
  unfoldable pub count_where : (A → Bool) → List A → ℕ
  count_where p [] = 0
  count_where p (r ∷ rs) = (if p r then 1 else 0) + count_where p rs

  -- An update that keeps its own test changes the row that a query by the test finds.
  pub find_where-update_where :
      (p : A → Bool) (f : A → A) (rs : List A)
      → ((r : A) → p r ≡ true → p (f r) ≡ true)
      → find_where p (update_where p f rs) ≡ Option.map f (find_where p rs)
  unfolding find_where update_where
  find_where-update_where p f [] keep = refl
  find_where-update_where p f (r ∷ rs) keep = elim (Bool-cases (p r)) [
    | inl hit ↦ rw (hit, keep r hit)
    | inr miss ↦ rw (miss, miss) (find_where-update_where p f rs keep)
  ]

  -- An update that the query's test does not see leaves the query's answer alone.
  pub find_where-update_where_ne :
      (p q : A → Bool) (f : A → A) (rs : List A)
      → ((r : A) → q r ≡ true → (p (f r) ≡ false) × (p r ≡ false))
      → find_where p (update_where q f rs) ≡ find_where p rs
  unfolding find_where update_where
  find_where-update_where_ne p q f [] apart = refl
  find_where-update_where_ne p q f (r ∷ rs) apart = elim (Bool-cases (q r)) [
    | inl hit ↦
        rw (hit, (apart r hit).0, (apart r hit).1) (find_where-update_where_ne p q f rs apart)
    | inr miss ↦ rw (miss, find_where-update_where_ne p q f rs apart)
  ]

  pub find_where-delete_where :
      (p : A → Bool) (rs : List A) → find_where p (delete_where p rs) ≡ none
  unfolding find_where delete_where
  find_where-delete_where p [] = refl
  find_where-delete_where p (r ∷ rs) = elim (Bool-cases (p r)) [
    | inl hit ↦ rw hit (find_where-delete_where p rs)
    | inr miss ↦ rw (miss, miss) (find_where-delete_where p rs)
  ]

  -- A row that a query finds passes the query's test.
  pub find_where_sound :
      (p : A → Bool) (rs : List A) {r : A} → find_where p rs ≡ some r → p r ≡ true
  unfolding find_where
  find_where_sound p [] h = cc
  find_where_sound p (r ∷ rs) h = elim (Bool-cases (p r)) [
    | inl hit ↦ ground (arith, hit)
    | inr miss ↦ find_where_sound p rs (rw miss at h)
  ]

  pub find_where-delete_where_ne :
      (p q : A → Bool) (rs : List A)
      → ((r : A) → q r ≡ true → p r ≡ false)
      → find_where p (delete_where q rs) ≡ find_where p rs
  unfolding find_where delete_where
  find_where-delete_where_ne p q [] apart = refl
  find_where-delete_where_ne p q (r ∷ rs) apart = elim (Bool-cases (q r)) [
    | inl hit ↦ rw (hit, apart r hit) (find_where-delete_where_ne p q rs apart)
    | inr miss ↦ rw (miss, find_where-delete_where_ne p q rs apart)
  ]

  -- An update of no row changes nothing.
  pub update_where-none :
      (p : A → Bool) (f : A → A) (rs : List A) → find_where p rs ≡ none → update_where p f rs ≡ rs
  unfolding find_where update_where
  update_where-none p f [] h = refl
  update_where-none p f (r ∷ rs) h = elim (Bool-cases (p r)) [
    | inl hit ↦ ground (arith, hit)
    | inr miss ↦ rw miss (ap (λ rest. r ∷ rest) (update_where-none p f rs (rw miss at h)))
  ]

-- `a JOIN b ON …`, where each row of `a` has at most one partner
unfoldable pub join_where {ℓ κ} : {A : Type ℓ} {B : Type κ} → (A → Option B) → List A → List (A × B)
join_where partner [] = []
join_where partner (r ∷ rs) = elim (partner r) [
  | none ↦ join_where partner rs
  | some b ↦ (r, b) ∷ join_where partner rs
]
