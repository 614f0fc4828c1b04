-- ===== src/Servers/Databases/Choice.antt =====
-- The choice of the host for a new database.
use mathlib.Core.Option.{some-injective}
use mathlib.Core.Path.{subst}
use troxe_host.Common.{
  ℕ, ◌≤◌, Bool, true, false, some, List, [], ◌∷◌, ◌≡◌, arith, Bool-cases, inl, inr, ltb, All, ◌⊎◌,
}
use troxe_host.Db.{Db, DatabaseHostRow}
use troxe_host.Db.Table.{find_where, find_where_sound}
use troxe_host.Db.Counting.{All-map}
use troxe_host.Servers.Databases.{load, insert_by, by_load, has_room, choose_host}

module _ {κ} (P : DatabaseHostRow → Type κ) (key : DatabaseHostRow → ℕ) where
  All-insert_by :
      (h : DatabaseHostRow) (hosts : List DatabaseHostRow)
      → P h
      → All P hosts
      → All P (insert_by key h hosts)
  unfolding insert_by
  All-insert_by h [] p ps = (p, tt)
  All-insert_by h (k ∷ rest) p (q, qs) = elim (Bool-cases (ltb (key h) (key k))) [
    | inl less ↦ rw less (p, (q, qs))
    | inr more ↦ rw more (q, All-insert_by h rest p qs)
  ]

  pub All-by_load : (hosts : List DatabaseHostRow) → All P hosts → All P (by_load key hosts)
  unfolding by_load
  All-by_load [] ps = tt
  All-by_load (h ∷ hosts) (p, ps) = All-insert_by h (by_load key hosts) p (All-by_load hosts ps)

  insert_by-All :
      (h : DatabaseHostRow) (hosts : List DatabaseHostRow)
      → All P (insert_by key h hosts)
      → P h × All P hosts
  unfolding insert_by
  insert_by-All h [] ps = ps
  insert_by-All h (k ∷ rest) ps = elim (Bool-cases (ltb (key h) (key k))) [
    | inl less ↦ rw less at ps
    | inr more ↦
        let (q, qs) : P k × All P (insert_by key h rest) = rw more at ps in
        let (p, rs) = insert_by-All h rest qs in (p, (q, rs))
  ]

  pub by_load-All : (hosts : List DatabaseHostRow) → All P (by_load key hosts) → All P hosts
  unfolding by_load
  by_load-All [] ps = tt
  by_load-All (h ∷ hosts) ps =
      let (p, rest) = insert_by-All h (by_load key hosts) ps in (p, by_load-All hosts rest)

-- the hosts in order of their count
abbrev IsSorted : (DatabaseHostRow → ℕ) → List DatabaseHostRow → Type 0
IsSorted key [] = Unit
IsSorted key (h ∷ hosts) = All (λ r. key h ≤ key r) hosts × IsSorted key hosts

insert_by-IsSorted :
    (key : DatabaseHostRow → ℕ) (h : DatabaseHostRow) (hosts : List DatabaseHostRow)
    → IsSorted key hosts
    → IsSorted key (insert_by key h hosts)
unfolding insert_by
insert_by-IsSorted key h [] sorted = (tt, tt)
insert_by-IsSorted key h (k ∷ rest) (low, sorted) = elim (Bool-cases (ltb (key h) (key k))) [
  | inl less ↦
      let below : key h ≤ key k = ground (arith, less) in
      rw less ((below, All-map _ _ rest (λ r le. omega (arith, below, le)) low), (low, sorted))
  | inr more ↦
      rw more (
        All-insert_by _ key h rest (ground (arith, more)) low,
        insert_by-IsSorted key h rest sorted,
      )
]

by_load-IsSorted :
    (key : DatabaseHostRow → ℕ) (hosts : List DatabaseHostRow) → IsSorted key (by_load key hosts)
unfolding by_load
by_load-IsSorted key [] = tt
by_load-IsSorted key (h ∷ hosts) =
    insert_by-IsSorted key h (by_load key hosts) (by_load-IsSorted key hosts)

-- the first host that passes a test, in a list in order
first_least :
    (key : DatabaseHostRow → ℕ) (p : DatabaseHostRow → Bool) (hosts : List DatabaseHostRow)
    {h : DatabaseHostRow}
    → IsSorted key hosts
    → find_where p hosts ≡ some h
    → All (λ r. (p r ≡ false) ⊎ (key h ≤ key r)) hosts
unfolding find_where
first_least key p [] sorted found = tt
first_least key p (k ∷ rest) {h} (low, sorted) found = elim (Bool-cases (p k)) [
  | inl hit ↦
      let is_k : k ≡ h = some-injective _ _ (rw hit at found) in
      subst (λ x. All (λ r. (p r ≡ false) ⊎ (key x ≤ key r)) (k ∷ rest)) is_k
        (inr (omega arith), All-map _ _ rest (λ r le. inr le) low)
  | inr miss ↦ (inl miss, first_least key p rest sorted (rw miss at found))
]

-- The host that is chosen for a database has room, and no host with room has fewer databases.
pub choose_host-least :
    (db : Db) {h : DatabaseHostRow}
    → choose_host db ≡ some h
    → (has_room db h ≡ true)
      × All (λ r. (has_room db r ≡ false) ⊎ (load db h ≤ load db r)) db.database_hosts
unfolding choose_host
choose_host-least db chosen = (
  find_where_sound (has_room db) _ chosen,
  by_load-All _ (load db) db.database_hosts
      (first_least (load db) (has_room db) _ (by_load-IsSorted (load db) db.database_hosts) chosen),
)
