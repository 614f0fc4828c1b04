-- ===== src/Servers/Accounts.antt =====
-- The totals of the nodes against the servers that stand on them. The abstract account of a node is
-- the sum of what its servers reserve; the columns of `nodes` are kept by single additions and
-- subtractions in panel/src/api/routes/servers.ts.
pub mod Steps
pub mod Routes
use troxe_host.Common.{
  ℕ, ◌+◌, ◌≤◌, Bool, true, false, Option, none, some, List, [], ◌∷◌, ◌++◌, Text, text_eq,
  text_eq_iff, ◌≡◌, refl, sym, ◌∙◌, ap, arith, Bool-cases, inl, inr, ◌⊎◌, All, if◌then◌else◌,
}
use troxe_host.Common.Int.{ℤ, pos, ◌+ℤ◌, ◌-ℤ◌, int_laws}
use troxe_host.Db.{Db, ServerRow, NodeRow}
use troxe_host.Db.Table.{find_where, update_where, delete_where, count_where}
use troxe_host.Db.Counting.{none_counted}
use troxe_host.Workers.Steps.{is_server}

-- the memory that the servers of a node reserve
unfoldable pub charge : Text → List ServerRow → ℕ
charge node_id [] = 0
charge node_id (s ∷ rest) =
    (if text_eq s.node_id node_id then s.memory_mb else 0) + charge node_id rest

abbrev pub share : Text → ServerRow → ℕ
share node_id s = if text_eq s.node_id node_id then s.memory_mb else 0

-- Each node's column holds the sum.
abbrev pub IsAccounted : Db → Type 0
IsAccounted db =
    All (λ (n : NodeRow). n.allocated_memory_mb ≡ pos (charge n.id db.servers)) db.nodes

pub charge-append :
    (node_id : Text) (rest : List ServerRow) (s : ServerRow)
    → charge node_id (rest ++ s ∷ []) ≡ charge node_id rest + share node_id s
unfolding charge
charge-append node_id [] s = omega arith
charge-append node_id (r ∷ rest) s = rw (charge-append node_id rest s) (omega arith)

-- the rows but the one with the id are not touched, where that is the only one
charge-delete_none :
    (node_id id : Text) (rows : List ServerRow)
    → All (λ (s : ServerRow). is_server id s ≡ false) rows
    → charge node_id (delete_where (is_server id) rows) ≡ charge node_id rows
unfolding charge delete_where
charge-delete_none node_id id [] h = refl
charge-delete_none node_id id (r ∷ rows) (miss, h) =
    rw (miss, charge-delete_none node_id id rows h) refl

charge-update_none :
    (node_id id : Text) (f : ServerRow → ServerRow) (rows : List ServerRow)
    → All (λ (s : ServerRow). is_server id s ≡ false) rows
    → charge node_id (update_where (is_server id) f rows) ≡ charge node_id rows
unfolding charge update_where
charge-update_none node_id id f [] h = refl
charge-update_none node_id id f (r ∷ rows) (miss, h) =
    rw (miss, charge-update_none node_id id f rows h) refl

abbrev pub IsOnly : Text → ServerRow → List ServerRow → Type 0
IsOnly id s rows = (find_where (is_server id) rows ≡ some s) × (count_where (is_server id) rows ≡ 1)

-- The row with an id, where it is the only one: the first row, or the only one behind it.
first_or_later :
    (id : Text) (s r : ServerRow) (rows : List ServerRow)
    → IsOnly id s (r ∷ rows)
    → ((is_server id r ≡ true) × (r ≡ s) × All (λ (t : ServerRow). is_server id t ≡ false) rows)
      ⊎ ((is_server id r ≡ false) × IsOnly id s rows)
unfolding find_where count_where
first_or_later id s r rows (found, once) = elim (Bool-cases (is_server id r)) [
  | inl hit ↦
      let counted : 1 + count_where (is_server id) rows ≡ 1 = rw hit at once in
      let here : some r ≡ some s = rw hit at found in
      inl (hit, cc, none_counted (is_server id) rows (omega (arith, counted)))
  | inr miss ↦
      let counted : 0 + count_where (is_server id) rows ≡ 1 = rw miss at once in
      inr (miss, (rw miss at found, omega (arith, counted)))
]

pub charge-delete_where :
    (node_id id : Text) (s : ServerRow) (rows : List ServerRow)
    → IsOnly id s rows
    → charge node_id (delete_where (is_server id) rows) + share node_id s ≡ charge node_id rows
unfolding charge delete_where find_where
charge-delete_where node_id id s [] h = cc (h.0)
charge-delete_where node_id id s (r ∷ rows) h = elim (first_or_later id s r rows h) [
  | inl (hit, same, others) ↦
      let kept = charge-delete_none node_id id rows others in rw (hit, kept, same) (omega arith)
  | inr (miss, later) ↦
      let rest = charge-delete_where node_id id s rows later in rw (miss, ← rest) (omega arith)
]

pub charge-update_where :
    (node_id id : Text) (f : ServerRow → ServerRow) (s : ServerRow) (rows : List ServerRow)
    → IsOnly id s rows
    → charge node_id (update_where (is_server id) f rows) + share node_id s
      ≡ charge node_id rows + share node_id (f s)
unfolding charge update_where find_where
charge-update_where node_id id f s [] h = cc (h.0)
charge-update_where node_id id f s (r ∷ rows) h = elim (first_or_later id s r rows h) [
  | inl (hit, same, others) ↦
      let kept = charge-update_none node_id id f rows others in rw (hit, kept, same) (omega arith)
  | inr (miss, later) ↦
      let rest = charge-update_where node_id id f s rows later in rw miss (omega (arith, rest))
]
