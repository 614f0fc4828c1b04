-- ===== src/Servers/Accounts/Steps.antt =====
-- The creation, the transfer and the removal of servers keep the accounts of the nodes.
use mathlib.Core.Path.{subst}
use troxe_host.Common.{
  ℕ, ◌+◌, ◌≤◌, true, false, some, List, [], ◌∷◌, ◌++◌, Text, text_eq, text_eq_iff, text_eq_sym, ◌≡◌,
  refl, sym, ◌∙◌, ap, arith, Bool-cases, inl, inr, All,
}
use troxe_host.Common.Int.{ℤ, pos, ◌+ℤ◌, ◌-ℤ◌, int_laws}
use troxe_host.Db.{Db, ServerRow, NodeRow}
use troxe_host.Db.Table.{find_where, update_where, delete_where, count_where}
use troxe_host.Db.Counting.{
  All-update_where, count_where-append, count_where-update_where, count_where-delete_where,
  some_counted,
}
use troxe_host.Workers.Steps.{is_server, update_server}
use troxe_host.Workers.Removal.{drop_server}
use troxe_host.Servers.{release, free, free_known, claim, add_resources, subtract_resources}
use troxe_host.Servers.Create.{reserve}
use troxe_host.Servers.Transfer.{Move, reassign}
use troxe_host.Servers.Accounts.{
  charge, share, IsAccounted, IsOnly, charge-append, charge-delete_where, charge-update_where,
}

-- No id is that of two servers.
abbrev pub IsDistinct : Db → Type 0
IsDistinct db = (id : Text) → count_where (is_server id) db.servers ≤ 1

share_hit :
    (s : ServerRow) (node_id : Text)
    → text_eq node_id s.node_id ≡ true
    → share node_id s ≡ s.memory_mb
share_hit s node_id h = rw (text_eq_sym s.node_id node_id, h) refl

share_miss :
    (s : ServerRow) (node_id : Text) → text_eq node_id s.node_id ≡ false → share node_id s ≡ 0
share_miss s node_id h = rw (text_eq_sym s.node_id node_id, h) refl

add_pos : (x : ℤ) (a b c : ℕ) → x ≡ pos a → a + b ≡ c → x +ℤ pos b ≡ pos c
add_pos x a b c e h = grind int_laws

sub_pos : (x : ℤ) (a b c : ℕ) → x ≡ pos a → c + b ≡ a → x -ℤ pos b ≡ pos c
sub_pos x a b c e h = grind int_laws

-- what a sum of a node's servers is after a change, where the node gains or loses a share
abbrev Sums : List ServerRow → NodeRow → Type 0
Sums servers n = n.allocated_memory_mb ≡ pos (charge n.id servers)

add_resources-Sums :
    (memory disk : ℕ) (id : Text) (before after : List ServerRow) (db : Db)
    → ((node : Text) → text_eq node id ≡ true → charge node before + memory ≡ charge node after)
    → ((node : Text) → text_eq node id ≡ false → charge node before ≡ charge node after)
    → All (Sums before) db.nodes
    → All (Sums after) (add_resources memory disk id db).nodes
unfolding add_resources
add_resources-Sums memory disk id before after db gain same h =
    All-update_where (Sums before) (Sums after) (λ n. text_eq n.id id) _ db.nodes
      (λ n hit e. add_pos n.allocated_memory_mb _ memory _ e (gain n.id hit))
      (λ n miss e. e ∙ ap pos (same n.id miss)) h

subtract_resources-Sums :
    (memory disk : ℕ) (id : Text) (before after : List ServerRow) (db : Db)
    → ((node : Text) → text_eq node id ≡ true → charge node after + memory ≡ charge node before)
    → ((node : Text) → text_eq node id ≡ false → charge node before ≡ charge node after)
    → All (Sums before) db.nodes
    → All (Sums after) (subtract_resources memory disk id db).nodes
unfolding subtract_resources
subtract_resources-Sums memory disk id before after db loss same h =
    All-update_where (Sums before) (Sums after) (λ n. text_eq n.id id) _ db.nodes
      (λ n hit e. sub_pos n.allocated_memory_mb _ memory _ e (loss n.id hit))
      (λ n miss e. e ∙ ap pos (same n.id miss)) h

reserve-IsAccounted :
    (s : ServerRow) (a : Text) (now : ℕ) (db : Db)
    → IsAccounted db
    → IsAccounted (reserve s a now db)
unfolding reserve claim add_resources
reserve-IsAccounted s a now db h =
    add_resources-Sums s.memory_mb s.disk_mb s.node_id db.servers (db.servers ++ s ∷ [])
      (claim s.id a now (record db { servers = db.servers ++ s ∷ [] }))
      (λ node hit.
        ap (λ m. charge node db.servers + m) (sym (share_hit s node hit))
        ∙ sym (charge-append node db.servers s))
      (λ node miss. omega (arith, charge-append node db.servers s, share_miss s node miss)) h

remove-IsAccounted :
    (s : ServerRow) (db : Db)
    → IsOnly s.id s db.servers
    → IsAccounted db
    → IsAccounted (drop_server s.id (release s db))
unfolding release drop_server free subtract_resources
remove-IsAccounted s db only h =
    subtract_resources-Sums s.memory_mb s.disk_mb s.node_id db.servers
      (delete_where (is_server s.id) db.servers) (free_known s.allocation_id db)
      (λ node hit.
        ap (λ m. charge node (delete_where (is_server s.id) db.servers) + m)
          (sym (share_hit s node hit))
        ∙ charge-delete_where node s.id s db.servers only)
      (λ node miss.
        omega (arith, charge-delete_where node s.id s db.servers only, share_miss s node miss))
      h

-- the server's row before and after a transfer
abbrev moved : Move → ServerRow → ServerRow
moved m r = record r { node_id = m.new_node_id; allocation_id = some m.new_allocation_id }

-- taking the row out and putting it back changed
charge-moved :
    (m : Move) (servers : List ServerRow) (node : Text)
    → IsOnly m.server.id m.server servers
    → charge node (delete_where (is_server m.server.id) servers) + share node (moved m m.server)
      ≡ charge node (update_where (is_server m.server.id) (moved m) servers)
charge-moved m servers node only = omega (
  arith,
  charge-delete_where node m.server.id m.server servers only,
  charge-update_where node m.server.id (moved m) m.server servers only,
)

transfer-IsAccounted :
    (m : Move) (now : ℕ) (db : Db)
    → IsOnly m.server.id m.server db.servers
    → IsAccounted db
    → IsAccounted (reassign m now db)
unfolding reassign free claim update_server
transfer-IsAccounted m now db only h =
    let s = m.server in
    let rest = delete_where (is_server s.id) db.servers in
    let after = update_where (is_server s.id) (moved m) db.servers in
    let assigned : Db =
      update_server s.id (moved m) (claim s.id m.new_allocation_id now (free s.allocation_id db)) in
    add_resources-Sums s.memory_mb s.disk_mb m.new_node_id rest after
      (subtract_resources s.memory_mb s.disk_mb s.node_id assigned)
      (λ node hit.
        ap (λ k. charge node rest + k) (sym (share_hit (moved m s) node hit))
        ∙ charge-moved m db.servers node only)
      (λ node miss.
        omega (arith, charge-moved m db.servers node only, share_miss (moved m s) node miss))
      (subtract_resources-Sums s.memory_mb s.disk_mb s.node_id db.servers rest assigned
        (λ node hit.
          ap (λ k. charge node rest + k) (sym (share_hit s node hit))
          ∙ charge-delete_where node s.id s db.servers only)
        (λ node miss.
          omega (arith, charge-delete_where node s.id s db.servers only, share_miss s node miss))
        h)

-- A change of the servers: one is created under an id that is new, one moves to another node, or one
-- that was released by its route is dropped by its job.
pub data Change : Db → Db → Type 0 where
  created :
      (s : ServerRow) (a : Text) (now : ℕ) (db : Db)
      → count_where (is_server s.id) db.servers ≡ 0
      → Change db (reserve s a now db)
  transferred :
      (m : Move) (now : ℕ) (db : Db)
      → find_where (is_server m.server.id) db.servers ≡ some m.server
      → Change db (reassign m now db)
  removed :
      (s : ServerRow) (db : Db)
      → find_where (is_server s.id) db.servers ≡ some s
      → Change db (drop_server s.id (release s db))

pub data Changes (start : Db) : Db → Type 0 where
  here : Changes start start
  next : {db after : Db} → Changes start db → Change db after → Changes start after

abbrev pub IsKept : Db → Type 0
IsKept db = IsDistinct db × IsAccounted db

sole_row :
    (s : ServerRow) (db : Db)
    → IsDistinct db
    → find_where (is_server s.id) db.servers ≡ some s
    → IsOnly s.id s db.servers
sole_row s db distinct found =
    (found, omega (arith, distinct s.id, some_counted (is_server s.id) db.servers found))

distinct-append :
    (s : ServerRow) (servers : List ServerRow) (id : Text)
    → count_where (is_server s.id) servers ≡ 0
    → count_where (is_server id) servers ≤ 1
    → count_where (is_server id) (servers ++ s ∷ []) ≤ 1
distinct-append s servers id new h = elim (Bool-cases (text_eq s.id id)) [
  | inl same ↦
      let none_there : count_where (is_server id) servers ≡ 0 =
        subst (λ x. count_where (is_server x) servers ≡ 0) ((text_eq_iff s.id id).0 same) new in
      rw (count_where-append (is_server id) servers s, same, none_there) (omega arith)
  | inr other ↦ rw (count_where-append (is_server id) servers s, other) (omega (arith, h))
]

pub created-IsKept :
    (s : ServerRow) (a : Text) (now : ℕ) (db : Db)
    → count_where (is_server s.id) db.servers ≡ 0
    → IsKept db
    → IsKept (reserve s a now db)
unfolding reserve add_resources claim
created-IsKept s a now db new (distinct, h) =
    (λ id. distinct-append s db.servers id new (distinct id), reserve-IsAccounted s a now db h)

pub transferred-IsKept :
    (m : Move) (now : ℕ) (db : Db)
    → find_where (is_server m.server.id) db.servers ≡ some m.server
    → IsKept db
    → IsKept (reassign m now db)
unfolding reassign free claim update_server add_resources subtract_resources
transferred-IsKept m now db found (distinct, h) = (
  λ id. omega (
    arith,
    distinct id,
    count_where-update_where (is_server id) (is_server m.server.id) (moved m) db.servers
        (λ r hit. refl),
  ),
  transfer-IsAccounted m now db (sole_row m.server db distinct found) h,
)

pub removed-IsKept :
    (s : ServerRow) (db : Db)
    → find_where (is_server s.id) db.servers ≡ some s
    → IsKept db
    → IsKept (drop_server s.id (release s db))
unfolding release drop_server subtract_resources
removed-IsKept s db found (distinct, h) = (
  λ id.
      omega
        (arith, distinct id, count_where-delete_where (is_server id) (is_server s.id) db.servers),
  remove-IsAccounted s db (sole_row s db distinct found) h,
)

Change-IsKept : {db after : Db} → Change db after → IsKept db → IsKept after
Change-IsKept (created s a now db new) h = created-IsKept s a now db new h
Change-IsKept (transferred m now db found) h = transferred-IsKept m now db found h
Change-IsKept (removed s db found) h = removed-IsKept s db found h

Changes-IsKept : {start db : Db} → IsKept start → Changes start db → IsKept db
Changes-IsKept h here = h
Changes-IsKept h (next more c) = Change-IsKept c (Changes-IsKept h more)

-- From tables where no two servers have one id and the column of every node is the sum of its
-- servers, every run of changes leads to tables where that holds again.
pub Changes-IsAccounted :
    {start db : Db} → IsDistinct start → IsAccounted start → Changes start db → IsAccounted db
Changes-IsAccounted distinct h more = (Changes-IsKept (distinct, h) more).1
