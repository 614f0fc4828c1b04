-- ===== src/Servers/Transfer/Moves.antt =====
-- What a transfer of panel/src/api/routes/servers.ts has moved, row by row.
use mathlib.Core.Option
use troxe_host.Common.{
  ℕ, true, false, Option, none, some, List, Text, text_eq, text_eq_iff, ◌≡◌, ◌≢◌, refl, sym, ◌∙◌,
  ap, Bool-cases, inl, inr, ◌⊎◌,
}
use troxe_host.Common.Int.{pos, ◌+ℤ◌, ◌-ℤ◌}
use troxe_host.Db.{Db, NodeRow, AllocationRow, TransferRow, TransferStatus}
use troxe_host.Db.Table.{
  find_where, update_where, find_where-update_where, find_where-update_where_ne,
}
use troxe_host.Effects.{World, Env, ok}
use troxe_host.Workers.Steps.{is_server, find_server, find_node, update_server}
use troxe_host.Servers.{free, claim, add_resources, subtract_resources}
use troxe_host.Servers.Transfer.{Move, is_transfer, reassign, run_transfer}
use troxe_host.Servers.Transfer.Laws.{status_of_transfer, IsStayed, run_transfer-IsSettled}

abbrev find_allocation : Text → Db → Option AllocationRow
find_allocation id db = find_where (λ a. text_eq a.id id) db.allocations

-- What a transfer finds: the rows of the server, of its old node and allocation, and of the new ones,
-- which are others.
pub record IsPrepared (m : Move) (db : Db) (old : Text) (source target : NodeRow)
    (left taken : AllocationRow) : Type 0 where
  pub server : find_server m.server.id db ≡ some m.server
  pub source_node : find_node m.server.node_id db ≡ some source
  pub target_node : find_node m.new_node_id db ≡ some target
  pub nodes_apart : m.server.node_id ≢ m.new_node_id
  pub old_named : m.server.allocation_id ≡ some old
  pub old_allocation : find_allocation old db ≡ some left
  pub new_allocation : find_allocation m.new_allocation_id db ≡ some taken
  pub allocations_apart : old ≢ m.new_allocation_id

-- A server that has arrived stands on the new node with the new allocation; what it reserves is taken
-- off the old node and added to the new one; its old allocation is free and the new one its own.
pub record HasArrived (m : Move) (now : ℕ) (db : Db) (old : Text) (source target : NodeRow)
    (left taken : AllocationRow) : Type 0 where
  pub server :
      find_server m.server.id db
      ≡ some (record m.server { node_id = m.new_node_id; allocation_id = some m.new_allocation_id })
  pub source_node :
      find_node m.server.node_id db
      ≡ some (record source {
        allocated_memory_mb = source.allocated_memory_mb -ℤ pos m.server.memory_mb;
        allocated_disk_mb = source.allocated_disk_mb -ℤ pos m.server.disk_mb;
      })
  pub target_node :
      find_node m.new_node_id db
      ≡ some (record target {
        allocated_memory_mb = target.allocated_memory_mb +ℤ pos m.server.memory_mb;
        allocated_disk_mb = target.allocated_disk_mb +ℤ pos m.server.disk_mb;
      })
  pub old_allocation :
      find_allocation old db ≡ some (record left { server_id = none; allocated_at = none })
  pub new_allocation :
      find_allocation m.new_allocation_id db
      ≡ some (record taken { server_id = some m.server.id; allocated_at = some now })

-- a test by one id fails on a row with another
miss_by_id : (x a b : Text) → a ≢ b → text_eq x a ≡ true → text_eq x b ≡ false
miss_by_id x a b apart hit = elim (Bool-cases (text_eq x b)) [
  | inl same ↦ absurd (apart (sym ((text_eq_iff x a).0 hit) ∙ (text_eq_iff x b).0 same))
  | inr other ↦ other
]

module _ {A : Type 0} (key : A → Text) (f : A → A) (keep : (r : A) → key (f r) ≡ key r) where
  -- an update by an id, seen by a query for this id and for another one
  at_id :
      (id : Text) (rows : List A) {r : A}
      → find_where (λ x. text_eq (key x) id) rows ≡ some r
      → find_where (λ x. text_eq (key x) id) (update_where (λ x. text_eq (key x) id) f rows)
        ≡ some (f r)
  at_id id rows h =
      find_where-update_where _ f rows (λ r k. ap (λ x. text_eq x id) (keep r) ∙ k)
      ∙ ap (Option.map f) h

  past_id :
      (id other : Text) (rows : List A) {r : A}
      → id ≢ other
      → find_where (λ x. text_eq (key x) other) rows ≡ some r
      → find_where (λ x. text_eq (key x) other) (update_where (λ x. text_eq (key x) id) f rows)
        ≡ some r
  past_id id other rows apart h =
      find_where-update_where_ne _ _ f rows (λ r hit.
        let miss = miss_by_id (key r) id other apart hit in
        (ap (λ x. text_eq x other) (keep r) ∙ miss, miss))
      ∙ h

module _ (m : Move) (now : ℕ) (db : Db) {old : Text} {source target : NodeRow}
    {left taken : AllocationRow} (p : IsPrepared m db old source target left taken) where
  server-reassign :
      find_server m.server.id (reassign m now db)
      ≡ some (record m.server { node_id = m.new_node_id; allocation_id = some m.new_allocation_id })
  unfolding reassign find_server free claim update_server add_resources subtract_resources
  server-reassign = at_id (λ r. r.id) _ (λ r. refl) m.server.id db.servers p.server

  source-reassign :
      find_node m.server.node_id (reassign m now db)
      ≡ some (record source {
        allocated_memory_mb = source.allocated_memory_mb -ℤ pos m.server.memory_mb;
        allocated_disk_mb = source.allocated_disk_mb -ℤ pos m.server.disk_mb;
      })
  unfolding reassign find_node free claim update_server add_resources subtract_resources
  source-reassign =
      past_id (λ n. n.id) _ (λ r. refl) m.new_node_id m.server.node_id _
        (λ e. p.nodes_apart (sym e))
        (at_id (λ n. n.id) _ (λ r. refl) m.server.node_id db.nodes p.source_node)

  target-reassign :
      find_node m.new_node_id (reassign m now db)
      ≡ some (record target {
        allocated_memory_mb = target.allocated_memory_mb +ℤ pos m.server.memory_mb;
        allocated_disk_mb = target.allocated_disk_mb +ℤ pos m.server.disk_mb;
      })
  unfolding reassign find_node free claim update_server add_resources subtract_resources
  target-reassign =
      at_id (λ n. n.id) _ (λ r. refl) m.new_node_id _
        (past_id (λ n. n.id) _ (λ r. refl) m.server.node_id m.new_node_id db.nodes p.nodes_apart
          p.target_node)

  old-reassign :
      find_allocation old (reassign m now db)
      ≡ some (record left { server_id = none; allocated_at = none })
  unfolding reassign free claim update_server add_resources subtract_resources
  old-reassign = rw p.old_named (
      past_id (λ a. a.id) _ (λ r. refl) m.new_allocation_id old _ (λ e. p.allocations_apart (sym e))
        (at_id (λ a. a.id) _ (λ r. refl) old db.allocations p.old_allocation))

  new-reassign :
      find_allocation m.new_allocation_id (reassign m now db)
      ≡ some (record taken { server_id = some m.server.id; allocated_at = some now })
  unfolding reassign free claim update_server add_resources subtract_resources
  new-reassign = rw p.old_named (
      at_id (λ a. a.id) _ (λ r. refl) m.new_allocation_id _
        (past_id (λ a. a.id) _ (λ r. refl) old m.new_allocation_id db.allocations
          p.allocations_apart p.new_allocation))

  moved-HasArrived :
      (after : Db)
      → after.servers ≡ (reassign m now db).servers
      → after.nodes ≡ (reassign m now db).nodes
      → after.allocations ≡ (reassign m now db).allocations
      → HasArrived m now after old source target left taken
  unfolding find_server find_node
  moved-HasArrived after servers nodes allocations = record {
    server = ap (find_where (is_server m.server.id)) servers ∙ server-reassign;
    source_node = ap (find_where (λ n. text_eq n.id m.server.node_id)) nodes ∙ source-reassign;
    target_node = ap (find_where (λ n. text_eq n.id m.new_node_id)) nodes ∙ target-reassign;
    old_allocation = ap (find_where (λ a. text_eq a.id old)) allocations ∙ old-reassign;
    new_allocation =
        ap (find_where (λ a. text_eq a.id m.new_allocation_id)) allocations ∙ new-reassign;
  }

-- A transfer with a row, of a server whose row is as the transfer has it, between two nodes and two
-- allocations that are there, never throws, whatever the agents answer. Where it ends as completed,
-- the server stands on the new node with the new allocation, what it reserves is off the total of the
-- old node and on the total of the new one, the old allocation is free and the new one the server's.
-- Where it ends as failed, the tables of servers, nodes and allocations are as they were. It ends in
-- one of the two ways.
pub run_transfer-HasArrived :
    (env : Env) (m : Move) (w : World) {t : TransferRow} {old : Text} {source target : NodeRow}
    {left taken : AllocationRow}
    → find_where (is_transfer m.transfer) w.db.transfers ≡ some t
    → IsPrepared m w.db old source target left taken
    → let (result, after) = run_transfer env m w in
      (result ≡ ok tt)
      × (((status_of_transfer m.transfer after.db ≡ some TransferStatus.completed)
            × HasArrived m w.clock after.db old source target left taken)
          ⊎ IsStayed m w after)
run_transfer-HasArrived env m w row p =
    let (done, ended) = run_transfer-IsSettled env m w row in
    (
      done,
      elim ended [
        | inl moved ↦ inl (
          moved.completed,
          moved-HasArrived m w.clock w.db p (run_transfer env m w).1.db moved.servers moved.nodes
              moved.allocations,
        )
        | inr stayed ↦ inr stayed
      ],
    )
