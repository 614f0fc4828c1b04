-- ===== src/Servers/Create/Laws.antt =====
-- The accounts of a node: what a creation takes, a deletion gives back.
use mathlib.Core.Option
use troxe_host.Common.{ℕ, some, [], ◌∷◌, ◌++◌, Text, ◌≡◌, refl, ◌∙◌, ap}
use troxe_host.Common.Int.{ℤ, pos, ◌+ℤ◌, ◌-ℤ◌, int_laws}
use troxe_host.Db.{Db, ServerRow, NodeRow}
use troxe_host.Db.Table.{find_where-update_where}
use troxe_host.Workers.Steps.{find_node}
use troxe_host.Servers.{add_resources, subtract_resources, release, free_known, claim}
use troxe_host.Servers.Create.{reserve}

add_then_subtract : (x : ℤ) (n : ℕ) → (x +ℤ pos n) -ℤ pos n ≡ x
add_then_subtract x n = grind int_laws

find_node-add_resources :
    (memory disk : ℕ) (id : Text) (db : Db) {n : NodeRow}
    → find_node id db ≡ some n
    → find_node id (add_resources memory disk id db)
      ≡ some (record n {
        allocated_memory_mb = n.allocated_memory_mb +ℤ pos memory;
        allocated_disk_mb = n.allocated_disk_mb +ℤ pos disk;
      })
unfolding find_node add_resources
find_node-add_resources memory disk id db h =
    find_where-update_where _ _ db.nodes (λ r k. k) ∙ ap (Option.map _) h

find_node-subtract_resources :
    (memory disk : ℕ) (id : Text) (db : Db) {n : NodeRow}
    → find_node id db ≡ some n
    → find_node id (subtract_resources memory disk id db)
      ≡ some (record n {
        allocated_memory_mb = n.allocated_memory_mb -ℤ pos memory;
        allocated_disk_mb = n.allocated_disk_mb -ℤ pos disk;
      })
unfolding find_node subtract_resources
find_node-subtract_resources memory disk id db h =
    find_where-update_where _ _ db.nodes (λ r k. k) ∙ ap (Option.map _) h

pub find_node-release :
    (s : ServerRow) (db : Db) {n : NodeRow}
    → find_node s.node_id db ≡ some n
    → find_node s.node_id (release s db)
      ≡ some (record n {
        allocated_memory_mb = n.allocated_memory_mb -ℤ pos s.memory_mb;
        allocated_disk_mb = n.allocated_disk_mb -ℤ pos s.disk_mb;
      })
unfolding release find_node
find_node-release s db h =
    find_node-subtract_resources s.memory_mb s.disk_mb s.node_id (free_known s.allocation_id db) h

find_node-reserve :
    (s : ServerRow) (a : Text) (now : ℕ) (db : Db) {n : NodeRow}
    → find_node s.node_id db ≡ some n
    → find_node s.node_id (reserve s a now db)
      ≡ some (record n {
        allocated_memory_mb = n.allocated_memory_mb +ℤ pos s.memory_mb;
        allocated_disk_mb = n.allocated_disk_mb +ℤ pos s.disk_mb;
      })
unfolding reserve find_node claim
find_node-reserve s a now db h =
    find_node-add_resources s.memory_mb s.disk_mb s.node_id
      (claim s.id a now (record db { servers = db.servers ++ s ∷ [] })) h

-- The statements of a deletion right after those of the creation, on a node that is there, give the
-- node's row back as it was before.
pub release-reserve :
    (s : ServerRow) (a : Text) (now : ℕ) (db : Db) {n : NodeRow}
    → find_node s.node_id db ≡ some n
    → find_node s.node_id (release s (reserve s a now db)) ≡ some n
release-reserve s a now db {n} h =
    find_node-release s _ (find_node-reserve s a now db h)
    ∙ rw
        (
          add_then_subtract n.allocated_memory_mb s.memory_mb,
          add_then_subtract n.allocated_disk_mb s.disk_mb,
        )
        refl
