-- ===== src/Tests/Runs.antt =====
-- Runs of several steps, on the small panel.
use troxe_host.Common.{
  arith, ◌≤◌, none, some, [], ◌∷◌, Text, codes, refl, ◌≡◌, text_eq, Bool-cases, inl, inr,
}
use troxe_host.Common.Int.{pos}
use troxe_host.Db.{Db, ServerRow}
use troxe_host.Db.Table.{find_where, count_where}
use troxe_host.Workers.Steps.{is_server, find_server, find_egg}
use troxe_host.Workers.Removal.{create_backup}
use troxe_host.Servers.Create.{CreateBody, create_route}
use troxe_host.Servers.Accounts.{charge, IsAccounted}
use troxe_host.Effects.{World}
use troxe_host.Servers.Backups
use troxe_host.Servers.Backups.{server_and_egg}
use troxe_host.Servers.Accounts.Routes as Accounts
use troxe_host.Servers.Backups.Limit
use troxe_host.Admin.Places.{delete_node}
use troxe_host.Admin.Links
use troxe_host.Tests.{site, target_site, server, db, world, up}

-- a panel whose totals are right
abbrev pub balanced : Db
balanced = record db { nodes = site ∷ record target_site { allocated_memory_mb = pos 0 } ∷ [] }

abbrev pub second : ServerRow
second = record server {
  id = codes "s2";
  name = codes "creative";
  allocation_id = some (codes "a2");
  memory_mb = 512;
}

once : (id : Text) → count_where (is_server id) balanced.servers ≤ 1
unfolding count_where
once id = elim (Bool-cases (text_eq server.id id)) [
  | inl same ↦ rw same (omega arith)
  | inr other ↦ rw other (omega arith)
]

pub balanced-IsAccounted : IsAccounted balanced
unfolding charge text_eq
balanced-IsAccounted = (refl, (refl, tt))

abbrev body : CreateBody
body = record {
  name = codes "lobby";
  egg_id = codes "e1";
  node_id = codes "n1";
  allocation_id = some (codes "a1");
  memory_mb = none;
  disk_mb = none;
  cpu_percent = none;
  docker_image = none;
  startup_command = none;
  environment = [];
}

abbrev start : World
start = record world { db = balanced }

new_id : count_where (is_server (codes "new")) balanced.servers ≡ 0
unfolding count_where text_eq
new_id = refl

Runs-IsAccounted_example : IsAccounted (create_route up 0 (codes "u1") body start).1.db
Runs-IsAccounted_example =
    Accounts.Runs-IsAccounted once balanced-IsAccounted
      (Accounts.creates 0 (codes "u1") body new_id Accounts.here)

world-IsLinked : Links.IsLinked world
unfolding find_where text_eq
world-IsLinked = ((refl, refl, refl), tt)

Acts-IsLinked_example :
    Links.IsLinked (create_route up 0 (codes "u1") body (delete_node up (codes "n1") world).1).1
Acts-IsLinked_example = Links.Acts-IsLinked world-IsLinked (
    Links.next (Links.next Links.here (Links.deletes_node (codes "n1") world))
      (Links.creates 0 (codes "u1") body (delete_node up (codes "n1") world).1))

world-IsWithin : Limit.IsWithin (codes "s1") 3 world
unfolding server_and_egg find_server find_egg find_where count_where text_eq
world-IsWithin = record { same = refl; few = omega arith }

Uses-IsWithin_example :
    Limit.IsWithin
      (codes "s1")
      3
      (Backups.create_route up
        (codes "s1")
        none
        (codes "now")
        (create_backup up (codes "b1") (codes "s1") world).1).1
Uses-IsWithin_example = Limit.Uses-IsWithin world-IsWithin (
    Limit.next (Limit.next Limit.here (Limit.works_create (codes "b1") (codes "s1") world)) (
      Limit.asks_create (codes "s1") none (codes "now")
        (create_backup up (codes "b1") (codes "s1") world).1))
