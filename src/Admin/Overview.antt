-- ===== src/Admin/Overview.antt =====
-- The routes of panel/src/api/routes/admin.ts that read the tables, behind the guards of its routes.
-- The order of their lists is left out, except by the time of creation.
use mathlib.Core.List.{reverse}
use troxe_host.Common.{
  ℕ, Bool, true, false, not, List, map, Option, none, some, Text, codes, text_eq, length, is_some,
}
use troxe_host.Db.{Db, UserRow, NodeRow, LocationRow, NestRow, AllocationRow, EggRow, ServerRow}
use troxe_host.Db.Table.{find_where, count_where, select_where, join_where}
use troxe_host.Reply.{Reply, sent, failed}
use troxe_host.Workers.Steps.{find_node}

-- `LEFT JOIN locations l ON n.location_id = l.id`
abbrev location_of : NodeRow → Db → Option LocationRow
location_of n db = find_where (λ l. text_eq l.id n.location_id) db.locations

pub record NodeSummary : Type 0 where
  pub node : NodeRow
  pub location : Option LocationRow
  pub server_count : ℕ

-- `GET /nodes`
unfoldable pub list_nodes : Db → List NodeSummary
list_nodes db =
    map
      (λ (n : NodeRow). record {
        node = n;
        location = location_of n db;
        server_count = count_where (λ (s : ServerRow). text_eq s.node_id n.id) db.servers;
      })
      db.nodes

pub record NodeDetails : Type 0 where
  pub node : NodeRow
  pub location : Option LocationRow
  pub servers : List ServerRow
  pub allocations : List AllocationRow

-- `GET /nodes/:id`
unfoldable pub node_details : Text → Db → Reply NodeDetails
node_details id db = elim (find_node id db) [
  | none ↦ failed 404 (codes "Node not found")
  | some n ↦ sent (record {
    node = n;
    location = location_of n db;
    servers = select_where (λ s. text_eq s.node_id id) db.servers;
    allocations = select_where (λ a. text_eq a.node_id id) db.allocations;
  })
]

-- `GET /nodes/:id/allocations`: all of them, or those of no server
unfoldable pub list_allocations : Text → Bool → Db → List AllocationRow
list_allocations id true db =
    select_where (λ a. not (is_some a.server_id))
      (select_where (λ a. text_eq a.node_id id) db.allocations)
list_allocations id false db = select_where (λ a. text_eq a.node_id id) db.allocations

-- `GET /nests`: each nest with the number of its eggs
unfoldable pub list_nests : Db → List (NestRow × ℕ)
list_nests db =
    map (λ (n : NestRow). (n, count_where (λ (e : EggRow). text_eq e.nest_id n.id) db.eggs))
      db.nests

-- `GET /eggs`: each egg with its nest
unfoldable pub list_eggs : Db → List (EggRow × NestRow)
list_eggs db =
    join_where (λ e. find_where (λ (n : NestRow). text_eq n.id e.nest_id) db.nests) db.eggs

-- `GET /users`, the latest first
unfoldable pub list_users : Db → List UserRow
list_users db = reverse db.users

pub record Info : Type 0 where
  pub users : ℕ
  pub servers : ℕ
  pub nodes : ℕ
  pub eggs : ℕ
  pub version : Text

-- `GET /system/info`
unfoldable pub system_info : Db → Info
system_info db = record {
  users = length db.users;
  servers = length db.servers;
  nodes = count_where (λ (n : NodeRow). n.online) db.nodes;
  eggs = length db.eggs;
  version = codes "0.1.0";
}
