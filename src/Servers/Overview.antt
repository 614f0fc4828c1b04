-- ===== src/Servers/Overview.antt =====
-- The routes of panel/src/api/routes/servers.ts that read the tables, behind the guards of its routes.
-- What the agent adds to the details of a running server is not modelled.
use mathlib.Core.List.{reverse}
use troxe_host.Common.{
  ℕ, zero, suc, Bool, List, [], ◌∷◌, map, length, Option, none, some, Text, codes, text_eq,
  if◌then◌else◌,
}
use troxe_host.Db.{Db, NodeRow, AllocationRow, ServerRow, TransferRow}
use troxe_host.Db.Table.{find_where, count_where, select_where, join_where}
use troxe_host.Reply.{Reply, sent, failed}
use troxe_host.Workers.Steps.{find_node}
use troxe_host.Auth.Rbac.{TroxeUser}

abbrev owned_by : Text → ServerRow → Bool
owned_by user_id s = text_eq s.owner_id user_id

-- the servers that a user sees, the latest first
abbrev seen_by : TroxeUser → Db → List ServerRow
seen_by u db =
    reverse (if u.root_admin then db.servers else select_where (owned_by u.user_id) db.servers)

pub record Dashboard : Type 0 where
  pub servers : ℕ
  pub online_nodes : ℕ
  pub users : ℕ
  pub eggs : ℕ
  pub recent_servers : List ServerRow

-- `ORDER BY created_at DESC LIMIT 5`
abbrev first_rows : ℕ → List ServerRow → List ServerRow
first_rows zero rows = []
first_rows (suc n) [] = []
first_rows (suc n) (r ∷ rows) = r ∷ first_rows n rows

-- `GET /dashboard/stats`
unfoldable pub dashboard : TroxeUser → Db → Dashboard
dashboard u db =
    if u.root_admin
    then record {
      servers = length db.servers;
      online_nodes = count_where (λ (n : NodeRow). n.online) db.nodes;
      users = length db.users;
      eggs = length db.eggs;
      recent_servers = first_rows 5 (seen_by u db);
    }
    else record {
      servers = count_where (owned_by u.user_id) db.servers;
      online_nodes = 0;
      users = 0;
      eggs = 0;
      recent_servers = first_rows 5 (seen_by u db);
    }

abbrev allocation_of : ServerRow → Db → Option AllocationRow
allocation_of s db = elim s.allocation_id [
  | none ↦ none
  | some a ↦ find_where (λ (r : AllocationRow). text_eq r.id a) db.allocations
]

pub record Listed : Type 0 where
  pub server : ServerRow
  pub node : NodeRow
  pub allocation : Option AllocationRow

-- `JOIN nodes n ON s.node_id = n.id LEFT JOIN allocations a ON s.allocation_id = a.id`
unfoldable pub listed : Db → List (ServerRow × NodeRow) → List Listed
listed db [] = []
listed db ((s, n) ∷ rows) =
    record { server = s; node = n; allocation = allocation_of s db } ∷ listed db rows

-- `GET /servers`; the owner, whom the query of an admin joins, is there for every server
unfoldable pub list_servers : TroxeUser → Db → List Listed
unfolding listed
list_servers u db =
    listed db (join_where (λ (s : ServerRow). find_node s.node_id db) (seen_by u db))

abbrev of_server : Text → TransferRow → Bool
of_server id t = text_eq t.server_id id

pub record TransferView : Type 0 where
  pub transfer : TransferRow
  pub old_node : Option NodeRow
  pub new_node : Option NodeRow

abbrev view_transfer : Db → TransferRow → TransferView
view_transfer db t = record {
  transfer = t;
  old_node = find_node t.old_node_id db;
  new_node = find_node t.new_node_id db;
}

-- `GET /servers/:id/transfers`, the latest first
unfoldable pub list_transfers : Text → Db → List TransferView
list_transfers id db = map (view_transfer db) (reverse (select_where (of_server id) db.transfers))

abbrev latest : List TransferView → Reply TransferView
latest [] = failed 404 (codes "No transfers found")
latest (t ∷ ts) = sent t

-- `GET /servers/:id/transfer`
unfoldable pub latest_transfer : Text → Db → Reply TransferView
unfolding list_transfers
latest_transfer id db = latest (list_transfers id db)
