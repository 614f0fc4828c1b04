-- ===== src/Admin/Places.antt =====
-- Nodes, allocations and locations: panel/src/api/routes/admin.ts, behind `requireAdmin`.

use troxe_host.Common.{
  ℕ, Bool, true, false, not, ◌&&◌, ◌||◌, Option, none, some, List, [], ◌∷◌, ◌++◌, Text, codes,
  text_eq, if◌then◌else◌, is_some, ◌==◌, ltb, any,
}
use troxe_host.Common.Int.{pos}
use troxe_host.Db.{Db, NodeRow, LocationRow, AllocationRow, ServerRow, JobRow, TransferRow}
use troxe_host.Db.Table.{find_where, update_where, delete_where, count_where}
use troxe_host.Db.Patch.{change, updates, set_all}
use troxe_host.Effects.{
  Env, Exec, db_error, pure, throw, gets, modify, on_db, fresh_id, ◌>>=◌, ◌>>◌,
}
use troxe_host.Workers.Steps.{find_node}
use troxe_host.Workers.Removal.{refers}
use troxe_host.Reply.{Reply, sent, failed}
use troxe_host.Auth.Keys.{Hashing, DaemonToken, generate_daemon_token}

pub record NodeBody : Type 0 where
  pub name : Text
  pub location_id : Text
  pub fqdn : Text
  pub public_ip : Text
  pub private_ip : Option Text
  pub total_memory_mb : ℕ
  pub total_disk_mb : ℕ

-- `x || null`
abbrev or_null : Option Text → Option Text
or_null none = none
or_null (some []) = none
or_null (some (c ∷ s)) = some (c ∷ s)

-- the row of `INSERT INTO nodes`, with the columns' defaults
abbrev pub new_node : Text → NodeBody → DaemonToken → NodeRow
new_node id body token = record {
  id = id;
  name = body.name;
  fqdn = body.fqdn;
  public_ip = body.public_ip;
  location_id = body.location_id;
  private_ip = or_null body.private_ip;
  total_memory_mb = body.total_memory_mb;
  total_disk_mb = body.total_disk_mb;
  maintenance_mode = false;
  daemon_token_id = token.token_id;
  daemon_token_hash = token.token_hash;
  daemon_listen_port = 8080;
  allocated_memory_mb = pos 0;
  allocated_disk_mb = pos 0;
  online = true;
  last_heartbeat_at = none;
}

-- `POST /nodes`, from the texts of 16 and of 32 random bytes: the node, and its token
unfoldable pub create_node : Env → Hashing → Text → Text → NodeBody → Exec (Reply (NodeRow × Text))
unfolding modify
create_node env h token_id secret body = do
  there ← gets (λ w.
      is_some (find_where (λ (l : LocationRow). text_eq l.id body.location_id) w.db.locations))
  if not there then throw (db_error env.foreign_key_error) else do
    id ← fresh_id env
    on_db (λ db. record db {
      nodes = db.nodes ++ new_node id body (generate_daemon_token h token_id secret) ∷ [];
    })
    pure (
        sent (
          new_node id body (generate_daemon_token h token_id secret),
          (generate_daemon_token h token_id secret).token,
        ))

pub record NodeChanges : Type 0 where
  pub name : Option Text
  pub fqdn : Option Text
  pub public_ip : Option Text
  pub private_ip : Option Text
  pub maintenance_mode : Option Bool

unfoldable pub node_changes : NodeChanges → List (NodeRow → NodeRow)
unfolding updates
node_changes body = updates (
    change body.name (λ v r. record r { name = v })
    ∷ change body.fqdn (λ v r. record r { fqdn = v })
    ∷ change body.public_ip (λ v r. record r { public_ip = v })
    ∷ change body.private_ip (λ v r. record r { private_ip = some v })
    ∷ change body.maintenance_mode (λ v r. record r { maintenance_mode = v })
    ∷ [])

abbrev pub is_node : Text → NodeRow → Bool
is_node id n = text_eq n.id id

change_node : Text → List (NodeRow → NodeRow) → Exec (Reply (Unit {0}))
unfolding modify set_all
change_node id [] = pure (failed 400 (codes "No fields to update"))
change_node id (f ∷ fs) = do
  on_db (λ db. record db { nodes = update_where (is_node id) (set_all (f ∷ fs)) db.nodes })
  pure (sent tt)

-- `PUT /nodes/:id`
unfoldable pub update_node : Text → NodeChanges → Exec (Reply (Unit {0}))
unfolding change_node node_changes
update_node id body = change_node id (node_changes body)

abbrev pub on_node : Text → ServerRow → Bool
on_node id s = text_eq s.node_id id

-- whether a job, or a transfer by its nodes or by an allocation that goes with the node, refers to a
-- node: `REFERENCES` without `ON DELETE` in migrations 013 and 017
unfoldable pub node_is_referenced : Text → Db → Bool
node_is_referenced id db =
    any (λ (j : JobRow). refers id j.node_id) db.jobs
    || any (λ (t : TransferRow). text_eq t.old_node_id id || text_eq t.new_node_id id) db.transfers
    || any
        (λ (a : AllocationRow).
          text_eq a.node_id id
          && any
              (λ (t : TransferRow).
                refers a.id t.old_allocation_id || text_eq t.new_allocation_id a.id)
              db.transfers)
        db.allocations

-- what `DELETE FROM nodes` does: the allocations go with the node, by migration 004
unfoldable pub drop_node : Text → Db → Db
drop_node id db = record db {
  nodes = delete_where (is_node id) db.nodes;
  allocations = delete_where (λ a. text_eq a.node_id id) db.allocations;
}

-- `DELETE FROM nodes WHERE id = $1`. No server refers to the node: the route has counted them.
unfoldable pub delete_node_row : Env → Text → Exec (Reply (Unit {0}))
unfolding modify node_is_referenced drop_node
delete_node_row env id = do
  held ← gets (λ w. node_is_referenced id w.db)
  if held then throw (db_error env.foreign_key_error) else do on_db (drop_node id); pure (sent tt)

-- `DELETE /nodes/:id`
unfoldable pub delete_node : Env → Text → Exec (Reply (Unit {0}))
unfolding delete_node_row
delete_node env id = do
  servers ← gets (λ w. count_where (on_node id) w.db.servers)
  if ltb 0 servers
      then pure (failed 400 (codes "Cannot delete node with active servers"))
      else delete_node_row env id

abbrev pub is_at : Text → Text → ℕ → AllocationRow → Bool
is_at node_id ip port a = text_eq a.node_id node_id && text_eq a.ip ip && a.port == port

abbrev pub new_allocation : Text → Text → Text → ℕ → AllocationRow
new_allocation id node_id ip port = record {
  id = id;
  node_id = node_id;
  ip = ip;
  port = port;
  server_id = none;
  allocated_at = none;
}

insert_allocation : Env → Text → Text → ℕ → Exec (Reply AllocationRow)
unfolding modify
insert_allocation env node_id ip port = do
  there ← gets (λ w. is_some (find_node node_id w.db))
  if not there then throw (db_error env.foreign_key_error) else do
    id ← fresh_id env
    on_db
        (λ db. record db { allocations = db.allocations ++ new_allocation id node_id ip port ∷ [] })
    pure (sent (new_allocation id node_id ip port))

-- `POST /nodes/:id/allocations`
unfoldable pub create_allocation : Env → Text → Text → ℕ → Exec (Reply AllocationRow)
unfolding insert_allocation
create_allocation env node_id ip port = do
  existing ← gets (λ w. find_where (is_at node_id ip port) w.db.allocations)
  if is_some existing
      then pure (failed 409 (codes "Allocation already exists"))
      else insert_allocation env node_id ip port

abbrev is_assigned : Option AllocationRow → Bool
is_assigned none = false
is_assigned (some a) = is_some a.server_id

abbrev pub is_allocation : Text → AllocationRow → Bool
is_allocation id a = text_eq a.id id

-- whether a transfer refers to an allocation, by migration 017
unfoldable pub allocation_is_referenced : Text → Db → Bool
allocation_is_referenced id db =
    any (λ (t : TransferRow). refers id t.old_allocation_id || text_eq t.new_allocation_id id)
      db.transfers

-- `DELETE /allocations/:id`
unfoldable pub delete_allocation : Env → Text → Exec (Reply (Unit {0}))
unfolding modify allocation_is_referenced
delete_allocation env id = do
  db ← gets (λ w. w.db)
  if is_assigned (find_where (is_allocation id) db.allocations)
      then pure (failed 400 (codes "Cannot delete allocation assigned to a server"))
      else if is_some (find_where (is_allocation id) db.allocations)
          && allocation_is_referenced id db
      then throw (db_error env.foreign_key_error)
      else do
        on_db (λ db. record db { allocations = delete_where (is_allocation id) db.allocations })
        pure (sent tt)
