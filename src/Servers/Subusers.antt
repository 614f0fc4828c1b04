-- ===== src/Servers/Subusers.antt =====
-- panel/src/api/routes/subusers.ts, behind the guards of its routes.
pub mod Laws
pub mod Granting
use mathlib.Core.Option
use mathlib.Core.List.{reverse, filter}
use troxe_host.Common.{
  ℕ, zero, suc, ◌+◌, ◌*◌, Bool, true, false, not, ◌&&◌, ◌||◌, Option, none, some, List, [], ◌∷◌,
  ◌++◌, map, Text, codes, text_eq, if◌then◌else◌, is_some, ◌==◌, leb, ltb, any, length,
}
use troxe_host.Common.Int.{ℤ, pos, ◌+ℤ◌, ◌-ℤ◌}
use troxe_host.Js.{trim, split_spaces}
use troxe_host.Js.Decimal.{print}
use troxe_host.Db.{
  Db, UserRow, NodeRow, LocationRow, NestRow, AllocationRow, EggRow, ServerRow, ServerStatus,
  install_pending, crashed, BackupRow, BackupStatus, building, Task, ScheduleRow, DatabaseHostRow,
  DatabaseRow, Grant, flag, group, Permissions, SubuserRow, ApiKeyRow, PreferenceRow, JobRow,
  TransferRow, server_install, backup_create, backup_delete, server_command, JobType, Payload,
}
use troxe_host.Db.Table.{
  find_where, update_where, delete_where, count_where, select_where, join_where,
}
use troxe_host.Db.Patch.{change, updates, set_all}
use troxe_host.Agent.{NodeInfo}
use troxe_host.Effects.{
  World, Env, Mail, MailKind, Exec, Failure, error, db_error, pure, throw, gets, modify, try_catch,
  on_db, fresh_id, send_mail, ◌>>=◌, ◌>>◌,
}
use troxe_host.Workers.Steps.{
  is_server, find_server, find_node, find_egg, find_owner, update_server, node_for_server,
  log_event, subject_server, number_or, should_notify,
}
use troxe_host.Workers.Queue.{add_job, references_ok}
use troxe_host.Workers.Removal.{refers, is_backup}
use troxe_host.Reply.{Reply, sent, failed}
use troxe_host.Servers.{on_server, queue_job, power_job}
use troxe_host.Auth.Rbac.{TroxeUser}

-- `GET /servers/:id/subusers`, the latest first, each with its user
unfoldable pub list_subusers : Text → Db → List (SubuserRow × UserRow)
list_subusers id db = reverse (
    join_where (λ s. find_where (λ (u : UserRow). text_eq u.id s.user_id) db.users)
      (select_where (λ s. text_eq s.server_id id) db.subusers))

-- the groups of a body's permissions, each of them optional
pub record GrantBody : Type 0 where
  pub control : Option (List (Text × Bool))
  pub file : Option (List (Text × Bool))
  pub backup : Option (List (Text × Bool))
  pub database : Option (List (Text × Bool))
  pub schedule : Option (List (Text × Bool))
  pub websocket : Option (List (Text × Bool))

abbrev pub with_group : Text → Option (List (Text × Bool)) → Permissions → Permissions
with_group name none rest = rest
with_group name (some flags) rest = (name, group flags) ∷ rest

-- `JSON.stringify(body.permissions)`, as the column gives it back
unfoldable pub stored : GrantBody → Permissions
stored g = with_group (codes "control") g.control (
    with_group (codes "file") g.file (
      with_group (codes "backup") g.backup (
        with_group (codes "database") g.database (
          with_group (codes "schedule") g.schedule
            (with_group (codes "websocket") g.websocket [])))))

abbrev pub is_member : Text → Text → SubuserRow → Bool
is_member server_id user_id s = text_eq s.server_id server_id && text_eq s.user_id user_id

-- the row of `INSERT INTO subusers`
abbrev pub new_subuser : Text → Text → Text → Permissions → SubuserRow
new_subuser subuser_id id user_id permissions = record {
  id = subuser_id;
  server_id = id;
  user_id = user_id;
  permissions = permissions;
}

unfoldable pub insert_subuser : Env → Text → Text → Permissions → Exec (Reply SubuserRow)
unfolding modify
insert_subuser env id user_id permissions = do
  there ← gets (λ w. is_some (find_server id w.db))
  if not there then throw (db_error env.foreign_key_error) else do
    subuser_id ← fresh_id env
    on_db (λ db. record db {
      subusers = db.subusers ++ new_subuser subuser_id id user_id permissions ∷ [];
    })
    pure (sent (new_subuser subuser_id id user_id permissions))

unfoldable pub add_found :
    Env → Text → Text → Permissions → Db → Option UserRow → Exec (Reply SubuserRow)
unfolding insert_subuser
add_found env id caller permissions db none =
    pure (failed 404 (codes "User not found with that email"))
add_found env id caller permissions db (some u) =
    if text_eq u.id caller
    then pure (failed 400 (codes "Cannot add yourself as subuser"))
    else if is_some (find_where (is_member id u.id) db.subusers)
    then pure (failed 409 (codes "User is already a subuser"))
    else insert_subuser env id u.id permissions

-- `POST /servers/:id/subusers`, called by the user `caller`
unfoldable pub add_route : Env → Text → Text → Text → GrantBody → Exec (Reply SubuserRow)
unfolding add_found stored
add_route env id caller email body = do
  db ← gets (λ w. w.db)
  add_found env id caller (stored body) db (find_where (λ u. text_eq u.email email) db.users)

abbrev pub is_subuser : Text → SubuserRow → Bool
is_subuser id s = text_eq s.id id

-- `PUT /servers/:serverId/subusers/:subuserId`
unfoldable pub update_route : Text → Permissions → Exec (Reply (Unit {0}))
unfolding modify
update_route subuser_id permissions = do
  on_db (λ db. record db {
    subusers =
        update_where (is_subuser subuser_id) (λ s. record s { permissions = permissions })
          db.subusers;
  })
  pure (sent tt)

-- `DELETE /servers/:serverId/subusers/:subuserId`
unfoldable pub remove_route : Text → Exec (Reply (Unit {0}))
unfolding modify
remove_route subuser_id = do
  on_db (λ db. record db { subusers = delete_where (is_subuser subuser_id) db.subusers })
  pure (sent tt)
