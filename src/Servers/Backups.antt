-- ===== src/Servers/Backups.antt =====
-- panel/src/api/routes/backups.ts, behind the guards of its routes.
pub mod Limit
pub mod Scope
use mathlib.Core.Option
use mathlib.Core.List.{reverse, filter}
use troxe_host.Common.{
  ℕ, zero, suc, ◌+◌, ◌*◌, Bool, true, false, not, ◌&&◌, ◌||◌, Option, none, some, List, [], ◌∷◌,
  ◌++◌, map, Text, codes, text_eq, if◌then◌else◌, is_some, ◌==◌, leb, ltb, any, length,
}
use troxe_host.Common.Int.{ℤ, pos, ◌+ℤ◌, ◌-ℤ◌}
use troxe_host.Js.{trim, split_spaces}
use troxe_host.Js.Decimal.{print}
use troxe_host.Db.{
  Db, UserRow, NodeRow, LocationRow, NestRow, AllocationRow, EggRow, ServerRow, ServerStatus,
  install_pending, crashed, BackupRow, BackupStatus, building, Task, ScheduleRow, DatabaseHostRow,
  DatabaseRow, Grant, flag, group, Permissions, SubuserRow, ApiKeyRow, PreferenceRow, JobRow,
  TransferRow, server_install, backup_create, backup_delete, server_command, JobType, Payload,
}
use troxe_host.Db.Table.{find_where, update_where, delete_where, count_where, select_where}
use troxe_host.Db.Patch.{change, updates, set_all}
use troxe_host.Agent.{NodeInfo}
use troxe_host.Effects.{
  World, Env, Mail, MailKind, Exec, Failure, error, db_error, pure, throw, gets, modify, try_catch,
  on_db, fresh_id, send_mail, ◌>>=◌, ◌>>◌,
}
use troxe_host.Workers.Steps.{
  is_server, find_server, find_node, find_egg, find_owner, update_server, node_for_server,
  log_event, subject_server, number_or, should_notify,
}
use troxe_host.Workers.Queue.{add_job, references_ok}
use troxe_host.Workers.Removal.{refers, is_backup}
use troxe_host.Reply.{Reply, sent, failed}
use troxe_host.Servers.{on_server, queue_job, power_job}

-- `servers s JOIN eggs e ON s.egg_id = e.id WHERE s.id = $1`
unfoldable pub server_and_egg : Text → Db → Option (ServerRow × EggRow)
server_and_egg id db = elim (find_server id db) [
  | none ↦ none
  | some s ↦ elim (find_egg s.egg_id db) [ none ↦ none | some e ↦ some (s, e) ]
]

abbrev pub of_server : Text → BackupRow → Bool
of_server id b = text_eq b.server_id id

abbrev limit_of : Option (ServerRow × EggRow) → ℕ
limit_of none = 5
limit_of (some (s, e)) = e.max_backups

-- `GET /servers/:id/backups`: the backups, the latest first, and the limit
unfoldable pub list_backups : Text → Db → List BackupRow × ℕ
unfolding server_and_egg
list_backups id db =
    (reverse (select_where (of_server id) db.backups), limit_of (server_and_egg id db))

abbrev name_or : Option Text → Text → Text
name_or none fallback = fallback
name_or (some []) fallback = fallback
name_or (some (c ∷ s)) fallback = c ∷ s

-- the row of `INSERT INTO backups`
abbrev pub new_backup : Text → Text → Text → BackupRow
new_backup backup_id id name = record {
  id = backup_id;
  server_id = id;
  name = name;
  storage_path = none;
  size_bytes = none;
  status = building;
  completed_at = none;
}

unfoldable pub insert_backup : BackupRow → Exec (Unit {0})
unfolding modify
insert_backup b = on_db (λ db. record db { backups = db.backups ++ b ∷ [] })

-- the row and the job of a backup that is within the limit
unfoldable pub store_backup : Env → Text → Text → Text → Exec (Reply BackupRow)
unfolding insert_backup
store_backup env id name node_id = do
  backup_id ← fresh_id env
  insert_backup (new_backup backup_id id name)
  add_job env backup_create (record { server_id = id; backup_id = backup_id; command = [] })
      (some node_id)
  pure (sent (new_backup backup_id id name))

unfoldable pub create_within :
    Env → Text → Text → Option (ServerRow × EggRow) → ℕ → Exec (Reply BackupRow)
unfolding store_backup
create_within env id name none count = pure (failed 404 (codes "Server not found"))
create_within env id name (some (s, e)) count =
    if leb e.max_backups count
    then pure (failed 400 (codes "Backup limit reached (" ++ print e.max_backups ++ codes ")"))
    else store_backup env id name s.node_id

-- `POST /servers/:id/backups`; `stamp` is the name that the time gives
unfoldable pub create_route : Env → Text → Option Text → Text → Exec (Reply BackupRow)
unfolding create_within server_and_egg
create_route env id name stamp = do
  found ← gets (λ w. server_and_egg id w.db)
  count ← gets (λ w. count_where (of_server id) w.db.backups)
  create_within env id (name_or name stamp) found count

unfoldable pub queue_delete : Env → Text → Text → Option BackupRow → Exec (Reply (Unit {0}))
queue_delete env id backup_id none = pure (failed 404 (codes "Backup not found"))
queue_delete env id backup_id (some b) = do
  add_job env backup_delete (record { server_id = id; backup_id = backup_id; command = [] }) none
  pure (sent tt)

-- `DELETE /servers/:serverId/backups/:backupId`
unfoldable pub delete_route : Env → Text → Text → Exec (Reply (Unit {0}))
unfolding queue_delete
delete_route env id backup_id = do
  found ← gets (λ w. find_where (is_backup backup_id) w.db.backups)
  queue_delete env id backup_id found

abbrev is_completed : BackupStatus → Bool
is_completed BackupStatus.completed = true
is_completed _ = false

-- the node and the path of a backup's file
file_of : Option Text → Option NodeInfo → Reply (NodeInfo × Text)
file_of none at = failed 404 (codes "Backup file not found")
file_of (some []) at = failed 404 (codes "Backup file not found")
file_of (some (c ∷ path)) none = failed 500 (codes "Node not found")
file_of (some (c ∷ path)) (some node) = sent (node, c ∷ path)

-- the guards of `GET /servers/:serverId/backups/:backupId/download`, up to the call of the agent
unfoldable pub download_target : Text → Text → Db → Reply (NodeInfo × Text)
unfolding file_of
download_target id backup_id db = elim (find_where (is_backup backup_id) db.backups) [
  | none ↦ failed 404 (codes "Backup not found")
  | some b ↦
      if not (is_completed b.status)
      then failed 400 (codes "Backup not ready")
      else file_of b.storage_path (node_for_server id db)
]
