-- ===== src/Workers/Removal.antt =====
-- The jobs `server.delete`, `server.command`, `backup.create` and `backup.delete` of
-- panel/src/workers/index.ts.
pub mod Frame
pub mod Laws
use troxe_host.Common.{
  ◌∷◌, Option, none, some, [], Text, codes, text_eq, if◌then◌else◌, any, Bool, false,
}
use troxe_host.Db.{Db, UserRow, ServerRow, BackupRow, BackupStatus, compressing, JobRow}
use troxe_host.Db.Table.{find_where, update_where, delete_where}
use troxe_host.Agent.{
  NodeInfo, remove, command, backup_create, backup_delete, AgentResponse, accepted, refused,
}
use troxe_host.Effects.{
  Env, MailKind, Exec, db_error, pure, throw, gets, modify, try_catch, on_db, send_mail, ◌>>=◌,
  ◌>>◌,
}
use troxe_host.Workers.Steps.{
  is_server, find_server, find_owner, should_notify, node_for_server, require_node, agent_post,
  log_event, failed_to, subject_server,
}

-- whether a reference is to `id`
abbrev pub refers : Text → Option Text → Bool
refers id none = false
refers id (some x) = text_eq x id

-- The rows that `DELETE FROM servers` takes with it, by the `ON DELETE CASCADE` of migrations 008,
-- 009, 010, 015 and 017.
unfoldable pub drop_server : Text → Db → Db
drop_server id db = record db {
  servers = delete_where (is_server id) db.servers;
  databases = delete_where (λ d. text_eq d.server_id id) db.databases;
  backups = delete_where (λ b. text_eq b.server_id id) db.backups;
  schedules = delete_where (λ s. text_eq s.server_id id) db.schedules;
  subusers = delete_where (λ s. text_eq s.server_id id) db.subusers;
  transfers = delete_where (λ t. text_eq t.server_id id) db.transfers;
  stats = delete_where (λ r. text_eq r.server_id id) db.stats;
}

-- `DELETE FROM servers WHERE id = $1`. Migration 013 declares `jobs.server_id REFERENCES
-- servers(id)` with no `ON DELETE`, so a job of the server refuses the statement.
unfoldable pub delete_server_row : Env → Text → Exec (Unit {0})
delete_server_row env id = do
  db ← gets (λ w. w.db)
  if any (λ (j : JobRow). refers id j.server_id) db.jobs
      then throw (db_error env.foreign_key_error)
      else on_db (drop_server id)

-- the call of the agent, where the server has a node
remove_container : Env → Text → Option NodeInfo → Exec (Unit {0})
remove_container env id none = pure tt
remove_container env id (some node) = do agent_post env node id remove; pure tt

-- the mail after a removal
notify_removed : Env → Option (ServerRow × UserRow) → Exec (Unit {0})
notify_removed env none = pure tt
notify_removed env (some (srv, owner)) = do
  db ← gets (λ w. w.db)
  if should_notify env (λ p. p.email_on_remove) srv.owner_id db
      then send_mail (record { kind = MailKind.removed; to = owner.email; about = srv.name })
      else pure tt

-- `servers s JOIN users u ON s.owner_id = u.id`
unfoldable pub server_and_owner : Text → Db → Option (ServerRow × UserRow)
unfolding find_owner
server_and_owner id db = elim (find_server id db) [
  | none ↦ none
  | some s ↦ elim (find_owner id db) [ none ↦ none | some u ↦ some (s, u) ]
]

-- `"server.delete"`
unfoldable pub delete_server : Env → Text → Exec (Unit {0})
unfolding remove_container notify_removed delete_server_row
delete_server env id = do
  server_info ← gets (λ w. server_and_owner id w.db)
  node ← gets (λ w. node_for_server id w.db)
  remove_container env id node
  delete_server_row env id
  try_catch (notify_removed env server_info) (λ err. pure tt)

-- the end of `server.command`
finish_command : Text → AgentResponse → Exec (Unit {0})
finish_command id (refused status e) = throw (failed_to (codes "Failed to send command: ") e)
finish_command id (accepted _) = log_event (codes "server.command.sent") subject_server id

-- `"server.command"`
unfoldable pub send_command : Env → Text → Text → Exec (Unit {0})
unfolding finish_command
send_command env id text = do
  node ← require_node id
  resp ← agent_post env node id (command text)
  finish_command id resp

abbrev pub is_backup : Text → BackupRow → Bool
is_backup id b = text_eq b.id id

-- `UPDATE backups SET … WHERE id = $1`
unfoldable pub update_backup : Text → (BackupRow → BackupRow) → Exec (Unit {0})
unfolding modify
update_backup id f = on_db (λ db. record db { backups = update_where (is_backup id) f db.backups })

-- the end of `backup.create`
unfoldable pub finish_backup : Text → AgentResponse → Exec (Unit {0})
finish_backup backup_id (refused status e) = do
  now ← gets (λ w. w.clock)
  update_backup backup_id (λ b. record b { status = BackupStatus.failed; completed_at = some now })
  throw (failed_to (codes "Backup creation failed: ") e)
finish_backup backup_id (accepted d) = do
  now ← gets (λ w. w.clock)
  update_backup backup_id (λ b. record b {
    status = BackupStatus.completed;
    storage_path = d.filename;
    size_bytes = d.size;
    completed_at = some now;
  })
  log_event (codes "backup.completed") (codes "backup") backup_id

-- `"backup.create"`
unfoldable pub create_backup : Env → Text → Text → Exec (Unit {0})
unfolding finish_backup
create_backup env backup_id id = do
  update_backup backup_id (λ b. record b { status = compressing })
  node ← require_node id
  resp ← agent_post env node id backup_create
  finish_backup backup_id resp

-- the call that deletes a file, where the server has a node
unfoldable pub delete_on : Env → Text → Text → Option NodeInfo → Exec (Unit {0})
delete_on env id filename none = pure tt
delete_on env id filename (some n) = do agent_post env n id (backup_delete filename); pure tt

-- The file of a backup is deleted by the agent, where there is a row with a path. The empty path is
-- false.
unfoldable pub delete_file : Env → Text → Option Text → Exec (Unit {0})
unfolding delete_on
delete_file env id none = pure tt
delete_file env id (some []) = pure tt
delete_file env id (some (c ∷ path)) = do
  node ← gets (λ w. node_for_server id w.db)
  delete_on env id (c ∷ path) node

abbrev pub path_of : Option BackupRow → Option Text
path_of none = none
path_of (some b) = b.storage_path

unfoldable pub delete_backup_row : Text → Exec (Unit {0})
unfolding modify
delete_backup_row id = on_db (λ db. record db { backups = delete_where (is_backup id) db.backups })

-- `"backup.delete"`
unfoldable pub delete_backup : Env → Text → Text → Exec (Unit {0})
unfolding delete_file delete_backup_row
delete_backup env backup_id id = do
  found ← gets (λ w. find_where (is_backup backup_id) w.db.backups)
  delete_file env id (path_of found)
  delete_backup_row backup_id
