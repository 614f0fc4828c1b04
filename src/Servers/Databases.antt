-- ===== src/Servers/Databases.antt =====
-- panel/src/api/routes/databases.ts, behind the guards of its routes, and database-hosts.ts. Whether
-- the statements on a MySQL host succeed is a parameter.
pub mod Capacity
pub mod Choice
pub mod Hosts
use mathlib.Core.Option
use mathlib.Core.List.{reverse, filter}
use troxe_host.Common.{
  ℕ, zero, suc, ◌+◌, ◌*◌, Bool, true, false, not, ◌&&◌, ◌||◌, Option, none, some, List, [], ◌∷◌,
  ◌++◌, map, Text, codes, text_eq, if◌then◌else◌, is_some, ◌==◌, leb, ltb, any, length,
}
use troxe_host.Common.Int.{ℤ, pos, ◌+ℤ◌, ◌-ℤ◌}
use troxe_host.Js.{trim, split_spaces}
use troxe_host.Js.Decimal.{print}
use troxe_host.Db.{
  Db, UserRow, NodeRow, LocationRow, NestRow, AllocationRow, EggRow, ServerRow, ServerStatus,
  install_pending, crashed, BackupRow, BackupStatus, building, Task, ScheduleRow, DatabaseHostRow,
  DatabaseRow, Grant, flag, group, Permissions, SubuserRow, ApiKeyRow, PreferenceRow, JobRow,
  TransferRow, server_install, backup_create, backup_delete, server_command, JobType, Payload,
}
use troxe_host.Db.Table.{
  find_where, update_where, delete_where, count_where, select_where, join_where,
}
use troxe_host.Db.Patch.{change, updates, set_all}
use troxe_host.Agent.{NodeInfo}
use troxe_host.Effects.{
  World, Env, Mail, MailKind, Exec, Failure, error, db_error, pure, throw, gets, modify, try_catch,
  on_db, fresh_id, send_mail, ◌>>=◌, ◌>>◌,
}
use troxe_host.Workers.Steps.{
  is_server, find_server, find_node, find_egg, find_owner, update_server, node_for_server,
  log_event, subject_server, number_or, should_notify,
}
use troxe_host.Workers.Queue.{add_job, references_ok}
use troxe_host.Workers.Removal.{refers, is_backup}
use troxe_host.Reply.{Reply, sent, failed}
use troxe_host.Servers.{on_server, queue_job, power_job}

-- `GET /servers/:id/databases`, the latest first, each with its host
unfoldable pub list_databases : Text → Db → List (DatabaseRow × DatabaseHostRow)
list_databases id db = reverse (
    join_where
      (λ d. find_where (λ (h : DatabaseHostRow). text_eq h.id d.database_host_id) db.database_hosts)
      (select_where (λ d. text_eq d.server_id id) db.databases))

abbrev pub on_host : Text → DatabaseRow → Bool
on_host host_id d = text_eq d.database_host_id host_id

-- `(SELECT COUNT(*) FROM databases WHERE database_host_id = dh.id)`
unfoldable pub load : Db → DatabaseHostRow → ℕ
load db h = count_where (on_host h.id) db.databases

-- a host in front of the first that has a greater count
unfoldable pub insert_by :
    (DatabaseHostRow → ℕ) → DatabaseHostRow → List DatabaseHostRow → List DatabaseHostRow
insert_by key h [] = h ∷ []
insert_by key h (k ∷ rest) = if ltb (key h) (key k) then h ∷ k ∷ rest else k ∷ insert_by key h rest

-- `ORDER BY current_count ASC`; hosts with one count stand in some order, here that of the table
unfoldable pub by_load : (DatabaseHostRow → ℕ) → List DatabaseHostRow → List DatabaseHostRow
unfolding insert_by
by_load key [] = []
by_load key (h ∷ hosts) = insert_by key h (by_load key hosts)

abbrev pub has_room : Db → DatabaseHostRow → Bool
has_room db h = ltb (load db h) h.max_databases

-- the host for a new database: the first with room, by load
unfoldable pub choose_host : Db → Option DatabaseHostRow
unfolding load by_load
choose_host db = find_where (has_room db) (by_load (load db) db.database_hosts)

-- the row of `INSERT INTO databases`
abbrev pub new_database : Text → Text → Text → Text → Text → DatabaseRow
new_database id server_id host_id short password = record {
  id = id;
  server_id = server_id;
  database_host_id = host_id;
  name = b's' ∷ short;
  username = b'u' ∷ short;
  password_hash = password;
}

unfoldable pub store_database : Env → Text → Text → Text → Text → Exec (Reply DatabaseRow)
unfolding modify
store_database env id host_id short password = do
  there ← gets (λ w. is_some (find_server id w.db))
  if not there then throw (db_error env.foreign_key_error) else do
    database_id ← fresh_id env
    on_db (λ db. record db {
      databases = db.databases ++ new_database database_id id host_id short password ∷ [];
    })
    pure (sent (new_database database_id id host_id short password))

unfoldable pub create_on :
    Env
    → (DatabaseHostRow → Text → Bool)
    → Text
    → Text
    → Text
    → Option DatabaseHostRow
    → Exec (Reply DatabaseRow)
unfolding store_database
create_on env mysql id short password none =
    pure (failed 400 (codes "All database hosts are at capacity"))
create_on env mysql id short password (some h) =
    if not (mysql h short)
    then pure (failed 500 (codes "Failed to create database on MySQL host"))
    else store_database env id h.id short password

abbrev pub no_hosts : List DatabaseHostRow → Bool
no_hosts [] = true
no_hosts (h ∷ hosts) = false

-- `POST /servers/:id/databases`, from the texts of the random bytes
unfoldable pub create_database :
    Env → (DatabaseHostRow → Text → Bool) → Text → Text → Text → Exec (Reply DatabaseRow)
unfolding create_on choose_host
create_database env mysql id short password = do
  db ← gets (λ w. w.db)
  if no_hosts db.database_hosts
      then pure (failed 400 (codes "No database hosts configured"))
      else create_on env mysql id short password (choose_host db)

abbrev pub is_database : Text → DatabaseRow → Bool
is_database id d = text_eq d.id id

-- whether the join of `DELETE` finds the database on the server, with its host
unfoldable pub database_of : Text → Text → Db → Option DatabaseRow
database_of id database_id db =
    elim (find_where (λ d. is_database database_id d && text_eq d.server_id id) db.databases) [
      | none ↦ none
      | some d ↦
          elim (find_where (λ (h : DatabaseHostRow). text_eq h.id d.database_host_id)
            db.database_hosts) [ none ↦ none | some h ↦ some d ]
    ]

unfoldable pub delete_found : Text → Option DatabaseRow → Exec (Reply (Unit {0}))
unfolding modify
delete_found database_id none = pure (failed 404 (codes "Database not found"))
delete_found database_id (some d) = do
  on_db (λ db. record db { databases = delete_where (is_database database_id) db.databases })
  pure (sent tt)

-- `DELETE /servers/:id/databases/:dbId`: a MySQL host that fails is only logged
unfoldable pub delete_database : Text → Text → Exec (Reply (Unit {0}))
unfolding delete_found database_of
delete_database id database_id = do
  found ← gets (λ w. database_of id database_id w.db)
  delete_found database_id found

abbrev pub is_host : Text → DatabaseHostRow → Bool
is_host id h = text_eq h.id id

-- `DELETE /database-hosts/:id`
unfoldable pub delete_host : Text → Exec (Reply (Unit {0}))
unfolding modify
delete_host id = do
  databases ← gets (λ w. count_where (on_host id) w.db.databases)
  if ltb 0 databases
      then pure (failed 400 (codes "Cannot delete database host with active databases"))
      else do
        on_db (λ db. record db { database_hosts = delete_where (is_host id) db.database_hosts })
        pure (sent tt)
