-- ===== src/Servers/Settings.antt =====
-- panel/src/api/routes/server-settings.ts, behind the guards of its routes.
pub mod Laws
use mathlib.Core.Option
use mathlib.Core.List.{reverse, filter}
use troxe_host.Common.{
  ℕ, zero, suc, ◌+◌, ◌*◌, Bool, true, false, not, ◌&&◌, ◌||◌, Option, none, some, List, [], ◌∷◌,
  ◌++◌, map, Text, codes, text_eq, if◌then◌else◌, is_some, ◌==◌, leb, ltb, any, length,
}
use troxe_host.Common.Int.{ℤ, pos, ◌+ℤ◌, ◌-ℤ◌}
use troxe_host.Js.{trim, split_spaces}
use troxe_host.Js.Decimal.{print}
use troxe_host.Db.{
  Db, UserRow, NodeRow, LocationRow, NestRow, AllocationRow, EggRow, ServerRow, ServerStatus,
  install_pending, crashed, BackupRow, BackupStatus, building, Task, ScheduleRow, DatabaseHostRow,
  DatabaseRow, Grant, flag, group, Permissions, SubuserRow, ApiKeyRow, PreferenceRow, JobRow,
  TransferRow, server_install, backup_create, backup_delete, server_command, JobType, Payload,
}
use troxe_host.Db.Table.{find_where, update_where, delete_where, count_where, select_where}
use troxe_host.Db.Patch.{change, updates, set_all}
use troxe_host.Agent.{NodeInfo}
use troxe_host.Effects.{
  World, Env, Mail, MailKind, Exec, Failure, error, db_error, pure, throw, gets, modify, try_catch,
  on_db, fresh_id, send_mail, ◌>>=◌, ◌>>◌,
}
use troxe_host.Workers.Steps.{
  is_server, find_server, find_node, find_egg, find_owner, update_server, node_for_server,
  log_event, subject_server, number_or, should_notify,
}
use troxe_host.Workers.Queue.{add_job, references_ok}
use troxe_host.Workers.Removal.{refers, is_backup}
use troxe_host.Reply.{Reply, sent, failed}
use troxe_host.Servers.{on_server, queue_job, power_job}

pub record SettingsBody : Type 0 where
  pub name : Option Text
  pub startup : Option Text
  pub environment : Option (List (Text × Text))
  pub memory_mb : Option ℕ
  pub disk_mb : Option ℕ
  pub cpu_percent : Option ℕ
  pub pid_limit : Option ℕ

-- the changes of a body, in the order of the code
unfoldable pub settings_changes : SettingsBody → List (ServerRow → ServerRow)
unfolding updates
settings_changes body = updates (
    change body.name (λ v r. record r { name = v })
    ∷ change body.startup (λ v r. record r { startup_command = v })
    ∷ change body.environment (λ v r. record r { environment = v })
    ∷ change body.memory_mb (λ v r. record r { memory_mb = v })
    ∷ change body.disk_mb (λ v r. record r { disk_mb = v })
    ∷ change body.cpu_percent (λ v r. record r { cpu_percent = v })
    ∷ change body.pid_limit (λ v r. record r { pid_limit = v })
    ∷ [])

unfoldable pub apply_changes : Text → List (ServerRow → ServerRow) → Exec (Reply (Unit {0}))
unfolding modify update_server set_all
apply_changes id [] = pure (failed 400 (codes "No fields to update"))
apply_changes id (f ∷ fs) = do on_db (update_server id (set_all (f ∷ fs))); pure (sent tt)

-- `PUT /servers/:id/settings`
unfoldable pub update_route : Text → SettingsBody → Exec (Reply (Unit {0}))
unfolding apply_changes settings_changes
update_route id body = apply_changes id (settings_changes body)

-- `GET /servers/:id/network`, whose order by port is left out
unfoldable pub network : Text → Db → List AllocationRow
network id db = select_where (λ a. refers id a.server_id) db.allocations

pub record Features : Type 0 where
  pub backup_count : ℕ
  pub schedule_count : ℕ
  pub subuser_count : ℕ
  pub database_count : ℕ
  pub max_backups : ℕ
  pub max_allocations : ℕ
  pub max_databases : ℕ

abbrev features_with : Text → Db → EggRow → Features
features_with id db e = record {
  backup_count = count_where (λ b. text_eq b.server_id id) db.backups;
  schedule_count = count_where (λ s. text_eq s.server_id id) db.schedules;
  subuser_count = count_where (λ u. text_eq u.server_id id) db.subusers;
  database_count = count_where (λ d. text_eq d.server_id id) db.databases;
  max_backups = e.max_backups;
  max_allocations = e.max_allocations;
  max_databases = e.max_databases;
}

-- `GET /servers/:id/features`
unfoldable pub features : Text → Db → Reply Features
features id db = elim (find_server id db) [
  | none ↦ failed 404 (codes "Server not found")
  | some s ↦ elim (find_egg s.egg_id db) [
    | none ↦ failed 404 (codes "Server not found")
    | some e ↦ sent (features_with id db e)
  ]
]

-- `POST /servers/:id/reinstall`
unfoldable pub reinstall_route : Env → Text → Exec (Reply (Unit {0}))
unfolding update_server modify
reinstall_route env id = do
  on_db (update_server id (λ r. record r { status = install_pending; installed_at = none }))
  queue_job env server_install id none
