-- ===== src/Servers/Schedules.antt =====
-- panel/src/api/routes/schedules.ts, behind the guards of its routes.
pub mod Laws
use mathlib.Core.Option
use mathlib.Core.List.{reverse, filter}
use troxe_host.Common.{
  ℕ, zero, suc, ◌+◌, ◌*◌, Bool, true, false, not, ◌&&◌, ◌||◌, Option, none, some, List, [], ◌∷◌,
  ◌++◌, map, Text, codes, text_eq, if◌then◌else◌, is_some, ◌==◌, leb, ltb, any, length,
}
use troxe_host.Common.Int.{ℤ, pos, ◌+ℤ◌, ◌-ℤ◌}
use troxe_host.Js.{trim, split_spaces}
use troxe_host.Js.Decimal.{print}
use troxe_host.Db.{
  Db, UserRow, NodeRow, LocationRow, NestRow, AllocationRow, EggRow, ServerRow, ServerStatus,
  install_pending, crashed, BackupRow, BackupStatus, building, Task, ScheduleRow, DatabaseHostRow,
  DatabaseRow, Grant, flag, group, Permissions, SubuserRow, ApiKeyRow, PreferenceRow, JobRow,
  TransferRow, server_install, backup_create, backup_delete, server_command, JobType, Payload,
}
use troxe_host.Db.Table.{find_where, update_where, delete_where, count_where, select_where}
use troxe_host.Db.Patch.{change, updates, set_all}
use troxe_host.Agent.{NodeInfo}
use troxe_host.Effects.{
  World, Env, Mail, MailKind, Exec, Failure, error, db_error, pure, throw, gets, modify, try_catch,
  on_db, fresh_id, send_mail, ◌>>=◌, ◌>>◌,
}
use troxe_host.Workers.Steps.{
  is_server, find_server, find_node, find_egg, find_owner, update_server, node_for_server,
  log_event, subject_server, number_or, should_notify,
}
use troxe_host.Workers.Queue.{add_job, references_ok}
use troxe_host.Workers.Removal.{refers, is_backup}
use troxe_host.Reply.{Reply, sent, failed}
use troxe_host.Servers.{on_server, queue_job, power_job}
use troxe_host.Scheduler.Runs.{is_schedule, note_run}

-- `GET /servers/:id/schedules`, the latest first
unfoldable pub list_schedules : Text → Db → List ScheduleRow
list_schedules id db = reverse (select_where (λ s. text_eq s.server_id id) db.schedules)

pub record CreateBody : Type 0 where
  pub name : Text
  pub cron_expression : Text
  pub tasks : List Task

-- the check of a new expression: five or six parts
unfoldable pub has_valid_parts : Text → Bool
has_valid_parts expr =
    let parts = length (split_spaces (trim expr)) in not (ltb parts 5 || ltb 6 parts)

-- the row of `INSERT INTO schedules`, with the columns' defaults
abbrev pub new_schedule : Text → Text → CreateBody → ScheduleRow
new_schedule schedule_id id body = record {
  id = schedule_id;
  server_id = id;
  name = body.name;
  cron_expression = body.cron_expression;
  is_active = true;
  tasks = body.tasks;
  last_run_at = none;
}

-- `INSERT INTO schedules`, whose server has to be there
insert_schedule : Env → Text → CreateBody → Exec (Reply ScheduleRow)
unfolding modify
insert_schedule env id body = do
  there ← gets (λ w. is_some (find_server id w.db))
  if not there then throw (db_error env.foreign_key_error) else do
    schedule_id ← fresh_id env
    on_db (λ db. record db { schedules = db.schedules ++ new_schedule schedule_id id body ∷ [] })
    pure (sent (new_schedule schedule_id id body))

-- `POST /servers/:id/schedules`
unfoldable pub create_route : Env → Text → CreateBody → Exec (Reply ScheduleRow)
unfolding has_valid_parts insert_schedule
create_route env id body =
    if not (has_valid_parts body.cron_expression)
    then pure (failed 400 (codes "Invalid cron expression"))
    else insert_schedule env id body

pub record UpdateBody : Type 0 where
  pub name : Option Text
  pub cron_expression : Option Text
  pub is_active : Option Bool
  pub active : Option Bool
  pub tasks : Option (List Task)

-- the changes of a body, in the order of the code
unfoldable pub schedule_changes : UpdateBody → List (ScheduleRow → ScheduleRow)
unfolding updates
schedule_changes body = updates (
    change body.name (λ v r. record r { name = v })
    ∷ change body.cron_expression (λ v r. record r { cron_expression = v })
    ∷ change body.is_active (λ v r. record r { is_active = v })
    ∷ change body.active (λ v r. record r { is_active = v })
    ∷ change body.tasks (λ v r. record r { tasks = v })
    ∷ [])

-- the statement names `is_active` twice, which PostgreSQL refuses
abbrev twice_active : UpdateBody → Bool
twice_active body = is_some body.is_active && is_some body.active

apply_changes :
    Text → Text → UpdateBody → List (ScheduleRow → ScheduleRow) → Exec (Reply (Unit {0}))
unfolding modify set_all
apply_changes refused schedule_id body [] = pure (failed 400 (codes "No fields to update"))
apply_changes refused schedule_id body (f ∷ fs) =
    if twice_active body then throw (db_error refused) else do
      on_db (λ db. record db {
        schedules = update_where (is_schedule schedule_id) (set_all (f ∷ fs)) db.schedules;
      })
      pure (sent tt)

-- `PUT` and `PATCH /servers/:serverId/schedules/:scheduleId`; `refused` is the database's text for a
-- column that is named twice
unfoldable pub update_route : Text → Text → UpdateBody → Exec (Reply (Unit {0}))
unfolding apply_changes schedule_changes
update_route refused schedule_id body =
    apply_changes refused schedule_id body (schedule_changes body)

-- `DELETE /servers/:serverId/schedules/:scheduleId`
unfoldable pub delete_route : Text → Exec (Reply (Unit {0}))
unfolding modify
delete_route schedule_id = do
  on_db (λ db. record db { schedules = delete_where (is_schedule schedule_id) db.schedules })
  pure (sent tt)

abbrev add : Env → JobType → Payload → Exec (Unit {0})
add env type p = do add_job env type p none; pure tt

abbrev power_of : Text → Text → Option JobType
power_of type payload = if text_eq type (codes "power") then power_job payload else none

-- a backup is given a random id
unfoldable pub queue_backup : Env → Text → Exec (Unit {0})
queue_backup env id = do
  backup_id ← fresh_id env
  add env backup_create (record { server_id = id; backup_id = backup_id; command = [] })

-- the tests of `run now` after the first: the type "power" with one of the four actions comes before
-- the type "backup"
unfoldable pub run_other : Env → Text → Task → Option JobType → Exec (Unit {0})
unfolding queue_backup
run_other env id task (some power) = add env power (on_server id)
run_other env id task none =
    if text_eq task.type (codes "backup") then queue_backup env id else pure tt

-- one round of the loop of `run now`
unfoldable pub run_now_task : Env → Text → Task → Exec (Unit {0})
unfolding run_other
run_now_task env id task =
    if text_eq task.type (codes "command")
    then add env server_command (record { server_id = id; backup_id = []; command = task.payload })
    else run_other env id task (power_of task.type task.payload)

unfoldable pub run_now_tasks : Env → Text → List Task → Exec (Unit {0})
unfolding run_now_task
run_now_tasks env id [] = pure tt
run_now_tasks env id (task ∷ tasks) = do
  try_catch (run_now_task env id task) (λ err. pure tt)
  run_now_tasks env id tasks

unfoldable pub run_found : Env → Text → Option ScheduleRow → Exec (Reply ScheduleRow)
unfolding run_now_tasks
run_found env schedule_id none = pure (failed 404 (codes "Schedule not found"))
run_found env schedule_id (some s) = do
  run_now_tasks env s.server_id s.tasks
  note_run schedule_id
  pure (sent s)

-- `POST /servers/:serverId/schedules/:scheduleId/run`
unfoldable pub run_route : Env → Text → Exec (Reply ScheduleRow)
unfolding run_found
run_route env schedule_id = do
  found ← gets (λ w. find_where (is_schedule schedule_id) w.db.schedules)
  run_found env schedule_id found
