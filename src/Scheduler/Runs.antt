-- ===== src/Scheduler/Runs.antt =====
-- `executeSchedule` and the `tick` of panel/src/services/scheduler.ts. The clock counts
-- milliseconds; `moment` turns it into what the getters of a `Date` return.
pub mod Laws
use troxe_host.Common.{
  ℕ, ◌/◌, Bool, true, false, not, ◌&&◌, ◌||◌, Option, none, some, List, [], ◌∷◌, Text, codes,
  text_eq, if◌then◌else◌, ◌==◌,
}
use troxe_host.Db.{
  Db, ScheduleRow, Task, JobType, server_start, server_stop, server_restart, server_kill,
  server_command, backup_create, Payload,
}
use troxe_host.Db.Table.{update_where}
use troxe_host.Effects.{
  World, Env, Exec, Failure, pure, gets, modify, try_catch, on_db, fresh_id, ◌>>=◌, ◌>>◌,
}
use troxe_host.Workers.Queue.{add_job}
use troxe_host.Servers.{on_server, power_job}
use troxe_host.Scheduler.Cron.{Moment, matches_cron}

abbrev add : Env → JobType → Payload → Exec (Unit {0})
add env type p = do add_job env type p none; pure tt

unfoldable pub power_task : Env → Text → Option JobType → Exec (Unit {0})
power_task env id none = pure tt
power_task env id (some type) = add env type (on_server id)

-- a backup is given a random id
unfoldable pub backup_task : Env → Text → Exec (Unit {0})
backup_task env id = do
  backup_id ← fresh_id env
  add env backup_create (record { server_id = id; backup_id = backup_id; command = [] })

-- the `switch` on a task's type; an announcement is only printed
unfoldable pub run_task : Env → Text → Task → Exec (Unit {0})
unfolding power_task power_job backup_task
run_task env id task =
    if text_eq task.type (codes "command")
    then add env server_command (record { server_id = id; backup_id = []; command = task.payload })
    else if text_eq task.type (codes "power")
    then power_task env id (power_job task.payload)
    else if text_eq task.type (codes "backup")
    then backup_task env id
    else pure tt

-- the loop over the tasks: a task that fails is printed, and the next one runs
unfoldable pub run_tasks : Env → Text → List Task → Exec (Unit {0})
unfolding run_task
run_tasks env id [] = pure tt
run_tasks env id (task ∷ tasks) = do
  try_catch (run_task env id task) (λ err. pure tt)
  run_tasks env id tasks

abbrev pub is_schedule : Text → ScheduleRow → Bool
is_schedule id s = text_eq s.id id

-- `UPDATE schedules SET last_run_at = now() WHERE id = $1`
unfoldable pub note_run : Text → Exec (Unit {0})
unfolding modify
note_run id = do
  now ← gets (λ w. w.clock)
  on_db (λ db. record db {
    schedules =
        update_where (is_schedule id) (λ s. record s { last_run_at = some now }) db.schedules;
  })

-- `executeSchedule`
unfoldable pub execute_schedule : Env → ScheduleRow → Exec (Unit {0})
unfolding run_tasks note_run
execute_schedule env s = do run_tasks env s.server_id s.tasks; note_run s.id

-- `Math.floor(t / 60000)`
abbrev pub minute_of : ℕ → ℕ
minute_of t = t / 60000

-- whether the last run was in the minute of `now`
abbrev pub ran_at : ℕ → Option ℕ → Bool
ran_at now none = false
ran_at now (some t) = minute_of t == minute_of now

-- whether a schedule is to run at `now`
unfoldable pub is_due : (ℕ → Moment) → ℕ → ScheduleRow → Bool
is_due moment now s = not (ran_at now s.last_run_at) && matches_cron s.cron_expression (moment now)

-- the loop over the rows that the query gave
run_due : Env → (ℕ → Moment) → ℕ → List ScheduleRow → Exec (Unit {0})
unfolding execute_schedule is_due
run_due env moment now [] = pure tt
run_due env moment now (s ∷ rest) =
    let others = run_due env moment now rest in
    if is_due moment now s then execute_schedule env s >> others else others

-- `WHERE is_active = true`
unfoldable pub active_schedules : List ScheduleRow → List ScheduleRow
active_schedules [] = []
active_schedules (s ∷ rest) =
    let others = active_schedules rest in if s.is_active then s ∷ others else others

-- one `tick`
unfoldable pub tick : Env → (ℕ → Moment) → Exec (Unit {0})
unfolding run_due active_schedules
tick env moment = do
  now ← gets (λ w. w.clock)
  rows ← gets (λ w. active_schedules w.db.schedules)
  try_catch (run_due env moment now rows) (λ err. pure tt)
