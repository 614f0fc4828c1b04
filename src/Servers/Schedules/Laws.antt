-- ===== src/Servers/Schedules/Laws.antt =====
-- The route that runs a schedule now, next to the scheduler.
use troxe_host.Common.{
  true, false, Option, none, some, List, [], ◌∷◌, Text, codes, text_eq, text_eq_iff, ◌≡◌, refl, sym,
  Bool-cases, inl, inr,
}
use troxe_host.Db.{ScheduleRow, Task, JobType}
use troxe_host.Db.Table.{find_where}
use troxe_host.Effects.{World, Env, pure, gets, ◌>>=◌, ◌>>◌}
use troxe_host.Effects.Runs.{then_assoc}
use troxe_host.Reply.{sent}
use troxe_host.Servers.{power_job}
use troxe_host.Scheduler.Runs.{
  power_task, backup_task, run_task, run_tasks, is_schedule, note_run, execute_schedule,
}
use troxe_host.Servers.Schedules.{
  queue_backup, run_other, run_now_task, run_now_tasks, run_found, run_route,
}

run_other-power_task :
    (env : Env) (id : Text) (task : Task) (power : Option JobType)
    → text_eq task.type (codes "backup") ≡ false
    → run_other env id task power ≡ power_task env id power
unfolding run_other power_task
run_other-power_task env id task none other = rw other refl
run_other-power_task env id task (some type) other = refl

power_or_backup :
    (type : Text) → text_eq type (codes "power") ≡ true → text_eq type (codes "backup") ≡ false
unfolding text_eq
power_or_backup type power = rw ((text_eq_iff type (codes "power")).0 power) refl

run_now_task-run_task :
    (env : Env) (id : Text) (task : Task) → run_now_task env id task ≡ run_task env id task
unfolding run_now_task run_task queue_backup run_other backup_task
run_now_task-run_task env id task = elim (Bool-cases (text_eq task.type (codes "power"))) [
  | inl power ↦
      rw
        (
          power,
          run_other-power_task env id task (power_job task.payload)
              (power_or_backup task.type power),
        )
        refl
  | inr other ↦ rw other refl
]

run_now_tasks-run_tasks :
    (env : Env) (id : Text) (tasks : List Task)
    → run_now_tasks env id tasks ≡ run_tasks env id tasks
unfolding run_now_tasks run_tasks
run_now_tasks-run_tasks env id [] = refl
run_now_tasks-run_tasks env id (task ∷ tasks) =
    rw (run_now_task-run_task env id task, run_now_tasks-run_tasks env id tasks) refl

-- Running a schedule by its route, where the schedule has a row, has the effects that the scheduler
-- has when it executes that row: the same jobs in the same order, the same errors swallowed, the
-- same time noted.
pub run_route-execute_schedule :
    (env : Env) (w : World) {s : ScheduleRow}
    → find_where (is_schedule s.id) w.db.schedules ≡ some s
    → run_route env s.id w ≡ (do execute_schedule env s; pure (sent s)) w
unfolding run_route run_found execute_schedule gets ◌>>=◌
run_route-execute_schedule env w {s} there =
    rw (there, run_now_tasks-run_tasks env s.server_id s.tasks)
      (sym (
        then_assoc (run_tasks env s.server_id s.tasks) (λ _. note_run s.id) (λ _. pure (sent s)) w))
