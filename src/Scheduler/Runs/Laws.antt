-- ===== src/Scheduler/Runs/Laws.antt =====
-- What one tick of the scheduler promises.
use mathlib.Core.Option
use troxe_host.Common.{
  ℕ, ◌+◌, ◌*◌, ◌≤◌, ◌<◌, Bool, false, true, Option, List, [], ◌∷◌, Text, All, ◌≡◌, refl,
}
use troxe_host.Db.{ScheduleRow}
use troxe_host.Db.Table.{find_where}
use troxe_host.Effects.{World, Env, ok, pure, gets, ◌>>=◌}
use troxe_host.Effects.Runs.{try_catch-ok}
use troxe_host.Effects.Keeps.{Keeps}
use troxe_host.Scheduler.Cron.{Moment}
use troxe_host.Scheduler.Runs.{is_due, ran_at, run_due, tick, active_schedules, is_schedule}

-- the time and the schedules, which the tasks do not touch
abbrev SameTable : List ScheduleRow → ℕ → World → Type 0
SameTable rows now w = (w.db.schedules ≡ rows) × (w.clock ≡ now)

-- whether the row of a schedule, where it is there, is due at a time
abbrev pub row_due : (ℕ → Moment) → Text → ℕ → World → Option Bool
row_due moment id time w =
    Option.map (is_due moment time) (find_where (is_schedule id) w.db.schedules)

-- a time of the clock, in milliseconds, within a minute that is counted from the start of the clock
abbrev pub IsWithinMinute : ℕ → ℕ → Type 0
IsWithinMinute minute time = (minute * 60000 ≤ time) × (time < minute * 60000 + 60000)

ran_not_due :
    (moment : ℕ → Moment) (now : ℕ) (s : ScheduleRow)
    → ran_at now s.last_run_at ≡ true
    → is_due moment now s ≡ false
unfolding is_due
ran_not_due moment now s ran = rw ran refl

run_due_idle :
    (env : Env) (moment : ℕ → Moment) (now : ℕ) (rows : List ScheduleRow) (w : World)
    → All (λ (s : ScheduleRow). ran_at now s.last_run_at ≡ true) rows
    → run_due env moment now rows w ≡ (ok tt, w)
unfolding run_due pure
run_due_idle env moment now [] w h = refl
run_due_idle env moment now (s ∷ rest) w (ran, h) =
    rw (ran_not_due moment now s ran) (run_due_idle env moment now rest w h)

-- Where every active schedule has already run in the minute of the clock, a tick does nothing.
pub tick_idle :
    (env : Env) (moment : ℕ → Moment) (w : World)
    → All
        (λ (s : ScheduleRow). ran_at w.clock s.last_run_at ≡ true)
        (active_schedules w.db.schedules)
    → tick env moment w ≡ (ok tt, w)
unfolding tick gets ◌>>=◌
tick_idle env moment w h =
    try_catch-ok _ _ tt w (run_due_idle env moment w.clock (active_schedules w.db.schedules) w h)
