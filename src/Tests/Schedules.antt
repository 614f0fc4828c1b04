-- ===== src/Tests/Schedules.antt =====
-- The scheduler, on the small panel.
use troxe_host.Common.{true, none, [], ◌∷◌, codes, refl, ◌≡◌, arith, ◌<◌, ◌&&◌}
use troxe_host.Js.{is_space}
use troxe_host.Js.Splitting.{join}
use troxe_host.Db.{ScheduleRow}
use troxe_host.Effects.{World}
use troxe_host.Scheduler.Field.{match_field}
use troxe_host.Scheduler.Field.Items.{
  every, between, range_step, print_field, match_field-print_field, range_step_overshoot,
}
use troxe_host.Scheduler.Cron.{Moment, matches_cron, match_day}
use troxe_host.Scheduler.Cron.Fields.{matches_cron-join}
use troxe_host.Tests.{world, db}

match_field-print_field_example : match_field (print_field (every 20) (between 5 7 ∷ [])) 40 ≡ true
match_field-print_field_example = match_field-print_field (every 20) (between 5 7 ∷ []) 40

some_step : 0 < 5
some_step = omega arith

-- 30 lies past the end of 10-20/5
range_step_overshoot_example : match_field (print_field (range_step 10 20 5) []) 30 ≡ true
range_step_overshoot_example = range_step_overshoot 10 20 5 4 some_step

abbrev noon : Moment
noon = record { minutes = 0; hours = 12; date = 1; month = 0; day = 0 }

matches_cron-join_example : matches_cron (codes "0 12 * * 7") noon ≡ (
    match_field (codes "0") 0
    && match_field (codes "12") 12
    && match_field (codes "*") 1
    && match_field (codes "*") 1
    && match_day (codes "7") 0)
unfolding is_space join
matches_cron-join_example =
    matches_cron-join (codes "0") (codes "12") (codes "*") (codes "*") (codes "7") [] noon
      (refl, (refl, tt))
      (
        (refl, (refl, (refl, tt))),
        ((refl, (refl, tt)), ((refl, (refl, tt)), ((refl, (refl, tt)), tt))),
      )

abbrev nightly : ScheduleRow
nightly = record {
  id = codes "c1";
  server_id = codes "s1";
  name = codes "nightly";
  cron_expression = codes "0 3 * * *";
  is_active = true;
  tasks = record { type = codes "power"; payload = codes "restart" } ∷ [];
  last_run_at = none;
}

abbrev planned : World
planned = record world { db = record db { schedules = nightly ∷ [] } }
