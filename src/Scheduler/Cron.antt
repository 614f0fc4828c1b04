-- ===== src/Scheduler/Cron.antt =====
-- `matchesCron` of panel/src/services/scheduler.ts. `Moment` holds what the getters of a `Date`
-- return, in the server's time zone.
pub mod Fields
use troxe_host.Common.{
  ℕ, ◌+◌, Bool, true, false, ◌&&◌, ◌||◌, List, [], ◌∷◌, Text, ◌==◌, text_eq, if◌then◌else◌, ◌≡◌,
  refl, codes, not,
}
use troxe_host.Js.{split_spaces, trim}
use troxe_host.Scheduler.Field.{match_field}

pub record Moment : Type 0 where
  pub minutes : ℕ
  pub hours : ℕ
  pub date : ℕ
  pub month : ℕ
  pub day : ℕ

-- the test of the day of week: 0 and 7 are both Sunday
unfoldable pub match_day : Text → ℕ → Bool
match_day day_of_week dow =
    text_eq day_of_week (b'*' ∷ [])
    || match_field day_of_week dow
    || dow == 0 && match_field day_of_week 7

-- The five tests in the source's order; what follows the fifth part is not read.
match_parts : List Text → Moment → Bool
unfolding match_day
match_parts (minute ∷ hour ∷ day_of_month ∷ month ∷ day_of_week ∷ _) at =
    if not (match_field minute at.minutes)
    then false
    else if not (match_field hour at.hours)
    then false
    else if not (match_field day_of_month at.date)
    then false
    else if not (match_field month (at.month + 1))
    then false
    else match_day day_of_week at.day
match_parts _ at = false

unfoldable pub matches_cron : Text → Moment → Bool
unfolding match_parts
matches_cron expr at = match_parts (split_spaces (trim expr)) at
