-- ===== src/Scheduler/Cron/Fields.antt =====
-- What `matches_cron` makes of an expression of five fields.
use troxe_host.Common.{◌+◌, ◌≡◌, refl, ◌&&◌, false, List, [], ◌∷◌, Text, arith, length, ◌<◌}
use troxe_host.Js.{split_spaces, trim}
use troxe_host.Js.Splitting.{join}
use troxe_host.Js.Words.{IsWord, AreWords, split_spaces-trim}
use troxe_host.Scheduler.Field.{match_field}
use troxe_host.Scheduler.Cron.{Moment, matches_cron, match_parts, match_day}

-- An expression of at least five words with one space between them matches a moment exactly when
-- each of the first five matches its own number, the month counted from 1.
pub matches_cron-join :
    (minute hour day_of_month month day_of_week : Text) (rest : List Text) (at : Moment)
    → IsWord minute
    → AreWords (hour ∷ day_of_month ∷ month ∷ day_of_week ∷ rest)
    → matches_cron (join 32 minute (hour ∷ day_of_month ∷ month ∷ day_of_week ∷ rest)) at ≡ (
        match_field minute at.minutes
        && match_field hour at.hours
        && match_field day_of_month at.date
        && match_field month (at.month + 1)
        && match_day day_of_week at.day)
unfolding matches_cron
matches_cron-join minute hour day_of_month month day_of_week rest at h k =
    rw (split_spaces-trim minute (hour ∷ day_of_month ∷ month ∷ day_of_week ∷ rest) h k)
      (ground arith)

-- An expression of fewer than five parts never matches.
pub matches_cron_short :
    (expr : Text) (at : Moment)
    → length (split_spaces (trim expr)) < 5
    → matches_cron expr at ≡ false
unfolding matches_cron
matches_cron_short expr at h = short (split_spaces (trim expr)) h
  where
    short : (ws : List Text) → length ws < 5 → match_parts ws at ≡ false
    short [] h = refl
    short (a ∷ []) h = refl
    short (a ∷ b ∷ []) h = refl
    short (a ∷ b ∷ c ∷ []) h = refl
    short (a ∷ b ∷ c ∷ d ∷ []) h = refl
    short (a ∷ b ∷ c ∷ d ∷ e ∷ ws) h = absurd (omega arith)
