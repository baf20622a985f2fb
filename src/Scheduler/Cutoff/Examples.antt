-- ===== src/Scheduler/Cutoff/Examples.antt =====
-- A weekly job of Saturdays, looked at on a Sunday, and the cutoff of a daily one.
use stock_fixer.Prelude.{◌<◌, ◌≤◌, ◌+◌, ◌≡◌, ◌⊎◌, refl, arith, true, false, some, none, [], ◌∷◌}
use stock_fixer.Calendar.Date.{Datetime, date, IsDate, weekday, to_ordinal, days_in_month}
use stock_fixer.Scheduler.Types.{Config, Period}
use stock_fixer.Scheduler.Cutoff.{scheduled_day}
use stock_fixer.Scheduler.Cutoff.RegularStart.{IsFirst, scheduled_day-weekly}

abbrev weekly_config : Config
weekly_config = record {
  hour = some 6;
  minute = some 0;
  day_of_week = "sat";
  period = Period.weekly;
  day = none;
  recover_rest_of_week = true;
  backfill = false;
  recovery_delay_minutes = 10;
  recovery_until = some (15, 30);
  recovery_min_gap_minutes = none;
  max_executions_per_period = 2;
  rerun_if_interrupted = false;
  max_interrupted_reruns_per_period = 1;
  max_retries = 2;
}

abbrev daily_config : Config
daily_config = record weekly_config { period = Period.daily; recover_rest_of_week = false }

-- 11 January 2026, 10:00.
abbrev a_sunday : Datetime
a_sunday = record { on_date = date 2026 1 11; tod = 36_000_000_000 }

sunday-IsDate : IsDate a_sunday.on_date
unfolding days_in_month
sunday-IsDate = record {
  year_pos = omega arith;
  month_pos = omega arith;
  month_le = omega arith;
  day_pos = omega arith;
  day_le = omega arith;
}

scheduled_day-weekly_example :
    IsFirst 5 (5 ∷ [])
    × (((weekday a_sunday.on_date < 5) × (scheduled_day weekly_config a_sunday (5 ∷ []) ≡ none))
        ⊎ ((5 ≤ weekday a_sunday.on_date)
            × (t : Datetime) × (scheduled_day weekly_config a_sunday (5 ∷ []) ≡ some t)
            × (weekday t.on_date ≡ 5)
            × (to_ordinal t.on_date + weekday a_sunday.on_date ≡ to_ordinal a_sunday.on_date + 5)))
scheduled_day-weekly_example =
    scheduled_day-weekly weekly_config a_sunday 5 [] refl refl sunday-IsDate (omega arith)
