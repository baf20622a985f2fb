-- ===== src/Scheduler/Cutoff.antt =====
-- python/src/orchestration/scheduler_cutoff.py: the cutoff of a job on its day, and the regular
-- start that a recovery refers to. `now` is a JST wall-clock time.
pub mod RegularStart
mod Examples
use stock_fixer.Prelude.{
  ℕ, ◌-◌, min, Bool, true, false, not, ◌&&◌, Option, none, some, List, [], ◌∷◌, ltb, leb, ◌==◌,
  if◌then◌else◌, mem_nat,
}
use stock_fixer.Calendar.Date.{Date, Datetime, date, weekday, instant, at_time, days_earlier}
use stock_fixer.Scheduler.Types.{Config, is_weekly, is_monthly}

-- `now_jst >= cutoff`, both on the day of `now`.
unfoldable pub is_past_recovery_until : Config → Datetime → Bool
is_past_recovery_until config now = elim config.recovery_until [
  | none ↦ false
  | some (until_hour, until_minute) ↦
      leb (instant (at_time now until_hour until_minute)) (instant now)
]

abbrev pub is_empty : List ℕ → Bool
is_empty [] = true
is_empty (x ∷ xs) = false

-- `min(weekdays)` of a list that is not empty.
abbrev pub min_from : ℕ → List ℕ → ℕ
min_from m [] = m
min_from m (x ∷ xs) = min_from (min m x) xs

abbrev pub min_weekday : List ℕ → ℕ
min_weekday [] = 0
min_weekday (x ∷ xs) = min_from x xs

-- The first `if`/`elif`: the day that the recovery refers to, or `None`.
unfoldable pub scheduled_day : Config → Datetime → List ℕ → Option Datetime
scheduled_day config now weekdays =
    if not (is_empty weekdays) && (is_weekly config.period && config.recover_rest_of_week)
    then if ltb (weekday now.on_date) (min_weekday weekdays)
      then none
      else some (days_earlier (weekday now.on_date - min_weekday weekdays) now)
    else if not (is_empty weekdays) && not (mem_nat (weekday now.on_date) weekdays)
    then none
    else some now

-- `scheduled = now.replace(day=scheduled_day)` of a monthly job.
unfoldable pub monthly_day : Config → Datetime → Datetime → Option Datetime
monthly_day config now scheduled =
    if is_monthly config.period
    then elim config.day [
      | none ↦ none
      | some d ↦
          if ltb now.on_date.day d
          then none
          else some (record now { on_date = date now.on_date.year now.on_date.month d })
    ]
    else some scheduled

-- `failed` is the exception of `replace` where the hour or the minute is no int.
pub data Basis : Type 0 where
  not_today failed : Basis
  start : Datetime → Basis

abbrev pub at_regular_time : Option ℕ → Option ℕ → Datetime → Basis
at_regular_time (some h) (some m) t = start (at_time t h m)
at_regular_time none _ t = failed
at_regular_time (some h) none t = failed

abbrev pub then_time : Config → Option Datetime → Basis
then_time config none = not_today
then_time config (some t) = at_regular_time config.hour config.minute t

abbrev pub then_month : Config → Datetime → Option Datetime → Basis
then_month config now none = not_today
then_month config now (some t) = then_time config (monthly_day config now t)

unfoldable pub scheduled_datetime_for_recovery : Config → Datetime → List ℕ → Basis
scheduled_datetime_for_recovery config now weekdays =
    then_month config now (scheduled_day config now weekdays)
