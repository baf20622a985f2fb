-- ===== src/Scheduler/Queue/Missed.antt =====
-- `get_missed_past_periods` of python/src/orchestration/scheduler_queue.py.
use stock_fixer.Prelude.{
  ℕ, zero, suc, ◌+◌, not, none, some, List, [], ◌∷◌, ◌++◌, String, leb, if◌then◌else◌, lookup,
}
use stock_fixer.Calendar.Date.{Datetime, days_earlier}
use stock_fixer.Scheduler.Types.{Config, is_daily}
use stock_fixer.Scheduler.Queue.{
  Queue, Io, reload_state_for_recovery, has_success, get_execution_count, build_period_key,
  is_scheduled_day,
}

-- One round of the loop, `days_back` days before `now`: the period if it has to be made up.
pub missed_period : Queue → String → Config → Datetime → ℕ → Queue × List String
missed_period q job_id config now days_back =
    let past_dt = days_earlier days_back now in
    let past_period_key = build_period_key config past_dt in
    if not (is_scheduled_day config past_dt)
    then (q, [])
    else if has_success q job_id past_period_key
    then (q, [])
    else let (q', count) = get_execution_count q job_id past_period_key in
      if leb config.max_executions_per_period count then (q', []) else (q', past_period_key ∷ [])

-- `range(1, lookback_days + 1)`, with `left` rounds to go.
pub missed_loop : Queue → String → Config → Datetime → ℕ → ℕ → Queue × List String
missed_loop q job_id config now days_back zero = (q, [])
missed_loop q job_id config now days_back (suc left) =
    let (q', found) = missed_period q job_id config now days_back in
    let (q'', rest) = missed_loop q' job_id config now (days_back + 1) left in (q'', found ++ rest)

unfoldable pub missed_known : Io → Queue → String → Config → Datetime → ℕ → Queue × List String
missed_known io q job_id config now lookback_days =
    if not (is_daily config.period)
    then (q, [])
    else if not config.backfill
    then (q, [])
    else let (q', usable) = reload_state_for_recovery io q in
      if usable then missed_loop q' job_id config now 1 lookback_days else (q', [])

unfoldable pub get_missed_past_periods : Io → Queue → String → ℕ → Datetime → Queue × List String
get_missed_past_periods io q job_id lookback_days now = elim (lookup job_id q.schedule_config) [
  | none ↦ (q, [])
  | some config ↦ missed_known io q job_id config now lookback_days
]
