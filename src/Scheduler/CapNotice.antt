-- ===== src/Scheduler/CapNotice.antt =====
-- python/src/orchestration/scheduler_cap_notice.py: which period of a job goes unrecovered and has
-- not been reported yet. The manager is `SchedulerQueueManager`; the texts of the notices are left
-- to `CapNotice/Notify`.
pub mod Days
pub mod Notify
pub mod Unreported
use stock_fixer.Prelude.{
  ℕ, ◌+◌, ◌*◌, ◌/◌, max, Bool, true, false, not, ◌&&◌, ◌||◌, Option, none, some, List, [], ◌∷◌,
  String, ltb, leb, if◌then◌else◌, mem_text, str_eq, lookup, keep, any,
}
use stock_fixer.Calendar.Date.{
  Date, Datetime, weekday, instant, days_earlier, plus_days, minus_days, date_lt, to_ordinal,
  iso_text, minute_us, day_us,
}
use stock_fixer.Calendar.JpMarket.{is_jp_business_day}
use stock_fixer.Scheduler.Types.{Event, Config, Status, Stamp, is_weekly, is_cap_notice}
use stock_fixer.Scheduler.Weekdays.{parse_day_of_week}
use stock_fixer.Scheduler.Interrupted.{about}
use stock_fixer.Scheduler.Cutoff.{
  Basis, is_past_recovery_until, is_empty, scheduled_datetime_for_recovery,
}
use stock_fixer.Scheduler.Queue.{
  Queue, Io, reload_state_for_recovery, has_success, get_execution_count, build_period_key,
}

-- A period, `None`, or an exception: of `replace` with a time that is no number, or of a stamp
-- that is no ISO time.
pub data Found : Type 0 where
  period : String → Found
  nothing failed : Found

-- `(job_id, key) in s`, for the sets of pairs that the manager keeps.
abbrev pub mem_pair : String → String → List (String × String) → Bool
mem_pair job_id key [] = false
mem_pair job_id key ((j, k) ∷ s) = str_eq j job_id && str_eq k key || mem_pair job_id key s

abbrev pub period_events : Queue → String → String → (Status → Bool) → List Event
period_events q job_id period_key status =
    keep (λ e. about job_id period_key e && status e.status) q.events

abbrev pub no_events : List Event → Bool
no_events [] = true
no_events (e ∷ es) = false

pub still_unreported : Queue → String → String → Bool
still_unreported q job_id period_key =
    not (mem_pair job_id period_key q.cap_notices_sent)
    && (not (has_success q job_id period_key)
        && no_events (period_events q job_id period_key is_cap_notice))

abbrev pub unreported : Queue → String → String → Found
unreported q job_id period_key =
    if still_unreported q job_id period_key then Found.period period_key else Found.nothing

-- `_period_without_success` from the regular start on.
pub without_success_from : Io → Queue → String → Config → Datetime → Basis → Queue × Found
without_success_from io q job_id schedule now Basis.not_today = (q, Found.nothing)
without_success_from io q job_id schedule now Basis.failed = (q, Found.failed)
without_success_from io q job_id schedule now (Basis.start scheduled) =
    if ltb (instant now) (instant scheduled + schedule.recovery_delay_minutes * minute_us)
    then (q, Found.nothing)
    else let (q', usable) = reload_state_for_recovery io q in
      if usable
      then (q', unreported q' job_id (build_period_key schedule now))
      else (q', Found.nothing)

pub period_without_success : Io → Queue → String → Config → Datetime → Queue × Found
period_without_success io q job_id schedule now =
    if mem_text job_id q.in_progress
    then (q, Found.nothing)
    else without_success_from io q job_id schedule now
        (scheduled_datetime_for_recovery schedule now (parse_day_of_week schedule.day_of_week))

pub reached_cap : Queue → String → Config → String → Queue × Bool
reached_cap q job_id config period_key =
    let (q', count) = get_execution_count q job_id period_key in
    (q', leb config.max_executions_per_period count)

pub capped_of : Queue → String → Config → Found → Queue × Found
capped_of q job_id config Found.nothing = (q, Found.nothing)
capped_of q job_id config Found.failed = (q, Found.failed)
capped_of q job_id config (Found.period k) =
    let (q', capped) = reached_cap q job_id config k in
    (q', if capped then Found.period k else Found.nothing)

pub capped_period : Io → Queue → String → Datetime → Queue × Found
capped_period io q job_id now = elim (lookup job_id q.schedule_config) [
  | none ↦ (q, Found.nothing)
  | some config ↦
      let (q', found) =
        period_without_success io q job_id (record config { recover_rest_of_week = true }) now in
      capped_of q' job_id config found
]

pub monday_of : Date → Date
monday_of d = minus_days (weekday d) d

abbrev pub max_weekday : List ℕ → ℕ
max_weekday [] = 0
max_weekday (x ∷ xs) = max x (max_weekday xs)

pub week_recovery_ended : Config → Datetime → Date → Bool
week_recovery_ended config week today =
    let weekdays = parse_day_of_week config.day_of_week in
    if not (is_weekly config.period) || is_empty weekdays
    then false
    else date_lt
        (plus_days (if config.recover_rest_of_week then 6 else max_weekday weekdays)
          (monday_of week.on_date))
        today

-- `event.get("finished_at") or event.get("started_at") or event.get("timestamp")`
abbrev pub first_stamp : Stamp → Stamp → Stamp
first_stamp Stamp.absent s = s
first_stamp Stamp.invalid s = Stamp.invalid
first_stamp (Stamp.at t) s = Stamp.at t

-- The number of the day, no day, or the exception of a text that is no time.
pub data Oldest : Type 0 where
  no_day bad_stamp : Oldest
  on_day : ℕ → Oldest

pub oldest_event_day : List Event → Oldest
oldest_event_day [] = Oldest.no_day
oldest_event_day (e ∷ es) =
    elim (first_stamp e.finished_at (first_stamp e.started_at e.timestamp)) [
      | Stamp.absent ↦ oldest_event_day es
      | Stamp.invalid ↦ Oldest.bad_stamp
      | Stamp.at t ↦ Oldest.on_day (t / day_us)
    ]

-- `for week in (local_now - timedelta(days=7), local_now)`; `none` where the loop ends.
pub first_ended : Queue → String → Config → Date → ℕ → List Datetime → Option String
first_ended q job_id config today oldest [] = none
first_ended q job_id config today oldest (week ∷ weeks) =
    let rest = first_ended q job_id config today oldest weeks in
    if leb (to_ordinal (monday_of week.on_date)) oldest
      || not (week_recovery_ended config week today)
    then rest
    else let period_key = build_period_key config week in
      if still_unreported q job_id period_key then some period_key else rest

abbrev pub mark_scanned : Queue → String → Datetime → Queue
mark_scanned q job_id now = record q {
  past_days_scanned = (job_id, iso_text now.on_date) ∷ q.past_days_scanned;
}

abbrev pub ended_or_scanned : Queue → String → Datetime → Option String → Queue × Found
ended_or_scanned q job_id now none = (mark_scanned q job_id now, Found.nothing)
ended_or_scanned q job_id now (some k) = (q, Found.period k)

abbrev pub ended_since : Queue → String → Config → Datetime → Oldest → Queue × Found
ended_since q job_id config now Oldest.no_day = (q, Found.nothing)
ended_since q job_id config now Oldest.bad_stamp = (q, Found.failed)
ended_since q job_id config now (Oldest.on_day oldest) =
    ended_or_scanned q job_id now
      (first_ended q job_id config now.on_date oldest (days_earlier 7 now ∷ now ∷ []))

pub ended_week_of : Io → Queue → String → Config → Datetime → Queue × Found
ended_week_of io q job_id config now =
    if mem_pair job_id (iso_text now.on_date) q.past_days_scanned
    then (q, Found.nothing)
    else if mem_text job_id q.in_progress
    then (q, Found.nothing)
    else let (q', usable) = reload_state_for_recovery io q in
      if usable
      then ended_since q' job_id config now (oldest_event_day q'.events)
      else (q', Found.nothing)

pub ended_week : Io → Queue → String → Datetime → Queue × Found
ended_week io q job_id now = elim (lookup job_id q.schedule_config) [
  | none ↦ (q, Found.nothing)
  | some config ↦ ended_week_of io q job_id config now
]

-- `_capped_period(...) or _ended_week(...)`
abbrev pub or_ended : Io → Queue → String → Datetime → Found → Queue × Found
or_ended io q job_id now (Found.period k) = (q, Found.period k)
or_ended io q job_id now Found.failed = (q, Found.failed)
or_ended io q job_id now Found.nothing = ended_week io q job_id now

pub week_to_notify : Io → Queue → String → Datetime → Queue × Found
week_to_notify io q job_id now =
    let (q', found) = capped_period io q job_id now in or_ended io q' job_id now found

abbrev pub missed_of : Queue → String → Config → Datetime → Found → Queue × Found
missed_of q job_id config now Found.nothing = (q, Found.nothing)
missed_of q job_id config now Found.failed = (q, Found.failed)
missed_of q job_id config now (Found.period k) =
    let (q', capped) = reached_cap q job_id config k in
    (
      q',
      if not capped && not (is_past_recovery_until config now)
          then Found.nothing
          else Found.period k,
    )

pub missed_day : Io → Queue → String → Datetime → Queue × Found
missed_day io q job_id now = elim (lookup job_id q.schedule_config) [
  | none ↦ (q, Found.nothing)
  | some config ↦
      if not (is_jp_business_day now.on_date)
      then (q, Found.nothing)
      else let (q', found) = period_without_success io q job_id config now in
        missed_of q' job_id config now found
]
