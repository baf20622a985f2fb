-- ===== src/Scheduler/Queue.antt =====
-- `SchedulerQueueManager` of python/src/orchestration/scheduler_queue.py: the state file, the
-- counted runs of a job and its retries, and the recovery decisions. A method takes and returns
-- the manager together with the file that it shares with other processes. Logging, the retries'
-- waiting times and the durations in the entries are left out: nothing reads them.
pub mod Run
pub mod Missed
pub mod Recovery
use stock_fixer.Prelude.{
  ℕ, ◌+◌, ◌-◌, ◌*◌, Bool, true, false, not, ◌&&◌, ◌||◌, Option, none, some, List, [], ◌∷◌, ◌++◌,
  String, ltb, leb, if◌then◌else◌, mem_text, mem_nat, lookup, length, drop, any, is_some, ◌<>◌,
  two_digits, four_digits,
}
use stock_fixer.Calendar.Date.{
  Datetime, weekday, instant, iso_thursday, iso_week, iso_text, minute_us,
}
use stock_fixer.Scheduler.Types.{Event, Config, Period, is_success}
use stock_fixer.Scheduler.Weekdays.{parse_day_of_week}
use stock_fixer.Scheduler.Interrupted.{
  ExecutionCount, about, count_executions, max_forgiven_interruptions_per_period,
}
use stock_fixer.Scheduler.Cutoff.{
  Basis, is_past_recovery_until, is_empty, scheduled_datetime_for_recovery,
}
use stock_fixer.Scheduler.RecoveryGap.{is_within_recovery_gap}

-- What the state file holds: nothing, an unreadable file, a text that is no JSON object, an object
-- with no list of events, or the history.
pub data StateFile : Type 0 where
  absent io_error broken no_list : StateFile
  saved : List Event → StateFile

-- Whether the next replacement and the next save of a file succeed.
pub record Io : Type 0 where
  pub move_ok : Bool
  pub save_ok : Bool

pub record Queue : Type 0 where
  pub schedule_config : List (String × Config)
  pub boot_id : String
  pub booted_at : ℕ
  pub in_progress : List String
  pub events : List Event
  pub corrupted : Bool
  pub warned : List String
  pub cap_notices_sent : List (String × String)
  pub past_days_scanned : List (String × String)
  pub file : StateFile

-- `_quarantine_state_file`
unfoldable pub quarantine_state_file : Io → Queue → Queue
quarantine_state_file io q = record q {
  corrupted = true;
  file = if io.move_ok then StateFile.absent else StateFile.broken;
}

abbrev pub load_file : Io → StateFile → Queue → Queue × Bool
load_file io StateFile.absent q = (record q { events = [] }, true)
load_file io StateFile.io_error q = (q, false)
load_file io StateFile.broken q = (quarantine_state_file io q, false)
load_file io StateFile.no_list q = (record q { events = [] }, true)
load_file io (StateFile.saved es) q = (record q { events = es }, true)

-- `_reload_state`
unfoldable pub reload_state : Io → Queue → Queue × Bool
reload_state io q = load_file io q.file q

-- `_reload_state_for_recovery`
unfoldable pub reload_state_for_recovery : Io → Queue → Queue × Bool
reload_state_for_recovery io q =
    let (q', reloaded) = reload_state io q in (q', reloaded && not q'.corrupted)

-- `_save_state`: `false` is an exception, which leaves the old file.
unfoldable pub save_state : Io → Queue → Queue × Bool
save_state io q =
    if io.save_ok then (record q { file = StateFile.saved q.events }, true) else (q, false)

abbrev pub max_events : ℕ
max_events = 5000

-- `events[-max_events:]` of a longer list.
pub keep_newest : List Event → List Event
keep_newest es = drop (length es - max_events) es

-- `_append_event_locked`
unfoldable pub append_event_locked : Io → Event → Queue → Queue × Bool
append_event_locked io e q = save_state io (record q { events = keep_newest (q.events ++ e ∷ []) })

-- `_append_event`
unfoldable pub append_event : Io → Event → Queue → Queue × Bool
append_event io e q = append_event_locked io e (reload_state io q).0

unfoldable pub has_success : Queue → String → String → Bool
has_success q job_id period_key =
    any (λ e. about job_id period_key e && is_success e.status) q.events

-- `self.schedule_config.get(job_id, {})` and the two `get`s on it.
pub count_in : Queue → Option Config → String → String → ExecutionCount
count_in q none job_id period_key =
    count_executions q.events job_id period_key q.boot_id q.booted_at false
      max_forgiven_interruptions_per_period
count_in q (some config) job_id period_key =
    count_executions q.events job_id period_key q.boot_id q.booted_at config.rerun_if_interrupted
      config.max_interrupted_reruns_per_period

-- `self._warned_interrupted_run_ids` after the loop over the found ids.
pub warn_ids : List String → List String → List String
warn_ids [] warned = warned
warn_ids (k ∷ ids) warned = warn_ids ids (if mem_text k warned then warned else k ∷ warned)

unfoldable pub get_execution_count : Queue → String → String → Queue × ℕ
get_execution_count q job_id period_key =
    let result = count_in q (lookup job_id q.schedule_config) job_id period_key in
    (record q { warned = warn_ids result.interrupted_run_ids q.warned }, result.count)

-- `_build_period_key`
pub build_period_key : Config → Datetime → String
build_period_key config now = elim config.period [
  | Period.weekly ↦
      four_digits (iso_thursday now.on_date).year <> "-W" <> two_digits (iso_week now.on_date)
  | Period.monthly ↦ four_digits now.on_date.year <> "-" <> two_digits now.on_date.month
  | Period.daily ↦ iso_text now.on_date
]

-- `_is_scheduled_day`
pub is_scheduled_day : Config → Datetime → Bool
is_scheduled_day config now =
    let valid_weekdays = parse_day_of_week config.day_of_week in
    if is_empty valid_weekdays then true else mem_nat (weekday now.on_date) valid_weekdays

-- `should_recover` from the time of the regular start on.
pub recover_from_start : Io → Queue → String → Config → Datetime → Queue × Bool
recover_from_start io q job_id config now =
    if is_past_recovery_until config now
    then (q, false)
    else let (q', usable) = reload_state_for_recovery io q in
      let period_key = build_period_key config now in
      if not usable
      then (q', false)
      else if has_success q' job_id period_key
      then (q', false)
      else let (q'', current_count) = get_execution_count q' job_id period_key in
        if leb config.max_executions_per_period current_count
        then (q'', false)
        else if is_within_recovery_gap config q''.events job_id period_key (instant now)
        then (q'', false)
        else (q'', true)

pub recover_at : Io → Queue → String → Config → Datetime → Basis → Queue × Bool
recover_at io q job_id config now Basis.not_today = (q, false)
recover_at io q job_id config now Basis.failed = (q, false)
recover_at io q job_id config now (Basis.start scheduled) =
    if ltb (instant now) (instant scheduled + config.recovery_delay_minutes * minute_us)
    then (q, false)
    else recover_from_start io q job_id config now

-- `should_recover` of a known job. `Basis.failed` is out of reach: the hour and the minute are
-- tested to be numbers first.
pub recover_known : Io → Queue → String → Config → Datetime → Queue × Bool
recover_known io q job_id config now =
    if mem_text job_id q.in_progress
    then (q, false)
    else if not (is_some config.hour) || not (is_some config.minute)
    then (q, false)
    else recover_at io q job_id config now
        (scheduled_datetime_for_recovery config now (parse_day_of_week config.day_of_week))

pub should_recover : Io → Queue → String → Datetime → Queue × Bool
should_recover io q job_id now = elim (lookup job_id q.schedule_config) [
  | none ↦ (q, false)
  | some config ↦ recover_known io q job_id config now
]
