-- ===== src/Scheduler/CapNotice/Notify.antt =====
-- The notices of python/src/orchestration/scheduler_cap_notice.py: what is sent, and the record of
-- it. A notice is kept as the job and the periods that it names with the counts of its line; the
-- Japanese wording and the backlog of the optimisation, which only word the text, are left out.
pub mod Once
mod Examples
use stock_fixer.Prelude.{
  ℕ, Bool, true, false, none, some, List, [], ◌∷◌, ◌++◌, String, if◌then◌else◌, mem_text, lookup,
  length, map, ◌==◌, ltb,
}
use stock_fixer.Calendar.Date.{Datetime, instant}
use stock_fixer.Scheduler.Types.{Event, Status, Stamp, is_started, is_error}
use stock_fixer.Scheduler.Queue.{Queue, Io, append_event, get_execution_count}
use stock_fixer.Scheduler.Queue.Run.{to_seconds}
use stock_fixer.Scheduler.CapNotice.{Found, period_events, week_to_notify, missed_day, reached_cap}
use stock_fixer.Scheduler.CapNotice.Days.{Days, past_days_without_success}

-- `_run_outcome`
pub data RunOutcome : Type 0 where
  did_not_run run_failed vanished : RunOutcome

pub run_outcome : ℕ → ℕ → RunOutcome
run_outcome started failed =
    if started == 0
    then RunOutcome.did_not_run
    else if ltb 0 failed
    then RunOutcome.run_failed
    else RunOutcome.vanished

pub record Line : Type 0 where
  pub period_key : String
  pub started : ℕ
  pub failed : ℕ

pub data Headline : Type 0 where
  day_missed capped : Headline
  week_ended : RunOutcome → Headline
  days_missed : List RunOutcome → Headline

pub record Notice : Type 0 where
  pub to_job : String
  pub headline : Headline
  pub lines : List Line

abbrev pub line_of : Queue → String → String → Line
line_of q job_id period_key = record {
  period_key = period_key;
  started = length (period_events q job_id period_key is_started);
  failed = length (period_events q job_id period_key is_error);
}

abbrev pub line_outcome : Line → RunOutcome
line_outcome l = run_outcome l.started l.failed

-- The keys of `_CAP_NOTICES`, `_MISSED_DAY_NOTICES` and `_PAST_DAY_NOTICES`.
abbrev pub cap_notice_jobs : List String
cap_notice_jobs =
    "weekly_optimization" ∷ "weekly_model_training" ∷ "weekly_walk_forward_report"
    ∷ "weekly_rule_evaluation" ∷ "regime_leverage_weekly" ∷ []

abbrev pub missed_day_jobs : List String
missed_day_jobs = "daily_auto_order" ∷ []

abbrev pub past_day_jobs : List String
past_day_jobs = "daily_auto_order" ∷ "daily_rule_signals" ∷ []

-- `_build_message`; the count of a capped job may warn of interrupted runs.
pub build_message : Queue → String → String → Queue × Notice
build_message q job_id period_key =
    let line = line_of q job_id period_key in
    if mem_text job_id missed_day_jobs
    then (q, record { to_job = job_id; headline = Headline.day_missed; lines = line ∷ [] })
    else elim (lookup job_id q.schedule_config) [
      | none ↦ (q, record { to_job = job_id; headline = Headline.capped; lines = line ∷ [] })
      | some config ↦
          let (q', is_capped) = reached_cap q job_id config period_key in
          (
            q',
            record {
              to_job = job_id;
              headline =
                  if is_capped then Headline.capped else Headline.week_ended (line_outcome line);
              lines = line ∷ [];
            },
          )
    ]

abbrev pub build_past_days_message : Queue → String → List String → Notice
build_past_days_message q job_id days =
    let lines = map (line_of q job_id) days in
    record {
      to_job = job_id;
      headline = Headline.days_missed (map line_outcome lines);
      lines = lines;
    }

abbrev pub mark_sent : String → String → Queue → Queue
mark_sent job_id period_key q = record q {
  cap_notices_sent = (job_id, period_key) ∷ q.cap_notices_sent;
}

abbrev pub sent_event : String → String → Datetime → Event
sent_event job_id period_key now = record {
  job_id = job_id;
  reason = "recovery_cap";
  status = Status.cap_notice_sent;
  period_key = period_key;
  run_id = none;
  boot_id = none;
  started_at = to_seconds (instant now);
  finished_at = to_seconds (instant now);
  timestamp = Stamp.absent;
  error_text = none;
  attempt = none;
  skip_recovery_gap = false;
}

-- `_record_sent`; `false` is the exception of the write, after the mark.
pub record_sent : Io → Queue → String → String → Datetime → Queue × Bool
record_sent io q job_id period_key now =
    append_event io (sent_event job_id period_key now) (mark_sent job_id period_key q)

-- The webhook: whether a notice goes out. An exception of `_send` is a notice that does not.
abbrev pub Send : Type 0
Send = Notice → Bool

abbrev pub send_period :
    Io → Send → Queue → String → Datetime → Notice → String → Queue × List Notice
send_period io send q job_id now notice period_key =
    if send notice then ((record_sent io q job_id period_key now).0, notice ∷ []) else (q, [])

abbrev pub notify_found : Io → Send → Queue → String → Datetime → Found → Queue × List Notice
notify_found io send q job_id now Found.nothing = (q, [])
notify_found io send q job_id now Found.failed = (q, [])
notify_found io send q job_id now (Found.period k) =
    let (q', notice) = build_message q job_id k in send_period io send q' job_id now notice k

pub notify_period :
    Io
    → Send
    → Queue
    → String
    → Datetime
    → (Io → Queue → String → Datetime → Queue × Found)
    → Queue × List Notice
notify_period io send q job_id now find_period =
    let (q', found) = find_period io q job_id now in notify_found io send q' job_id now found

-- `for day in days: _record_sent(...)`, left by the first exception.
pub record_days : Io → Queue → String → Datetime → List String → Queue
record_days io q job_id now [] = q
record_days io q job_id now (day ∷ days) =
    let (q', ok) = record_sent io q job_id day now in
    let rest = record_days io q' job_id now days in if ok then rest else q'

-- `manager._cap_notices_sent.update(...)`
abbrev pub mark_days : String → List String → Queue → Queue
mark_days job_id days q = record q {
  cap_notices_sent = map (λ day. (job_id, day)) days ++ q.cap_notices_sent;
}

abbrev pub send_days : Io → Send → Queue → String → Datetime → Days → Queue × List Notice
send_days io send q job_id now Days.failed = (q, [])
send_days io send q job_id now (Days.found []) = (q, [])
send_days io send q job_id now (Days.found (d ∷ ds)) =
    let notice = build_past_days_message q job_id (d ∷ ds) in
    if send notice
    then (record_days io (mark_days job_id (d ∷ ds) q) job_id now (d ∷ ds), notice ∷ [])
    else (q, [])

pub notify_past_days : Io → Send → Queue → String → Datetime → Queue × List Notice
notify_past_days io send q job_id now =
    let (q', days) = past_days_without_success io q job_id now in
    send_days io send q' job_id now days

-- The first part of `notify_recovery_cap`, for its first two tables.
pub notify_own_period : Io → Send → Queue → String → Datetime → Queue × List Notice
notify_own_period io send q job_id now =
    if mem_text job_id cap_notice_jobs
    then notify_period io send q job_id now week_to_notify
    else if mem_text job_id missed_day_jobs
    then notify_period io send q job_id now missed_day
    else (q, [])

pub notify_recovery_cap : Io → Send → Queue → String → Datetime → Queue × List Notice
notify_recovery_cap io send q job_id now =
    let (q', sent) = notify_own_period io send q job_id now in
    if mem_text job_id past_day_jobs
    then (let (q'', more) = notify_past_days io send q' job_id now in (q'', sent ++ more))
    else (q', sent)
