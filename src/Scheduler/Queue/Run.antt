-- ===== src/Scheduler/Queue/Run.antt =====
-- `run_job` and `_run_with_retry` of python/src/orchestration/scheduler_queue.py. The job's
-- function is given by the outcome of each of its calls; what other processes do to the state
-- file while a call runs is a function too.
pub mod Retry
pub mod Limit
pub mod Marks
pub mod Recovered
mod Examples
use stock_fixer.Prelude.{
  ℕ, zero, suc, ◌+◌, ◌*◌, ◌/◌, Bool, true, false, not, ◌&&◌, Option, none, some, List, [], ◌∷◌,
  String, ltb, leb, if◌then◌else◌, str_eq, mem_text, lookup, discard,
}
use stock_fixer.Calendar.Date.{Datetime, instant}
use stock_fixer.Scheduler.Types.{Event, Config, Status, Stamp}
use stock_fixer.Scheduler.Cutoff.{is_past_recovery_until}
use stock_fixer.Scheduler.Queue.{
  Queue, Io, StateFile, reload_state, append_event_locked, append_event, get_execution_count,
  build_period_key,
}

-- What a job may raise: an exception that is retried, `NonRetryableJobError`,
-- `LockWaitExpiredJobError`, or a `BaseException` that is no `Exception`. `write_failed` is the
-- exception of a save of the state file.
pub data Exn : Type 0 where
  retryable non_retryable lock_wait_expired base : String → Exn
  write_failed : Exn

pub data Outcome : Type 0 where
  returned : Outcome
  raised : Exn → Outcome

abbrev pub is_returned : Outcome → Bool
is_returned returned = true
is_returned (raised e) = false

abbrev pub is_base : Exn → Bool
is_base (base m) = true
is_base _ = false

-- `isinstance(exc, NonRetryableJobError)`, with its subclass.
abbrev pub is_non_retryable : Exn → Bool
is_non_retryable (non_retryable m) = true
is_non_retryable (lock_wait_expired m) = true
is_non_retryable _ = false

abbrev pub is_lock_wait_expired : Exn → Bool
is_lock_wait_expired (lock_wait_expired m) = true
is_lock_wait_expired _ = false

abbrev pub message : Exn → String
message (retryable m) = m
message (non_retryable m) = m
message (lock_wait_expired m) = m
message (base m) = m
message write_failed = "write failed"

-- The caller's arguments, the readings of the clock and the new run id.
pub record Request : Type 0 where
  pub job_id : String
  pub reason : String
  pub force : Bool
  pub period_key : Option String
  pub now : Datetime
  pub started_at : ℕ
  pub finished_at : ℕ
  pub run_id : String

-- The environment: the file operations at the start of the run, at the retry after each attempt and
-- at the end; the calls of the function, the clock at the retries, other processes.
pub record Env : Type 0 where
  pub io : Io
  pub retry_io : ℕ → Io
  pub end_io : Io
  pub func : ℕ → Outcome
  pub clock : ℕ → ℕ
  pub meanwhile : ℕ → StateFile → StateFile

abbrev pub second_us : ℕ
second_us = 1_000_000

-- `isoformat_utc` writes whole seconds.
abbrev pub to_seconds : ℕ → Stamp
to_seconds t = Stamp.at (t / second_us * second_us)

abbrev pub key_of : Request → Config → String
key_of r config = elim r.period_key [ none ↦ build_period_key config r.now | some k ↦ k ]

abbrev pub start_event : Queue → Request → String → Event
start_event q r key = record {
  job_id = r.job_id;
  reason = r.reason;
  status = Status.started;
  period_key = key;
  run_id = some r.run_id;
  boot_id = some q.boot_id;
  started_at = to_seconds r.started_at;
  finished_at = Stamp.absent;
  timestamp = Stamp.absent;
  error_text = none;
  attempt = none;
  skip_recovery_gap = false;
}

abbrev pub skip_event : Request → String → Event
skip_event r key = record {
  job_id = r.job_id;
  reason = r.reason;
  status = Status.skipped_limit;
  period_key = key;
  run_id = none;
  boot_id = none;
  started_at = to_seconds (instant r.now);
  finished_at = to_seconds (instant r.now);
  timestamp = Stamp.absent;
  error_text = none;
  attempt = none;
  skip_recovery_gap = false;
}

abbrev pub retry_event : Request → String → ℕ → ℕ → Exn → Event
retry_event r key attempt now e = record {
  job_id = r.job_id;
  reason = r.reason;
  status = Status.retry;
  period_key = key;
  run_id = none;
  boot_id = none;
  started_at = Stamp.absent;
  finished_at = Stamp.absent;
  timestamp = to_seconds now;
  error_text = some (message e);
  attempt = some (attempt + 1);
  skip_recovery_gap = false;
}

abbrev pub outcome_status : Outcome → Status
outcome_status returned = Status.success
outcome_status (raised e) = Status.error

abbrev pub outcome_text : Outcome → Option String
outcome_text returned = none
outcome_text (raised e) = some (message e)

abbrev pub outcome_skips_gap : Outcome → Bool
outcome_skips_gap returned = false
outcome_skips_gap (raised e) = is_lock_wait_expired e

abbrev pub end_event : Request → String → Outcome → Event
end_event r key o = record {
  job_id = r.job_id;
  reason = r.reason;
  status = outcome_status o;
  period_key = key;
  run_id = some r.run_id;
  boot_id = none;
  started_at = to_seconds r.started_at;
  finished_at = to_seconds r.finished_at;
  timestamp = Stamp.absent;
  error_text = outcome_text o;
  attempt = none;
  skip_recovery_gap = outcome_skips_gap o;
}

-- What `_run_with_retry` leaves: the manager, its outcome, the calls of the function, and the
-- error notices that were sent.
pub record Attempts : Type 0 where
  pub queue : Queue
  pub outcome : Outcome
  pub calls : ℕ
  pub notices : List String

-- `except Exception as exc` of attempt `attempt`; `rest` is the next round of the loop.
pub after_exception : Env → Queue → Request → String → ℕ → ℕ → Exn → (Queue → Attempts) → Attempts
after_exception env q r key max_retries attempt e rest =
    if is_base e
    then record { queue = q; outcome = raised e; calls = attempt + 1; notices = [] }
    else if ltb attempt max_retries && not (is_non_retryable e)
    then (let (q', ok) =
          append_event (env.retry_io attempt) (retry_event r key attempt (env.clock attempt) e) q in
        if ok then rest q' else record {
          queue = q';
          outcome = raised write_failed;
          calls = attempt + 1;
          notices = [];
        })
    else record { queue = q; outcome = raised e; calls = attempt + 1; notices = message e ∷ [] }

-- `for attempt in range(max_retries + 1)` with `left` rounds to go.
pub attempt_loop : Env → Queue → Request → String → ℕ → ℕ → ℕ → Attempts
attempt_loop env q r key max_retries attempt zero = record {
  queue = q;
  outcome = returned;
  calls = attempt;
  notices = [];
}
attempt_loop env q r key max_retries attempt (suc left) =
    let q' = record q { file = env.meanwhile attempt q.file } in
    elim (env.func attempt) [
      | returned ↦ record { queue = q'; outcome = returned; calls = attempt + 1; notices = [] }
      | raised e ↦
          after_exception env q' r key max_retries attempt e
            (λ q''. attempt_loop env q'' r key max_retries (attempt + 1) left)
    ]

pub run_with_retry : Env → Queue → Request → String → Config → Attempts
run_with_retry env q r key config =
    attempt_loop env q r key config.max_retries 0 (config.max_retries + 1)

-- How the locked part of `run_job` ends.
pub data Claim : Type 0 where
  in_progress limit limit_unwritten start_unwritten claimed : Claim

pub begin_run : Io → Queue → Request → Config → Queue × Claim
begin_run io q r config =
    let key = key_of r config in
    if mem_text r.job_id q.in_progress
    then (q, in_progress)
    else let (q', current_count) = get_execution_count (reload_state io q).0 r.job_id key in
      if not r.force && leb config.max_executions_per_period current_count
      then (let (q'', ok) = append_event_locked io (skip_event r key) q' in
          (q'', if ok then limit else limit_unwritten))
      else let (q'', ok) = append_event_locked io (start_event q r key) q' in
        if ok
        then (record q'' { in_progress = r.job_id ∷ q''.in_progress }, claimed)
        else (q'', start_unwritten)

-- The `finally` block: the end is written if it can be, and the mark is taken off in any case.
pub finish_run : Io → Queue → Request → String → Outcome → Queue
finish_run io q r key o =
    let q' = (append_event io (end_event r key o) q).0 in
    record q' { in_progress = discard r.job_id q'.in_progress }

pub data Result : Type 0 where
  unknown_job past_cutoff not_claimed unwritten : Result
  ran : Outcome → Result

pub record Ran : Type 0 where
  pub queue : Queue
  pub result : Result
  pub calls : ℕ
  pub notices : List String
  pub heartbeat : Option Bool

abbrev pub not_run : Queue → Result → Ran
not_run q result = record { queue = q; result = result; calls = 0; notices = []; heartbeat = none }

pub after_claim : Env → Queue → Request → Config → Claim → Ran
after_claim env q r config in_progress = not_run q not_claimed
after_claim env q r config limit = not_run q not_claimed
after_claim env q r config limit_unwritten = not_run q unwritten
after_claim env q r config start_unwritten = not_run q unwritten
after_claim env q r config claimed =
    let a = run_with_retry env q r (key_of r config) config in
    record {
      queue = finish_run env.end_io a.queue r (key_of r config) a.outcome;
      result = ran a.outcome;
      calls = a.calls;
      notices = a.notices;
      heartbeat = some (is_returned a.outcome);
    }

pub run_known : Env → Queue → Request → Config → Ran
run_known env q r config =
    if str_eq r.reason "scheduled" && (not r.force && is_past_recovery_until config r.now)
    then not_run q past_cutoff
    else let (q', claim) = begin_run env.io q r config in after_claim env q' r config claim

pub run_job : Env → Queue → Request → Ran
run_job env q r = elim (lookup r.job_id q.schedule_config) [
  | none ↦ not_run q unknown_job
  | some config ↦ run_known env q r config
]
