-- ===== src/Scheduler/Queue/Run/Examples.antt =====
-- Runs of a daily job on a Wednesday, with the theorems on the queue applied to them.
use stock_fixer.Prelude.{
  String, min, ◌↔◌, ℕ, zero, suc, ◌+◌, ◌-◌, ◌≤◌, ◌<◌, ◌≡◌, ◌⊎◌, refl, true, false, some, none, List,
  [], ◌∷◌, arith, length, any, keep, mem_text, lookup, two_digits, four_digits,
}
use stock_fixer.Calendar.Date.{
  Datetime, date, iso_text, instant, to_ordinal, days_in_month, days_before_month, days_before_year,
}
use stock_fixer.Scheduler.Types.{Config, Period, Event}
use stock_fixer.Scheduler.Interrupted.{count_executions, scan, open_runs, first_ids}
use stock_fixer.Scheduler.Interrupted.Count.{runs_of, IsFresh}
use stock_fixer.Scheduler.Interrupted.Died.{IsDied, NoRepeats, count_executions-IsDied}
use stock_fixer.Scheduler.Cutoff.{
  is_past_recovery_until, scheduled_datetime_for_recovery, scheduled_day, monthly_day,
}
use stock_fixer.Scheduler.Weekdays.{parse_day_of_week, is_every_day, strip, strip_left}
use stock_fixer.Scheduler.RecoveryGap.{is_within_recovery_gap}
use stock_fixer.Scheduler.Queue.{
  Queue, Io, StateFile, build_period_key, should_recover, recover_known, recover_at,
  recover_from_start, reload_state, reload_state_for_recovery, has_success, get_execution_count,
  count_in, reload_state, warn_ids,
}
use stock_fixer.Scheduler.Queue.Recovery.{Decided, IsStarted, should_recover-Decided}
use stock_fixer.Scheduler.Queue.Run.{
  Outcome, returned, raised, Request, Env, run_with_retry, run_job, begin_run, claimed, limit, ran,
  retryable, key_of, start_event,
}
use stock_fixer.Scheduler.Queue.Run.Retry.{
  run_with_retry_lem, run_with_retry_recovers, is_transient,
}
use stock_fixer.Scheduler.Queue.Run.Limit.{begin_run-limit}
use stock_fixer.Scheduler.Queue.Run.Marks.{run_job-idle, Reported}
use stock_fixer.Scheduler.Queue.Run.Recovered.{should_recover-runs, broken-corrupts}

abbrev pub a_config : Config
a_config = record {
  hour = some 8;
  minute = some 50;
  day_of_week = "*";
  period = Period.daily;
  day = none;
  recover_rest_of_week = false;
  backfill = true;
  recovery_delay_minutes = 10;
  recovery_until = some (15, 30);
  recovery_min_gap_minutes = none;
  max_executions_per_period = 2;
  rerun_if_interrupted = false;
  max_interrupted_reruns_per_period = 1;
  max_retries = 2;
}

abbrev pub io_ok : Io
io_ok = record { move_ok = true; save_ok = true }

abbrev pub a_queue : Queue
a_queue = record {
  schedule_config = ("prices", a_config) ∷ [];
  boot_id = "boot";
  booted_at = 0;
  in_progress = [];
  events = [];
  corrupted = false;
  warned = [];
  cap_notices_sent = [];
  past_days_scanned = [];
  file = StateFile.saved [];
}

-- 7 January 2026, 10:00.
abbrev pub a_time : Datetime
a_time = record { on_date = date 2026 1 7; tod = 36_000_000_000 }

abbrev a_request : Request
a_request = record {
  job_id = "prices";
  reason = "recovery";
  force = false;
  period_key = none;
  now = a_time;
  started_at = 5_000_000;
  finished_at = 9_000_000;
  run_id = "run-1";
}

-- The first call fails, the later ones return.
abbrev fails_once : ℕ → Outcome
fails_once zero = raised (retryable "timeout")
fails_once (suc n) = returned

abbrev an_env : Env
an_env = record {
  io = io_ok;
  retry_io = λ n. io_ok;
  end_io = io_ok;
  func = fails_once;
  clock = λ n. 0;
  meanwhile = λ n f. f;
}

-- One failure, one call more, no notice.
fails_first : (i : ℕ) → i < 1 → is_transient (fails_once i) ≡ true
fails_first zero h = refl
fails_first (suc i) h = absurd (omega arith)

run_with_retry_recovers_example :
    let t = run_with_retry an_env a_queue a_request "2026-01-07" a_config in
    (t.outcome ≡ returned) × (t.calls ≡ 2) × (t.notices ≡ [])
run_with_retry_recovers_example =
    run_with_retry_recovers an_env a_queue a_request "2026-01-07" a_config 1 (λ i h. refl) refl
      fails_first (omega arith)

run_with_retry_lem_example :
    let t = run_with_retry an_env a_queue a_request "2026-01-07" a_config in
    (1 ≤ t.calls)
    × (t.calls ≤ 3)
    × (t.outcome ≡ returned → fails_once (t.calls - 1) ≡ returned)
    × ((i : ℕ) → suc i < t.calls → is_transient (fails_once i) ≡ true)
    × (length t.notices ≤ 1)
    × (t.outcome ≡ returned → t.notices ≡ [])
run_with_retry_lem_example = run_with_retry_lem an_env a_queue a_request "2026-01-07" a_config

-- The end of the run cannot be written.
abbrev ends_unwritten : Env
ends_unwritten = record an_env { end_io = record io_ok { save_ok = false } }

run_job-idle_example :
    (mem_text "prices" (run_job ends_unwritten a_queue a_request).queue.in_progress ≡ false)
    × Reported (run_job ends_unwritten a_queue a_request)
run_job-idle_example = run_job-idle ends_unwritten a_queue a_request refl

no_run : IsFresh "prices" "2026-01-07" "run-1" []
unfolding scan
no_run = record { unbegun = refl; unended = refl }

-- The Wednesday's key.
a_key : key_of a_request a_config ≡ "2026-01-07"
unfolding build_period_key iso_text two_digits four_digits
a_key = refl

begin_run-limit_example :
    (h' : List Event) × ((begin_run io_ok a_queue a_request a_config).0.file ≡ StateFile.saved h')
    × ((((begin_run io_ok a_queue a_request a_config).1 ≡ claimed)
          × (runs_of "prices" "2026-01-07" [] < 2)
          × (runs_of "prices" "2026-01-07" h' ≡ runs_of "prices" "2026-01-07" [] + 1)
          × (runs_of "prices" "2026-01-07" h' ≤ 2))
        ⊎ (((begin_run io_ok a_queue a_request a_config).1 ≡ limit)
            × (2 ≤ runs_of "prices" "2026-01-07" [])
            × (runs_of "prices" "2026-01-07" h' ≡ runs_of "prices" "2026-01-07" [])))
unfolding build_period_key iso_text two_digits four_digits
begin_run-limit_example =
    begin_run-limit io_ok a_queue a_request a_config [] refl refl refl refl (omega arith) refl refl
      refl no_run

decided : (should_recover io_ok a_queue "prices" a_time).1 ≡ true
unfolding should_recover recover_known recover_at recover_from_start reload_state_for_recovery
    reload_state has_success any get_execution_count count_in count_executions
    is_past_recovery_until instant to_ordinal days_before_month days_before_year days_in_month
    scheduled_datetime_for_recovery is_within_recovery_gap build_period_key iso_text two_digits
    four_digits scheduled_day monthly_day parse_day_of_week is_every_day strip strip_left scan
    open_runs first_ids warn_ids keep
decided = refl

should_recover-Decided_example :
    (config : Config) × (lookup "prices" a_queue.schedule_config ≡ some config)
    × (mem_text "prices" a_queue.in_progress ≡ false)
    × IsStarted config a_time
    × Decided io_ok a_queue "prices" config a_time
    × ((should_recover io_ok a_queue "prices" a_time).0
        ≡ (recover_from_start io_ok a_queue "prices" config a_time).0)
should_recover-Decided_example = should_recover-Decided io_ok a_queue "prices" a_time decided

should_recover-runs_example :
    (o : Outcome) × ((run_job an_env
        (should_recover io_ok a_queue "prices" a_time).0
        a_request).result
      ≡ ran o)
should_recover-runs_example = should_recover-runs an_env a_queue a_request decided refl refl refl

abbrev unreadable : Queue
unreadable = record a_queue { file = StateFile.broken }

broken-corrupts_example :
    ((reload_state io_ok unreadable).0.corrupted ≡ true)
    × ((reload_state io_ok unreadable).0.events ≡ [])
broken-corrupts_example = broken-corrupts io_ok unreadable refl

abbrev started_once : List Event
started_once = start_event a_queue a_request "2026-01-07" ∷ []

count_executions-IsDied_example :
    let counted = count_executions started_once "prices" "2026-01-07" "boot-2" 6_000_000 true 1 in
    ((count_executions started_once "prices" "2026-01-07" "boot-2" 6_000_000 false 1).count
      ≡ runs_of "prices" "2026-01-07" started_once)
    × (counted.count
        ≡ runs_of "prices" "2026-01-07" started_once - min (length counted.interrupted_run_ids) 1)
    × NoRepeats counted.interrupted_run_ids
    × ((k : String)
        → (mem_text k counted.interrupted_run_ids ≡ true)
          ↔ IsDied started_once "prices" "2026-01-07" "boot-2" 6_000_000 k)
count_executions-IsDied_example =
    count_executions-IsDied started_once "prices" "2026-01-07" "boot-2" 6_000_000 1
