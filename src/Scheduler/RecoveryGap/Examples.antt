-- ===== src/Scheduler/RecoveryGap/Examples.antt =====
-- The recovery gap after one failed run: a test on one history.
use stock_fixer.Prelude.{◌≡◌, refl, true, false, some, none, [], ◌∷◌}
use stock_fixer.Scheduler.Types.{Config, Period, Event, Status, Stamp}
use stock_fixer.Scheduler.RecoveryGap.{
  skipped_runs, attempt_time, last_attempt_at, latest_from, is_within_recovery_gap,
}

abbrev failed_run : Event
failed_run = record {
  job_id = "prices";
  reason = "scheduled";
  status = Status.error;
  period_key = "2026-01-07";
  run_id = some "run-1";
  boot_id = none;
  started_at = Stamp.at 5_000_000;
  finished_at = Stamp.at 9_000_000;
  timestamp = Stamp.absent;
  error_text = some "timeout";
  attempt = none;
  skip_recovery_gap = false;
}

abbrev gap_config : Config
gap_config = record {
  hour = some 8;
  minute = some 50;
  day_of_week = "*";
  period = Period.daily;
  day = none;
  recover_rest_of_week = false;
  backfill = true;
  recovery_delay_minutes = 10;
  recovery_until = none;
  recovery_min_gap_minutes = some 30;
  max_executions_per_period = 2;
  rerun_if_interrupted = false;
  max_interrupted_reruns_per_period = 1;
  max_retries = 2;
}

-- Half an hour and nine seconds after the start of time.
over :
    is_within_recovery_gap gap_config (failed_run ∷ []) "prices" "2026-01-07" 1_809_000_000 ≡ false
unfolding is_within_recovery_gap last_attempt_at latest_from attempt_time skipped_runs
over = refl
