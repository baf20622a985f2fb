-- ===== src/Scheduler/CapNotice/Notify/Examples.antt =====
-- A poll of the notices with a configured job and an empty history.
use stock_fixer.Prelude.{true, false, none, some, [], ◌∷◌, ◌++◌, All}
use stock_fixer.Calendar.Date.{Datetime, date}
use stock_fixer.Scheduler.Types.{Config, Period, Event, Status, Stamp}
use stock_fixer.Scheduler.Queue.{Queue, Io, StateFile}
use stock_fixer.Scheduler.CapNotice.Notify.{Send, notify_recovery_cap}
use stock_fixer.Scheduler.CapNotice.Notify.Once.{
  Once, Named, Polls, stop, poll, notify_recovery_cap-Once, notices_once,
}

abbrev order_config : Config
order_config = record {
  hour = some 8;
  minute = some 50;
  day_of_week = "mon-fri";
  period = Period.daily;
  day = none;
  recover_rest_of_week = false;
  backfill = false;
  recovery_delay_minutes = 10;
  recovery_until = some (9, 30);
  recovery_min_gap_minutes = none;
  max_executions_per_period = 2;
  rerun_if_interrupted = false;
  max_interrupted_reruns_per_period = 1;
  max_retries = 0;
}

-- A failed run of Tuesday, 6 January 2026, is all that the file holds.
abbrev failed_run : Event
failed_run = record {
  job_id = "daily_auto_order";
  reason = "scheduled";
  status = Status.error;
  period_key = "2026-01-06";
  run_id = none;
  boot_id = none;
  started_at = Stamp.at 63_903_400_000_000_000;
  finished_at = Stamp.at 63_903_400_000_000_000;
  timestamp = Stamp.absent;
  error_text = none;
  attempt = none;
  skip_recovery_gap = false;
}

abbrev order_queue : Queue
order_queue = record {
  schedule_config = ("daily_auto_order", order_config) ∷ [];
  boot_id = "boot";
  booted_at = 0;
  in_progress = [];
  events = [];
  corrupted = false;
  warned = [];
  cap_notices_sent = [];
  past_days_scanned = [];
  file = StateFile.saved (failed_run ∷ []);
}

-- 8 January 2026, 10:00.
abbrev thursday_ten : Datetime
thursday_ten = record { on_date = date 2026 1 8; tod = 36_000_000_000 }

abbrev disk : Io
disk = record { move_ok = true; save_ok = false }

abbrev webhook : Send
webhook n = true

notify_recovery_cap-Once_example :
    Once [] (notify_recovery_cap disk webhook order_queue "daily_auto_order" thursday_ten)
notify_recovery_cap-Once_example =
    notify_recovery_cap-Once disk webhook order_queue "daily_auto_order" thursday_ten

abbrev one_poll :
    Polls order_queue
      ((notify_recovery_cap disk webhook order_queue "daily_auto_order" thursday_ten).1 ++ [])
one_poll = poll disk webhook "daily_auto_order" thursday_ten stop

notices_once_example :
    All
      (Named false [])
      ((notify_recovery_cap disk webhook order_queue "daily_auto_order" thursday_ten).1 ++ [])
notices_once_example =
    notices_once order_queue
      ((notify_recovery_cap disk webhook order_queue "daily_auto_order" thursday_ten).1 ++ [])
      one_poll
