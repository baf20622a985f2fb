-- ===== src/Scheduler/Types.antt =====
-- The records that the scheduler's modules share: one entry of the run history (`events` of the
-- state file) and one entry of `schedule_config`. A key that is missing from a dict of the source
-- is `none` here where the code tells it apart, and holds the default of the code's `get` where
-- the code puts that in. Times are instants in microseconds; `invalid` is a text that does not
-- parse.
use stock_fixer.Prelude.{ℕ, Bool, true, false, Option, String}

pub data Status : Type 0 where
  started success error retry skipped_limit cap_notice_sent : Status

abbrev pub is_started : Status → Bool
is_started Status.started = true
is_started _ = false

abbrev pub is_success : Status → Bool
is_success Status.success = true
is_success _ = false

abbrev pub is_error : Status → Bool
is_error Status.error = true
is_error _ = false

abbrev pub is_cap_notice : Status → Bool
is_cap_notice Status.cap_notice_sent = true
is_cap_notice _ = false

-- `event.get("started_at")`: no string, a string that is no ISO time, or a time.
pub data Stamp : Type 0 where
  absent invalid : Stamp
  at : ℕ → Stamp

pub record Event : Type 0 where
  pub job_id : String
  pub reason : String
  pub status : Status
  pub period_key : String
  pub run_id : Option String
  pub boot_id : Option String
  pub started_at : Stamp
  pub finished_at : Stamp
  pub timestamp : Stamp
  pub error_text : Option String
  pub attempt : Option ℕ
  pub skip_recovery_gap : Bool

pub data Period : Type 0 where
  daily weekly monthly : Period

abbrev pub is_daily : Period → Bool
is_daily Period.daily = true
is_daily _ = false

abbrev pub is_weekly : Period → Bool
is_weekly Period.weekly = true
is_weekly _ = false

abbrev pub is_monthly : Period → Bool
is_monthly Period.monthly = true
is_monthly _ = false

-- `hour`, `minute` and `day` are `none` where the config holds a cron expression, not an int.
pub record Config : Type 0 where
  pub hour : Option ℕ
  pub minute : Option ℕ
  pub day_of_week : String
  pub period : Period
  pub day : Option ℕ
  pub recover_rest_of_week : Bool
  pub backfill : Bool
  pub recovery_delay_minutes : ℕ
  pub recovery_until : Option (ℕ × ℕ)
  pub recovery_min_gap_minutes : Option ℕ
  pub max_executions_per_period : ℕ
  pub rerun_if_interrupted : Bool
  pub max_interrupted_reruns_per_period : ℕ
  pub max_retries : ℕ
