-- ===== src/Scheduler/RecoveryGap.antt =====
-- python/src/orchestration/scheduler_recovery_gap.py: the pause after a failed run before the
-- period is recovered.
pub mod Latest
mod Examples
use stock_fixer.Prelude.{
  ℕ, ◌+◌, ◌*◌, Bool, true, false, not, ◌&&◌, ◌||◌, Option, none, some, List, [], ◌∷◌, String, ltb,
  if◌then◌else◌, str_eq,
}
use stock_fixer.Calendar.Date.{minute_us}
use stock_fixer.Scheduler.Types.{Event, Config, Stamp, is_started, is_error}

-- Equality of two values of `event.get("run_id")`, where `None` equals `None`.
abbrev pub id_eq : Option String → Option String → Bool
id_eq none none = true
id_eq (some a) (some b) = str_eq a b
id_eq none (some b) = false
id_eq (some a) none = false

abbrev pub mem_id : Option String → List (Option String) → Bool
mem_id k [] = false
mem_id k (x ∷ xs) = id_eq x k || mem_id k xs

-- `skipped_runs`: over the events of every job.
pub skipped_runs : List Event → List (Option String)
skipped_runs [] = []
skipped_runs (e ∷ events) =
    let rest = skipped_runs events in if e.skip_recovery_gap then e.run_id ∷ rest else rest

-- The time of an event if it counts as an attempt, with every `continue` of the loop.
pub attempt_time : List (Option String) → String → String → Bool → Event → Option ℕ
attempt_time skipped job_id period_key include_started event =
    if not (str_eq event.job_id job_id && str_eq event.period_key period_key)
    then none
    else if mem_id event.run_id skipped
    then none
    else if not (is_error event.status || (include_started && is_started event.status))
    then none
    else elim (if is_error event.status then event.finished_at else event.started_at) [
      | Stamp.at t ↦ some t
      | _ ↦ none
    ]

-- `latest is None or attempted_at > latest`
abbrev pub later : Option ℕ → Option ℕ → Option ℕ
later latest none = latest
later none (some t) = some t
later (some l) (some t) = if ltb l t then some t else some l

pub latest_from : List (Option String) → String → String → Bool → Option ℕ → List Event → Option ℕ
latest_from skipped job_id period_key include_started latest [] = latest
latest_from skipped job_id period_key include_started latest (e ∷ events) =
    latest_from skipped job_id period_key include_started
      (later latest (attempt_time skipped job_id period_key include_started e)) events

pub last_attempt_at : List Event → String → String → Bool → Option ℕ
last_attempt_at events job_id period_key include_started =
    latest_from (skipped_runs events) job_id period_key include_started none events

unfoldable pub is_within_recovery_gap : Config → List Event → String → String → ℕ → Bool
is_within_recovery_gap config events job_id period_key now = elim config.recovery_min_gap_minutes [
  | none ↦ false
  | some gap_minutes ↦
      elim (last_attempt_at events job_id period_key (not config.rerun_if_interrupted)) [
        | none ↦ false
        | some last_attempt ↦ ltb now (last_attempt + gap_minutes * minute_us)
      ]
]
