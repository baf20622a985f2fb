-- ===== src/Scheduler/Interrupted.antt =====
-- python/src/orchestration/scheduler_interrupted.py: how often a job ran in a period, and which of
-- its runs died with an earlier process.
pub mod Count
pub mod Runs
pub mod Died
use stock_fixer.Prelude.{
  ℕ, ◌+◌, ◌-◌, min, Bool, true, false, not, ◌&&◌, Option, none, some, List, [], ◌∷◌, ◌++◌, foldl,
  String, ltb, if◌then◌else◌, str_eq, mem_text, length, keep,
}
use stock_fixer.Scheduler.Types.{Event, Status, Stamp, is_started, is_success, is_error}

abbrev pub max_forgiven_interruptions_per_period : ℕ
max_forgiven_interruptions_per_period = 1

pub record ExecutionCount : Type 0 where
  pub count : ℕ
  pub interrupted_run_ids : List String

-- `datetime.fromisoformat(started_at) < booted_at`
abbrev pub started_before : Event → ℕ → Bool
started_before event booted_at = elim event.started_at [ Stamp.at t ↦ ltb t booted_at | _ ↦ false ]

-- `dict.setdefault`
abbrev pub has_key : String → List (String × Event) → Bool
has_key k [] = false
has_key k ((j, e) ∷ m) = if str_eq j k then true else has_key k m

abbrev pub setdefault : String → Event → List (String × Event) → List (String × Event)
setdefault k e m = if has_key k m then m else m ++ (k, e) ∷ []

-- The local variables of the first loop.
pub record Scan : Type 0 where
  pub count : ℕ
  pub started_events : List (String × Event)
  pub finished_run_ids : List String

abbrev pub empty_scan : Scan
empty_scan = record { count = 0; started_events = []; finished_run_ids = [] }

-- `event.get("run_id")` is falsy for a missing and for an empty id.
abbrev pub truthy_id : Option String → Option String
truthy_id none = none
truthy_id (some k) = if str_eq k "" then none else some k

abbrev pub about : String → String → Event → Bool
about job_id period_key event = str_eq event.job_id job_id && str_eq event.period_key period_key

pub scan_finished : Scan → Option String → Scan
scan_finished s none = record s { count = s.count + 1 }
scan_finished s (some k) = record s {
  count = s.count + 1;
  finished_run_ids = k ∷ s.finished_run_ids;
}

unfoldable pub scan_started : Scan → Event → Option String → Scan
scan_started s event none = s
scan_started s event (some k) = record s { started_events = setdefault k event s.started_events }

unfoldable pub scan_step : String → String → Scan → Event → Scan
scan_step job_id period_key s event =
    if about job_id period_key event
    then if is_success event.status
      then scan_finished s (truthy_id event.run_id)
      else if is_error event.status
      then scan_finished s (truthy_id event.run_id)
      else if is_started event.status
      then scan_started s event (truthy_id event.run_id)
      else s
    else s

unfoldable pub scan : String → String → List Event → Scan
scan job_id period_key events = foldl (scan_step job_id period_key) empty_scan events

-- The started runs with no end: the `for` loop over `started_events.items()`.
unfoldable pub open_runs : Scan → List (String × Event)
open_runs s = keep (λ entry. not (mem_text entry.0 s.finished_run_ids)) s.started_events

abbrev pub from_earlier_boot : String → ℕ → String × Event → Bool
from_earlier_boot boot_id booted_at entry = elim (truthy_id entry.1.boot_id) [
  | none ↦ false
  | some b ↦ not (str_eq b boot_id) && started_before entry.1 booted_at
]

unfoldable pub first_ids : List (String × Event) → List String
first_ids [] = []
first_ids ((k, e) ∷ m) = k ∷ first_ids m

unfoldable pub count_executions :
    List Event → String → String → String → ℕ → Bool → ℕ → ExecutionCount
count_executions events job_id period_key boot_id booted_at rerun_if_interrupted max_forgiven =
    let s = scan job_id period_key events in
    let interrupted = first_ids (keep (from_earlier_boot boot_id booted_at) (open_runs s)) in
    let count = s.count + length (open_runs s) in
    record {
      count = if rerun_if_interrupted then count - min (length interrupted) max_forgiven else count;
      interrupted_run_ids = interrupted;
    }
