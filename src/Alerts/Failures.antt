-- ===== src/Alerts/Failures.antt =====
-- python/src/utils/scheduler_failure_count.py: how often the daily pipeline has failed in a row,
-- from the events of the scheduler's state file. Times are texts that sort like the times, given by
-- numbers here.
use stock_fixer.Prelude.{
  ℕ, suc, Bool, true, false, ◌&&◌, ◌||◌, Option, none, some, List, [], ◌∷◌, String, if◌then◌else◌,
  ltb, keep, str_eq,
}

pub data Status : Type 0 where
  success error other : Status

-- An event; a missing key is `none`.
pub record Event : Type 0 where
  pub job_id : Option String
  pub status : Option Status
  pub finished_at : Option ℕ

-- The state file: not there (with or without a quarantined copy beside it), not to be read, or its
-- events.
pub data Queue : Type 0 where
  missing : Bool → Queue
  broken : Queue
  events : List Event → Queue

pub data Count : Type 0 where
  unreadable : Count
  counted : ℕ → Count

abbrev pub is_job : Option String → Bool
is_job none = false
is_job (some id) = str_eq id "daily_pipeline"

abbrev pub is_error : Option Status → Bool
is_error (some error) = true
is_error _ = false

abbrev pub is_success : Option Status → Bool
is_success (some success) = true
is_success _ = false

abbrev pub counts : Event → Bool
counts e = is_job e.job_id && (is_success e.status || is_error e.status)

-- `e.get("finished_at", "")`: a missing time is before all others.
abbrev pub time_of : Option ℕ → ℕ
time_of none = 0
time_of (some t) = suc t

-- `sort(reverse=True)` keeps the order of events with one time.
unfoldable pub insert_latest : Event → List Event → List Event
insert_latest e [] = e ∷ []
insert_latest e (x ∷ xs) =
    let rest = insert_latest e xs in
    if ltb (time_of e.finished_at) (time_of x.finished_at) then x ∷ rest else e ∷ x ∷ xs

unfoldable pub sort_latest : List Event → List Event
sort_latest [] = []
sort_latest (e ∷ es) = insert_latest e (sort_latest es)

unfoldable pub leading_errors : List Event → ℕ
leading_errors [] = 0
leading_errors (e ∷ es) = let rest = leading_errors es in if is_error e.status then suc rest else 0

unfoldable pub count_consecutive_pipeline_failures : Queue → Count
unfolding sort_latest insert_latest leading_errors
count_consecutive_pipeline_failures (missing quarantined) =
    if quarantined then unreadable else counted 0
count_consecutive_pipeline_failures broken = unreadable
count_consecutive_pipeline_failures (events es) =
    counted (leading_errors (sort_latest (keep counts es)))
