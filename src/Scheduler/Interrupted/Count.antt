-- ===== src/Scheduler/Interrupted/Count.antt =====
-- What one more entry of the history does to the count.
use mathlib.Core.List.{foldl-append}
use stock_fixer.Prelude.{
  ℕ, ◌+◌, ◌≤◌, ◌≡◌, refl, inl, inr, Bool, true, false, not, ◌&&◌, ◌||◌, Option, none, some, List,
  [], ◌∷◌, ◌++◌, foldl, String, arith, if◌then◌else◌, str_eq, mem_text, length, keep, Bool-cases,
  eq_iff,
}
use stock_fixer.Scheduler.Types.{Event, Status, is_started, is_success, is_error}
use stock_fixer.Scheduler.Interrupted.{
  Scan, empty_scan, has_key, setdefault, truthy_id, about, scan_step, scan, scan_finished,
  scan_started, open_runs, count_executions,
}

-- The loop reads the history from left to right.
scan-append :
    (job key : String) (events : List Event) (e : Event)
    → scan job key (events ++ e ∷ []) ≡ scan_step job key (scan job key events) e
unfolding scan
scan-append job key events e = rw foldl-append

-- The runs that the count is made of: the ends, and the starts with no end.
abbrev runs : Scan → ℕ
runs s = s.count + length (open_runs s)

-- The number of runs of a job in a period, as the history shows them.
unfoldable pub runs_of : String → String → List Event → ℕ
runs_of job key events = runs (scan job key events)

abbrev pub Distinct : List (String × Event) → Type 0
Distinct [] = Unit
Distinct ((k, e) ∷ m) = (has_key k m ≡ false) × Distinct m

abbrev open_in : List String → List (String × Event) → List (String × Event)
open_in fin m = keep (λ entry. not (mem_text entry.0 fin)) m

has_key-append :
    (k j : String) (e : Event) (m : List (String × Event))
    → has_key j (m ++ (k, e) ∷ []) ≡ (has_key j m || str_eq k j)
has_key-append k j e [] = ground arith
has_key-append k j e ((i, f) ∷ m) = ground (arith, has_key-append k j e m)

Distinct-append :
    (k : String) (e : Event) (m : List (String × Event))
    → Distinct m
    → has_key k m ≡ false
    → Distinct (m ++ (k, e) ∷ [])
Distinct-append k e [] d h = (refl, tt)
Distinct-append k e ((i, f) ∷ m) d h =
    ground (arith, Distinct-append k e m d.1, has_key-append k i e m, eq_iff i k, eq_iff k i)

Distinct-scan_step :
    (job key : String) (s : Scan) (e : Event)
    → Distinct s.started_events
    → Distinct (scan_step job key s e).started_events
unfolding scan_step scan_finished scan_started
Distinct-scan_step job key s e d = elim (Bool-cases (about job key e)) [
  | inl a ↦ rw a (branch e.status (truthy_id e.run_id))
  | inr a ↦ rw a d
]
  where
    branch :
        (st : Status) (o : Option String)
        → Distinct
            (if is_success st
              then scan_finished s o
              else if is_error st
              then scan_finished s o
              else if is_started st
              then scan_started s e o
              else s).started_events
    branch Status.started none = d
    branch Status.started (some k) = elim (Bool-cases (has_key k s.started_events)) [
      | inl h ↦ rw h d
      | inr h ↦ rw h (Distinct-append k e s.started_events d h)
    ]
    branch Status.success none = d
    branch Status.success (some k) = d
    branch Status.error none = d
    branch Status.error (some k) = d
    branch Status.retry o = d
    branch Status.skipped_limit o = d
    branch Status.cap_notice_sent o = d

Distinct-foldl :
    (job key : String) (events : List Event) (s : Scan)
    → Distinct s.started_events
    → Distinct (foldl (scan_step job key) s events).started_events
Distinct-foldl job key [] s d = d
Distinct-foldl job key (e ∷ events) s d =
    Distinct-foldl job key events (scan_step job key s e) (Distinct-scan_step job key s e d)

pub Distinct-scan :
    (job key : String) (events : List Event) → Distinct (scan job key events).started_events
unfolding scan
Distinct-scan job key events = Distinct-foldl job key events empty_scan tt

-- Ending a run that never began closes nothing.
open_in-missing :
    (k : String) (fin : List String) (m : List (String × Event))
    → has_key k m ≡ false
    → length (open_in (k ∷ fin) m) ≡ length (open_in fin m)
unfolding keep
open_in-missing k fin [] h = refl
open_in-missing k fin ((j, e) ∷ m) h =
    ground (arith, open_in-missing k fin m, eq_iff j k, eq_iff k j)

-- Ending an open run closes it alone.
open_in-finish :
    (k : String) (fin : List String) (m : List (String × Event))
    → Distinct m
    → has_key k m ≡ true
    → mem_text k fin ≡ false
    → length (open_in (k ∷ fin) m) + 1 ≡ length (open_in fin m)
unfolding keep
open_in-finish k fin [] d h n = cc
open_in-finish k fin ((j, e) ∷ m) d h n = elim (Bool-cases (str_eq j k)) [
  | inl s ↦
      let same : j ≡ k = (eq_iff j k).0 s in
      ground (arith, open_in-missing k fin m, eq_iff k j, same)
  | inr s ↦ ground (arith, open_in-finish k fin m d.1, eq_iff j k, eq_iff k j)
]

open_in-append :
    (k : String) (e : Event) (fin : List String) (m : List (String × Event))
    → mem_text k fin ≡ false
    → length (open_in fin (m ++ (k, e) ∷ [])) ≡ length (open_in fin m) + 1
unfolding keep
open_in-append k e fin [] n = ground arith
open_in-append k e fin ((j, f) ∷ m) n = ground (arith, open_in-append k e fin m n)

-- The record that `run_job` writes before it starts a run.
pub record IsStart (job key k : String) (e : Event) : Type 0 where
  pub of_job : about job key e ≡ true
  pub status_eq : e.status ≡ Status.started
  pub run : truthy_id e.run_id ≡ some k

-- And the one that it writes after the run.
pub record IsEnd (job key k : String) (e : Event) : Type 0 where
  pub of_job : about job key e ≡ true
  pub ended : (is_success e.status || is_error e.status) ≡ true
  pub run : truthy_id e.run_id ≡ some k

-- The run id is that of a run with no end.
pub record IsOpen (job key k : String) (events : List Event) : Type 0 where
  pub begun : has_key k (scan job key events).started_events ≡ true
  pub unended : mem_text k (scan job key events).finished_run_ids ≡ false

-- No entry of the history has the run id.
pub record IsFresh (job key k : String) (events : List Event) : Type 0 where
  pub unbegun : has_key k (scan job key events).started_events ≡ false
  pub unended : mem_text k (scan job key events).finished_run_ids ≡ false

scan_step-start :
    (job key k : String) (s : Scan) (e : Event)
    → IsStart job key k e
    → scan_step job key s e ≡ record s { started_events = setdefault k e s.started_events }
unfolding scan_step scan_started
scan_step-start job key k s e h = rw (h.of_job, h.status_eq, h.run)

scan_step-end :
    (job key k : String) (s : Scan) (e : Event)
    → IsEnd job key k e
    → scan_step job key s e
      ≡ record s { count = s.count + 1; finished_run_ids = k ∷ s.finished_run_ids }
unfolding scan_step scan_finished
scan_step-end job key k s e h = elim (Bool-cases (is_success e.status)) [
  | inl t ↦ rw (h.of_job, t, h.run)
  | inr t ↦ let u : is_error e.status ≡ true = ground (arith, h.ended) in rw (h.of_job, t, u, h.run)
]

-- A start with a new run id is one more run.
pub runs_of-start :
    (job key k : String) (events : List Event) (e : Event)
    → IsFresh job key k events
    → IsStart job key k e
    → runs_of job key (events ++ e ∷ []) ≡ runs_of job key events + 1
unfolding runs_of open_runs
runs_of-start job key k events e new h =
    rw
      (
        scan-append job key events e,
        scan_step-start job key k (scan job key events) e h,
        new.unbegun,
      )
      (omega (
        arith,
        open_in-append k e (scan job key events).finished_run_ids
            (scan job key events).started_events new.unended,
      ))

-- The end of an open run leaves the number of runs as it was: the run was counted from its start.
pub runs_of-end :
    (job key k : String) (events : List Event) (e : Event)
    → IsOpen job key k events
    → IsEnd job key k e
    → runs_of job key (events ++ e ∷ []) ≡ runs_of job key events
unfolding runs_of open_runs
runs_of-end job key k events e live h =
    rw (scan-append job key events e, scan_step-end job key k (scan job key events) e h)
      (omega (
        arith,
        open_in-finish k (scan job key events).finished_run_ids (scan job key events).started_events
            (Distinct-scan job key events) live.begun live.unended,
      ))

-- A retry, a skipped run, a notice, and any entry of another job or period leave the count alone.
pub runs_of-other :
    (job key : String) (events : List Event) (e : Event)
    → (about job key e && (is_started e.status || (is_success e.status || is_error e.status)))
      ≡ false
    → runs_of job key (events ++ e ∷ []) ≡ runs_of job key events
unfolding runs_of scan_step
runs_of-other job key events e h =
    rw (scan-append job key events e) (same e.status (about job key e) h)
  where
    same :
        (st : Status) (b : Bool)
        → (b && (is_started st || (is_success st || is_error st))) ≡ false
        → runs (
            if b
            then if is_success st
              then scan_finished (scan job key events) (truthy_id e.run_id)
              else if is_error st
              then scan_finished (scan job key events) (truthy_id e.run_id)
              else if is_started st
              then scan_started (scan job key events) e (truthy_id e.run_id)
              else scan job key events
            else scan job key events)
          ≡ runs (scan job key events)
    same st false h = refl
    same Status.started true h = cc
    same Status.success true h = cc
    same Status.error true h = cc
    same Status.retry true h = refl
    same Status.skipped_limit true h = refl
    same Status.cap_notice_sent true h = refl

-- Without `rerun_if_interrupted` the count is the number of runs; with it, at most `forgiven` fewer.
pub count_executions_bounds :
    (events : List Event) (job key boot : String) (booted forgiven : ℕ)
    → ((count_executions events job key boot booted false forgiven).count ≡ runs_of job key events)
      × ((count_executions events job key boot booted true forgiven).count ≤ runs_of job key events)
      × (runs_of job key events
          ≤ (count_executions events job key boot booted true forgiven).count + forgiven)
unfolding count_executions runs_of
count_executions_bounds events job key boot booted forgiven = (refl, omega arith, omega arith)
