-- ===== src/Scheduler/Queue/Run/Marks.antt =====
-- On every path `run_job` leaves the job unmarked, calls the function only for a claimed run, and
-- sends the heartbeat for such runs alone.
use stock_fixer.Prelude.{
  ◌≤◌, ◌≡◌, refl, inl, inr, ◌⊎◌, false, not, ◌&&◌, none, some, String, arith, Bool-cases,
  Option-cases, lookup, mem_text, str_eq,
}
use stock_fixer.Scheduler.Types.{Config, Event}
use stock_fixer.Scheduler.Cutoff.{is_past_recovery_until}
use stock_fixer.Scheduler.Queue.{
  Queue, Io, StateFile, reload_state, load_file, quarantine_state_file, append_event_locked,
  save_state, get_execution_count,
}
use stock_fixer.Scheduler.Queue.Run.{
  Request, Env, is_returned, Claim, claimed, limit, limit_unwritten, start_unwritten, in_progress,
  begin_run, key_of, run_with_retry, ran, Ran, after_claim, run_known, run_job, skip_event,
  start_event,
}
use stock_fixer.Scheduler.Queue.Run.Limit.{finish_run-idle}
use stock_fixer.Scheduler.Queue.Run.Retry.{run_with_retry_lem}

reload-in_progress : (io : Io) (q : Queue) → (reload_state io q).0.in_progress ≡ q.in_progress
unfolding reload_state quarantine_state_file
reload-in_progress io q = by_file q.file
  where
    by_file : (f : StateFile) → (load_file io f q).0.in_progress ≡ q.in_progress
    by_file StateFile.absent = refl
    by_file StateFile.io_error = refl
    by_file StateFile.broken = refl
    by_file StateFile.no_list = refl
    by_file (StateFile.saved es) = refl

append-in_progress :
    (io : Io) (e : Event) (q : Queue) → (append_event_locked io e q).0.in_progress ≡ q.in_progress
unfolding append_event_locked save_state
append-in_progress io e q = elim (Bool-cases io.save_ok) [ inl h ↦ rw h | inr h ↦ rw h ]

-- A request that is not claimed leaves the marks of running jobs as they are.
begin_run-marks :
    (io : Io) (q : Queue) (r : Request) (config : Config)
    → ((begin_run io q r config).1 ≡ claimed)
      ⊎ ((begin_run io q r config).0.in_progress ≡ q.in_progress)
unfolding begin_run get_execution_count
begin_run-marks io q r config = ground (
  arith,
  reload-in_progress io q,
  append-in_progress io (skip_event r (key_of r config))
      (get_execution_count (reload_state io q).0 r.job_id (key_of r config)).0,
  append-in_progress io (start_event q r (key_of r config))
      (get_execution_count (reload_state io q).0 r.job_id (key_of r config)).0,
)

-- The function is called, and a heartbeat sent, exactly for the runs that took place.
abbrev pub Reported : Ran → Type 0
Reported t = elim t.result [
  | ran o ↦ (1 ≤ t.calls) × (t.heartbeat ≡ some (is_returned o))
  | _ ↦ (t.calls ≡ 0) × (t.heartbeat ≡ none)
]

kept_marks :
    {c : Claim} (q q0 : Queue) (job : String)
    → (c ≡ claimed → ⊥)
    → (c ≡ claimed) ⊎ (q.in_progress ≡ q0.in_progress)
    → mem_text job q0.in_progress ≡ false
    → mem_text job q.in_progress ≡ false
kept_marks q q0 job no_claim (inl e) h = absurd (no_claim e)
kept_marks q q0 job no_claim (inr e) h = rw e h

after_claim-idle :
    (env : Env) (q q0 : Queue) (r : Request) (config : Config) (c : Claim)
    → (c ≡ claimed) ⊎ (q.in_progress ≡ q0.in_progress)
    → mem_text r.job_id q0.in_progress ≡ false
    → (mem_text r.job_id (after_claim env q r config c).queue.in_progress ≡ false)
      × Reported (after_claim env q r config c)
unfolding after_claim
after_claim-idle env q q0 r config claimed s h =
    let a = run_with_retry env q r (key_of r config) config in
    (
      finish_run-idle env.end_io a.queue r (key_of r config) a.outcome,
      ((run_with_retry_lem env q r (key_of r config) config).0, refl),
    )
after_claim-idle env q q0 r config in_progress s h =
    (kept_marks q q0 r.job_id (λ (e : in_progress ≡ claimed). cc) s h, (refl, refl))
after_claim-idle env q q0 r config limit s h =
    (kept_marks q q0 r.job_id (λ (e : limit ≡ claimed). cc) s h, (refl, refl))
after_claim-idle env q q0 r config limit_unwritten s h =
    (kept_marks q q0 r.job_id (λ (e : limit_unwritten ≡ claimed). cc) s h, (refl, refl))
after_claim-idle env q q0 r config start_unwritten s h =
    (kept_marks q q0 r.job_id (λ (e : start_unwritten ≡ claimed). cc) s h, (refl, refl))

run_known-idle :
    (env : Env) (q : Queue) (r : Request) (config : Config)
    → mem_text r.job_id q.in_progress ≡ false
    → (mem_text r.job_id (run_known env q r config).queue.in_progress ≡ false)
      × Reported (run_known env q r config)
unfolding run_known
run_known-idle env q r config h =
    elim (Bool-cases
      (str_eq r.reason "scheduled" && (not r.force && is_past_recovery_until config r.now))) [
        | inl e ↦ rw e (h, (refl, refl))
        | inr e ↦ rw e (
            after_claim-idle env (begin_run env.io q r config).0 q r config
              (begin_run env.io q r config).1 (begin_run-marks env.io q r config) h)
      ]

-- Whatever the job, the clock, the file and other processes do, also where the start was written
-- and the end cannot be, `run_job` on a job that is not running leaves it not marked as running,
-- and so open to later runs. The function is called at
-- least once, and the heartbeat sent with the run's success, if the run took place; a skipped, a
-- refused and an unknown job calls nothing and sends none.
pub run_job-idle :
    (env : Env) (q : Queue) (r : Request)
    → mem_text r.job_id q.in_progress ≡ false
    → (mem_text r.job_id (run_job env q r).queue.in_progress ≡ false) × Reported (run_job env q r)
unfolding run_job
run_job-idle env q r h = elim (Option-cases (lookup r.job_id q.schedule_config)) [
  | inl e ↦ rw (e, run_job) (h, (refl, refl))
  | inr (config, e) ↦ rw (e, run_job) (run_known-idle env q r config h)
]
