-- ===== src/Scheduler/Queue/Run/Limit.antt =====
-- The limit of runs in a period, the mark of a running job, and the entry at the end of a run.
use stock_fixer.Prelude.{
  ℕ, zero, suc, ◌+◌, ◌-◌, ◌≤◌, ◌<◌, ◌≡◌, refl, inl, inr, ◌⊎◌, true, false, ◌||◌, some, List, [],
  ◌∷◌, ◌++◌, String, arith, ltb, leb, length, length-append, drop, Bool-cases, lookup, mem_text,
  discard, str_eq, eq_iff,
}
use stock_fixer.Scheduler.Types.{Config, Event, is_success, is_error}
use stock_fixer.Scheduler.Interrupted.{about}
use stock_fixer.Scheduler.Interrupted.Count.{
  runs_of, IsStart, IsEnd, IsOpen, IsFresh, runs_of-start, runs_of-end, runs_of-other,
  count_executions_bounds,
}
use stock_fixer.Scheduler.Queue.{
  Queue, Io, StateFile, reload_state, load_file, append_event_locked, append_event, save_state,
  keep_newest, max_events, get_execution_count, count_in,
}
use stock_fixer.Scheduler.Queue.Run.{
  Outcome, returned, raised, Request, claimed, limit, begin_run, finish_run, key_of, start_event,
  skip_event, end_event, outcome_status,
}

keep_newest-short : (es : List Event) → length es ≤ max_events → keep_newest es ≡ es
unfolding keep_newest
keep_newest-short es h = let e : length es - max_events ≡ 0 = omega arith in rw e

drop-append :
    (n : ℕ) (xs : List Event) (e : Event)
    → n ≤ length xs
    → drop n (xs ++ e ∷ []) ≡ drop n xs ++ e ∷ []
drop-append zero xs e h = refl
drop-append (suc n) [] e h = absurd (omega arith)
drop-append (suc n) (x ∷ xs) e h = drop-append n xs e (omega arith)

-- The cap on the history never drops the entry that is being written.
pub keep_newest-append :
    (xs : List Event) (e : Event)
    → keep_newest (xs ++ e ∷ []) ≡ drop (length xs + 1 - max_events) xs ++ e ∷ []
unfolding keep_newest
keep_newest-append xs e =
    rw (length-append xs (e ∷ [])) (drop-append (length xs + 1 - max_events) xs e (omega arith))

about_self :
    (job key : String) (e : Event) → e.job_id ≡ job → e.period_key ≡ key → about job key e ≡ true
about_self job key e a b = ground (arith, eq_iff e.job_id job, eq_iff e.period_key key)

count_in-plain :
    (q : Queue) (config : Config) (job key : String)
    → config.rerun_if_interrupted ≡ false
    → (count_in q (some config) job key).count ≡ runs_of job key q.events
unfolding count_in
count_in-plain q config job key plain =
    simp plain
      (count_executions_bounds q.events job key q.boot_id q.booted_at
        config.max_interrupted_reruns_per_period).0

-- What a job's configuration and a readable history of fewer than `max_events` entries give.
module _ (io : Io) (q : Queue) (r : Request) (config : Config) (h : List Event)
    (saves : io.save_ok ≡ true) (known : lookup r.job_id q.schedule_config ≡ some config)
    (plain : config.rerun_if_interrupted ≡ false) (readable : q.file ≡ StateFile.saved h)
    (short : length h < max_events) (idle : mem_text r.job_id q.in_progress ≡ false) where
  abbrev key : String
  key = key_of r config

  reloaded : (reload_state io q).0 ≡ record q { events = h }
  unfolding reload_state
  reloaded = rw readable

  counted : (get_execution_count (record q { events = h }) r.job_id key).1 ≡ runs_of r.job_id key h
  unfolding get_execution_count
  counted = rw known (count_in-plain (record q { events = h }) config r.job_id key plain)

  written : (e : Event) → keep_newest (h ++ e ∷ []) ≡ h ++ e ∷ []
  written e = keep_newest-short (h ++ e ∷ []) (omega (arith, length-append h (e ∷ [])))

  -- A job that is not running and has room in the period claims it: the start is in the file.
  begin_run-claims :
      runs_of r.job_id key h < config.max_executions_per_period
      → ((begin_run io q r config).1 ≡ claimed)
        × ((begin_run io q r config).0.file ≡ StateFile.saved (h ++ start_event q r key ∷ []))
        × ((begin_run io q r config).0.in_progress ≡ r.job_id ∷ q.in_progress)
  unfolding begin_run append_event_locked save_state get_execution_count
  begin_run-claims room = elim (Bool-cases r.force) [
    | inl f ↦ rw (idle, reloaded, f, saves, written (start_event q r key)) (refl, refl, refl)
    | inr f ↦
        let c : leb config.max_executions_per_period (runs_of r.job_id key h) ≡ false =
          ground arith in
        rw (idle, reloaded, f, counted, c, saves, written (start_event q r key)) (refl, refl, refl)
  ]

  -- A job with no room in the period is refused, unless it is forced.
  begin_run-refuses :
      config.max_executions_per_period ≤ runs_of r.job_id key h
      → r.force ≡ false
      → ((begin_run io q r config).1 ≡ limit)
        × ((begin_run io q r config).0.file ≡ StateFile.saved (h ++ skip_event r key ∷ []))
        × ((begin_run io q r config).0.in_progress ≡ q.in_progress)
  unfolding begin_run append_event_locked save_state get_execution_count
  begin_run-refuses full f =
      let c : leb config.max_executions_per_period (runs_of r.job_id key h) ≡ true = ground arith in
      rw (idle, reloaded, f, counted, c, saves, written (skip_event r key)) (refl, refl, refl)

  start_event-IsStart :
      str_eq r.run_id "" ≡ false → IsStart r.job_id key r.run_id (start_event q r key)
  start_event-IsStart truthy = record {
    of_job = about_self r.job_id key (start_event q r key) refl refl;
    status_eq = refl;
    run = rw truthy;
  }

  -- The limit of a period, for a configured job that is not running and has no
  -- `rerun_if_interrupted`, a readable history of fewer than 5000 entries and saves that succeed. A
  -- request that is not forced, with a new run id, is claimed exactly if the history shows fewer
  -- runs than `max_executions_per_period`; the new history then shows one run more, and so never
  -- more than the limit. Otherwise only the skip is written, and the number of runs stays.
  pub begin_run-limit :
      r.force ≡ false
      → str_eq r.run_id "" ≡ false
      → IsFresh r.job_id key r.run_id h
      → (h' : List Event) × ((begin_run io q r config).0.file ≡ StateFile.saved h')
        × ((((begin_run io q r config).1 ≡ claimed)
              × (runs_of r.job_id key h < config.max_executions_per_period)
              × (runs_of r.job_id key h' ≡ runs_of r.job_id key h + 1)
              × (runs_of r.job_id key h' ≤ config.max_executions_per_period))
            ⊎ (((begin_run io q r config).1 ≡ limit)
                × (config.max_executions_per_period ≤ runs_of r.job_id key h)
                × (runs_of r.job_id key h' ≡ runs_of r.job_id key h)))
  begin_run-limit f truthy new =
      elim (Bool-cases (ltb (runs_of r.job_id key h) config.max_executions_per_period)) [
        | inl lt ↦
            let room : runs_of r.job_id key h < config.max_executions_per_period = ground arith in
            let b = begin_run-claims room in
            let one =
              runs_of-start r.job_id key r.run_id h (start_event q r key) new
                (start_event-IsStart truthy) in
            (h ++ start_event q r key ∷ [], b.1, inl (b.0, room, one, omega (arith, one)))
        | inr ge ↦
            let full : config.max_executions_per_period ≤ runs_of r.job_id key h = ground arith in
            let b = begin_run-refuses full f in
            (
              h ++ skip_event r key ∷ [],
              b.1,
              inr (
                b.0,
                full,
                runs_of-other r.job_id key h (skip_event r key)
                    (ground (arith, about_self r.job_id key (skip_event r key) refl refl)),
              ),
            )
      ]

-- The end of a run, with the history at that time.
module _ (io : Io) (q : Queue) (r : Request) (key : String) (o : Outcome) where
  mem_text-discard : (xs : List String) → mem_text r.job_id (discard r.job_id xs) ≡ false
  unfolding discard
  mem_text-discard [] = refl
  mem_text-discard (x ∷ xs) = elim (Bool-cases (str_eq x r.job_id)) [
    | inl e ↦ rw e (mem_text-discard xs)
    | inr e ↦ rw (e, e) (mem_text-discard xs)
  ]

  -- After a run the job is not marked as running, whether or not its end could be written.
  pub finish_run-idle : mem_text r.job_id (finish_run io q r key o).in_progress ≡ false
  unfolding finish_run
  finish_run-idle = mem_text-discard (append_event io (end_event r key o) q).0.in_progress

  -- The end of a run is the newest entry of the file, with the outcome of the run, and it counts
  -- as the run that its start already counted.
  pub finish_run-records :
      (h : List Event)
      → io.save_ok ≡ true
      → q.file ≡ StateFile.saved h
      → length h < max_events
      → str_eq r.run_id "" ≡ false
      → IsOpen r.job_id key r.run_id h
      → ((finish_run io q r key o).file ≡ StateFile.saved (h ++ end_event r key o ∷ []))
        × (runs_of r.job_id key (h ++ end_event r key o ∷ []) ≡ runs_of r.job_id key h)
  unfolding finish_run append_event append_event_locked save_state reload_state
  finish_run-records h saves readable short truthy live = (
    rw (readable, load_file, saves)
        (rw (
          keep_newest-short (h ++ end_event r key o ∷ [])
            (omega (arith, length-append h (end_event r key o ∷ []))))),
    runs_of-end r.job_id key r.run_id h (end_event r key o) live ended,
  )
    where
      status : (x : Outcome) → (is_success (outcome_status x) || is_error (outcome_status x)) ≡ true
      status returned = refl
      status (raised e) = refl

      ended : IsEnd r.job_id key r.run_id (end_event r key o)
      ended = record {
        of_job = about_self r.job_id key (end_event r key o) refl refl;
        ended = status o;
        run = rw truthy;
      }
