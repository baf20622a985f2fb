-- ===== src/Scheduler/Queue/Run/Recovered.antt =====
-- The decision to recover and the guards of `run_job` agree; and a damaged history stops
-- recoveries for good.
use stock_fixer.Prelude.{
  ℕ, ◌≡◌, refl, inl, inr, true, false, none, some, List, String, arith, leb, Bool-cases, lookup,
  mem_text, str_eq, [], Option,
}
use stock_fixer.Calendar.Date.{Datetime}
use stock_fixer.Scheduler.Types.{Config}
use stock_fixer.Scheduler.Queue.{
  Queue, Io, StateFile, reload_state, quarantine_state_file, reload_state_for_recovery,
  append_event_locked, save_state, get_execution_count, count_in, build_period_key, should_recover,
}
use stock_fixer.Scheduler.Queue.Recovery.{Decided, should_recover-Decided}
use stock_fixer.Scheduler.Queue.Missed.{get_missed_past_periods, missed_known}
use stock_fixer.Scheduler.Queue.Run.{
  Request, Env, Outcome, Claim, claimed, begin_run, key_of, run_with_retry, ran, after_claim,
  run_known, run_job,
}

-- What a reload that lets recoveries go on leaves alone, and that a second reload changes nothing.
record Usable (io : Io) (q : Queue) : Type 0 where
  same_config : (reload_state_for_recovery io q).0.schedule_config ≡ q.schedule_config
  same_marks : (reload_state_for_recovery io q).0.in_progress ≡ q.in_progress
  again :
      (ws : List String)
      → (reload_state io (record (reload_state_for_recovery io q).0 { warned = ws })).0
        ≡ record (reload_state_for_recovery io q).0 { warned = ws }

reload-Usable : (io : Io) (q : Queue) → (reload_state_for_recovery io q).1 ≡ true → Usable io q
unfolding reload_state_for_recovery reload_state quarantine_state_file
reload-Usable io q = by_file q.file refl
  where
    by_file : (f : StateFile) → q.file ≡ f → (reload_state_for_recovery io q).1 ≡ true → Usable io q
    by_file StateFile.absent e h =
        rw e (record { same_config = refl; same_marks = refl; again = λ ws. refl })
    by_file StateFile.io_error e h = cc (rw e at h)
    by_file StateFile.broken e h = cc (rw e at h)
    by_file StateFile.no_list e h =
        rw e (record { same_config = refl; same_marks = refl; again = λ ws. refl })
    by_file (StateFile.saved es) e h =
        rw e (record { same_config = refl; same_marks = refl; again = λ ws. refl })

-- The count reads the history, the configuration and the boot, and no warning.
count-warned :
    (q : Queue) (ws : List String) (job key : String)
    → (get_execution_count (record q { warned = ws }) job key).1 ≡ (get_execution_count q job key).1
unfolding get_execution_count count_in
count-warned q ws job key = by_config (lookup job q.schedule_config)
  where
    by_config :
        (c : Option Config)
        → (count_in (record q { warned = ws }) c job key).count ≡ (count_in q c job key).count
    by_config none = refl
    by_config (some config) = refl

-- `begin_run` claims a job that is not running and has room, where the start can be written.
begin_run-room :
    (io : Io) (q : Queue) (r : Request) (config : Config)
    → io.save_ok ≡ true
    → mem_text r.job_id q.in_progress ≡ false
    → leb config.max_executions_per_period
        (get_execution_count (reload_state io q).0 r.job_id (key_of r config)).1
      ≡ false
    → (begin_run io q r config).1 ≡ claimed
unfolding begin_run append_event_locked save_state
begin_run-room io q r config saves idle room = elim (Bool-cases r.force) [
  | inl f ↦ rw (idle, f, saves)
  | inr f ↦ rw (idle, f, room, saves)
]

-- Past the guards the job runs.
after_claim-claimed :
    (env : Env) (q : Queue) (r : Request) (config : Config) (c : Claim)
    → c ≡ claimed
    → (o : Outcome) × ((after_claim env q r config c).result ≡ ran o)
unfolding after_claim
after_claim-claimed env q r config c e =
    rw e ((run_with_retry env q r (key_of r config) config).outcome, refl)

run_known-claimed :
    (env : Env) (q : Queue) (r : Request) (config : Config)
    → str_eq r.reason "scheduled" ≡ false
    → (begin_run env.io q r config).1 ≡ claimed
    → (o : Outcome) × ((run_known env q r config).result ≡ ran o)
unfolding run_known
run_known-claimed env q r config other c =
    rw (other, run_known)
      (after_claim-claimed env (begin_run env.io q r config).0 r config
        (begin_run env.io q r config).1 c)

run_job-claimed :
    (env : Env) (q : Queue) (r : Request) (config : Config)
    → lookup r.job_id q.schedule_config ≡ some config
    → str_eq r.reason "scheduled" ≡ false
    → (begin_run env.io q r config).1 ≡ claimed
    → (o : Outcome) × ((run_job env q r).result ≡ ran o)
unfolding run_job
run_job-claimed env q r config known other c =
    rw (known, run_job) (run_known-claimed env q r config other c)

module _ (env : Env) (q : Queue) (r : Request) (config : Config) (saves : env.io.save_ok ≡ true)
    (known : lookup r.job_id q.schedule_config ≡ some config)
    (idle : mem_text r.job_id q.in_progress ≡ false) (no_key : r.period_key ≡ none)
    (decided : Decided env.io q r.job_id config r.now) where
  abbrev reloaded : Queue
  reloaded = (reload_state_for_recovery env.io q).0

  abbrev left_behind : Queue
  left_behind = (get_execution_count reloaded r.job_id (build_period_key config r.now)).0

  room :
      (k : String)
      → k ≡ build_period_key config r.now
      → leb config.max_executions_per_period
          (get_execution_count (reload_state env.io left_behind).0 r.job_id k).1
        ≡ false
  unfolding get_execution_count
  room k e =
      let u = reload-Usable env.io q decided.usable in
      let key = build_period_key config r.now in
      rw e (
        rw (u.again left_behind.warned)
          (rw (count-warned reloaded left_behind.warned r.job_id key) decided.room))

  claims : (begin_run env.io left_behind r config).1 ≡ claimed
  claims =
      let u = reload-Usable env.io q decided.usable in
      begin_run-room env.io left_behind r config saves
        (unfold get_execution_count in rw u.same_marks idle) (room (key_of r config) (rw no_key))

  runs :
      str_eq r.reason "scheduled" ≡ false
      → (o : Outcome) × ((run_job env left_behind r).result ≡ ran o)
  unfolding get_execution_count
  runs other =
      let u = reload-Usable env.io q decided.usable in
      run_job-claimed env left_behind r config (rw u.same_config known) other claims

-- The decision to recover and the guards of the run agree. If `should_recover` says yes, then
-- `run_job` for that job, called with the state that the decision left, the same time, no period
-- key of its own and a reason other than "scheduled", gets past every guard and runs the job, as
-- long as its start can be written to the file.
pub should_recover-runs :
    (env : Env) (q : Queue) (r : Request)
    → (should_recover env.io q r.job_id r.now).1 ≡ true
    → env.io.save_ok ≡ true
    → r.period_key ≡ none
    → str_eq r.reason "scheduled" ≡ false
    → (o : Outcome) × ((run_job env (should_recover env.io q r.job_id r.now).0 r).result ≡ ran o)
should_recover-runs env q r yes_ saves no_key other =
    let (config, known, idle, started, d, left) =
      should_recover-Decided env.io q r.job_id r.now yes_ in
    rw (left, d.left) (runs env q r config saves known idle no_key d other)

corrupted-unusable :
    (io : Io) (q : Queue) → q.corrupted ≡ true → (reload_state_for_recovery io q).1 ≡ false
unfolding reload_state_for_recovery reload_state quarantine_state_file
corrupted-unusable io q h = ground arith

-- Once the manager has met a damaged state file, it decides on no recovery and names no missed
-- period any more, whatever the file holds later.
corrupted-stops :
    (io : Io) (q : Queue) (job : String) (lookback : ℕ) (now : Datetime)
    → q.corrupted ≡ true
    → ((should_recover io q job now).1 ≡ false)
      × ((get_missed_past_periods io q job lookback now).1 ≡ [])
unfolding get_missed_past_periods missed_known
corrupted-stops io q job lookback now h = (
  elim (Bool-cases (should_recover io q job now).1) [
    | inl y ↦
        let (config, known, idle, started, d, left) = should_recover-Decided io q job now y in
        cc (d.usable, corrupted-unusable io q h)
    | inr n ↦ n
  ],
  ground (arith, corrupted-unusable io q h),
)

-- A state file that is no JSON object marks the manager as damaged when it is read.
pub broken-corrupts :
    (io : Io) (q : Queue)
    → q.file ≡ StateFile.broken
    → ((reload_state io q).0.corrupted ≡ true) × ((reload_state io q).0.events ≡ q.events)
unfolding reload_state quarantine_state_file
broken-corrupts io q h = ground arith
