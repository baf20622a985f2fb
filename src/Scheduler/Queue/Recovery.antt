-- ===== src/Scheduler/Queue/Recovery.antt =====
-- What a decision to recover (`should_recover` of python/src/orchestration/scheduler_queue.py) rests
-- on.
use stock_fixer.Prelude.{
  ◌+◌, ◌*◌, ◌≡◌, ◌≤◌, refl, inl, inr, true, false, not, ◌||◌, some, String, arith, ltb, leb,
  Bool-cases, Option-cases, lookup, mem_text, is_some,
}
use stock_fixer.Calendar.Date.{Datetime, instant, minute_us}
use stock_fixer.Scheduler.Types.{Config}
use stock_fixer.Scheduler.Weekdays.{parse_day_of_week}
use stock_fixer.Scheduler.Cutoff.{Basis, is_past_recovery_until, scheduled_datetime_for_recovery}
use stock_fixer.Scheduler.RecoveryGap.{is_within_recovery_gap}
use stock_fixer.Scheduler.Queue.{
  Queue, Io, reload_state_for_recovery, has_success, get_execution_count, build_period_key,
  recover_from_start, recover_at, recover_known, should_recover,
}

-- What a decision to recover rests on.
pub record Decided (io : Io) (q : Queue) (job : String) (config : Config) (now : Datetime)
    : Type 0 where
  pub in_time : is_past_recovery_until config now ≡ false
  pub usable : (reload_state_for_recovery io q).1 ≡ true
  pub unsuccessful :
      has_success (reload_state_for_recovery io q).0 job (build_period_key config now) ≡ false
  pub room :
      leb config.max_executions_per_period
        (get_execution_count (reload_state_for_recovery io q).0 job (build_period_key config now)).1
      ≡ false
  pub rested :
      is_within_recovery_gap config
        (reload_state_for_recovery io q).0.events
        job
        (build_period_key config now)
        (instant now)
      ≡ false
  pub left :
      (recover_from_start io q job config now).0
      ≡ (get_execution_count (reload_state_for_recovery io q).0 job (build_period_key config now)).0

-- The regular start that the recovery refers to lies back by the delay at least.
pub record IsStarted (config : Config) (now : Datetime) : Type 0 where
  pub scheduled : Datetime
  pub regular :
      scheduled_datetime_for_recovery config now (parse_day_of_week config.day_of_week)
      ≡ Basis.start scheduled
  pub elapsed : instant scheduled + config.recovery_delay_minutes * minute_us ≤ instant now

recover_from_start-Decided :
    (io : Io) (q : Queue) (job : String) (config : Config) (now : Datetime)
    → (recover_from_start io q job config now).1 ≡ true
    → Decided io q job config now
unfolding recover_from_start get_execution_count
recover_from_start-Decided io q job config now h = ground arith

recover_at-Decided :
    (io : Io) (q : Queue) (job : String) (config : Config) (now : Datetime) (b : Basis)
    → (recover_at io q job config now b).1 ≡ true
    → ((t : Datetime) × (b ≡ Basis.start t)
        × (instant t + config.recovery_delay_minutes * minute_us ≤ instant now))
      × Decided io q job config now
      × ((recover_at io q job config now b).0 ≡ (recover_from_start io q job config now).0)
unfolding recover_at
recover_at-Decided io q job config now Basis.not_today h = cc
recover_at-Decided io q job config now Basis.failed h = cc
recover_at-Decided io q job config now (Basis.start t) h =
    elim (Bool-cases (ltb (instant now) (instant t + config.recovery_delay_minutes * minute_us))) [
      | inl e ↦ cc (rw e at h)
      | inr e ↦ rw e (
        (t, refl, ground (arith, e)),
        recover_from_start-Decided io q job config now (rw e at h),
        refl,
      )
    ]

-- A recovery is decided on only for a configured job that is not running, at the earliest the
-- configured delay after its regular start and before its cutoff, with a readable history that shows
-- no success and fewer runs than the limit in the period, and outside of the recovery gap.
pub should_recover-Decided :
    (io : Io) (q : Queue) (job : String) (now : Datetime)
    → (should_recover io q job now).1 ≡ true
    → (config : Config) × (lookup job q.schedule_config ≡ some config)
      × (mem_text job q.in_progress ≡ false)
      × IsStarted config now
      × Decided io q job config now
      × ((should_recover io q job now).0 ≡ (recover_from_start io q job config now).0)
unfolding should_recover recover_known
should_recover-Decided io q job now h = elim (Option-cases (lookup job q.schedule_config)) [
  | inl e ↦ cc (rw (e, should_recover) at h)
  | inr (config, e) ↦
      let k = rw (e, should_recover) at h in
      elim (Bool-cases (mem_text job q.in_progress)) [
        | inl m ↦ cc (rw m at k)
        | inr m ↦
            let k' = rw m at k in
            elim (Bool-cases (not (is_some config.hour) || not (is_some config.minute))) [
              | inl c ↦ cc (rw c at k')
              | inr c ↦
                  let d =
                    recover_at-Decided io q job config now
                      (scheduled_datetime_for_recovery config now
                        (parse_day_of_week config.day_of_week))
                      (rw c at k') in
                  let (t, regular, elapsed) = d.0 in
                  (
                    config,
                    e,
                    m,
                    record { scheduled = t; regular = regular; elapsed = elapsed },
                    d.1,
                    rw (e, should_recover) (rw (m, recover_known) (rw c d.2)),
                  )
            ]
      ]
]
