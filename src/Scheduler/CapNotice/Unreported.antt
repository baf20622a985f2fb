-- ===== src/Scheduler/CapNotice/Unreported.antt =====
-- What the searches of python/src/orchestration/scheduler_cap_notice.py find has not been reported.
use stock_fixer.Prelude.{
  ℕ, ◌≡◌, refl, ◌∙◌, inl, inr, Bool, true, false, not, ◌&&◌, ◌||◌, Option, none, some, List, [],
  ◌∷◌, String, leb, if◌then◌else◌, Bool-cases, lookup, keep, All, mem_text,
}
use stock_fixer.Calendar.Date.{Date, Datetime, to_ordinal, iso_text, days_earlier}
use stock_fixer.Calendar.JpMarket.{is_jp_business_day}
use stock_fixer.Scheduler.Types.{Config}
use stock_fixer.Scheduler.Cutoff.{Basis, is_past_recovery_until}
use stock_fixer.Scheduler.Queue.{
  Queue, Io, StateFile, load_file, reload_state, quarantine_state_file, reload_state_for_recovery,
  has_success, get_execution_count, build_period_key,
}
use stock_fixer.Scheduler.CapNotice.{
  Found, mem_pair, still_unreported, unreported, without_success_from, period_without_success,
  reached_cap, capped_of, capped_period, monday_of, week_recovery_ended, first_ended,
  ended_or_scanned, ended_since, ended_week_of, ended_week, or_ended, week_to_notify, missed_of,
  missed_day, Oldest, oldest_event_day,
}
use stock_fixer.Scheduler.CapNotice.Days.{
  Days, missed_since, days_or_scanned, days_since, days_after, past_days_without_success,
  business_days_before,
}

pub reload-marks :
    (io : Io) (q : Queue) → (reload_state io q).0.cap_notices_sent ≡ q.cap_notices_sent
unfolding reload_state quarantine_state_file
reload-marks io q = by_file q.file
  where
    by_file : (f : StateFile) → (load_file io f q).0.cap_notices_sent ≡ q.cap_notices_sent
    by_file StateFile.absent = refl
    by_file StateFile.io_error = refl
    by_file StateFile.broken = refl
    by_file StateFile.no_list = refl
    by_file (StateFile.saved es) = refl

recovery-marks :
    (io : Io) (q : Queue) → (reload_state_for_recovery io q).0.cap_notices_sent ≡ q.cap_notices_sent
unfolding reload_state_for_recovery
recovery-marks io q = reload-marks io q

-- A found period is still unreported.
abbrev pub Fresh : Queue → String → Found → Type 0
Fresh q job (Found.period k) = still_unreported q job k ≡ true
Fresh q job Found.nothing = Unit
Fresh q job Found.failed = Unit

-- The result of a search from the manager `q`.
abbrev pub Search : Queue → String → Queue × Found → Type 0
Search q job r = (r.0.cap_notices_sent ≡ q.cap_notices_sent) × Fresh r.0 job r.1

unreported-Fresh : (q : Queue) (job k : String) → Fresh q job (unreported q job k)
unreported-Fresh q job k = elim (Bool-cases (still_unreported q job k)) [
  | inl e ↦ rw e e
  | inr e ↦ rw e tt
]

-- Another warning changes nothing that the report reads.
count-still_unreported :
    (q : Queue) (job k j c : String)
    → still_unreported (get_execution_count q job k).0 j c ≡ still_unreported q j c
unfolding still_unreported has_success get_execution_count
count-still_unreported q job k j c = refl

count-marks :
    (q : Queue) (job k : String)
    → (get_execution_count q job k).0.cap_notices_sent ≡ q.cap_notices_sent
unfolding get_execution_count
count-marks q job k = refl

if-Search :
    (t : Bool) (q : Queue) (job : String) (a b : Queue × Found)
    → Search q job a
    → Search q job b
    → Search q job (if t then a else b)
if-Search true q job a b x y = x
if-Search false q job a b x y = y

reloaded-Search :
    (io : Io) (q : Queue) (job : String) (f : Queue → Queue × Found)
    → ((q' : Queue) → Search q' job (f q'))
    → Search q job (
        let (q', usable) = reload_state_for_recovery io q in
        if usable then f q' else (q', Found.nothing))
reloaded-Search io q job f s =
    let q' = (reload_state_for_recovery io q).0 in
    let m = recovery-marks io q in
    if-Search (reload_state_for_recovery io q).1 q job (f q') (q', Found.nothing)
      ((s q').0 ∙ m, (s q').1) (m, tt)

without_success_from-Search :
    (io : Io) (q : Queue) (job : String) (schedule : Config) (now : Datetime) (b : Basis)
    → Search q job (without_success_from io q job schedule now b)
unfolding without_success_from
without_success_from-Search io q job schedule now Basis.not_today = (refl, tt)
without_success_from-Search io q job schedule now Basis.failed = (refl, tt)
without_success_from-Search io q job schedule now (Basis.start t) =
    if-Search _ q job _ _ (refl, tt)
      (reloaded-Search io q job (λ q'. (q', unreported q' job (build_period_key schedule now)))
        (λ q'. (refl, unreported-Fresh q' job (build_period_key schedule now))))

period_without_success-Search :
    (io : Io) (q : Queue) (job : String) (schedule : Config) (now : Datetime)
    → Search q job (period_without_success io q job schedule now)
unfolding period_without_success
period_without_success-Search io q job schedule now =
    if-Search _ q job _ _ (refl, tt) (without_success_from-Search io q job schedule now _)

capped_of-Search :
    (q q0 : Queue) (job : String) (config : Config) (f : Found)
    → Search q0 job (q, f)
    → Search q0 job (capped_of q job config f)
unfolding capped_of reached_cap
capped_of-Search q q0 job config Found.nothing s = s
capped_of-Search q q0 job config Found.failed s = s
capped_of-Search q q0 job config (Found.period k) s = (
  count-marks q job k ∙ s.0,
  kept (leb config.max_executions_per_period (get_execution_count q job k).1),
)
  where
    kept :
        (t : Bool)
        → Fresh (get_execution_count q job k).0 job (if t then Found.period k else Found.nothing)
    kept true = count-still_unreported q job k job k ∙ s.1
    kept false = tt

missed_of-Search :
    (q q0 : Queue) (job : String) (config : Config) (now : Datetime) (f : Found)
    → Search q0 job (q, f)
    → Search q0 job (missed_of q job config now f)
unfolding reached_cap
missed_of-Search q q0 job config now Found.nothing s = s
missed_of-Search q q0 job config now Found.failed s = s
missed_of-Search q q0 job config now (Found.period k) s = (
  count-marks q job k ∙ s.0,
  kept (
      not (leb config.max_executions_per_period (get_execution_count q job k).1)
      && not (is_past_recovery_until config now)),
)
  where
    kept :
        (t : Bool)
        → Fresh (get_execution_count q job k).0 job (if t then Found.nothing else Found.period k)
    kept true = tt
    kept false = count-still_unreported q job k job k ∙ s.1

capped_period-Search :
    (io : Io) (q : Queue) (job : String) (now : Datetime)
    → Search q job (capped_period io q job now)
unfolding capped_period
capped_period-Search io q job now = by_config (lookup job q.schedule_config)
  where
    by_config :
        (c : Option Config)
        → Search q job (elim c [
          | none ↦ (q, Found.nothing)
          | some config ↦
              let (q', found) =
                period_without_success io q job
                  (record config { recover_rest_of_week = true })
                  now in
              capped_of q' job config found
        ])
    by_config none = (refl, tt)
    by_config (some config) =
        capped_of-Search _ q job config _ (
          period_without_success-Search io q job (record config { recover_rest_of_week = true })
            now)

-- Of the ended weeks an unreported one is chosen.
first_ended-unreported :
    (q : Queue) (job : String) (config : Config) (today : Date) (oldest : ℕ) (weeks : List Datetime)
    (k : String)
    → first_ended q job config today oldest weeks ≡ some k
    → still_unreported q job k ≡ true
unfolding first_ended
first_ended-unreported q job config today oldest [] k e = cc
first_ended-unreported q job config today oldest (w ∷ ws) k e =
    let rest = first_ended-unreported q job config today oldest ws k in
    elim (Bool-cases
      (leb (to_ordinal (monday_of w.on_date)) oldest || not (week_recovery_ended config w today))) [
        | inl a ↦ rest (rw a at e)
        | inr a ↦ elim (Bool-cases (still_unreported q job (build_period_key config w))) [
          | inl b ↦ cc (rw (a, b) at e, b)
          | inr b ↦ rest (rw (a, b) at e)
        ]
      ]

ended_since-Search :
    (q : Queue) (job : String) (config : Config) (now : Datetime) (o : Oldest)
    → Search q job (ended_since q job config now o)
ended_since-Search q job config now Oldest.no_day = (refl, tt)
ended_since-Search q job config now Oldest.bad_stamp = (refl, tt)
ended_since-Search q job config now (Oldest.on_day o) =
    by_week (first_ended q job config now.on_date o (days_earlier 7 now ∷ now ∷ [])) refl
  where
    by_week :
        (r : Option String)
        → first_ended q job config now.on_date o (days_earlier 7 now ∷ now ∷ []) ≡ r
        → Search q job (ended_or_scanned q job now r)
    by_week none e = (refl, tt)
    by_week (some k) e = (refl, first_ended-unreported q job config now.on_date o _ k e)

ended_week_of-Search :
    (io : Io) (q : Queue) (job : String) (config : Config) (now : Datetime)
    → Search q job (ended_week_of io q job config now)
unfolding ended_week_of
ended_week_of-Search io q job config now =
    if-Search (mem_pair job (iso_text now.on_date) q.past_days_scanned) q job (q, Found.nothing) _
      (refl, tt)
      (if-Search (mem_text job q.in_progress) q job (q, Found.nothing) _ (refl, tt)
        (reloaded-Search io q job (λ q'. ended_since q' job config now (oldest_event_day q'.events))
          (λ q'. ended_since-Search q' job config now (oldest_event_day q'.events))))

ended_week-Search :
    (io : Io) (q : Queue) (job : String) (now : Datetime) → Search q job (ended_week io q job now)
unfolding ended_week
ended_week-Search io q job now = by_config (lookup job q.schedule_config)
  where
    by_config :
        (c : Option Config)
        → Search q job
            (elim c [ none ↦ (q, Found.nothing) | some config ↦ ended_week_of io q job config now ])
    by_config none = (refl, tt)
    by_config (some config) = ended_week_of-Search io q job config now

or_ended-Search :
    (io : Io) (q q0 : Queue) (job : String) (now : Datetime) (f : Found)
    → Search q0 job (q, f)
    → Search q0 job (or_ended io q job now f)
or_ended-Search io q q0 job now (Found.period k) s = s
or_ended-Search io q q0 job now Found.failed s = s
or_ended-Search io q q0 job now Found.nothing s =
    let t = ended_week-Search io q job now in (t.0 ∙ s.0, t.1)

pub week_to_notify-Search :
    (io : Io) (q : Queue) (job : String) (now : Datetime)
    → Search q job (week_to_notify io q job now)
unfolding week_to_notify
week_to_notify-Search io q job now =
    or_ended-Search io _ q job now _ (capped_period-Search io q job now)

pub missed_day-Search :
    (io : Io) (q : Queue) (job : String) (now : Datetime) → Search q job (missed_day io q job now)
unfolding missed_day
missed_day-Search io q job now = by_config (lookup job q.schedule_config)
  where
    by_config :
        (c : Option Config)
        → Search q job (elim c [
          | none ↦ (q, Found.nothing)
          | some config ↦
              if not (is_jp_business_day now.on_date)
              then (q, Found.nothing)
              else let (q', found) = period_without_success io q job config now in
                missed_of q' job config now found
        ])
    by_config none = (refl, tt)
    by_config (some config) =
        if-Search _ q job _ _ (refl, tt)
          (missed_of-Search _ q job config now _
            (period_without_success-Search io q job config now))

-- The same for the past days.
abbrev pub FreshDays : Queue → String → Days → Type 0
FreshDays q job (Days.found ds) = All (λ d. still_unreported q job d ≡ true) ds
FreshDays q job Days.failed = Unit

abbrev pub DaySearch : Queue → String → Queue × Days → Type 0
DaySearch q job r = (r.0.cap_notices_sent ≡ q.cap_notices_sent) × FreshDays r.0 job r.1

keep-All : (p : String → Bool) (ds : List String) → All (λ d. p d ≡ true) (keep p ds)
unfolding keep
keep-All p [] = tt
keep-All p (d ∷ ds) = elim (Bool-cases (p d)) [
  | inl e ↦ rw e (e, keep-All p ds)
  | inr e ↦ rw e (keep-All p ds)
]

days_or_scanned-DaySearch :
    (q : Queue) (job : String) (now : Datetime) (ds : List String)
    → All (λ d. still_unreported q job d ≡ true) ds
    → DaySearch q job (days_or_scanned q job now ds)
days_or_scanned-DaySearch q job now [] a = (refl, tt)
days_or_scanned-DaySearch q job now (d ∷ ds) a = (refl, a)

days_since-DaySearch :
    (q : Queue) (job : String) (now : Datetime) (o : ℕ) (r : Option (List Date))
    → DaySearch q job (days_since q job now o r)
days_since-DaySearch q job now o none = (refl, tt)
days_since-DaySearch q job now o (some days) =
    days_or_scanned-DaySearch q job now (missed_since q job now o days) (keep-All _ _)

days_after-DaySearch :
    (q : Queue) (job : String) (now : Datetime) (o : Oldest)
    → DaySearch q job (days_after q job now o)
days_after-DaySearch q job now Oldest.no_day = (refl, tt)
days_after-DaySearch q job now Oldest.bad_stamp = (refl, tt)
days_after-DaySearch q job now (Oldest.on_day o) =
    days_since-DaySearch q job now o (business_days_before now.on_date)

if-DaySearch :
    (t : Bool) (q : Queue) (job : String) (a b : Queue × Days)
    → DaySearch q job a
    → DaySearch q job b
    → DaySearch q job (if t then a else b)
if-DaySearch true q job a b x y = x
if-DaySearch false q job a b x y = y

pub past_days_without_success-DaySearch :
    (io : Io) (q : Queue) (job : String) (now : Datetime)
    → DaySearch q job (past_days_without_success io q job now)
unfolding past_days_without_success
past_days_without_success-DaySearch io q job now =
    let q' = (reload_state_for_recovery io q).0 in
    let m = recovery-marks io q in
    let s = days_after-DaySearch q' job now (oldest_event_day q'.events) in
    if-DaySearch (mem_pair job (iso_text now.on_date) q.past_days_scanned) q job (q, Days.found [])
      _ (refl, tt)
      (if-DaySearch (mem_text job q.in_progress) q job (q, Days.found []) _ (refl, tt)
        (if-DaySearch _ q job _ _ (s.0 ∙ m, s.1) (m, tt)))
