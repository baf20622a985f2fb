-- ===== src/Scheduler/CapNotice/Notify/Once.antt =====
-- A period is reported once: what `notify_recovery_cap` sends had no mark, and gets one.
use stock_fixer.Prelude.{
  ◌⊎◌, ◌≡◌, refl, sym, ◌∙◌, inl, inr, Bool, true, false, some, none, List, [], ◌∷◌, ◌++◌, String,
  arith, if◌then◌else◌, Bool-cases, All, map, mem_text, eq_iff, lookup, Option, ap,
}
use stock_fixer.Calendar.Date.{Datetime}
use stock_fixer.Scheduler.Types.{Event, Config}
use stock_fixer.Scheduler.Queue.{
  Queue, Io, append_event, append_event_locked, save_state, reload_state, get_execution_count,
  quarantine_state_file,
}
use stock_fixer.Scheduler.CapNotice.{Found, mem_pair, still_unreported, reached_cap}
use stock_fixer.Scheduler.CapNotice.Days.{Days}
use stock_fixer.Scheduler.CapNotice.Unreported.{
  reload-marks, Fresh, week_to_notify-Search, missed_day-Search, FreshDays,
  past_days_without_success-DaySearch,
}
use stock_fixer.Scheduler.CapNotice.Notify.{
  Notice, Line, Headline, Send, line_of, line_outcome, build_message, build_past_days_message,
  mark_sent, record_sent, send_period, notify_found, notify_period, record_days, mark_days,
  send_days, notify_past_days, notify_own_period, notify_recovery_cap, missed_day_jobs,
  cap_notice_jobs, past_day_jobs,
}

abbrev pub Pairs : Type 0
Pairs = List (String × String)

abbrev pub Grows : Pairs → Pairs → Type 0
Grows s s' = (j k : String) → mem_pair j k s ≡ true → mem_pair j k s' ≡ true

-- Every period that a notice names is, or is not, in the set.
abbrev pub Named : Bool → Pairs → Notice → Type 0
Named b s n = All (λ (l : Line). mem_pair n.to_job l.period_key s ≡ b) n.lines

-- What a step that starts with the marks `s` sends was unmarked, is marked then, and no mark is lost.
pub record Once (s : Pairs) (r : Queue × List Notice) : Type 0 where
  pub unmarked : All (Named false s) r.1
  pub marked : All (Named true r.0.cap_notices_sent) r.1
  pub grows : Grows s r.0.cap_notices_sent

nothing_sent : (s : Pairs) (q : Queue) → Grows s q.cap_notices_sent → Once s (q, [])
nothing_sent s q g = record { unmarked = tt; marked = tt; grows = g }

same_pair : (j k : String) (s : Pairs) → mem_pair j k ((j, k) ∷ s) ≡ true
same_pair j k s = let a = (eq_iff j j).1 refl in let b = (eq_iff k k).1 refl in rw (a, b) refl

one_more : (p : String × String) (s : Pairs) → Grows s (p ∷ s)
one_more (a, b) s j k h = ground (arith, h)

append_event-marks :
    (io : Io) (e : Event) (q : Queue)
    → (append_event io e q).0.cap_notices_sent ≡ q.cap_notices_sent
unfolding append_event append_event_locked save_state reload_state quarantine_state_file
append_event-marks io e q = elim (Bool-cases io.save_ok) [
  | inl h ↦ rw h (reload-marks io q)
  | inr h ↦ rw h (reload-marks io q)
]

record_sent-marks :
    (io : Io) (q : Queue) (job k : String) (now : Datetime)
    → (record_sent io q job k now).0.cap_notices_sent ≡ (job, k) ∷ q.cap_notices_sent
unfolding record_sent
record_sent-marks io q job k now = append_event-marks io _ (mark_sent job k q)

count-kept :
    (q : Queue) (job k : String)
    → (get_execution_count q job k).0.cap_notices_sent ≡ q.cap_notices_sent
unfolding get_execution_count
count-kept q job k = refl

-- A message names its own period, and leaves the marks alone.
build_message-names :
    (q : Queue) (job k : String)
    → ((build_message q job k).0.cap_notices_sent ≡ q.cap_notices_sent)
      × ((s : Pairs) (b : Bool) → mem_pair job k s ≡ b → Named b s (build_message q job k).1)
unfolding build_message reached_cap get_execution_count
build_message-names q job k = elim (Bool-cases (mem_text job missed_day_jobs)) [
  | inl e ↦ rw e (refl, λ s b h. (h, tt))
  | inr e ↦ rw e (by_config (lookup job q.schedule_config))
]
  where
    shown : (c : Option Config) → Queue × Notice
    shown c = elim c [
      | none ↦
          (q, record { to_job = job; headline = Headline.capped; lines = line_of q job k ∷ [] })
      | some config ↦
          let (q', is_capped) = reached_cap q job config k in
          (
            q',
            record {
              to_job = job;
              headline =
                  if is_capped
                  then Headline.capped
                  else Headline.week_ended (line_outcome (line_of q job k));
              lines = line_of q job k ∷ [];
            },
          )
    ]

    by_config :
        (c : Option Config)
        → ((shown c).0.cap_notices_sent ≡ q.cap_notices_sent)
          × ((s : Pairs) (b : Bool) → mem_pair job k s ≡ b → Named b s (shown c).1)
    by_config none = (refl, λ s b h. (h, tt))
    by_config (some config) = (count-kept q job k, λ s b h. (h, tt))

-- What is still unreported has no mark.
unreported-unmarked :
    (q : Queue) (job k : String)
    → still_unreported q job k ≡ true
    → mem_pair job k q.cap_notices_sent ≡ false
unfolding still_unreported
unreported-unmarked q job k h = ground (arith, h)

send_period-Once :
    (io : Io) (send : Send) (s : Pairs) (q : Queue) (job : String) (now : Datetime) (n : Notice)
    (k : String)
    → q.cap_notices_sent ≡ s
    → Named false s n
    → Named true ((job, k) ∷ s) n
    → Once s (send_period io send q job now n k)
send_period-Once io send s q job now n k e f t = elim (Bool-cases (send n)) [
  | inl y ↦ rw y (
      let m = record_sent-marks io q job k now in
      record {
        unmarked = (f, tt);
        marked = (rw (m, e) t, tt);
        grows = rw (m, e) (one_more (job, k) s);
      })
  | inr y ↦ rw y (nothing_sent s q (λ j c h. rw e h))
]

notify_found-Once :
    (io : Io) (send : Send) (s : Pairs) (q : Queue) (job : String) (now : Datetime) (f : Found)
    → q.cap_notices_sent ≡ s
    → Fresh q job f
    → Once s (notify_found io send q job now f)
notify_found-Once io send s q job now Found.nothing e f = nothing_sent s q (λ j c h. rw e h)
notify_found-Once io send s q job now Found.failed e f = nothing_sent s q (λ j c h. rw e h)
notify_found-Once io send s q job now (Found.period k) e f =
    let b = build_message-names q job k in
    send_period-Once io send s (build_message q job k).0 job now (build_message q job k).1 k
      (b.0 ∙ e) (b.1 s false (sym (ap (mem_pair job k) e) ∙ unreported-unmarked q job k f))
      (b.1 ((job, k) ∷ s) true (same_pair job k s))

notify_own_period-Once :
    (io : Io) (send : Send) (q : Queue) (job : String) (now : Datetime)
    → Once q.cap_notices_sent (notify_own_period io send q job now)
unfolding notify_own_period notify_period
notify_own_period-Once io send q job now = elim (Bool-cases (mem_text job cap_notice_jobs)) [
  | inl y ↦
      let w = week_to_notify-Search io q job now in
      rw y (notify_found-Once io send q.cap_notices_sent _ job now _ w.0 w.1)
  | inr n ↦ elim (Bool-cases (mem_text job missed_day_jobs)) [
    | inl y ↦
        let w = missed_day-Search io q job now in
        rw (n, y) (notify_found-Once io send q.cap_notices_sent _ job now _ w.0 w.1)
    | inr m ↦ rw (n, m) (nothing_sent q.cap_notices_sent q (λ j k h. h))
  ]
]

record_days-Grows :
    (io : Io) (q : Queue) (job : String) (now : Datetime) (ds : List String)
    → Grows q.cap_notices_sent (record_days io q job now ds).cap_notices_sent
unfolding record_days
record_days-Grows io q job now [] j k h = h
record_days-Grows io q job now (d ∷ ds) j k h =
    let g : mem_pair j k (record_sent io q job d now).0.cap_notices_sent ≡ true =
      rw (record_sent-marks io q job d now) (one_more (job, d) q.cap_notices_sent j k h) in
    elim (Bool-cases (record_sent io q job d now).1) [
      | inl y ↦ rw y (record_days-Grows io (record_sent io q job d now).0 job now ds j k g)
      | inr y ↦ rw y g
    ]

added-Grows : (job : String) (ds : List String) (s : Pairs) → Grows s (map (λ d. (job, d)) ds ++ s)
added-Grows job [] s j k h = h
added-Grows job (d ∷ ds) s j k h =
    one_more (job, d) (map (λ c. (job, c)) ds ++ s) j k (added-Grows job ds s j k h)

-- The lines of a message on past days.
lines-Named :
    (q : Queue) (job : String) (s : Pairs) (b : Bool) (ds : List String)
    → All (λ d. mem_pair job d s ≡ b) ds
    → All (λ (l : Line). mem_pair job l.period_key s ≡ b) (map (line_of q job) ds)
lines-Named q job s b [] a = tt
lines-Named q job s b (d ∷ ds) (h, a) = (h, lines-Named q job s b ds a)

map-All :
    {P R : String → Type 0} (ds : List String) → ((d : String) → P d → R d) → All P ds → All R ds
map-All [] f a = tt
map-All (d ∷ ds) f (h, a) = (f d h, map-All ds f a)

added-All :
    (job : String) (ds : List String) (s : Pairs)
    → All (λ d. mem_pair job d (map (λ c. (job, c)) ds ++ s) ≡ true) ds
added-All job [] s = tt
added-All job (d ∷ ds) s =
    let t = map (λ c. (job, c)) ds ++ s in
    (same_pair job d t, map-All ds (λ c h. one_more (job, d) t job c h) (added-All job ds s))

send_days-Once :
    (io : Io) (send : Send) (s : Pairs) (q : Queue) (job : String) (now : Datetime) (d : Days)
    → q.cap_notices_sent ≡ s
    → FreshDays q job d
    → Once s (send_days io send q job now d)
send_days-Once io send s q job now Days.failed e f = nothing_sent s q (λ j c h. rw e h)
send_days-Once io send s q job now (Days.found []) e f = nothing_sent s q (λ j c h. rw e h)
send_days-Once io send s q job now (Days.found (d ∷ ds)) e f =
    elim (Bool-cases (send (build_past_days_message q job (d ∷ ds)))) [
      | inl y ↦ rw y (record { unmarked = (unmarked, tt); marked = (marked, tt); grows = grows })
      | inr y ↦ rw y (nothing_sent s q (λ j c h. rw e h))
    ]
  where
    days : List String
    days = d ∷ ds

    grows : Grows s (record_days io (mark_days job (d ∷ ds) q) job now (d ∷ ds)).cap_notices_sent
    grows j k h =
        record_days-Grows io (mark_days job (d ∷ ds) q) job now (d ∷ ds) j k
          (added-Grows job (d ∷ ds) q.cap_notices_sent j k (rw e h))

    unmarked : Named false s (build_past_days_message q job (d ∷ ds))
    unmarked =
        lines-Named q job s false (d ∷ ds)
          (map-All (d ∷ ds) (λ c h. sym (ap (mem_pair job c) e) ∙ unreported-unmarked q job c h) f)

    marked :
        Named true
          (record_days io (mark_days job (d ∷ ds) q) job now (d ∷ ds)).cap_notices_sent
          (build_past_days_message q job (d ∷ ds))
    marked = lines-Named q job _ true (d ∷ ds) (
        map-All (d ∷ ds)
          (λ c h. record_days-Grows io (mark_days job (d ∷ ds) q) job now (d ∷ ds) job c h)
          (added-All job (d ∷ ds) q.cap_notices_sent))

notify_past_days-Once :
    (io : Io) (send : Send) (q : Queue) (job : String) (now : Datetime)
    → Once q.cap_notices_sent (notify_past_days io send q job now)
unfolding notify_past_days
notify_past_days-Once io send q job now =
    let w = past_days_without_success-DaySearch io q job now in
    send_days-Once io send q.cap_notices_sent _ job now _ w.0 w.1

both :
    (b : Bool) (s : Pairs) (xs ys : List Notice)
    → All (Named b s) xs
    → All (Named b s) ys
    → All (Named b s) (xs ++ ys)
both b s [] ys a c = c
both b s (x ∷ xs) ys (h, a) c = (h, both b s xs ys a c)

line-Grows :
    (job : String) (s s' : Pairs) (ls : List Line)
    → Grows s s'
    → All (λ (l : Line). mem_pair job l.period_key s ≡ true) ls
    → All (λ (l : Line). mem_pair job l.period_key s' ≡ true) ls
line-Grows job s s' [] g a = tt
line-Grows job s s' (l ∷ ls) g (h, a) = (g job l.period_key h, line-Grows job s s' ls g a)

Named-Grows :
    (s s' : Pairs) (ns : List Notice) → Grows s s' → All (Named true s) ns → All (Named true s') ns
Named-Grows s s' [] g a = tt
Named-Grows s s' (n ∷ ns) g (h, a) = (line-Grows n.to_job s s' n.lines g h, Named-Grows s s' ns g a)

line_shrinks :
    (job : String) (s s' : Pairs) (ls : List Line)
    → Grows s s'
    → All (λ (l : Line). mem_pair job l.period_key s' ≡ false) ls
    → All (λ (l : Line). mem_pair job l.period_key s ≡ false) ls
line_shrinks job s s' [] g a = tt
line_shrinks job s s' (l ∷ ls) g (h, a) =
    (earlier (Bool-cases (mem_pair job l.period_key s)), line_shrinks job s s' ls g a)
  where
    earlier :
        (mem_pair job l.period_key s ≡ true) ⊎ (mem_pair job l.period_key s ≡ false)
        → mem_pair job l.period_key s ≡ false
    earlier (inl y) = cc (g job l.period_key y, h)
    earlier (inr n) = n

Named-shrinks :
    (s s' : Pairs) (ns : List Notice)
    → Grows s s'
    → All (Named false s') ns
    → All (Named false s) ns
Named-shrinks s s' [] g a = tt
Named-shrinks s s' (n ∷ ns) g (h, a) =
    (line_shrinks n.to_job s s' n.lines g h, Named-shrinks s s' ns g a)

-- One poll of the notices: every period that it sends a notice for was not marked as reported
-- before, is marked as reported after it, whether the state file can be written or not, and no
-- mark is taken off.
pub notify_recovery_cap-Once :
    (io : Io) (send : Send) (q : Queue) (job : String) (now : Datetime)
    → Once q.cap_notices_sent (notify_recovery_cap io send q job now)
unfolding notify_recovery_cap
notify_recovery_cap-Once io send q job now =
    let a = notify_own_period-Once io send q job now in
    let q' = (notify_own_period io send q job now).0 in
    let b = notify_past_days-Once io send q' job now in
    elim (Bool-cases (mem_text job past_day_jobs)) [
      | inl y ↦ rw y (record {
        unmarked =
            both false q.cap_notices_sent _ _ a.unmarked
              (Named-shrinks q.cap_notices_sent q'.cap_notices_sent _ a.grows b.unmarked);
        marked = both true _ _ _ (Named-Grows q'.cap_notices_sent _ _ b.grows a.marked) b.marked;
        grows = λ j k h. b.grows j k (a.grows j k h);
      })
      | inr n ↦ rw n a
    ]

-- Polls of one start of the scheduler, in which anything else that keeps the marks may happen
-- between two polls.
pub data Polls : Queue → List Notice → Type 0 where
  stop : {q : Queue} → Polls q []
  between :
      {q q' : Queue} {ns : List Notice}
      → Grows q.cap_notices_sent q'.cap_notices_sent
      → Polls q' ns
      → Polls q ns
  poll :
      {q : Queue} {ns : List Notice} (io : Io) (send : Send) (job : String) (now : Datetime)
      → Polls (notify_recovery_cap io send q job now).0 ns
      → Polls q ((notify_recovery_cap io send q job now).1 ++ ns)

-- From a marked period on, no poll of the same start names it again: every period of every later
-- notice was unmarked at the beginning.
pub notices_once :
    (q : Queue) (ns : List Notice) → Polls q ns → All (Named false q.cap_notices_sent) ns
notices_once q ns stop = tt
notices_once q ns (between {q' = q'} g p) =
    Named-shrinks q.cap_notices_sent q'.cap_notices_sent ns g (notices_once q' ns p)
notices_once q _ (poll {ns = ns} io send job now p) =
    let o = notify_recovery_cap-Once io send q job now in
    let q' = (notify_recovery_cap io send q job now).0 in
    both false q.cap_notices_sent (notify_recovery_cap io send q job now).1 ns o.unmarked
      (Named-shrinks q.cap_notices_sent q'.cap_notices_sent ns o.grows (notices_once q' ns p))
