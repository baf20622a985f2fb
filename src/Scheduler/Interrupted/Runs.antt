-- ===== src/Scheduler/Interrupted/Runs.antt =====
-- How the scan of python/src/orchestration/scheduler_interrupted.py finds the first start of a run, and
-- whether the run ended.
use stock_fixer.Prelude.{
  ◌≡◌, refl, ap, sym, ◌∙◌, inl, inr, Bool, true, false, not, ◌&&◌, ◌||◌, Option, none, some, List,
  [], ◌∷◌, ◌++◌, foldl, String, arith, str_eq, eq_iff, mem_text, Bool-cases, if◌then◌else◌, any,
  lookup,
}
use stock_fixer.Scheduler.Types.{Event, Status, is_started, is_success, is_error}
use stock_fixer.Scheduler.Interrupted.{
  Scan, has_key, setdefault, truthy_id, about, scan_step, scan_finished, scan_started,
}

-- The entry belongs to this run of the job in the period. An empty id names no run.
abbrev pub of_run : String → String → String → Event → Bool
of_run job key k e =
    (str_eq e.job_id job && str_eq e.period_key key)
    && elim e.run_id [ none ↦ false | some j ↦ not (str_eq j "") && str_eq j k ]

abbrev starts : String → String → String → Event → Bool
starts job key k e = of_run job key k e && is_started e.status

abbrev ends : String → String → String → Event → Bool
ends job key k e = of_run job key k e && (is_success e.status || is_error e.status)

-- The first start of a run in the history.
pub first_start : String → String → String → List Event → Option Event
first_start job key k [] = none
first_start job key k (e ∷ events) =
    if starts job key k e then some e else first_start job key k events

pub has_end : String → String → String → List Event → Bool
has_end job key k events = any (ends job key k) events

abbrev or_else : Option Event → Option Event → Option Event
or_else none o = o
or_else (some e) o = some e

or_else_assoc : (a b c : Option Event) → or_else (or_else a b) c ≡ or_else a (or_else b c)
or_else_assoc none b c = refl
or_else_assoc (some e) b c = refl

lookup-append :
    (k j : String) (e : Event) (m : List (String × Event))
    → lookup k (m ++ (j, e) ∷ []) ≡ or_else (lookup k m) (if str_eq j k then some e else none)
lookup-append k j e [] = refl
lookup-append k j e ((i, f) ∷ m) = ground (arith, lookup-append k j e m)

or_else-none : (o : Option Event) → or_else o none ≡ o
or_else-none none = refl
or_else-none (some e) = refl

has_key-lookup :
    (k : String) (m : List (String × Event))
    → has_key k m ≡ true
    → (e : Event) × (lookup k m ≡ some e)
has_key-lookup k [] h = cc
has_key-lookup k ((i, f) ∷ m) h = elim (Bool-cases (str_eq i k)) [
  | inl y ↦ (f, rw y refl)
  | inr n ↦ let r = has_key-lookup k m (rw n at h) in (r.0, rw n r.1)
]

lookup-setdefault :
    (k j : String) (e : Event) (m : List (String × Event))
    → lookup k (setdefault j e m) ≡ or_else (lookup k m) (if str_eq j k then some e else none)
lookup-setdefault k j e m = elim (Bool-cases (has_key j m)) [
  | inr n ↦ rw n (lookup-append k j e m)
  | inl y ↦ rw y (elim (Bool-cases (str_eq j k)) [
    | inr n ↦ rw n (sym (or_else-none (lookup k m)))
    | inl same ↦ let r = has_key-lookup k m (rw ((eq_iff j k).0 same) at y) in rw (same, r.1) refl
  ])
]

lookup-scan_step :
    (job key k : String) (s : Scan) (e : Event)
    → lookup k (scan_step job key s e).started_events
      ≡ or_else (lookup k s.started_events) (if starts job key k e then some e else none)
unfolding scan_step scan_finished scan_started
lookup-scan_step job key k s e = elim (Bool-cases (about job key e)) [
  | inr n ↦ rw n (sym (or_else-none (lookup k s.started_events)))
  | inl y ↦ rw y (branch e.status e.run_id)
]
  where
    branch :
        (st : Status) (o : Option String)
        → lookup k
            (if is_success st
              then scan_finished s (truthy_id o)
              else if is_error st
              then scan_finished s (truthy_id o)
              else if is_started st
              then scan_started s e (truthy_id o)
              else s).started_events
          ≡ or_else (lookup k s.started_events) (
              if elim o [ none ↦ false | some j ↦ not (str_eq j "") && str_eq j k ] && is_started st
              then some e
              else none)
    branch Status.started none = sym (or_else-none (lookup k s.started_events))
    branch Status.started (some j) =
        ground (
          arith,
          lookup-setdefault k j e s.started_events,
          or_else-none (lookup k s.started_events),
        )
    branch Status.success none = sym (or_else-none (lookup k s.started_events))
    branch Status.success (some j) = ground (arith, or_else-none (lookup k s.started_events))
    branch Status.error none = sym (or_else-none (lookup k s.started_events))
    branch Status.error (some j) = ground (arith, or_else-none (lookup k s.started_events))
    branch Status.retry o = ground (arith, or_else-none (lookup k s.started_events))
    branch Status.skipped_limit o = ground (arith, or_else-none (lookup k s.started_events))
    branch Status.cap_notice_sent o = ground (arith, or_else-none (lookup k s.started_events))

mem-scan_step :
    (job key k : String) (s : Scan) (e : Event)
    → mem_text k (scan_step job key s e).finished_run_ids
      ≡ (mem_text k s.finished_run_ids || ends job key k e)
unfolding scan_step scan_finished scan_started
mem-scan_step job key k s e = elim (Bool-cases (about job key e)) [
  | inr n ↦ rw n (ground arith)
  | inl y ↦ rw y (branch e.status e.run_id)
]
  where
    branch :
        (st : Status) (o : Option String)
        → mem_text k
            (if is_success st
              then scan_finished s (truthy_id o)
              else if is_error st
              then scan_finished s (truthy_id o)
              else if is_started st
              then scan_started s e (truthy_id o)
              else s).finished_run_ids
          ≡ (mem_text k s.finished_run_ids
              || (elim o [ none ↦ false | some j ↦ not (str_eq j "") && str_eq j k ]
                  && (is_success st || is_error st)))
    branch Status.started none = ground arith
    branch Status.started (some j) = ground arith
    branch Status.success none = ground arith
    branch Status.success (some j) = ground arith
    branch Status.error none = ground arith
    branch Status.error (some j) = ground arith
    branch Status.retry o = ground arith
    branch Status.skipped_limit o = ground arith
    branch Status.cap_notice_sent o = ground arith

pub lookup-foldl :
    (job key k : String) (events : List Event) (s : Scan)
    → lookup k (foldl (scan_step job key) s events).started_events
      ≡ or_else (lookup k s.started_events) (first_start job key k events)
unfolding first_start
lookup-foldl job key k [] s = sym (or_else-none (lookup k s.started_events))
lookup-foldl job key k (e ∷ events) s =
    let here = if starts job key k e then some e else none in
    lookup-foldl job key k events (scan_step job key s e)
    ∙ (ap (λ o. or_else o (first_start job key k events)) (lookup-scan_step job key k s e)
        ∙ (or_else_assoc (lookup k s.started_events) here (first_start job key k events)
            ∙ ap (or_else (lookup k s.started_events)) (ground arith)))

pub mem-foldl :
    (job key k : String) (events : List Event) (s : Scan)
    → mem_text k (foldl (scan_step job key) s events).finished_run_ids
      ≡ (mem_text k s.finished_run_ids || has_end job key k events)
unfolding has_end any
mem-foldl job key k [] s = ground arith
mem-foldl job key k (e ∷ events) s =
    ground (arith, mem-foldl job key k events (scan_step job key s e), mem-scan_step job key k s e)
