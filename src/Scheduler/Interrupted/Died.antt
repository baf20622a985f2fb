-- ===== src/Scheduler/Interrupted/Died.antt =====
-- Which runs python/src/orchestration/scheduler_interrupted.py leaves out of its count: those that
-- died with an earlier process.
use stock_fixer.Prelude.{
  ℕ, ◌-◌, ◌<◌, ◌≡◌, ◌↔◌, refl, ap, sym, ◌∙◌, inl, inr, Bool, true, false, not, ◌&&◌, min, Option,
  none, some, List, [], ◌∷◌, String, arith, str_eq, eq_iff, mem_text, keep, length, Bool-cases,
  Option-cases, ltb, lookup,
}
use stock_fixer.Scheduler.Types.{Event, Stamp}
use stock_fixer.Scheduler.Interrupted.{
  empty_scan, has_key, truthy_id, scan, open_runs, from_earlier_boot, first_ids, count_executions,
}
use stock_fixer.Scheduler.Interrupted.Count.{runs_of, Distinct, Distinct-scan}
use stock_fixer.Scheduler.Interrupted.Runs.{first_start, has_end, lookup-foldl, mem-foldl}

-- The run died with an earlier process: it was started with the mark of another boot, before this
-- boot, and no entry of the history ends it.
pub record IsDied (events : List Event) (job key boot : String) (booted : ℕ) (k : String)
    : Type 0 where
  pub start : Event
  pub first : first_start job key k events ≡ some start
  pub unended : has_end job key k events ≡ false
  pub mark : String
  pub marked : start.boot_id ≡ some mark
  pub named : str_eq mark "" ≡ false
  pub other_boot : str_eq mark boot ≡ false
  pub time : ℕ
  pub started : start.started_at ≡ Stamp.at time
  pub before : time < booted

abbrev passes : (String × Event → Bool) → (String × Event → Bool) → String → Option Event → Bool
passes p q k none = false
passes p q k (some e) = p (k, e) && q (k, e)

abbrev ids_of :
    (String × Event → Bool) → (String × Event → Bool) → List (String × Event) → List String
ids_of p q m = first_ids (keep q (keep p m))

no_key-ids :
    (p q : String × Event → Bool) (k : String) (m : List (String × Event))
    → has_key k m ≡ false
    → mem_text k (ids_of p q m) ≡ false
unfolding first_ids keep
no_key-ids p q k [] h = refl
no_key-ids p q k ((j, e) ∷ m) h = ground (arith, no_key-ids p q k m)

mem-ids :
    (p q : String × Event → Bool) (k : String) (m : List (String × Event))
    → Distinct m
    → mem_text k (ids_of p q m) ≡ passes p q k (lookup k m)
unfolding first_ids keep
mem-ids p q k [] d = refl
mem-ids p q k ((j, e) ∷ m) d = elim (Bool-cases (str_eq j k)) [
  | inr n ↦ ground (arith, n, mem-ids p q k m d.1)
  | inl y ↦
      let same : j ≡ k = (eq_iff j k).0 y in
      let gone = no_key-ids p q j m d.0 in
      rw (y, ← same) (ground (arith, gone, (eq_iff j j).1 refl))
]

-- No id stands twice in the list.
abbrev pub NoRepeats : List String → Type 0
NoRepeats [] = Unit
NoRepeats (k ∷ ks) = (mem_text k ks ≡ false) × NoRepeats ks

ids-NoRepeats :
    (p q : String × Event → Bool) (m : List (String × Event))
    → Distinct m
    → NoRepeats (ids_of p q m)
unfolding first_ids keep
ids-NoRepeats p q [] d = tt
ids-NoRepeats p q ((j, e) ∷ m) d = ground (arith, ids-NoRepeats p q m d.1, no_key-ids p q j m d.0)

-- The parts of the test on the boot and the time of a start.
record Earlier (boot : String) (booted : ℕ) (b : Option String) (t : Stamp) : Type 0 where
  mark : String
  marked : b ≡ some mark
  named : str_eq mark "" ≡ false
  other_boot : str_eq mark boot ≡ false
  time : ℕ
  started : t ≡ Stamp.at time
  before : time < booted

abbrev earlier : String → ℕ → Option String → Stamp → Bool
earlier boot booted b t = elim (truthy_id b) [
  | none ↦ false
  | some m ↦ not (str_eq m boot) && elim t [ Stamp.at u ↦ ltb u booted | _ ↦ false ]
]

earlier-Earlier :
    (boot : String) (booted : ℕ) (b : Option String) (t : Stamp)
    → earlier boot booted b t ≡ true
    → Earlier boot booted b t
earlier-Earlier boot booted none t h = cc
earlier-Earlier boot booted (some m) Stamp.absent h = absurd (ground (arith, h))
earlier-Earlier boot booted (some m) Stamp.invalid h = absurd (ground (arith, h))
earlier-Earlier boot booted (some m) (Stamp.at u) h = record {
  mark = m;
  marked = refl;
  named = ground (arith, h);
  other_boot = ground (arith, h);
  time = u;
  started = refl;
  before = ground (arith, h);
}

Earlier-earlier :
    (boot : String) (booted : ℕ) (b : Option String) (t : Stamp)
    → Earlier boot booted b t
    → earlier boot booted b t ≡ true
Earlier-earlier boot booted b t e =
    rw (e.marked, e.started) (ground (arith, e.named, e.other_boot, e.before))

interrupted_ids :
    (events : List Event) (job key boot : String) (booted forgiven : ℕ) (k : String)
    → mem_text k (count_executions events job key boot booted true forgiven).interrupted_run_ids
      ≡ elim (first_start job key k events) [
        | none ↦ false
        | some e ↦ not (has_end job key k events) && earlier boot booted e.boot_id e.started_at
      ]
unfolding count_executions open_runs scan
interrupted_ids events job key boot booted forgiven k =
    let m = (scan job key events).started_events in
    let p : String × Event → Bool =
      λ entry. not (mem_text entry.0 (scan job key events).finished_run_ids) in
    let q = from_earlier_boot boot booted in
    mem-ids p q k m (Distinct-scan job key events)
    ∙ (ap (passes p q k) (lookup-foldl job key k events empty_scan)
        ∙ by_start (first_start job key k events))
  where
    by_start :
        (o : Option Event)
        → passes
            (λ entry. not (mem_text entry.0 (scan job key events).finished_run_ids))
            (from_earlier_boot boot booted)
            k
            o
          ≡ elim o [
            | none ↦ false
            | some e ↦ not (has_end job key k events) && earlier boot booted e.boot_id e.started_at
          ]
    by_start none = refl
    by_start (some e) =
        ap (λ b. not b && earlier boot booted e.boot_id e.started_at)
          (mem-foldl job key k events empty_scan)

IsDied-iff :
    (events : List Event) (job key boot : String) (booted forgiven : ℕ) (k : String)
    → (mem_text k (count_executions events job key boot booted true forgiven).interrupted_run_ids
        ≡ true)
      ↔ IsDied events job key boot booted k
IsDied-iff events job key boot booted forgiven k =
    let ids = interrupted_ids events job key boot booted forgiven k in
    (
      λ h. elim (Option-cases (first_start job key k events)) [
        | inl n ↦ absurd (cc (rw n at ids, h))
        | inr (e, first) ↦
            let both = sym h ∙ rw first at ids in
            let x = earlier-Earlier boot booted e.boot_id e.started_at (ground (arith, both)) in
            record {
              start = e;
              first = first;
              unended = ground (arith, both);
              mark = x.mark;
              marked = x.marked;
              named = x.named;
              other_boot = x.other_boot;
              time = x.time;
              started = x.started;
              before = x.before;
            }
      ],
      λ d.
          let x : Earlier boot booted d.start.boot_id d.start.started_at = record {
            mark = d.mark;
            marked = d.marked;
            named = d.named;
            other_boot = d.other_boot;
            time = d.time;
            started = d.started;
            before = d.before;
          } in
          (rw d.first at ids)
          ∙ ground
              (arith, d.unended, Earlier-earlier boot booted d.start.boot_id d.start.started_at x),
    )

-- The count of a period. Without `rerun_if_interrupted` it is the number of runs that the history
-- shows; with it, the runs that died with an earlier process are left out, but at most `forgiven` of
-- them. The ids of those runs are named once each, and a run is named exactly if its first start
-- carries the mark of another boot and a time before this boot, and no entry ends it.
pub count_executions-IsDied :
    (events : List Event) (job key boot : String) (booted forgiven : ℕ)
    → let counted = count_executions events job key boot booted true forgiven in
      ((count_executions events job key boot booted false forgiven).count ≡ runs_of job key events)
      × (counted.count ≡ runs_of job key events - min (length counted.interrupted_run_ids) forgiven)
      × NoRepeats counted.interrupted_run_ids
      × ((k : String)
          → (mem_text k counted.interrupted_run_ids ≡ true) ↔ IsDied events job key boot booted k)
unfolding count_executions runs_of open_runs
count_executions-IsDied events job key boot booted forgiven = (
  refl,
  refl,
  ids-NoRepeats _ _ (scan job key events).started_events (Distinct-scan job key events),
  IsDied-iff events job key boot booted forgiven,
)
