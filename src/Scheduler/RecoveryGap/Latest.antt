-- ===== src/Scheduler/RecoveryGap/Latest.antt =====
-- `_last_attempt_at` returns the latest of the times that count, and the gap is counted from it.
use stock_fixer.Prelude.{
  ℕ, ◌+◌, ◌*◌, ◌≤◌, ◌≡◌, ◌⊎◌, refl, inl, inr, Bool, false, not, Option, none, some, List, [], ◌∷◌,
  String, arith, ltb, All, Bool-cases,
}
use stock_fixer.Calendar.Date.{minute_us}
use stock_fixer.Scheduler.Types.{Event, Config}
use stock_fixer.Scheduler.RecoveryGap.{
  skipped_runs, attempt_time, later, latest_from, last_attempt_at, is_within_recovery_gap,
}

-- An optional time is at most another: nothing is below everything.
abbrev pub Below : Option ℕ → Option ℕ → Type 0
Below none r = Unit
Below (some t) none = ⊥
Below (some t) (some r) = t ≤ r

Below-trans : (a b c : Option ℕ) → Below a b → Below b c → Below a c
Below-trans none b c h k = tt
Below-trans (some x) none c h k = absurd h
Below-trans (some x) (some y) none h k = absurd k
Below-trans (some x) (some y) (some z) h k = omega arith

Below-refl : (a : Option ℕ) → Below a a
Below-refl none = tt
Below-refl (some x) = omega arith

later_left : (a b : Option ℕ) → Below a (later a b)
later_left none b = tt
later_left (some x) none = omega arith
later_left (some x) (some y) = ground arith

later_right : (a b : Option ℕ) → Below b (later a b)
later_right a none = tt
later_right none (some y) = omega arith
later_right (some x) (some y) = ground arith

module _ (skipped : List (Option String)) (job key : String) (include : Bool) where
  abbrev time_of : Event → Option ℕ
  time_of = attempt_time skipped job key include

  latest_from_start :
      (latest : Option ℕ) (events : List Event)
      → Below latest (latest_from skipped job key include latest events)
  unfolding latest_from
  latest_from_start latest [] = Below-refl latest
  latest_from_start latest (e ∷ events) =
      Below-trans latest (later latest (time_of e)) _ (later_left latest (time_of e))
        (latest_from_start (later latest (time_of e)) events)

  latest_from_upper :
      (latest : Option ℕ) (events : List Event)
      → All (λ e. Below (time_of e) (latest_from skipped job key include latest events)) events
  unfolding latest_from
  latest_from_upper latest [] = tt
  latest_from_upper latest (e ∷ events) = (
    Below-trans (time_of e) (later latest (time_of e)) _ (later_right latest (time_of e))
        (latest_from_start (later latest (time_of e)) events),
    latest_from_upper (later latest (time_of e)) events,
  )

  abbrev pub Attained : Option ℕ → List Event → Type 0
  Attained r [] = ⊥
  Attained r (e ∷ events) = (time_of e ≡ r) ⊎ Attained r events

  latest_from-Attained :
      (latest : Option ℕ) (events : List Event)
      → (latest_from skipped job key include latest events ≡ latest)
        ⊎ Attained (latest_from skipped job key include latest events) events
  unfolding latest_from
  latest_from-Attained latest [] = inl refl
  latest_from-Attained latest (e ∷ events) =
      elim (latest_from-Attained (later latest (time_of e)) events) [
        | inr a ↦ inr (inr a)
        | inl s ↦ choose (time_of e) latest refl s
      ]
    where
      choose :
          (x l : Option ℕ)
          → time_of e ≡ x
          → latest_from skipped job key include (later latest (time_of e)) events ≡ later l x
          → (latest_from skipped job key include (later latest (time_of e)) events ≡ l)
            ⊎ ((time_of e ≡ latest_from skipped job key include (later latest (time_of e)) events)
                ⊎ Attained
                    (latest_from skipped job key include (later latest (time_of e)) events)
                    events)
      choose none l e1 s = inl s
      choose (some t) none e1 s = inr (inl (cc))
      choose (some t) (some u) e1 s = elim (Bool-cases (ltb u t)) [
        | inl b ↦ let s' = rw b at s in inr (inl (cc))
        | inr b ↦ let s' = rw b at s in inl s'
      ]

-- The result is at least as late as every attempt of the period, and it is one of them if there
-- is any; so it is the latest attempt.
last_attempt_at_lem :
    (events : List Event) (job key : String) (include : Bool)
    → All
        (λ e.
          Below
            (attempt_time (skipped_runs events) job key include e)
            (last_attempt_at events job key include))
        events
      × ((last_attempt_at events job key include ≡ none)
          ⊎ Attained
              (skipped_runs events)
              job
              key
              include
              (last_attempt_at events job key include)
              events)
unfolding last_attempt_at
last_attempt_at_lem events job key include = (
  latest_from_upper (skipped_runs events) job key include none events,
  latest_from-Attained (skipped_runs events) job key include none events,
)

-- The pause after an attempt at the given time is over.
abbrev pub Over : ℕ → ℕ → Option ℕ → Type 0
Over gap now none = Unit
Over gap now (some t) = t + gap * minute_us ≤ now

Over-Below : (gap now : ℕ) (a b : Option ℕ) → Below a b → Over gap now b → Over gap now a
Over-Below gap now none b h o = tt
Over-Below gap now (some x) none h o = absurd h
Over-Below gap now (some x) (some y) h o = omega arith

All-map :
    {P Q : Event → Type 0} (events : List Event)
    → ((e : Event) → P e → Q e)
    → All P events
    → All Q events
All-map [] f h = tt
All-map (e ∷ events) f h = (f e h.0, All-map events f h.1)

-- Outside of the gap every attempt of the period that counts lies at least the configured minutes
-- back. (`Below` and `last_attempt_at_lem` give the other half: inside, the latest does not.)
is_within_recovery_gap-false :
    (config : Config) (events : List Event) (job key : String) (now gap : ℕ)
    → config.recovery_min_gap_minutes ≡ some gap
    → is_within_recovery_gap config events job key now ≡ false
    → All
        (λ e.
          Over gap now
            (attempt_time (skipped_runs events) job key (not config.rerun_if_interrupted) e))
        events
unfolding is_within_recovery_gap
is_within_recovery_gap-false config events job key now gap g h =
    let last = last_attempt_at events job key (not config.rerun_if_interrupted) in
    All-map events (λ e below. Over-Below gap now _ last below (over last refl))
      (last_attempt_at_lem events job key (not config.rerun_if_interrupted)).0
  where
    over :
        (o : Option ℕ)
        → last_attempt_at events job key (not config.rerun_if_interrupted) ≡ o
        → Over gap now o
    over none e = tt
    over (some t) e = ground (arith, h, g, e)
