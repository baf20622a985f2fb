-- ===== src/Scheduler/Cutoff/RegularStart.antt =====
-- The regular start that a recovery refers to, and the cutoff of the day.
use stock_fixer.Prelude.{
  ℕ, min, All, refl, [], ◌+◌, ◌-◌, ◌≤◌, ◌<◌, ◌≡◌, inl, inr, ◌⊎◌, true, none, some, List, ◌∷◌, arith,
  ltb, mem_nat, Bool-cases,
}
use stock_fixer.Calendar.Date.{
  Date, Datetime, IsDate, weekday, to_ordinal, instant, days_earlier, minus_days,
}
use stock_fixer.Calendar.Date.Ordinal.{minus_days_lem, weekday_lem, weekday-lt}
use stock_fixer.Scheduler.Types.{Config, Period}
use stock_fixer.Scheduler.Cutoff.{
  is_past_recovery_until, is_empty, min_from, min_weekday, scheduled_day, monthly_day, start,
  scheduled_datetime_for_recovery,
}

-- Once past the cutoff a job stays past it until the end of the day.
pub is_past_recovery_until_mono :
    (config : Config) (day : Date) (t u : ℕ)
    → t ≤ u
    → is_past_recovery_until config (record { on_date = day; tod = t }) ≡ true
    → is_past_recovery_until config (record { on_date = day; tod = u }) ≡ true
unfolding is_past_recovery_until instant
is_past_recovery_until_mono config day t u le h = ground arith

-- The earliest of the weekdays.
abbrev pub IsFirst : ℕ → List ℕ → Type 0
IsFirst m xs = (mem_nat m xs ≡ true) × All (λ x. m ≤ x) xs

min_from_le : (m : ℕ) (xs : List ℕ) → (min_from m xs ≤ m) × All (λ x. min_from m xs ≤ x) xs
min_from_le m [] = (omega arith, tt)
min_from_le m (x ∷ xs) =
    let rest = min_from_le (min m x) xs in (omega (arith, rest.0), (omega (arith, rest.0), rest.1))

min_from-mem : (m : ℕ) (xs : List ℕ) → (min_from m xs ≡ m) ⊎ (mem_nat (min_from m xs) xs ≡ true)
min_from-mem m [] = inl refl
min_from-mem m (x ∷ xs) = elim (min_from-mem (min m x) xs) [
  | inl e ↦ ground (arith, e)
  | inr r ↦ inr (ground (arith, r))
]

min_from-IsFirst : (w : ℕ) (ws : List ℕ) → IsFirst (min_from w ws) (w ∷ ws)
min_from-IsFirst w ws =
    let le = min_from_le w ws in
    (
      elim (min_from-mem w ws) [ inl e ↦ ground (arith, e) | inr r ↦ ground (arith, r) ],
      (le.0, le.1),
    )

-- From year 8 on, a weekly job with `recover_rest_of_week` refers exactly to its first weekday in the
-- week of `now`, from Monday to Sunday, on that day and on the days after it; before that day of the
-- week there is nothing to recover.
pub scheduled_day-weekly :
    (config : Config) (now : Datetime) (w : ℕ) (ws : List ℕ)
    → config.period ≡ Period.weekly
    → config.recover_rest_of_week ≡ true
    → IsDate now.on_date
    → 8 ≤ now.on_date.year
    → IsFirst (min_weekday (w ∷ ws)) (w ∷ ws)
      × (((weekday now.on_date < min_weekday (w ∷ ws)) × (scheduled_day config now (w ∷ ws) ≡ none))
          ⊎ ((min_weekday (w ∷ ws) ≤ weekday now.on_date)
              × (t : Datetime) × (scheduled_day config now (w ∷ ws) ≡ some t)
              × (weekday t.on_date ≡ min_weekday (w ∷ ws))
              × (to_ordinal t.on_date + weekday now.on_date
                  ≡ to_ordinal now.on_date + min_weekday (w ∷ ws))))
unfolding scheduled_day
scheduled_day-weekly config now w ws p r v y = (
  min_from-IsFirst w ws,
  elim (Bool-cases (ltb (weekday now.on_date) (min_weekday (w ∷ ws)))) [
    | inl e ↦ inl (ground arith, rw (p, r, e))
    | inr e ↦
        let n : ℕ = weekday now.on_date - min_weekday (w ∷ ws) in
        let back = minus_days_lem n now.on_date v (omega (arith, weekday-lt now.on_date)) in
        let day = minus_days n now.on_date in
        let le : min_weekday (w ∷ ws) ≤ weekday now.on_date = ground arith in
        inr (
          le,
          days_earlier n now,
          rw (p, r, e),
          omega
              (arith, back.1, weekday_lem day, weekday_lem now.on_date, weekday-lt now.on_date, le),
          omega (arith, back.1, le),
        )
  ],
)

-- A daily job refers to its regular time on the day of `now`, and only on its weekdays.
pub scheduled_datetime_for_recovery-daily :
    (config : Config) (now t : Datetime) (weekdays : List ℕ)
    → config.period ≡ Period.daily
    → scheduled_datetime_for_recovery config now weekdays ≡ start t
    → (t.on_date ≡ now.on_date)
      × ((is_empty weekdays ≡ true) ⊎ (mem_nat (weekday now.on_date) weekdays ≡ true))
unfolding scheduled_datetime_for_recovery scheduled_day monthly_day
scheduled_datetime_for_recovery-daily config now t weekdays p h = ground arith
