-- ===== src/Calendar/LossWindow/Search.antt =====
-- The search for the last business day ends: no run of closed days is longer than six.
use mathlib.Core.Path.{subst}
use stock_fixer.Prelude.{
  if◌then◌else◌, ℕ, zero, suc, ◌+◌, ◌-◌, ◌≤◌, ◌<◌, ◌≡◌, ◌≢◌, refl, sym, ap, ◌∙◌, ◌⊎◌, inl, inr,
  Bool, true, false, Option, some, none, arith, Bool-cases, ltb, ◌==◌, ==_iff, is_some,
}
use stock_fixer.Calendar.Date.{Date, Datetime, date, IsDate, weekday, prev_day}
use stock_fixer.Calendar.Date.Ordinal.{
  prev_day-IsDate, weekday-prev_day, weekday-lt, days_in_month_bounds,
}
use stock_fixer.Calendar.JpMarket.{is_jp_business_day, is_jp_market_holiday}
use stock_fixer.Calendar.LossWindow.{last_business_day, search_fuel, daily_loss_window_start}

-- A test that every number under a bound passes.
every_under : (ℕ → Bool) → ℕ → Bool
every_under test zero = true
every_under test (suc bound) = if test bound then every_under test bound else false

every_under-apply :
    (test : ℕ → Bool) (bound k : ℕ) → k < bound → every_under test bound ≡ true → test k ≡ true
unfolding every_under
every_under-apply test zero k below h = absurd (omega arith)
every_under-apply test (suc bound) k below h = ground (arith, every_under-apply test bound k)

-- From day `d + 1` of month `m + 1` of the year, six tries are enough.
abbrev ends : ℕ → ℕ → ℕ → Bool
ends y m d = is_some (last_business_day 6 (date y (m + 1) (d + 1)))

table_2026 : every_under (λ m. every_under (λ d. ends 2026 m d) 31) 12 ≡ true
unfolding every_under last_business_day is_jp_business_day is_jp_market_holiday weekday prev_day
table_2026 = refl

table_2027 : every_under (λ m. every_under (λ d. ends 2027 m d) 31) 12 ≡ true
unfolding every_under last_business_day is_jp_business_day is_jp_market_holiday weekday prev_day
table_2027 = refl

table_date :
    (d : Date) (y : ℕ) → IsDate d → d.year ≡ y → date y (d.month - 1 + 1) (d.day - 1 + 1) ≡ d
table_date d y v e =
    let m : d.month - 1 + 1 ≡ d.month = omega arith in
    let k : d.day - 1 + 1 ≡ d.day = omega arith in
    λ i. record { year = sym e i; month = m i; day = k i }

in_table :
    (y : ℕ)
    → every_under (λ m. every_under (λ d. ends y m d) 31) 12 ≡ true
    → (d : Date) → IsDate d
    → d.year ≡ y
    → is_some (last_business_day 6 d) ≡ true
in_table y table d v e = rw (table_date d y v e) at (
    every_under-apply (λ k. ends y (d.month - 1) k) 31 (d.day - 1)
      (omega (arith, days_in_month_bounds d.year d.month))
      (every_under-apply (λ m. every_under (λ k. ends y m k) 31) 12 (d.month - 1) (omega arith)
        table))

found_now : (f : ℕ) (d : Date) → is_jp_business_day d ≡ true → last_business_day (suc f) d ≡ some d
unfolding last_business_day
found_now f d e = rw (e, last_business_day)

pub step_back :
    (f : ℕ) (d : Date)
    → is_jp_business_day d ≡ false
    → last_business_day (suc f) d ≡ last_business_day f (prev_day d)
unfolding last_business_day
step_back f d e = rw (e, last_business_day)

pub no_fuel : (d : Date) → is_some (last_business_day zero d) ≡ true → false ≡ true
unfolding last_business_day
no_fuel d h = h

-- More fuel finds the same day.
last_business_day-suc :
    (f : ℕ) (d : Date)
    → is_some (last_business_day f d) ≡ true
    → is_some (last_business_day (suc f) d) ≡ true
last_business_day-suc zero d h = cc (no_fuel d h)
last_business_day-suc (suc f) d h = elim (Bool-cases (is_jp_business_day d)) [
  | inl e ↦ rw (found_now (suc f) d e)
  | inr e ↦
      rw (step_back (suc f) d e) (last_business_day-suc f (prev_day d) (rw (step_back f d e) at h))
]

-- Outside of the table only weekends are closed.
outside_table :
    (d : Date) → d.year ≢ 2026 → d.year ≢ 2027 → is_jp_business_day d ≡ ltb (weekday d) 5
unfolding is_jp_business_day is_jp_market_holiday
outside_table d h k = ground arith

data InTable (d : Date) : Type 0 where
  listed : is_some (last_business_day 6 d) ≡ true → InTable d
  free : is_jp_business_day d ≡ ltb (weekday d) 5 → InTable d

InTable-cases : (d : Date) → IsDate d → InTable d
InTable-cases d v = elim (Bool-cases (d.year == 2026)) [
  | inl e ↦ listed (in_table 2026 table_2026 d v ((==_iff d.year 2026).0 e))
  | inr e ↦ elim (Bool-cases (d.year == 2027)) [
    | inl k ↦ listed (in_table 2027 table_2027 d v ((==_iff d.year 2027).0 k))
    | inr k ↦ free (outside_table d (ground arith) (ground arith))
  ]
]

-- Two steps back from a weekend lie a Friday or the table.
from_weekend :
    (d : Date)
    → IsDate d
    → 3 ≤ d.year
    → is_jp_business_day d ≡ false
    → is_jp_business_day d ≡ ltb (weekday d) 5
    → is_some (last_business_day 8 (prev_day d)) ≡ true
from_weekend d v h closed e = elim (InTable-cases (prev_day d) v') [
  | listed t ↦ last_business_day-suc 7 _ (last_business_day-suc 6 _ t)
  | free k ↦ elim (Bool-cases (is_jp_business_day (prev_day d))) [
    | inl open_day ↦ rw (found_now 7 (prev_day d) open_day)
    | inr shut ↦
        rw (step_back 7 (prev_day d) shut)
          (friday (InTable-cases (prev_day (prev_day d)) v'') k shut)
  ]
]
  where
    v' : IsDate (prev_day d)
    v' = prev_day-IsDate d v (omega arith)

    late : 2 ≤ (prev_day d).year
    late = unfold prev_day in ground arith

    v'' : IsDate (prev_day (prev_day d))
    v'' = prev_day-IsDate (prev_day d) v' late

    sunday : weekday d ≡ 6 ⊎ (weekday d ≡ 5)
    sunday = ground (arith, weekday-lt d)

    friday :
        InTable (prev_day (prev_day d))
        → is_jp_business_day (prev_day d) ≡ ltb (weekday (prev_day d)) 5
        → is_jp_business_day (prev_day d) ≡ false
        → is_some (last_business_day 7 (prev_day (prev_day d))) ≡ true
    friday (listed t) k shut = last_business_day-suc 6 _ t
    friday (free t) k shut =
        let w = weekday-prev_day d v (omega arith) in
        let w' = weekday-prev_day (prev_day d) v' late in
        rw (found_now 6 (prev_day (prev_day d)) (t ∙ ground (arith, w, w', sunday)))

-- From every day of the calendar from year 3 on the loop of `daily_loss_window_start` ends within
-- nine days.
pub last_business_day_total :
    (d : Date) → IsDate d → 3 ≤ d.year → is_some (last_business_day search_fuel d) ≡ true
last_business_day_total d v h = elim (InTable-cases d v) [
  | listed t ↦ last_business_day-suc 8 d (last_business_day-suc 7 d (last_business_day-suc 6 d t))
  | free e ↦ elim (Bool-cases (is_jp_business_day d)) [
    | inl open_day ↦ rw (found_now 8 d open_day)
    | inr shut ↦ rw (step_back 8 d shut) (from_weekend d v h shut e)
  ]
]

-- What the loop finds is a business day, and every day that it passed over is closed.
pub data LastBefore : Date → Date → Type 0 where
  this_day : {d : Date} → is_jp_business_day d ≡ true → LastBefore d d
  earlier : {d b : Date} → is_jp_business_day d ≡ false → LastBefore (prev_day d) b → LastBefore d b

last_business_day-LastBefore :
    (f : ℕ) (d b : Date) → last_business_day f d ≡ some b → LastBefore d b
last_business_day-LastBefore zero d b h = cc (no_fuel d (ap is_some h))
last_business_day-LastBefore (suc f) d b h = elim (Bool-cases (is_jp_business_day d)) [
  | inl e ↦ let same : d ≡ b = cc (found_now f d e, h) in subst (LastBefore d) same (this_day e)
  | inr e ↦ earlier e (last_business_day-LastBefore f (prev_day d) b (sym (step_back f d e) ∙ h))
]

-- The window of the daily loss starts at the latest business day before the JST day of `now`:
-- the search always finds it, and all days between are weekends or days of the table.
pub daily_loss_window_start_lem :
    (now : Datetime)
    → IsDate now.on_date
    → 4 ≤ now.on_date.year
    → (b : Date) × (daily_loss_window_start now ≡ some b) × LastBefore (prev_day now.on_date) b
unfolding daily_loss_window_start
daily_loss_window_start_lem now v h =
    found (last_business_day search_fuel (prev_day now.on_date)) refl (
      last_business_day_total (prev_day now.on_date) (prev_day-IsDate now.on_date v (omega arith))
        (unfold prev_day in ground arith))
  where
    found :
        (r : Option Date)
        → last_business_day search_fuel (prev_day now.on_date) ≡ r
        → is_some r ≡ true
        → (b : Date) × (last_business_day search_fuel (prev_day now.on_date) ≡ some b)
          × LastBefore (prev_day now.on_date) b
    found none e t = cc
    found (some b) e t = (b, e, last_business_day-LastBefore search_fuel (prev_day now.on_date) b e)
