-- ===== src/Calendar/Date/Ordinal.antt =====
-- A step of one day is a step of one ordinal, so weekdays go round.
use stock_fixer.Prelude.{
  ℕ, zero, suc, ◌+◌, ◌-◌, ◌%◌, ◌≤◌, ◌<◌, ◌≡◌, refl, sym, ◌∙◌, inl, inr, arith, Bool-cases, ltb,
  ◌==◌,
}
use stock_fixer.Calendar.Date.{
  Date, date, IsDate, days_in_month, days_before_month, days_before_year, to_ordinal, weekday,
  next_day, prev_day, plus_days, minus_days,
}

pub days_in_month_bounds : (y m : ℕ) → (28 ≤ days_in_month y m) × (days_in_month y m ≤ 31)
unfolding days_in_month
days_in_month_bounds y m = ground arith

days_before_month-suc :
    (y m : ℕ) → 1 ≤ m → days_before_month y (m + 1) ≡ days_before_month y m + days_in_month y m
unfolding days_before_month
days_before_month-suc y zero h = absurd (omega arith)
days_before_month-suc y (suc k) h = ground arith

-- The year has 365 days, or 366.
days_in_year : (y : ℕ) → days_before_month y 12 + 31 ≡ 365 + (days_in_month y 2 - 28)
unfolding days_before_month
days_in_year y = ground arith

pub days_before_year-suc :
    (y : ℕ)
    → 1 ≤ y
    → days_before_year (y + 1) ≡ days_before_year y + (365 + (days_in_month y 2 - 28))
unfolding days_before_year days_in_month
days_before_year-suc y h = ground arith

pub next_day-IsDate : (d : Date) → IsDate d → IsDate (next_day d)
unfolding next_day days_in_month
next_day-IsDate d v = ground arith

pub prev_day-IsDate : (d : Date) → IsDate d → 2 ≤ d.year → IsDate (prev_day d)
unfolding prev_day
prev_day-IsDate d v h = ground (arith, days_in_month_bounds d.year (d.month - 1), dec31)
  where
    dec31 : days_in_month (d.year - 1) 12 ≡ 31
    dec31 = unfold days_in_month in refl

-- The step across the end of a year.
new_year : (y : ℕ) → 1 ≤ y → to_ordinal (date (y + 1) 1 1) ≡ to_ordinal (date y 12 31) + 1
unfolding to_ordinal
new_year y h = omega (arith, days_before_year-suc y h, days_in_year y, january)
  where
    january : days_before_month (y + 1) 1 ≡ 0
    january = unfold days_before_month in refl

new_month :
    (y m : ℕ)
    → 1 ≤ m
    → to_ordinal (date y (m + 1) 1) ≡ to_ordinal (date y m (days_in_month y m)) + 1
unfolding to_ordinal
new_month y m h = omega (arith, days_before_month-suc y m h)

-- `date.toordinal` counts one up for a day added.
pub to_ordinal-next_day : (d : Date) → IsDate d → to_ordinal (next_day d) ≡ to_ordinal d + 1
unfolding next_day to_ordinal
to_ordinal-next_day d v =
    ground (arith, december, new_year d.year v.year_pos, new_month d.year d.month v.month_pos)
  where
    december : days_in_month d.year 12 ≡ 31
    december = unfold days_in_month in refl

prev_january :
    (d : Date)
    → 2 ≤ d.year
    → d.month ≡ 1
    → d.day ≡ 1
    → to_ordinal (date (d.year - 1) 12 31) + 1 ≡ to_ordinal d
prev_january d h m e =
    let y : d.year - 1 + 1 ≡ d.year = omega arith in
    sym (new_year (d.year - 1) (omega arith)) ∙ cc (y, m, e)

prev_month :
    (d : Date)
    → 2 ≤ d.month
    → d.day ≡ 1
    → to_ordinal (date d.year (d.month - 1) (days_in_month d.year (d.month - 1))) + 1 ≡ to_ordinal d
prev_month d h e =
    let m : d.month - 1 + 1 ≡ d.month = omega arith in
    sym (new_month d.year (d.month - 1) (omega arith)) ∙ cc (m, e)

prev_same_month :
    (d : Date) → 2 ≤ d.day → to_ordinal (date d.year d.month (d.day - 1)) + 1 ≡ to_ordinal d
unfolding to_ordinal
prev_same_month d h = omega arith

-- And one down for a day taken off, from year 2 on.
pub to_ordinal-prev_day :
    (d : Date) → IsDate d → 2 ≤ d.year → to_ordinal (prev_day d) + 1 ≡ to_ordinal d
unfolding prev_day
to_ordinal-prev_day d v h = elim (Bool-cases (ltb 1 d.day)) [
  | inl e ↦ rw e (prev_same_month d (ground arith))
  | inr e ↦ elim (Bool-cases (d.month == 1)) [
    | inl j ↦ rw (e, j) (prev_january d h (ground arith) (ground arith))
    | inr j ↦ rw (e, j) (prev_month d (ground arith) (ground arith))
  ]
]

pub weekday_lem : (d : Date) → weekday d ≡ (to_ordinal d + 6) % 7
unfolding weekday
weekday_lem d = refl

pub weekday-next_day : (d : Date) → IsDate d → weekday (next_day d) ≡ (weekday d + 1) % 7
unfolding weekday
weekday-next_day d v = omega (arith, to_ordinal-next_day d v)

pub weekday-prev_day :
    (d : Date) → IsDate d → 2 ≤ d.year → weekday (prev_day d) ≡ (weekday d + 6) % 7
unfolding weekday
weekday-prev_day d v h = omega (arith, to_ordinal-prev_day d v h)

pub weekday-lt : (d : Date) → weekday d < 7
unfolding weekday
weekday-lt d = omega arith

pub plus_days-IsDate : (n : ℕ) (d : Date) → IsDate d → IsDate (plus_days n d)
unfolding plus_days
plus_days-IsDate zero d v = v
plus_days-IsDate (suc n) d v = plus_days-IsDate n (next_day d) (next_day-IsDate d v)

pub to_ordinal-plus_days :
    (n : ℕ) (d : Date) → IsDate d → to_ordinal (plus_days n d) ≡ to_ordinal d + n
unfolding plus_days
to_ordinal-plus_days zero d v = omega arith
to_ordinal-plus_days (suc n) d v =
    omega
      (arith, to_ordinal-plus_days n (next_day d) (next_day-IsDate d v), to_ordinal-next_day d v)

pub weekday-plus_days :
    (n : ℕ) (d : Date) → IsDate d → weekday (plus_days n d) ≡ (weekday d + n) % 7
unfolding weekday
weekday-plus_days n d v = omega (arith, to_ordinal-plus_days n d v)

-- Days taken off, while the dates stay in year 2 or later.
pub minus_days_lem :
    (n : ℕ) (d : Date)
    → IsDate d
    → n + 2 ≤ d.year
    → IsDate (minus_days n d) × (to_ordinal (minus_days n d) + n ≡ to_ordinal d)
unfolding minus_days
minus_days_lem zero d v h = (v, omega arith)
minus_days_lem (suc n) d v h =
    let v' = prev_day-IsDate d v (omega arith) in
    let rest = minus_days_lem n (prev_day d) v' (unfold prev_day in ground arith) in
    (rest.0, omega (arith, rest.1, to_ordinal-prev_day d v (omega arith)))

-- Days taken off within a month.
pub minus_days-same_month :
    (n : ℕ) (y m day : ℕ) → n < day → minus_days n (date y m day) ≡ date y m (day - n)
unfolding minus_days
minus_days-same_month zero y m day h = ground arith
minus_days-same_month (suc n) y m day h =
    let step : prev_day (date y m day) ≡ date y m (day - 1) = unfold prev_day in ground arith in
    let rest = minus_days-same_month n y m (day - 1) (omega arith) in
    rw step (rest ∙ (let e : day - 1 - n ≡ day - suc n = omega arith in rw e))
