-- ===== src/Calendar/UsMarket/Rules.antt =====
-- The rules give the days that they are named for: the nth weekday of a month, observed days and
-- Easter all fall on the weekdays that the exchange's calendar wants.
use stock_fixer.Prelude.{
  ℕ, ◌+◌, ◌-◌, ◌*◌, ◌/◌, ◌%◌, ◌≤◌, ◌<◌, ◌≡◌, refl, ◌∙◌, inl, inr, true, arith, Bool-cases, ltb,
  ◌==◌, All, List, [], ◌∷◌,
}
use stock_fixer.Calendar.Date.{
  Date, date, IsDate, days_in_month, days_before_month, days_before_year, to_ordinal, weekday,
  minus_days,
}
use stock_fixer.Calendar.Date.Ordinal.{
  days_in_month_bounds, to_ordinal-prev_day, to_ordinal-next_day, weekday-next_day,
  weekday-prev_day, weekday-lt, to_ordinal-plus_days, weekday-plus_days, minus_days-same_month,
  minus_days_lem, weekday_lem,
}
use stock_fixer.Calendar.UsMarket.{
  saturday, sunday, nth_weekday, last_monday_of_may, observed, easter_sunday, holidays,
}

-- A holiday on a Saturday or a Sunday is observed on the Friday before or the Monday after: the
-- observed day of a day from year 2 on is never a weekend day, and it is at most one day away.
observed-weekday :
    (d : Date)
    → IsDate d
    → 2 ≤ d.year
    → (weekday (observed d) < saturday)
      × (to_ordinal (observed d) ≤ to_ordinal d + 1)
      × (to_ordinal d ≤ to_ordinal (observed d) + 1)
unfolding observed
observed-weekday d v h = elim (Bool-cases (weekday d == saturday)) [
  | inl e ↦ rw e (
    omega (arith, weekday-prev_day d v h, sat e),
    omega (arith, to_ordinal-prev_day d v h),
    omega (arith, to_ordinal-prev_day d v h),
  )
  | inr e ↦ elim (Bool-cases (weekday d == sunday)) [
    | inl k ↦
        rw (e, k)
          (
            omega (arith, weekday-next_day d v, sun k),
            omega (arith, to_ordinal-next_day d v),
            omega (arith, to_ordinal-next_day d v),
          )
    | inr k ↦ rw (e, k) (ground (arith, weekday-lt d), omega arith, omega arith)
  ]
]
  where
    sat : (weekday d == saturday) ≡ true → weekday d ≡ 5
    sat e = ground arith

    sun : (weekday d == sunday) ≡ true → weekday d ≡ 6
    sun e = ground arith

first-IsDate : (y m : ℕ) → 1 ≤ y → 1 ≤ m → m ≤ 12 → IsDate (date y m 1)
first-IsDate y m hy hm hm' = record {
  year_pos = hy;
  month_pos = hm;
  month_le = hm';
  day_pos = omega arith;
  day_le = omega (arith, days_in_month_bounds y m);
}

-- `_nth_weekday` gives the asked weekday, in the nth block of seven days of the month.
pub nth_weekday_lem :
    (y m w n : ℕ)
    → 1 ≤ y
    → 1 ≤ m
    → m ≤ 12
    → w < 7
    → 1 ≤ n
    → (weekday (nth_weekday y m w n) ≡ w)
      × (to_ordinal (date y m 1) + 7 * (n - 1) ≤ to_ordinal (nth_weekday y m w n))
      × (to_ordinal (nth_weekday y m w n) < to_ordinal (date y m 1) + 7 * n)
unfolding nth_weekday
nth_weekday_lem y m w n hy hm hm' hw hn =
    let first = date y m 1 in
    let v = first-IsDate y m hy hm hm' in
    let k : ℕ = (w + 7 - weekday first) % 7 + 7 * (n - 1) in
    (
      omega (arith, weekday-plus_days k first v, weekday-lt first),
      omega (arith, to_ordinal-plus_days k first v),
      omega (arith, to_ordinal-plus_days k first v),
    )

may_31-IsDate : (y : ℕ) → 1 ≤ y → IsDate (date y 5 31)
unfolding days_in_month
may_31-IsDate y h = omega arith

back_to_monday : (y w : ℕ) → w < 7 → weekday (date y 5 31) ≡ w → weekday (date y 5 (31 - w)) ≡ 0
unfolding weekday to_ordinal
back_to_monday y w lt e = omega arith

-- Memorial Day is a Monday among the last seven days of May.
pub last_monday_of_may_lem :
    (y : ℕ)
    → 1 ≤ y
    → (weekday (last_monday_of_may y) ≡ 0)
      × ((last_monday_of_may y).month ≡ 5)
      × (24 < (last_monday_of_may y).day)
unfolding last_monday_of_may
last_monday_of_may_lem y h =
    let w = weekday (date y 5 31) in
    rw (minus_days-same_month w y 5 31 (omega (arith, weekday-lt (date y 5 31)))) (
      back_to_monday y w (weekday-lt (date y 5 31)) refl,
      refl,
      omega (arith, weekday-lt (date y 5 31)),
    )

-- The days up to the end of year `y`, by the rule of leap years.
leap_days :
    (y : ℕ)
    → 1 ≤ y
    → days_before_year y + (days_in_month y 2 - 28) + y / 100 ≡ 365 * (y - 1) + y / 4 + y / 400
unfolding days_before_year days_in_month
leap_days y h = ground arith

march :
    (y day : ℕ)
    → to_ordinal (date y 3 day) ≡ days_before_year y + (days_in_month y 2 - 28) + 59 + day
unfolding to_ordinal days_before_month days_in_month
march y day = ground arith

april :
    (y day : ℕ)
    → to_ordinal (date y 4 day) ≡ days_before_year y + (days_in_month y 2 - 28) + 90 + day
unfolding to_ordinal days_before_month days_in_month
april y day = ground arith

-- The day that the formula writes as `h + m - 7 * n + 114` in the months of 31 days from March on.
easter_day : ℕ → ℕ → Date
easter_day y s = date y (s / 31) (s % 31 + 1)

easter_day_ordinal :
    (y s : ℕ)
    → 93 ≤ s
    → s < 155
    → to_ordinal (easter_day y s) + 33 ≡ days_before_year y + (days_in_month y 2 - 28) + s
unfolding easter_day
easter_day_ordinal y s lo hi = elim (Bool-cases (ltb s 124)) [
  | inl e ↦ let m : s / 31 ≡ 3 = ground arith in rw m (omega (arith, march y (s % 31 + 1)))
  | inr e ↦ let m : s / 31 ≡ 4 = ground arith in rw m (omega (arith, april y (s % 31 + 1)))
]

easter_day-IsDate : (y s : ℕ) → 1 ≤ y → 114 ≤ s → s ≤ 148 → IsDate (easter_day y s)
unfolding easter_day days_in_month
easter_day-IsDate y s h lo hi = elim (Bool-cases (ltb s 124)) [
  | inl e ↦ let m : s / 31 ≡ 3 = ground arith in rw m (omega arith)
  | inr e ↦ let m : s / 31 ≡ 4 = ground arith in rw m (omega arith)
]

module _ (y a d e i k h m n : ℕ) (year : y ≡ 400 * d + 100 * e + 4 * i + k) (y_pos : 1 ≤ y)
    (e_lt : e < 4) (i_lt : i < 25) (k_lt : k < 4) (a_lt : a < 19) (h_lt : h < 30)
    (m_def : m ≡ (32 + 2 * e + 2 * i + 70 - h - k) % 7)
    (n_def : n ≡ (a + 11 * h + 22 * m) / 451) where
  easter_range : (7 * n ≤ h + m) × (h + m ≤ 7 * n + 34)
  easter_range = (omega arith, omega arith)

  easter_ordinal :
      to_ordinal (easter_day y (h + m + 114 - 7 * n)) + 33
      ≡ days_before_year y + (days_in_month y 2 - 28) + (h + m + 114 - 7 * n)
  easter_ordinal =
      let r = easter_range in
      easter_day_ordinal y (h + m + 114 - 7 * n) (omega (arith, r.0)) (omega (arith, r.1))

  easter_mod : (to_ordinal (easter_day y (h + m + 114 - 7 * n)) + 6) % 7 ≡ 6
  easter_mod = omega (arith, easter_ordinal, leap_days y y_pos, easter_range)

-- Easter is a Sunday from 22 March to 25 April, in every year from 1 on.
pub easter_sunday_lem :
    (y : ℕ)
    → 1 ≤ y
    → (weekday (easter_sunday y) ≡ 6)
      × (to_ordinal (date y 3 22) ≤ to_ordinal (easter_sunday y))
      × (to_ordinal (easter_sunday y) ≤ to_ordinal (date y 4 25))
unfolding easter_sunday easter_day
easter_sunday_lem y pos =
    let a = y % 19 in
    let b = y / 100 in
    let c = y % 100 in
    let d = b / 4 in
    let e = b % 4 in
    let i = c / 4 in
    let k = c % 4 in
    let h = (19 * a + b + 15 - d - (b + 1 - (b + 8) / 25) / 3) % 30 in
    let m = (32 + 2 * e + 2 * i + 70 - h - k) % 7 in
    let n = (a + 11 * h + 22 * m) / 451 in
    let year : y ≡ 400 * d + 100 * e + 4 * i + k = omega arith in
    let lt : (e < 4) × (i < 25) × (k < 4) × (a < 19) × (h < 30) =
      (omega arith, omega arith, omega arith, omega arith, omega arith) in
    let ord = easter_ordinal y a d e i k h m n year pos lt.0 lt.1 lt.2 lt.3 lt.4 refl refl in
    let range = easter_range y a d e i k h m n year pos lt.0 lt.1 lt.2 lt.3 lt.4 refl refl in
    let turn = easter_mod y a d e i k h m n year pos lt.0 lt.1 lt.2 lt.3 lt.4 refl refl in
    (
      weekday_lem _ ∙ turn,
      omega (arith, ord, march y 22, range.0, range.1),
      omega (arith, ord, april y 25, range.0, range.1),
    )

easter_sunday-IsDate : (y : ℕ) → 1 ≤ y → IsDate (easter_sunday y)
unfolding easter_sunday easter_day
easter_sunday-IsDate y pos =
    let a = y % 19 in
    let c = y % 100 in
    let d = y / 100 / 4 in
    let e = y / 100 % 4 in
    let i = c / 4 in
    let k = c % 4 in
    let h = (19 * a + y / 100 + 15 - d - (y / 100 + 1 - (y / 100 + 8) / 25) / 3) % 30 in
    let m = (32 + 2 * e + 2 * i + 70 - h - k) % 7 in
    let n = (a + 11 * h + 22 * m) / 451 in
    let year : y ≡ 400 * d + 100 * e + 4 * i + k = omega arith in
    let r =
      easter_range y a d e i k h m n year pos (omega arith) (omega arith) (omega arith)
        (omega arith) (omega arith) refl refl in
    easter_day-IsDate y (h + m + 114 - 7 * n) pos (omega (arith, r.0)) (omega (arith, r.1))

good_friday : (y : ℕ) → 4 ≤ y → weekday (minus_days 2 (easter_sunday y)) < 5
good_friday y h =
    let back =
      minus_days_lem 2 (easter_sunday y) (easter_sunday-IsDate y (omega arith)) (year_large y h) in
    omega (
      arith,
      back.1,
      weekday_lem (minus_days 2 (easter_sunday y)),
      weekday_lem (easter_sunday y),
      easter_sunday_lem y (omega arith),
    )
  where
    year_large : (y : ℕ) → 4 ≤ y → 4 ≤ (easter_sunday y).year
    year_large y h = unfold easter_sunday in h

fixed-IsDate : (y m d : ℕ) → 2 ≤ y → 1 ≤ m → m ≤ 12 → 1 ≤ d → d ≤ 28 → IsDate (date y m d)
fixed-IsDate y m d hy hm hm' hd hd' = record {
  year_pos = omega arith;
  month_pos = hm;
  month_le = hm';
  day_pos = hd;
  day_le = omega (arith, days_in_month_bounds y m);
}

observed_fixed :
    (y m d : ℕ) → 2 ≤ y → 1 ≤ m → m ≤ 12 → 1 ≤ d → d ≤ 28 → weekday (observed (date y m d)) < 5
observed_fixed y m d hy hm hm' hd hd' =
    (observed-weekday (date y m d) (fixed-IsDate y m d hy hm hm' hd hd') hy).0

nth_weekday_lt :
    (y m w n : ℕ) → 1 ≤ y → 1 ≤ m → m ≤ 12 → w < 5 → 1 ≤ n → weekday (nth_weekday y m w n) < 5
nth_weekday_lt y m w n hy hm hm' hw hn =
    let r = nth_weekday_lem y m w n hy hm hm' (omega arith) hn in omega (arith, r.0)

-- The nine holidays beside New Year's Day.
abbrev rule_days : ℕ → List Date
rule_days y =
    nth_weekday y 1 0 3
    ∷ nth_weekday y 2 0 3
    ∷ minus_days 2 (easter_sunday y)
    ∷ last_monday_of_may y
    ∷ observed (date y 6 19)
    ∷ observed (date y 7 4)
    ∷ nth_weekday y 9 0 1
    ∷ nth_weekday y 11 3 4
    ∷ observed (date y 12 25)
    ∷ []

memorial_day : (y : ℕ) → 1 ≤ y → weekday (last_monday_of_may y) < 5
memorial_day y h = let r = last_monday_of_may_lem y h in omega (arith, r.0)

-- Every day that the rules of a year from 4 on name as a holiday is a weekday: a weekend holiday
-- is moved or left out, and never listed on a Saturday or a Sunday.
holidays_weekdays : (y : ℕ) → 4 ≤ y → All (λ d. weekday d < saturday) (holidays y)
unfolding holidays
holidays_weekdays y h =
    let pos : 2 ≤ y = omega arith in
    let one : 1 ≤ y = omega arith in
    let fixed = λ (m d : ℕ) (r : (1 ≤ m) × (m ≤ 12) × (1 ≤ d) × (d ≤ 28)).
      observed_fixed y m d pos r.0 r.1 r.2 r.3 in
    let nth = λ (m w n : ℕ) (r : (1 ≤ m) × (m ≤ 12) × (w < 5) × (1 ≤ n)).
      nth_weekday_lt y m w n one r.0 r.1 r.2 r.3 in
    let listed : All (λ d. weekday d < saturday) (rule_days y) = (
      nth 1 0 3 (omega arith),
      (
        nth 2 0 3 (omega arith),
        (
          good_friday y h,
          (
            memorial_day y one,
            (
              fixed 6 19 (omega arith),
              (
                fixed 7 4 (omega arith),
                (
                  nth 9 0 1 (omega arith),
                  (nth 11 3 4 (omega arith), (fixed 12 25 (omega arith), tt)),
                ),
              ),
            ),
          ),
        ),
      ),
    ) in
    elim (Bool-cases (weekday (date y 1 1) == saturday)) [
      | inl e ↦ rw e listed
      | inr e ↦ rw e (fixed 1 1 (omega arith), listed)
    ]
