-- ===== src/Calendar/Date.antt =====
-- The dates and datetimes of Python's `datetime` module, as far as the program uses them: the
-- proleptic Gregorian calendar, days added and taken off one at a time, weekdays from Monday = 0,
-- and a wall-clock time in one zone without daylight saving (JST), to the microsecond.
pub mod Ordinal
use stock_fixer.Prelude.{
  ℕ, zero, suc, ◌+◌, ◌-◌, ◌*◌, ◌/◌, ◌%◌, ◌≤◌, Bool, true, false, not, ◌&&◌, ◌||◌, String, ltb, leb,
  ◌==◌, if◌then◌else◌, List, [], ◌∷◌, ◌<>◌, two_digits, four_digits,
}

pub record Date : Type 0 where
  pub year : ℕ
  pub month : ℕ
  pub day : ℕ

abbrev pub date_eq : Date → Date → Bool
date_eq a b = a.year == b.year && (a.month == b.month && a.day == b.day)

-- `date(y, m, d)`, for arguments that name a day.
abbrev pub date : ℕ → ℕ → ℕ → Date
date y m d = record { day = d; month = m; year = y }

abbrev pub mem_date : Date → List Date → Bool
mem_date d [] = false
mem_date d (x ∷ xs) = date_eq x d || mem_date d xs

pub is_leap : ℕ → Bool
is_leap y = y % 4 == 0 && (not (y % 100 == 0) || y % 400 == 0)

unfoldable pub days_in_month : ℕ → ℕ → ℕ
unfolding is_leap
days_in_month y m =
    if m == 2
    then if is_leap y then 29 else 28
    else if m == 11 || (m == 9 || (m == 4 || m == 6))
    then 30
    else 31

-- The days of the months of year `y` before month `m`.
unfoldable pub days_before_month : ℕ → ℕ → ℕ
unfolding days_in_month
days_before_month y zero = 0
days_before_month y (suc zero) = 0
days_before_month y (suc (suc k)) = days_before_month y (suc k) + days_in_month y (suc k)

unfoldable pub days_before_year : ℕ → ℕ
days_before_year y = (y - 1) * 365 + (y - 1) / 4 - (y - 1) / 100 + (y - 1) / 400

-- `date.toordinal`: 1 January of year 1 is 1.
unfoldable pub to_ordinal : Date → ℕ
unfolding days_before_month days_before_year
to_ordinal d = days_before_year d.year + days_before_month d.year d.month + d.day

-- `date.weekday`: Monday is 0.
unfoldable pub weekday : Date → ℕ
unfolding to_ordinal
weekday d = (to_ordinal d + 6) % 7

unfoldable pub next_day : Date → Date
unfolding days_in_month
next_day d =
    if ltb d.day (days_in_month d.year d.month)
    then date d.year d.month (d.day + 1)
    else if d.month == 12
    then date (d.year + 1) 1 1
    else date d.year (d.month + 1) 1

unfoldable pub prev_day : Date → Date
unfolding days_in_month
prev_day d =
    if ltb 1 d.day
    then date d.year d.month (d.day - 1)
    else if d.month == 1
    then date (d.year - 1) 12 31
    else date d.year (d.month - 1) (days_in_month d.year (d.month - 1))

-- `d + timedelta(days=n)` and `d - timedelta(days=n)`.
unfoldable pub plus_days : ℕ → Date → Date
unfolding next_day
plus_days zero d = d
plus_days (suc n) d = plus_days n (next_day d)

unfoldable pub minus_days : ℕ → Date → Date
unfolding prev_day
minus_days zero d = d
minus_days (suc n) d = minus_days n (prev_day d)

-- `a < b` and `a <= b` on dates.
abbrev pub date_lt : Date → Date → Bool
date_lt a b = ltb (to_ordinal a) (to_ordinal b)

abbrev pub date_le : Date → Date → Bool
date_le a b = leb (to_ordinal a) (to_ordinal b)

-- The Thursday of the ISO week of `d` lies in the week's ISO year.
pub iso_thursday : Date → Date
unfolding weekday plus_days minus_days
iso_thursday d =
    if leb (weekday d) 3 then plus_days (3 - weekday d) d else minus_days (weekday d - 3) d

-- `isocalendar().week`
pub iso_week : Date → ℕ
unfolding iso_thursday
iso_week d = let t = iso_thursday d in (to_ordinal t - to_ordinal (date t.year 1 1)) / 7 + 1

-- `isoformat`, which is `strftime("%Y-%m-%d")`
unfoldable pub iso_text : Date → String
unfolding two_digits four_digits
iso_text d = four_digits d.year <> "-" <> two_digits d.month <> "-" <> two_digits d.day

-- A day of the calendar, from year 1 on.
pub record IsDate (d : Date) : Type 0 where
  pub year_pos : 1 ≤ d.year
  pub month_pos : 1 ≤ d.month
  pub month_le : d.month ≤ 12
  pub day_pos : 1 ≤ d.day
  pub day_le : d.day ≤ days_in_month d.year d.month

-- A wall-clock time: the date, and the microseconds since midnight.
pub record Datetime : Type 0 where
  pub on_date : Date
  pub tod : ℕ

abbrev pub minute_us : ℕ
minute_us = 60_000_000

abbrev pub day_us : ℕ
day_us = 86_400_000_000

-- Microseconds on one time line, by which datetimes compare.
unfoldable pub instant : Datetime → ℕ
unfolding to_ordinal
instant t = to_ordinal t.on_date * day_us + t.tod

-- `t.replace(hour=h, minute=m, second=0, microsecond=0)`
abbrev pub at_time : Datetime → ℕ → ℕ → Datetime
at_time t h m = record t { tod = (h * 60 + m) * minute_us }

-- `t - timedelta(days=n)`
abbrev pub days_earlier : ℕ → Datetime → Datetime
days_earlier n t = record t { on_date = minus_days n t.on_date }
