-- ===== src/Calendar/UsMarket.antt =====
-- python/src/domain/us_market_holidays.py: the holidays of the NYSE by rule.

pub mod Rules
use stock_fixer.Prelude.{
  ℕ, ◌+◌, ◌-◌, ◌*◌, ◌/◌, ◌%◌, Bool, not, ◌&&◌, ◌||◌, List, [], ◌∷◌, ltb, ◌==◌, if◌then◌else◌,
}
use stock_fixer.Calendar.Date.{
  Date, date, mem_date, weekday, next_day, prev_day, plus_days, minus_days,
}

abbrev pub monday : ℕ
monday = 0

abbrev pub thursday : ℕ
thursday = 3

abbrev pub saturday : ℕ
saturday = 5

abbrev pub sunday : ℕ
sunday = 6

abbrev pub special_closures : List Date
special_closures = date 2025 1 9 ∷ []

-- `(weekday - first.weekday()) % 7` in Python is not negative: add 7 before the subtraction.
pub nth_weekday : ℕ → ℕ → ℕ → ℕ → Date
unfolding weekday plus_days
nth_weekday year month day_of_week nth =
    let first = date year month 1 in
    let offset = (day_of_week + 7 - weekday first) % 7 in plus_days (offset + 7 * (nth - 1)) first

pub last_monday_of_may : ℕ → Date
unfolding weekday minus_days
last_monday_of_may year = let may_31 = date year 5 31 in minus_days (weekday may_31) may_31

pub observed : Date → Date
unfolding weekday prev_day next_day
observed day =
    if weekday day == saturday
    then prev_day day
    else if weekday day == sunday
    then next_day day
    else day

-- Anonymous Gregorian. No difference here is negative for a year from 1 on but the one in `m`,
-- where 70 is added for Python's `%`.
pub easter_sunday : ℕ → Date
easter_sunday year =
    let a = year % 19 in
    let b = year / 100 in
    let c = year % 100 in
    let d = b / 4 in
    let e = b % 4 in
    let f = (b + 8) / 25 in
    let g = (b + 1 - f) / 3 in
    let h = (19 * a + b + 15 - d - g) % 30 in
    let i = c / 4 in
    let k = c % 4 in
    let m = (32 + 2 * e + 2 * i + 70 - h - k) % 7 in
    let n = (a + 11 * h + 22 * m) / 451 in
    let s = h + m + 114 - 7 * n in date year (s / 31) (s % 31 + 1)

pub holidays : ℕ → List Date
holidays year =
    let new_year = date year 1 1 in
    let days =
      nth_weekday year 1 monday 3
      ∷ nth_weekday year 2 monday 3
      ∷ minus_days 2 (easter_sunday year)
      ∷ last_monday_of_may year
      ∷ observed (date year 6 19)
      ∷ observed (date year 7 4)
      ∷ nth_weekday year 9 monday 1
      ∷ nth_weekday year 11 thursday 4
      ∷ observed (date year 12 25)
      ∷ [] in
    if weekday new_year == saturday then days else observed new_year ∷ days

pub is_us_market_holiday : Date → Bool
unfolding holidays
is_us_market_holiday day = mem_date day special_closures || mem_date day (holidays day.year)

pub is_us_business_day : Date → Bool
unfolding is_us_market_holiday
is_us_business_day day = ltb (weekday day) saturday && not (is_us_market_holiday day)
