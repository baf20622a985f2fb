-- ===== src/Calendar/JpMarket.antt =====
-- python/src/domain/jp_market_holidays.py: the table of the Tokyo exchange's closed weekdays.
use stock_fixer.Prelude.{
  ℕ, ◌+◌, Bool, not, ◌&&◌, Option, none, some, List, [], ◌∷◌, ltb, ◌==◌, if◌then◌else◌,
}
use stock_fixer.Calendar.Date.{Date, date, mem_date, date_le, weekday}

abbrev pub holidays_2026 : List Date
holidays_2026 =
    date 2026 1 1
    ∷ date 2026 1 2
    ∷ date 2026 1 12
    ∷ date 2026 2 11
    ∷ date 2026 2 23
    ∷ date 2026 3 20
    ∷ date 2026 4 29
    ∷ date 2026 5 4
    ∷ date 2026 5 5
    ∷ date 2026 5 6
    ∷ date 2026 7 20
    ∷ date 2026 8 11
    ∷ date 2026 9 21
    ∷ date 2026 9 22
    ∷ date 2026 9 23
    ∷ date 2026 10 12
    ∷ date 2026 11 3
    ∷ date 2026 11 23
    ∷ date 2026 12 31
    ∷ []

abbrev pub holidays_2027 : List Date
holidays_2027 =
    date 2027 1 1
    ∷ date 2027 1 11
    ∷ date 2027 2 11
    ∷ date 2027 2 23
    ∷ date 2027 3 22
    ∷ date 2027 4 29
    ∷ date 2027 5 3
    ∷ date 2027 5 4
    ∷ date 2027 5 5
    ∷ date 2027 7 19
    ∷ date 2027 8 11
    ∷ date 2027 9 20
    ∷ date 2027 9 23
    ∷ date 2027 10 11
    ∷ date 2027 11 3
    ∷ date 2027 11 23
    ∷ date 2027 12 31
    ∷ []

-- `_HOLIDAYS_BY_YEAR.get(year, frozenset())`
pub holidays_of : ℕ → List Date
holidays_of year =
    if year == 2026 then holidays_2026 else if year == 2027 then holidays_2027 else []

-- `max(_HOLIDAYS_BY_YEAR)`
abbrev pub last_table_year : ℕ
last_table_year = 2027

pub missing_jp_holiday_table_year : Date → Option ℕ
missing_jp_holiday_table_year day =
    if date_le (date last_table_year 10 1) day then some (last_table_year + 1) else none

unfoldable pub is_jp_market_holiday : Date → Bool
unfolding holidays_of
is_jp_market_holiday day = mem_date day (holidays_of day.year)

unfoldable pub is_jp_business_day : Date → Bool
unfolding is_jp_market_holiday weekday
is_jp_business_day day = ltb (weekday day) 5 && not (is_jp_market_holiday day)
