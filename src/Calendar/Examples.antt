-- ===== src/Calendar/Examples.antt =====
-- The calendars at days of 2026.
use stock_fixer.Prelude.{◌≤◌, ◌≡◌, arith, some}
use stock_fixer.Calendar.Date.{
  Date, Datetime, date, IsDate, weekday, to_ordinal, days_in_month, prev_day,
}
use stock_fixer.Calendar.UsMarket.{easter_sunday}
use stock_fixer.Calendar.UsMarket.Rules.{easter_sunday_lem}
use stock_fixer.Calendar.LossWindow.{daily_loss_window_start}
use stock_fixer.Calendar.LossWindow.Search.{LastBefore, daily_loss_window_start_lem}

abbrev independence_day : Date
independence_day = date 2026 7 4

independence_day-IsDate : IsDate independence_day
unfolding days_in_month
independence_day-IsDate = record {
  year_pos = omega arith;
  month_pos = omega arith;
  month_le = omega arith;
  day_pos = omega arith;
  day_le = omega arith;
}

easter_sunday_lem_example :
    (weekday (easter_sunday 2026) ≡ 6)
    × (to_ordinal (date 2026 3 22) ≤ to_ordinal (easter_sunday 2026))
    × (to_ordinal (easter_sunday 2026) ≤ to_ordinal (date 2026 4 25))
easter_sunday_lem_example = easter_sunday_lem 2026 (omega arith)

-- A Saturday at midnight.
abbrev a_saturday : Datetime
a_saturday = record { on_date = date 2026 7 4; tod = 0 }

daily_loss_window_start_lem_example :
    (b : Date) × (daily_loss_window_start a_saturday ≡ some b)
    × LastBefore (prev_day (date 2026 7 4)) b
daily_loss_window_start_lem_example =
    daily_loss_window_start_lem a_saturday independence_day-IsDate (omega arith)
