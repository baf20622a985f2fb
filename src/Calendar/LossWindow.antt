-- ===== src/Calendar/LossWindow.antt =====
-- python/src/trading/daily_loss_window.py: the start of the window in which losses count. The
-- current time comes in as a JST wall-clock time; the start is given by its JST date (it is
-- 0:00 of that day), since the conversion to UTC is a fixed shift by nine hours.
pub mod Search
use stock_fixer.Prelude.{ℕ, zero, suc, Option, none, some, true, false}
use stock_fixer.Calendar.Date.{Date, Datetime, prev_day}
use stock_fixer.Calendar.JpMarket.{is_jp_business_day}

-- `while not is_jp_business_day(prev_day): prev_day -= timedelta(days=1)`, with fuel.
pub last_business_day : ℕ → Date → Option Date
last_business_day zero day = none
last_business_day (suc fuel) day = elim (is_jp_business_day day) [
  | true ↦ some day
  | false ↦ last_business_day fuel (prev_day day)
]

-- Rounds that are enough for every day of the calendar (`Search`).
abbrev pub search_fuel : ℕ
search_fuel = 9

pub daily_loss_window_start : Datetime → Option Date
daily_loss_window_start now = last_business_day search_fuel (prev_day now.on_date)
