-- ===== src/Calendar.antt =====
-- Dates of the standard library, the two exchanges' holidays (python/src/domain/
-- us_market_holidays.py and jp_market_holidays.py) and the window of the daily loss
-- (python/src/trading/daily_loss_window.py).
pub mod Date
pub mod UsMarket
pub mod JpMarket
pub mod LossWindow
mod Examples
