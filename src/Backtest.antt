-- ===== src/Backtest.antt =====
-- The long-term backtest: the portfolio of python/src/backtest/longterm/portfolio.py with the ledger of
-- ledger.py.
pub mod Portfolio
mod Examples
