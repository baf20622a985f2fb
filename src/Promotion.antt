-- ===== src/Promotion.antt =====
-- The trial replacement of models, python/src/prediction/backtest_promotion: the files of the models
-- (state.py).
pub mod Disk
pub mod Names
pub mod Backup
pub mod Swap
pub mod Judge
mod Examples
