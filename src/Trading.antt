-- ===== src/Trading.antt =====
-- Caps on new purchases: the rule on sectors (python/src/domain/sector_cap.py), the count of the
-- purchases of one run (python/src/trading/claude_order_caps.py), the count of the latest losses
-- (python/src/trading/consecutive_losses.py), and the strategy of
-- python/src/trading/regime_leverage_strategy.
pub mod SectorCap
pub mod OrderCaps
pub mod Losses
pub mod Leverage
mod Examples
