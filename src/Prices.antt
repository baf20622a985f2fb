-- ===== src/Prices.antt =====
-- Limit prices: the price bands of the exchanges (python/src/domain/tick_size.py) and when an order is
-- given a limit (python/src/domain/limit_order_rules.py).
pub mod Ticks
pub mod LimitOrders
mod Examples
