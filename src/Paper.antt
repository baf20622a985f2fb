-- ===== src/Paper.antt =====
-- The paper broker (python/src/trading/brokers/paper): orders, holdings and the balance as the
-- tables that the broker keeps, the bookings of a fill, and the settlement of pending orders.
pub mod Tables
pub mod Fill
pub mod Broker
pub mod Day
mod Examples
