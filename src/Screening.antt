-- ===== src/Screening.antt =====
-- When a position is held, partly sold and left: the engine of python/src/screening/hold_engine.py.
pub mod HoldEngine
mod Examples
