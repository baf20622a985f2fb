-- ===== src/Prices/Ticks/Bands.antt =====
-- The bands of the Tokyo exchange (python/src/domain/tick_size.py) fit together.
use stock_fixer.Prelude.{ℕ, ◌%◌, ◌≡◌, ◌≤◌, ◌⊎◌, arith}
use stock_fixer.Prices.Ticks.{jp_tick, floor_to, ceil_to}

pub jp_tick-pos : (x : ℕ) → 1 ≤ jp_tick x
unfolding jp_tick
jp_tick-pos x = ground arith

-- The tick grows with the price.
pub jp_tick_mono : (x y : ℕ) → x ≤ y → jp_tick x ≤ jp_tick y
unfolding jp_tick
jp_tick_mono x y h = ground arith

-- Rounded down, a price of a higher band does not fall below the bands under its own.
pub floor_to-band : (x y : ℕ) → x ≤ y → (jp_tick x ≡ jp_tick y) ⊎ (x ≤ floor_to (jp_tick y) y)
unfolding jp_tick
floor_to-band x y h = ground arith

-- A rounded price stands on the grid of its own band.
pub floor_to-grid : (x : ℕ) → floor_to (jp_tick x) x % jp_tick (floor_to (jp_tick x) x) ≡ 0
unfolding jp_tick
floor_to-grid x = ground arith

pub ceil_to-grid : (x : ℕ) → ceil_to (jp_tick x) x % jp_tick (ceil_to (jp_tick x) x) ≡ 0
unfolding jp_tick
ceil_to-grid x = ground arith

pub jp_tick-grid : (x : ℕ) → jp_tick x % jp_tick (jp_tick x) ≡ 0
unfolding jp_tick
jp_tick-grid x = ground arith
