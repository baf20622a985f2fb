-- ===== src/Prices/Ticks/Rounded.antt =====
-- What `round_limit_price` of python/src/domain/tick_size.py does to a price.
use stock_fixer.Prelude.{ℕ, ◌+◌, ◌-◌, ◌%◌, ◌≡◌, ◌≤◌, ◌<◌, arith, Bool, true, false}
use native.Mathlib.Nat.{div-add-mod', mod-lt}
use stock_fixer.Prices.Ticks.{Exchange, jp_tick, tick_size, floor_to, ceil_to, round_limit_price}
use stock_fixer.Prices.Ticks.Bands.{jp_tick-pos, floor_to-grid, ceil_to-grid, jp_tick-grid}

pub floor_to_bounds : (t x : ℕ) → 1 ≤ t → (floor_to t x ≤ x) × (x < floor_to t x + t)
floor_to_bounds t x h = omega (arith, div-add-mod' x t, mod-lt x h)

pub ceil_to_bounds : (t x : ℕ) → 1 ≤ t → (x ≤ ceil_to t x) × (ceil_to t x < x + t)
ceil_to_bounds t x h = omega (arith, div-add-mod' (x + t - 1) t, mod-lt (x + t - 1) h)

-- The result of rounding `price` to `r`, in steps of `tick`.
pub record Rounds (market : Exchange) (price : ℕ) (is_buy_side : Bool) (r : ℕ) : Type 0 where
  pub positive : 1 ≤ r
  pub near_above : r < price + tick_size market price
  pub near_below : price < r + tick_size market price
  pub buys_down : is_buy_side ≡ true → tick_size market price ≤ price → r ≤ price
  pub sells_up : is_buy_side ≡ false → price ≤ r
  pub on_grid : r % tick_size market r ≡ 0

-- A positive price is rounded to a positive price less than one tick away: a sale never down, and a
-- purchase never up, but for one below its first tick, which is given that tick. The result stands on
-- the grid of the band that it falls in.
pub round_limit_price-Rounds :
    (market : Exchange) (price : ℕ) (is_buy_side : Bool)
    → 1 ≤ price
    → Rounds market price is_buy_side (round_limit_price market price is_buy_side)
unfolding round_limit_price tick_size
round_limit_price-Rounds Exchange.jp price true h = ground (
  arith,
  jp_tick-pos price,
  floor_to-grid price,
  jp_tick-grid price,
  floor_to_bounds (jp_tick price) price,
)
round_limit_price-Rounds Exchange.jp price false h = ground (
  arith,
  jp_tick-pos price,
  ceil_to-grid price,
  jp_tick-grid price,
  ceil_to_bounds (jp_tick price) price,
)
round_limit_price-Rounds Exchange.us price true h = ground arith
round_limit_price-Rounds Exchange.us price false h = ground arith
