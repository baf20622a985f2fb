-- ===== src/Prices/LimitOrders/Side.antt =====
-- On which side of the current price the limit of python/src/domain/limit_order_rules.py lies.
use stock_fixer.Prelude.{ℕ, ◌+◌, ◌-◌, ◌≡◌, ◌≤◌, max, arith, Bool, true, false, Option}
use stock_fixer.Prices.Ticks.{Exchange, jp_tick, tick_size, round_limit_price}
use stock_fixer.Prices.Ticks.Bands.{jp_tick-pos, jp_tick_mono, floor_to-band}
use stock_fixer.Prices.Ticks.Rounded.{floor_to_bounds, ceil_to_bounds}
use stock_fixer.Prices.LimitOrders.{limit_price_of, plan_limit_order}

-- A purchase's limit lies from the price up to the buffer above it, a sale's from the buffer below it
-- up to the price.
abbrev pub OnSide : Exchange → Bool → ℕ → ℕ → ℕ → Type 0
OnSide market true price share limit =
    (price ≤ limit) × (limit ≤ price + max share (tick_size market price))
OnSide market false price share limit =
    (price - max share (tick_size market price) ≤ limit) × (limit ≤ price)

limit_price_of-OnSide :
    (market : Exchange) (is_buy_side : Bool) (price share : ℕ)
    → 1 ≤ price
    → OnSide market is_buy_side price share (limit_price_of market is_buy_side price share)
unfolding limit_price_of round_limit_price tick_size
limit_price_of-OnSide Exchange.jp true price share h =
    let v = price + max share (jp_tick price) in
    ground (
      arith,
      jp_tick-pos price,
      jp_tick-pos v,
      floor_to-band price v (omega arith),
      floor_to_bounds (jp_tick v) v,
    )
limit_price_of-OnSide Exchange.jp false price share h =
    let v = price - max share (jp_tick price) in
    ground (
      arith,
      jp_tick-pos price,
      jp_tick-pos v,
      jp_tick_mono v price (omega arith),
      ceil_to_bounds (jp_tick v) v,
    )
limit_price_of-OnSide Exchange.us true price share h = ground arith
limit_price_of-OnSide Exchange.us false price share h = ground arith

-- A plan with a limit puts it on the right side of a positive current price after the rounding: a
-- purchase at the price or above, a sale at it or below, and neither further away than the buffer,
-- which is at least a tick.
pub plan_limit_order-OnSide :
    (market : Exchange) (is_buy_side : Bool) (price : ℕ) (avg_volume spread_proxy : Option ℕ)
    (volume_threshold spread_threshold share : ℕ)
    → 1 ≤ price
    → (plan_limit_order market is_buy_side price avg_volume spread_proxy volume_threshold
        spread_threshold share).is_limit
      ≡ true
    → OnSide market is_buy_side price share
        (plan_limit_order market is_buy_side price avg_volume spread_proxy volume_threshold
          spread_threshold share).limit_price
unfolding plan_limit_order
plan_limit_order-OnSide market side price volume spread vt st share h limited =
    ground (arith, limit_price_of-OnSide market side price share h, limited)
