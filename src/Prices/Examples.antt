-- ===== src/Prices/Examples.antt =====
-- A purchase around 2,999.5 yen, where the tick grows from one yen to five.
use stock_fixer.Prelude.{ℕ, ◌≡◌, refl, arith, true, none, some}
use stock_fixer.Prices.Ticks.{Exchange, jp_tick, tick_size, round_limit_price}
use stock_fixer.Prices.Ticks.Rounded.{Rounds, round_limit_price-Rounds}
use stock_fixer.Prices.LimitOrders.{plan_limit_order}
use stock_fixer.Prices.LimitOrders.Side.{OnSide, plan_limit_order-OnSide}

abbrev price : ℕ
price = 2_999_500_000_000_000

rounded_up : round_limit_price Exchange.jp price true ≡ 2_999_000_000_000_000
unfolding round_limit_price tick_size jp_tick
rounded_up = refl

round_limit_price-Rounds_example :
    Rounds Exchange.jp price true (round_limit_price Exchange.jp price true)
round_limit_price-Rounds_example = round_limit_price-Rounds Exchange.jp price true (omega arith)

thin : (plan_limit_order Exchange.jp true price (some 10) none 20 5 0).is_limit ≡ true
unfolding plan_limit_order
thin = refl

plan_limit_order-OnSide_example :
    OnSide Exchange.jp true price 0
      (plan_limit_order Exchange.jp true price (some 10) none 20 5 0).limit_price
plan_limit_order-OnSide_example =
    plan_limit_order-OnSide Exchange.jp true price (some 10) none 20 5 0 (omega arith) thin
