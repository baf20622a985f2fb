-- ===== src/Prices/Ticks.antt =====
-- python/src/domain/tick_size.py: a limit price is rounded to the tick of its band. A price is a whole
-- number of units; a yen or a dollar has `one` of them.
pub mod Bands
pub mod Rounded
use stock_fixer.Prelude.{
  ℕ, ◌+◌, ◌-◌, ◌*◌, ◌/◌, Bool, true, false, List, [], ◌∷◌, if◌then◌else◌, leb,
}

abbrev pub one : ℕ
one = 1_000_000_000_000

pub data Exchange : Type 0 where
  jp us : Exchange

-- `_JP_TICK_TABLE`
abbrev pub jp_tick_table : List (ℕ × ℕ)
jp_tick_table =
    (3_000, 1)
    ∷ (5_000, 5)
    ∷ (30_000, 10)
    ∷ (50_000, 50)
    ∷ (300_000, 100)
    ∷ (500_000, 500)
    ∷ (3_000_000, 1_000)
    ∷ (5_000_000, 5_000)
    ∷ (30_000_000, 10_000)
    ∷ (50_000_000, 50_000)
    ∷ []

abbrev pub jp_tick_top : ℕ
jp_tick_top = 100_000

-- The loop over the table.
abbrev pub tick_in : List (ℕ × ℕ) → ℕ → ℕ
tick_in [] price = jp_tick_top * one
tick_in ((upper, tick) ∷ bands) price =
    if leb price (upper * one) then tick * one else tick_in bands price

unfoldable pub jp_tick : ℕ → ℕ
jp_tick price = tick_in jp_tick_table price

abbrev pub us_tick : ℕ
us_tick = one / 100

unfoldable pub tick_size : Exchange → ℕ → ℕ
tick_size Exchange.jp price = jp_tick price
tick_size Exchange.us price = us_tick

-- `(value / tick).to_integral_value(ROUND_FLOOR or ROUND_CEILING) * tick`
abbrev pub floor_to : ℕ → ℕ → ℕ
floor_to tick value = value / tick * tick

abbrev pub ceil_to : ℕ → ℕ → ℕ
ceil_to tick value = (value + tick - 1) / tick * tick

abbrev pub at_least_a_tick : ℕ → ℕ → ℕ
at_least_a_tick tick rounded = if leb rounded 0 then tick else rounded

unfoldable pub round_limit_price : Exchange → ℕ → Bool → ℕ
round_limit_price market price is_buy_side =
    if leb price 0
    then 0
    else (let tick = tick_size market price in
        at_least_a_tick tick (if is_buy_side then floor_to tick price else ceil_to tick price))
