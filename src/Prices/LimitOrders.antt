-- ===== src/Prices/LimitOrders.antt =====
-- python/src/domain/limit_order_rules.py: an order in a thin or jumpy stock gets a limit price. The
-- volumes, the spreads and the thresholds are scaled numbers like the prices; the product of the price
-- with `price_buffer` is an argument.
pub mod Side
use stock_fixer.Prelude.{
  ℕ, ◌+◌, ◌-◌, max, Bool, true, false, not, ◌||◌, Option, none, some, List, [], ◌∷◌, ◌++◌,
  if◌then◌else◌, leb, ltb, any,
}
use stock_fixer.Prelude.Elem.{is_empty}
use stock_fixer.Prices.Ticks.{Exchange, tick_size, round_limit_price}

pub data Session : Type 0 where
  opening closing : Session

pub data Why : Type 0 where
  low_volume wide_range : ℕ → Why

-- `LimitOrderPlan`
pub record LimitOrderPlan : Type 0 where
  pub is_limit : Bool
  pub limit_price : ℕ
  pub reasons : List Why
  pub session : Session

abbrev pub is_low_volume : Why → Bool
is_low_volume (low_volume v) = true
is_low_volume (wide_range s) = false

abbrev pub low_volumes : Option ℕ → ℕ → List Why
low_volumes none threshold = []
low_volumes (some v) threshold = if ltb v threshold then low_volume v ∷ [] else []

abbrev pub wide_ranges : Option ℕ → ℕ → List Why
wide_ranges none threshold = []
wide_ranges (some s) threshold = if ltb threshold s then wide_range s ∷ [] else []

abbrev pub market_plan : LimitOrderPlan
market_plan = record { is_limit = false; limit_price = 0; reasons = []; session = opening }

-- The limit price of an order at `current_price`, with `share` for `current_price * price_buffer`.
unfoldable pub limit_price_of : Exchange → Bool → ℕ → ℕ → ℕ
limit_price_of market is_buy_side current_price share =
    let buffer = max share (tick_size market current_price) in
    round_limit_price market
      (if is_buy_side then current_price + buffer else current_price - buffer) is_buy_side

unfoldable pub plan_limit_order :
    Exchange → Bool → ℕ → Option ℕ → Option ℕ → ℕ → ℕ → ℕ → LimitOrderPlan
plan_limit_order market is_buy_side current_price avg_volume spread_proxy volume_threshold
      spread_threshold share =
    let reasons =
      low_volumes avg_volume volume_threshold ++ wide_ranges spread_proxy spread_threshold in
    if is_empty reasons then market_plan else record {
      is_limit = true;
      limit_price = limit_price_of market is_buy_side current_price share;
      reasons = reasons;
      session = if any is_low_volume reasons then closing else opening;
    }

-- At the close of the session both ends of the bar are its last price.
abbrev pub at_close : Session → ℕ → ℕ → ℕ
at_close opening price close = price
at_close closing price close = close

-- Whether the bar of the day reaches the limit.
unfoldable pub limit_order_fills : LimitOrderPlan → Bool → ℕ → ℕ → ℕ → Bool
limit_order_fills plan is_buy_side high low close =
    if not plan.is_limit
    then true
    else if is_buy_side
    then leb (at_close plan.session low close) plan.limit_price
    else leb plan.limit_price (at_close plan.session high close)
