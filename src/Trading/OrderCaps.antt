-- ===== src/Trading/OrderCaps.antt =====
-- `RunBuyCaps` of python/src/trading/claude_order_caps.py: the purchases of one run and their limits.
-- The sector of a symbol and the correlation gate are given by functions; `.T` is taken off by the
-- function of the sector.
pub mod Limits
use stock_fixer.Prelude.{
  ℕ, ◌+◌, Bool, true, false, ◌&&◌, Option, none, some, List, [], ◌∷◌, String, if◌then◌else◌, leb,
  ltb, mem_text, is_some, length,
}
use stock_fixer.Trading.SectorCap.{Counter, count_of, bump}

-- `MAX_ORDERS_PER_RUN`, `MAX_POSITIONS`, `MAX_SECTOR_POSITIONS` and the sector of a symbol.
pub record Settings : Type 0 where
  pub max_orders_per_run : ℕ
  pub max_positions : ℕ
  pub max_sector_positions : ℕ
  pub sector : String → String

pub record RunBuyCaps : Type 0 where
  pub position_count : ℕ
  pub buy_orders : ℕ
  pub bought_symbols : List String
  pub corr_block_reason : Option String
  pub sector_counts : Option Counter

-- The reason why a purchase is stopped.
pub data Stop : Type 0 where
  bought_already correlation orders_full positions_full sector_full : Stop

abbrev pub sector_is_full : Settings → Option Counter → String → Bool
sector_is_full s none symbol = false
sector_is_full s (some counts) symbol =
    ltb 0 s.max_sector_positions && leb s.max_sector_positions (count_of (s.sector symbol) counts)

-- `check_buy`
unfoldable pub check_buy : Settings → RunBuyCaps → String → Option Stop
check_buy s caps symbol =
    if mem_text symbol caps.bought_symbols
    then some bought_already
    else if is_some caps.corr_block_reason
    then some correlation
    else if leb s.max_orders_per_run caps.buy_orders
    then some orders_full
    else if leb s.max_positions caps.position_count
    then some positions_full
    else if sector_is_full s caps.sector_counts symbol
    then some sector_full
    else none

abbrev pub count_sector : Settings → String → Option Counter → Option Counter
count_sector s symbol none = none
count_sector s symbol (some counts) = some (bump (s.sector symbol) counts)

-- `record_buy`
pub record_buy : Settings → RunBuyCaps → String → RunBuyCaps
record_buy s caps symbol = record caps {
  buy_orders = caps.buy_orders + 1;
  position_count = caps.position_count + 1;
  bought_symbols = symbol ∷ caps.bought_symbols;
  sector_counts = count_sector s symbol caps.sector_counts;
}

-- `Counter(get_symbol_sector(market, s) for s in held_codes)`
unfoldable pub count_sectors : Settings → List String → Counter
count_sectors s [] = []
count_sectors s (c ∷ codes) = bump (s.sector c) (count_sectors s codes)

-- `start_run_buy_caps` of the distinct codes of the holdings; `reason` is the gate's, if it blocks.
unfoldable pub start_run_buy_caps : Settings → List String → Option String → ℕ → RunBuyCaps
start_run_buy_caps s held_codes reason short_count = record {
  position_count = length held_codes + short_count;
  buy_orders = 0;
  bought_symbols = [];
  corr_block_reason = reason;
  sector_counts = some (count_sectors s held_codes);
}
