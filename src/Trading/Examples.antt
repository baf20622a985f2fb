-- ===== src/Trading/Examples.antt =====
-- Two holdings, one sector, and a run of purchases.
use stock_fixer.Prelude.{◌+◌, ◌≤◌, ◌≡◌, refl, arith, max, true, none, [], ◌∷◌, String}
use stock_fixer.Trading.SectorCap.{count_of, filter_by_sector_cap}
use stock_fixer.Trading.SectorCap.Counts.{of_sector, filter_by_sector_cap_lem}
use stock_fixer.Trading.OrderCaps.{
  Settings, RunBuyCaps, check_buy, record_buy, start_run_buy_caps, count_sectors,
}
use stock_fixer.Trading.OrderCaps.Limits.{
  Reached, begun, bought, distinct, counted, start_run_buy_caps-limits, sector_counts-limit,
}

-- Every symbol is of one sector.
abbrev autos : String → String
autos symbol = "autos"

filter_by_sector_cap_lem_example :
    count_of "autos" []
      + of_sector autos 1 "autos" (filter_by_sector_cap autos 1 ("7203" ∷ "7267" ∷ []) [])
    ≤ max 1 (count_of "autos" [])
filter_by_sector_cap_lem_example =
    filter_by_sector_cap_lem autos 1 ("7203" ∷ "7267" ∷ []) [] "autos" (omega arith)

abbrev some_settings : Settings
some_settings = record {
  max_orders_per_run = 5;
  max_positions = 10;
  max_sector_positions = 3;
  sector = autos;
}

abbrev at_start : RunBuyCaps
at_start = start_run_buy_caps some_settings ("6758" ∷ "9984" ∷ []) none 1

passes : check_buy some_settings at_start "7203" ≡ none
unfolding check_buy start_run_buy_caps count_sectors count_of
passes = refl

abbrev one_bought : Reached some_settings at_start (record_buy some_settings at_start "7203")
one_bought = bought "7203" begun passes

start_run_buy_caps-limits_example :
    ((record_buy some_settings at_start "7203").buy_orders ≤ 5)
    × ((record_buy some_settings at_start "7203").position_count ≤ 10)
    × (distinct (record_buy some_settings at_start "7203").bought_symbols ≡ true)
start_run_buy_caps-limits_example =
    start_run_buy_caps-limits some_settings ("6758" ∷ "9984" ∷ []) none 1
      (record_buy some_settings at_start "7203") one_bought

sector_counts-limit_example :
    counted "autos" (record_buy some_settings at_start "7203").sector_counts
    ≤ max 3 (counted "autos" at_start.sector_counts)
sector_counts-limit_example =
    sector_counts-limit some_settings at_start (record_buy some_settings at_start "7203") "autos"
      (omega arith) one_bought
