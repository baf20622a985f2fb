-- ===== src/Paper/Day/Examples.antt =====
-- A morning with two orders: one is filled, and the prices of the other cannot be read.
use stock_fixer.Prelude.{
  ℕ, ◌+◌, ◌-◌, ◌*◌, ◌/◌, ◌≡◌, refl, false, not, ◌&&◌, ◌||◌, none, some, [], ◌∷◌, String, any, ltb,
  leb, ◌==◌, str_eq, if◌then◌else◌, keep,
}
use stock_fixer.Paper.Tables.{Money, Side, Order, OrderType, OrderStatus, Tables, claim_pending}
use stock_fixer.Paper.Broker.{Bar}
use stock_fixer.Paper.Day.{
  Day, Accesses, count_pending_paper_orders, settle_pending_orders, waiting, errors_of, is_final,
  run_daily_settle_retry, call_failed, last_row, adjusted,
}
use stock_fixer.Paper.Day.Claims.{closes, settle_pending_orders-claims}
use stock_fixer.Paper.Day.Jobs.{DistinctIds, run_daily_settle_retry-raises}

-- Prices in whole yen.
abbrev yen : Money ℕ
yen = record {
  zero_money = 0;
  plus = λ a b. a + b;
  minus = λ a b. a - b;
  times = λ a n. a * n;
  divided = λ a n. a / n;
  less = λ a b. ltb a b;
  at_most = λ a b. leb a b;
}

abbrev order_of : String → String → Order ℕ
order_of id symbol = record {
  order_id = id;
  symbol = symbol;
  side = Side.buy;
  qty = 10;
  price = some 0;
  order_type = OrderType.market;
  status = OrderStatus.pending;
  fill_price = none;
  realized_pnl = none;
}

abbrev account : Tables ℕ
account = record {
  orders = order_of "a1" "7203" ∷ order_of "a2" "9984" ∷ [];
  positions = [];
  short_positions = [];
  balance = 100_000;
}

abbrev bar : Bar ℕ
bar = record { open_price = 2000; high_price = 2100; low_price = 1950 }

abbrev morning : Day ℕ
morning = record {
  today = 20;
  quote = λ s. if str_eq s "7203" then last_row 20 bar else call_failed;
  placed = λ o. record { is_us = false; signal_date = some 19; created_at = some (19, 0) };
  is_nan = λ x. x == 0;
  adjust = λ db o p. record {
    positions = db.positions;
    short_positions = db.short_positions;
    answer = adjusted o.qty 0;
  };
  fails = λ o. false;
}

settle_pending_orders-claims_example :
    claim_pending (settle_pending_orders yen morning account).0 "a2" ≡ (
      claim_pending account "a2"
      && not (any (closes yen morning "a2") (settle_pending_orders yen morning account).1))
settle_pending_orders-claims_example = settle_pending_orders-claims yen morning account "a2"

apart : DistinctIds (waiting yen morning account)
unfolding any keep
apart = (refl, (refl, tt))

abbrev all_work : Accesses
all_work = record { count_fails = false; run_fails = false; recount_fails = false }

run_daily_settle_retry-raises_example :
    (run_daily_settle_retry yen morning false all_work 9 55 account).raises ≡ (
      false
      || (ltb 0 (count_pending_paper_orders yen morning account)
          && ((not false && false)
              || (is_final 9 55
                  && (false
                      || (not false
                          && ltb 0 (
                              errors_of yen morning
                                (settle_pending_orders yen morning account).1)))))))
run_daily_settle_retry-raises_example =
    run_daily_settle_retry-raises yen morning false all_work 9 55 account apart
