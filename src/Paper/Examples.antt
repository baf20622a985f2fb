-- ===== src/Paper/Examples.antt =====
-- Orders of a small account in whole yen.
use stock_fixer.Prelude.{
  ℕ, ◌+◌, ◌-◌, ◌*◌, ◌/◌, ◌≡◌, ◌⊎◌, refl, arith, true, false, none, some, [], ◌∷◌, ltb, leb, any,
}
use stock_fixer.Paper.Tables.{
  Money, Side, Order, OrderType, OrderStatus, Tables, claim_pending, find_row, held,
}
use stock_fixer.Paper.Fill.{apply_fill}
use stock_fixer.Paper.Fill.Shares.{Booked, apply_fill_lem}
use stock_fixer.Paper.Broker.{
  Bar, skipped, rejected, filled, fill_order, settle_order, send_order, cancel_order, find_pending,
}
use stock_fixer.Paper.Broker.Settlement.{settle_order-once, fill_order-cash}
use stock_fixer.Paper.Broker.Registration.{send_order-one_buy, cancel_order-send_order}

-- Prices in whole yen, with a balance that does not go below zero.
abbrev yen : Money ℕ
yen = record {
  zero_money = 0;
  plus = λ a b. a + b;
  minus = λ a b. a - b;
  times = λ a n. a * n;
  divided = λ a n. a / n;
  less = λ a b. ltb a b;
  at_most = λ a b. leb a b;
}

abbrev bid : Order ℕ
bid = record {
  order_id = "a1";
  symbol = "7203";
  side = Side.buy;
  qty = 100;
  price = some 0;
  order_type = OrderType.market;
  status = OrderStatus.pending;
  fill_price = none;
  realized_pnl = none;
}

abbrev account : Tables ℕ
account = record {
  orders = bid ∷ [];
  positions = record { symbol = "7203"; qty = 60; avg = 1800 } ∷ [];
  short_positions = [];
  balance = 100_000;
}

abbrev today : Bar ℕ
today = record { open_price = 2000; high_price = 2100; low_price = 1950 }

apply_fill_lem_example :
    Booked Side.sell "7203" 100 account (apply_fill yen account "a2" "7203" Side.sell 100 2000)
apply_fill_lem_example = apply_fill_lem yen account "a2" "7203" Side.sell 100 2000

settle_order-once_example :
    settle_order yen
      (settle_order yen account "a1" "7203" Side.buy 100 0 OrderType.market today).0
      "a1"
      "7203"
      Side.buy
      100
      0
      OrderType.market
      today
    ≡ ((settle_order yen account "a1" "7203" Side.buy 100 0 OrderType.market today).0, skipped)
settle_order-once_example =
    settle_order-once yen account "a1" "7203" "7203" Side.buy Side.buy 100 100 0 0 OrderType.market
      OrderType.market today today

waits : claim_pending account "a1" ≡ true
unfolding claim_pending any
waits = refl

fill_order-cash_example :
    ((ltb 100_000 (2000 * 100) ≡ true)
      × ((fill_order yen account "a1" "7203" Side.buy 100 2000).1 ≡ rejected)
      × ((fill_order yen account "a1" "7203" Side.buy 100 2000).0.balance ≡ 100_000)
      × ((fill_order yen account "a1" "7203" Side.buy 100 2000).0.positions ≡ account.positions))
    ⊎ ((ltb 100_000 (2000 * 100) ≡ false)
        × ((fill_order yen account "a1" "7203" Side.buy 100 2000).1 ≡ filled 100 2000)
        × ((fill_order yen account "a1" "7203" Side.buy 100 2000).0.balance ≡ 100_000 - 2000 * 100)
        × (held "7203" (fill_order yen account "a1" "7203" Side.buy 100 2000).0.positions
            ≡ held "7203" account.positions + 100))
fill_order-cash_example = fill_order-cash yen account "a1" "7203" 100 2000 waits (omega arith)

taken : (send_order yen account "a3" "6758" Side.buy 100 0 OrderType.market 100).1 ≡ true
unfolding send_order any
taken = refl

send_order-one_buy_example :
    send_order yen
      (send_order yen account "a3" "6758" Side.buy 100 0 OrderType.market 100).0
      "a4"
      "6758"
      Side.buy
      200
      0
      OrderType.market
      200
    ≡ ((send_order yen account "a3" "6758" Side.buy 100 0 OrderType.market 100).0, false)
send_order-one_buy_example =
    send_order-one_buy yen account "a3" "a4" "6758" 100 200 0 0 OrderType.market OrderType.market
      100 200 taken

no_short : find_row "6758" account.short_positions ≡ none
unfolding find_row
no_short = refl

no_such_order : find_pending yen "a5" account.orders ≡ none
unfolding find_pending
no_such_order = refl

cancel_order-send_order_example :
    ((cancel_order yen
        (send_order yen account "a5" "6758" Side.short 100 2000 OrderType.limit 100).0
        "a5"
        100).short_positions
      ≡ [])
    × ((cancel_order yen
          (send_order yen account "a5" "6758" Side.short 100 2000 OrderType.limit 100).0
          "a5"
          100).positions
        ≡ account.positions)
    × ((cancel_order yen
          (send_order yen account "a5" "6758" Side.short 100 2000 OrderType.limit 100).0
          "a5"
          100).balance
        ≡ 100_000)
cancel_order-send_order_example =
    cancel_order-send_order yen account "a5" "6758" 100 2000 OrderType.limit no_short no_such_order
