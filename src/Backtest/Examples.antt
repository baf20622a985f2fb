-- ===== src/Backtest/Examples.antt =====
-- One purchase for 600 out of 1000, half of it sold for 350 on the way and the rest for 400.
use stock_fixer.Prelude.{ℕ, ◌-◌, ◌*◌, ◌≡◌, refl, none, some, leb}
use stock_fixer.Prelude.Int.{ℤ, pos, ◌+ℤ◌, ◌-ℤ◌}
use stock_fixer.Screening.HoldEngine.{PositionEvent, scale_out as sold_in_part, exit}
use stock_fixer.Backtest.Portfolio.{
  Quantities, OpenPosition, Portfolio, new_portfolio, position_of, put_position, net_cash_flow,
  enter, sale_of, close_of, scale_out, close,
}
use stock_fixer.Backtest.Portfolio.Balance.{
  begun, entered, scaled, closed, result_of, Reached-Accounts,
}

-- Fractions in halves, numbers of shares in half shares.
abbrev halves : Quantities ℕ
halves = record {
  one = 2;
  zero_quantity = 0;
  of_shares = λ n. 2 * n;
  shares_times = λ n f. n * f;
  minus = λ a b. a - b;
  not_positive = λ a. leb a 0;
}

abbrev proceeds : ℕ → ℕ → ℕ → ℤ
proceeds sold price volume = pos (sold * price)

abbrev bought : OpenPosition ℕ
bought = record {
  symbol = "AAPL";
  entry_date = "2025-01-06";
  entry_price = 60;
  shares = 10;
  current_hf = 2;
  cost_basis = pos 600;
  realized = pos 0;
}

abbrev on_the_way : PositionEvent ℕ
on_the_way = record {
  date = "2025-03-03";
  action = sold_in_part;
  price = 35;
  held_fraction = 1;
  reason = "scale_2x";
  multiple = 2;
}

abbrev at_the_end : PositionEvent ℕ
at_the_end = record {
  date = "2025-06-02";
  action = exit;
  price = 40;
  held_fraction = 0;
  reason = "trail_stop";
  multiple = 2;
}

abbrev first_day : Portfolio ℕ
first_day = enter halves bought (new_portfolio (pos 1000))

abbrev half_sold : Portfolio ℕ
half_sold = sale_of halves proceeds "AAPL" on_the_way 0 bought first_day

abbrev half_left : OpenPosition ℕ
half_left = record bought { realized = pos 0 +ℤ pos 350; current_hf = 1 }

abbrev all_sold : Portfolio ℕ
all_sold = close_of halves proceeds "AAPL" at_the_end 0 half_left half_sold

sold_half : scale_out halves proceeds "AAPL" on_the_way 0 first_day ≡ some half_sold
unfolding scale_out enter position_of put_position
sold_half = refl

sold_all : close halves proceeds "AAPL" at_the_end 0 half_sold ≡ some all_sold
unfolding close enter position_of put_position
sold_all = refl

not_held : position_of "AAPL" (new_portfolio {Q = ℕ} (pos 1000)).positions ≡ none
unfolding position_of
not_held = refl

Reached-Accounts_example :
    (all_sold.cash +ℤ net_cash_flow all_sold.records ≡ pos 1000)
    × (result_of all_sold ≡ all_sold.cash -ℤ pos 1000)
Reached-Accounts_example = Reached-Accounts halves proceeds (pos 1000) all_sold (
    closed "AAPL" at_the_end 0 sold_all
      (scaled "AAPL" on_the_way 0 sold_half (entered bought not_held refl begun)))
