-- ===== src/Screening/Examples.antt =====
-- A position that doubles, is sold in half, and falls below its trailing stop.
use stock_fixer.Prelude.{
  ℕ, ◌-◌, ◌*◌, ◌/◌, ◌≡◌, ◌≤◌, ◌⊎◌, refl, arith, true, false, none, List, [], ◌∷◌, ◌++◌, str_eq, leb,
  ltb, ◌==◌, keep,
}
use stock_fixer.Prelude.Elem.{is_empty}
use stock_fixer.Screening.HoldEngine.{
  Floats, HoldRules, PriceRow, PositionEvent, entry_event, simulate_position, find_entry,
  drop_invalid_closes,
}
use stock_fixer.Screening.HoldEngine.Lookahead.{Agrees, last_row, simulate_position-Agrees}
use stock_fixer.Screening.HoldEngine.Course.{Course, simulate_position-Course}

-- Percentages.
abbrev percent : Floats ℕ
percent = record {
  zero_float = 0;
  one_float = 100;
  minus = λ a b. a - b;
  times = λ a b. a * b / 100;
  divided = λ a b. a * 100 / b;
  less = λ a b. ltb a b;
  at_most = λ a b. leb a b;
  same = λ a b. a == b;
  is_positive_finite = λ a. ltb 0 a;
}

abbrev some_rules : HoldRules ℕ
some_rules = record {
  rolling_ma = λ seen. none;
  trail_stop_pct = 30;
  scale_out_multiples = 200 ∷ 400 ∷ [];
  scale_out_fraction = 50;
  scale_reason = λ level. "scale";
}

abbrev first_rows : List (PriceRow ℕ)
first_rows = record { date = "d1"; close = 1000 } ∷ record { date = "d2"; close = 2100 } ∷ []

abbrev later_rows : List (PriceRow ℕ)
later_rows = record { date = "d3"; close = 0 } ∷ record { date = "d4"; close = 1200 } ∷ []

entered : is_empty (simulate_position percent some_rules first_rows "d1") ≡ false
unfolding simulate_position find_entry drop_invalid_closes keep
entered = refl

simulate_position-Agrees_example :
    Agrees percent some_rules
      (last_row (drop_invalid_closes percent some_rules first_rows))
      (drop_invalid_closes percent some_rules later_rows)
      (simulate_position percent some_rules first_rows "d1")
      (simulate_position percent some_rules (first_rows ++ later_rows) "d1")
simulate_position-Agrees_example =
    simulate_position-Agrees percent some_rules first_rows later_rows "d1" entered

reflexive : (n : ℕ) → (n == n) ≡ true
reflexive n = ground arith

simulate_position-Course_example :
    (simulate_position percent some_rules (first_rows ++ later_rows) "d1" ≡ [])
    ⊎ ((b : PriceRow ℕ) × (n : ℕ) × (rest : List (PositionEvent ℕ)) × (simulate_position percent
            some_rules
            (first_rows ++ later_rows)
            "d1"
          ≡ entry_event percent some_rules b ∷ rest)
        × (str_eq b.date "d1" ≡ true)
        × (n ≤ 2)
        × Course percent some_rules n rest)
simulate_position-Course_example =
    simulate_position-Course percent some_rules reflexive (first_rows ++ later_rows) "d1"
