-- ===== src/Trading/Leverage/Examples.antt =====
-- A first entry, and a day's check of a position of ten shares. Day 0 is Monday, 2 March 2026; the
-- exchange closes at 21:00 UTC, and floats are natural numbers.
use stock_fixer.Prelude.{
  ℕ, ◌+◌, ◌-◌, ◌*◌, ◌/◌, ◌%◌, ◌≡◌, ◌≢◌, ◌≤◌, ◌<◌, refl, arith, false, none, some, List, [], ◌∷◌,
  ltb, leb, keep,
}
use stock_fixer.Prelude.Int.{pos_part}
use stock_fixer.Calendar.Date.{day_us}
use stock_fixer.Trading.Leverage.{
  Floats, Terms, Market, Action, Reason, Failure, ok, raised, Decision, Snapshot, kept_position,
  decide_daily_check,
}
use stock_fixer.Trading.Leverage.Bars.{
  Bar, latest_expected_bar_date, weekdays_behind, missing_business_days,
  select_unchecked_closed_bars, us_business_days_behind,
}
use stock_fixer.Trading.Leverage.Jobs.{
  Rate, insert_snapshot, load_latest_usdjpy, judge_bar, judge_bars, last_checked,
  get_last_daily_check_at, missing_days, finish_check, check_bars, check_held,
  run_regime_leverage_weekly_check, run_regime_leverage_daily_margin_check,
}
use stock_fixer.Trading.Leverage.Dated.{AllDated}
use stock_fixer.Trading.Leverage.Log.{Ordered, begun, weekly, Reached-Ordered}
use stock_fixer.Trading.Leverage.Judged.{IsJudged, daily_margin_check-IsJudged}

abbrev whole : Floats ℕ
whole = record {
  of_int = pos_part;
  plus = ◌+◌;
  minus = ◌-◌;
  times = ◌*◌;
  divided = ◌/◌;
  floor_div = λ x y. some (x / y);
  less = ltb;
  at_most = leb;
  is_nan = λ x. false;
}

abbrev some_terms : Terms ℕ
some_terms = record {
  initial_capital = 1000;
  leverage = 2;
  slippage = 0;
  interest_annual = 0;
  maintenance = 0;
  stop_atr_mult = 2;
  commission_pct = 0;
  commission_cap = 16;
}

abbrev close_of : ℕ → ℕ
close_of day = day * day_us + 75600000000

abbrev day_of : ℕ → ℕ
day_of t = t / day_us

abbrev exchange : Market
exchange = record {
  bar_close_at = close_of;
  us_day = day_of;
  jst_day = λ t. (t + 32400000000) / day_us;
  is_us_business_day = λ n. ltb (n % 7) 5;
  is_weekday = λ n. ltb (n % 7) 5;
}

closes : (day now : ℕ) → close_of day ≤ now → day ≤ day_of now
closes day now h = omega arith

opens : (day since : ℕ) → since < close_of day → day_of since ≤ day
opens day since h = omega arith

abbrev a_bar : ℕ → ℕ → Bar ℕ
a_bar day low = record { on_day = day; low = low; close = 100; ma200 = 80; atr14 = 5 }

abbrev a_rate : ℕ → Rate ℕ
a_rate day = record { on_day = day; rate = 1 }

-- The first entry, on the Tuesday.
abbrev tuesday : ℕ
tuesday = close_of 1 + 1

Reached-Ordered_example :
    let log =
      (run_regime_leverage_weekly_check whole some_terms exchange []
        (some (a_bar 1 90 ∷ []))
        (some (a_rate 1 ∷ []))
        tuesday
        tuesday
        tuesday).1 in
    Ordered whole some_terms exchange log
    × AllDated whole some_terms exchange tuesday
        (run_regime_leverage_weekly_check whole some_terms exchange log
          (some (a_bar 1 90 ∷ []))
          (some (a_rate 1 ∷ []))
          tuesday
          tuesday
          tuesday).0
    × ((run_regime_leverage_weekly_check whole some_terms exchange log
          (some (a_bar 1 90 ∷ []))
          (some (a_rate 1 ∷ []))
          tuesday
          tuesday
          tuesday).0
        ≢ raised Failure.not_held)
    × ((run_regime_leverage_daily_margin_check whole some_terms exchange log
          (some (a_bar 1 90 ∷ []))
          (some (a_rate 1 ∷ []))
          tuesday
          tuesday
          tuesday).0
        ≢ raised Failure.not_held)
Reached-Ordered_example =
    Reached-Ordered whole some_terms exchange refl
      (run_regime_leverage_weekly_check whole some_terms exchange [] (some (a_bar 1 90 ∷ []))
        (some (a_rate 1 ∷ [])) tuesday tuesday tuesday).1
      (some (a_bar 1 90 ∷ [])) (some (a_rate 1 ∷ [])) tuesday tuesday tuesday
      (weekly (some (a_bar 1 90 ∷ [])) (some (a_rate 1 ∷ [])) tuesday tuesday tuesday begun)

abbrev entered : Snapshot ℕ
entered = record {
  executed_at = close_of 0 + 1;
  decision = record {
    action = Action.entry;
    reason = Reason.regime_entry;
    spy_price_usd = 100;
    usdjpy_rate = 1;
    shares = 10;
    entry_date = some (close_of 0);
    entry_price_jpy = some 100;
    entry_commission_jpy = some 0;
    equity_at_entry_jpy = some 1000;
    stop_price_jpy = some 50;
    equity_now_jpy = 1000;
    maintenance_ratio = none;
  };
}

abbrev frame : List (Bar ℕ)
frame = a_bar 0 95 ∷ a_bar 1 90 ∷ []

abbrev kept : Decision ℕ
kept = kept_position whole some_terms exchange entered.decision Reason.daily_noop 90 1 1000 (some 1)

check_writes :
    run_regime_leverage_daily_margin_check whole some_terms exchange
      (entered ∷ [])
      (some frame)
      (some (a_rate 1 ∷ []))
      tuesday
      tuesday
      tuesday
    ≡ (ok (some kept), insert_snapshot tuesday kept (entered ∷ []))
unfolding run_regime_leverage_daily_margin_check check_held load_latest_usdjpy
    latest_expected_bar_date weekdays_behind last_checked get_last_daily_check_at check_bars
    judge_bars judge_bar decide_daily_check finish_check missing_days missing_business_days
    select_unchecked_closed_bars us_business_days_behind keep
check_writes = refl

since_entry : last_checked whole some_terms exchange entered (entered ∷ []) ≡ some (close_of 0 + 1)
unfolding last_checked get_last_daily_check_at
since_entry = refl

daily_margin_check-IsJudged_example :
    (rate : ℕ) × (load_latest_usdjpy whole some_terms exchange (some (a_rate 1 ∷ [])) tuesday
      ≡ ok rate)
    × IsJudged whole some_terms exchange entered.decision rate tuesday frame 1
daily_margin_check-IsJudged_example =
    daily_margin_check-IsJudged whole some_terms exchange closes opens [] entered kept frame
      (some (a_rate 1 ∷ [])) tuesday tuesday tuesday (close_of 0 + 1) 1 check_writes refl
      since_entry refl (omega arith) (omega arith)
