-- ===== src/Trading/Leverage/Jobs.antt =====
-- The weekly and the daily job of python/src/trading/regime_leverage_strategy/service.py over the log
-- of repository.py. The frames of the port (with the columns that `build_weekly_frame` adds) are
-- arguments, `none` where the port raises; so are the times at which the code reads the clock, and
-- the time `at` that the database writes into a new row.
use stock_fixer.Prelude.{
  ℕ, Bool, true, false, ◌||◌, Option, none, some, List, [], ◌∷◌, if◌then◌else◌, leb, ltb,
}
use stock_fixer.Trading.Leverage.{
  Floats, Terms, Market, Action, Reason, Failure, Result, ok, raised, ◌>>=◌, Decision, Snapshot,
  zero_float, decide_weekly_entry, decide_weekly_exit, decide_daily_check,
}
use stock_fixer.Prelude.Elem.{is_empty}
use stock_fixer.Trading.Leverage.Bars.{
  Bar, last_or_none, latest_expected_bar_date, us_business_days_behind, weekdays_behind,
  missing_business_days, select_unchecked_closed_bars,
}

-- `iloc[-1]`
abbrev pub last_of : {A : Type 0} → List A → Result A
last_of xs = elim (last_or_none xs) [ none ↦ raised Failure.no_rows | some x ↦ ok x ]

abbrev pub given : {A : Type 0} → Failure → Option A → Result A
given e none = raised e
given e (some x) = ok x

-- A row of the frame of the exchange rate.
pub record Rate (F : Type 0) : Type 0 where
  pub on_day : ℕ
  pub rate : F

abbrev pub is_daily : Reason → Bool
is_daily Reason.daily_noop = true
is_daily _ = false

abbrev pub is_check : Reason → Bool
is_check Reason.daily_noop = true
is_check Reason.regime_entry = true
is_check _ = false

abbrev pub is_exit : Action → Bool
is_exit Action.exit = true
is_exit _ = false

module _ {F : Type 0} where
  abbrev pub get_latest_snapshot : List (Snapshot F) → Option (Snapshot F)
  get_latest_snapshot [] = none
  get_latest_snapshot (s ∷ log) = some s

  -- The last of a list that has a first.
  abbrev pub last_from : Bar F → List (Bar F) → Bar F
  last_from b [] = b
  last_from b (c ∷ cs) = last_from c cs

  unfoldable pub get_last_daily_check_at : List (Snapshot F) → Option ℕ
  get_last_daily_check_at [] = none
  get_last_daily_check_at (s ∷ log) =
      if is_check s.decision.reason then some s.executed_at else get_last_daily_check_at log

  abbrev pub insert_snapshot : ℕ → Decision F → List (Snapshot F) → List (Snapshot F)
  insert_snapshot at d log = record { executed_at = at; decision = d } ∷ log

module _ {F : Type 0} (fl : Floats F) (terms : Terms F) (market : Market) where
  open fl use {at_most, is_nan}

  unfoldable pub load_latest_usdjpy : Option (List (Rate F)) → ℕ → Result F
  unfolding latest_expected_bar_date
  load_latest_usdjpy fx now = given Failure.load_failed fx >>= λ rows. last_of rows >>= λ r.
      if is_nan r.rate || at_most r.rate (zero_float fl terms market)
      then raised Failure.bad_rate
      else (given Failure.date_overflow (latest_expected_bar_date market now) >>= λ expected_bar.
          if ltb 1 (weekdays_behind market r.on_day expected_bar)
          then raised Failure.stale_rate
          else ok r.rate)

  -- `snapshot is None or snapshot.shares <= 0`
  abbrev pub holds_none : Option (Snapshot F) → Bool
  holds_none none = true
  holds_none (some s) = at_most s.decision.shares (zero_float fl terms market)

  unfoldable pub weekly_decision : Option (Snapshot F) → Bar F → F → ℕ → Result (Decision F)
  weekly_decision none b rate now =
      decide_weekly_entry fl terms market terms.initial_capital b.close b.ma200 b.atr14 rate now
  weekly_decision (some s) b rate now =
      if at_most s.decision.shares (zero_float fl terms market)
      then decide_weekly_entry fl terms market s.decision.equity_now_jpy b.close b.ma200 b.atr14
          rate now
      else decide_weekly_exit fl terms market s.decision b.close b.ma200 rate now

  -- A job: what it returns or raises, and the log after it.
  abbrev pub Job : Type 0 → Type 0
  Job A = Result A × List (Snapshot F)

  unfoldable pub weekly_checked :
      Option (List (Bar F))
      → Option (List (Rate F))
      → Option (Snapshot F)
      → ℕ
      → ℕ
      → Result (Decision F)
  weekly_checked spy fx snapshot rate_now now = given Failure.load_failed spy >>= λ df.
      load_latest_usdjpy fx rate_now >>= λ rate. last_of df >>= λ b.
      if is_nan b.ma200 || is_nan b.atr14
      then raised Failure.no_indicators
      else (given Failure.date_overflow (latest_expected_bar_date market now) >>= λ expected_bar.
          if ltb b.on_day expected_bar
          then raised Failure.stale_bar
          else weekly_decision snapshot b rate now)

  unfoldable pub run_regime_leverage_weekly_check :
      List (Snapshot F)
      → Option (List (Bar F))
      → Option (List (Rate F))
      → ℕ
      → ℕ
      → ℕ
      → Job (Decision F)
  run_regime_leverage_weekly_check log spy fx rate_now now at =
      elim (weekly_checked spy fx (get_latest_snapshot log) rate_now now) [
        | raised e ↦ (raised e, log)
        | ok d ↦ (ok d, insert_snapshot at d log)
      ]

  unfoldable pub judge_bar : Decision F → F → ℕ → Bar F → Result (Decision F)
  judge_bar d rate now b =
      if is_nan b.low
      then raised Failure.no_low
      else decide_daily_check fl terms market d b.low rate now

  -- The loop over the lows: the decision of the bar that ends it, or of the last one.
  unfoldable pub judge_bars : Decision F → F → ℕ → Bar F → List (Bar F) → Result (Decision F)
  judge_bars d rate now b [] = judge_bar d rate now b
  judge_bars d rate now b (c ∷ cs) =
      let rest = judge_bars d rate now c cs in
      judge_bar d rate now b >>= λ decision. if is_exit decision.action then ok decision else rest

  -- The time of the last daily check: that of the latest row, or the log is asked.
  unfoldable pub last_checked : Snapshot F → List (Snapshot F) → Option ℕ
  last_checked s log =
      if is_daily s.decision.reason then some s.executed_at else get_last_daily_check_at log

  unfoldable pub missing_days : List (Bar F) → Option ℕ → ℕ → List ℕ
  missing_days df none last_bar = []
  missing_days df (some since) last_bar = missing_business_days market df since last_bar

  -- What a check that ends in no exit does: it raises, or returns without a row, or writes one.
  unfoldable pub finish_check :
      List (Snapshot F) → Decision F → List ℕ → ℕ → ℕ → ℕ → Job (Decision F)
  finish_check log decision missing last_bar now at =
      if is_empty missing
      then elim (latest_expected_bar_date market now) [
        | none ↦ (raised Failure.date_overflow, log)
        | some expected_bar ↦
            if ltb last_bar expected_bar
            then (if leb 2 (us_business_days_behind market last_bar expected_bar)
                then (raised Failure.stale_bar, log)
                else (ok decision, log))
            else (ok decision, insert_snapshot at decision log)
      ]
      else (raised Failure.missing_days, log)

  unfoldable pub check_bars :
      List (Snapshot F)
      → Decision F
      → List (Bar F)
      → F
      → Option ℕ
      → ℕ
      → ℕ
      → List (Bar F)
      → Job (Decision F)
  check_bars log d df rate since now at [] = (raised Failure.no_closed_bar, log)
  check_bars log d df rate since now at (b ∷ bs) =
      let last_bar = (last_from b bs).on_day in
      elim (judge_bars d rate now b bs) [
        | raised e ↦ (raised e, log)
        | ok decision ↦
            if is_exit decision.action
            then (ok decision, insert_snapshot at decision log)
            else finish_check log decision (missing_days df since last_bar) last_bar now at
      ]

  unfoldable pub check_held :
      List (Snapshot F)
      → Snapshot F
      → Option (List (Bar F))
      → Option (List (Rate F))
      → ℕ
      → ℕ
      → ℕ
      → Job (Decision F)
  check_held log s spy fx rate_now now at = elim (given Failure.load_failed spy) [
    | raised e ↦ (raised e, log)
    | ok df ↦ elim (load_latest_usdjpy fx rate_now) [
      | raised e ↦ (raised e, log)
      | ok rate ↦
          let since = last_checked s log in
          check_bars log s.decision df rate since now at
            (select_unchecked_closed_bars market df since now)
    ]
  ]

  -- `none` where there is no position and nothing is checked.
  abbrev pub checked_or_none : Job (Decision F) → Job (Option (Decision F))
  checked_or_none (ok d, log) = (ok (some d), log)
  checked_or_none (raised e, log) = (raised e, log)

  unfoldable pub run_regime_leverage_daily_margin_check :
      List (Snapshot F)
      → Option (List (Bar F))
      → Option (List (Rate F))
      → ℕ
      → ℕ
      → ℕ
      → Job (Option (Decision F))
  run_regime_leverage_daily_margin_check log spy fx rate_now now at =
      elim (get_latest_snapshot log) [
        | none ↦ (ok none, log)
        | some s ↦
            if at_most s.decision.shares (zero_float fl terms market)
            then (ok none, log)
            else checked_or_none (check_held log s spy fx rate_now now at)
      ]
