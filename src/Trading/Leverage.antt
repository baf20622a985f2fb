-- ===== src/Trading/Leverage.antt =====
-- The decisions of python/src/trading/regime_leverage_strategy/service.py, with the rows of types.py:
-- the regime-leverage strategy buys with leverage while the market is above its average, and sells
-- when the week turns or a day's low reaches the stop or the margin. Floats, the settings and the
-- calendar of the exchange are parameters. A time is a number of microseconds, a day the number of
-- a date.
pub mod Bars
pub mod Jobs
pub mod Dated
pub mod Log
pub mod Judged
mod Examples
use stock_fixer.Prelude.{
  ℕ, ◌≡◌, ◌⊎◌, refl, inl, inr, Bool, true, false, ◌&&◌, Option, none, some, if◌then◌else◌,
}
use stock_fixer.Prelude.Int.{ℤ, pos, sub_ℕ}

-- What the code does with its floats. `floor_div x y` is `int(x // y)` as a float: `none` where Python
-- raises.
pub record Floats (F : Type 0) : Type 0 where
  pub of_int : ℤ → F
  pub plus : F → F → F
  pub minus : F → F → F
  pub times : F → F → F
  pub divided : F → F → F
  pub floor_div : F → F → Option F
  pub less : F → F → Bool
  pub at_most : F → F → Bool
  pub is_nan : F → Bool

-- The settings, and the constants of the commission.
pub record Terms (F : Type 0) : Type 0 where
  pub initial_capital : F
  pub leverage : F
  pub slippage : F
  pub interest_annual : F
  pub maintenance : F
  pub stop_atr_mult : F
  pub commission_pct : F
  pub commission_cap : F

-- Days and times: the exchange's close on a day, the day in New York and in Japan at a time,
-- `is_us_business_day`, and the days from Monday to Friday.
pub record Market : Type 0 where
  pub bar_close_at : ℕ → ℕ
  pub us_day : ℕ → ℕ
  pub jst_day : ℕ → ℕ
  pub is_us_business_day : ℕ → Bool
  pub is_weekday : ℕ → Bool

pub data Action : Type 0 where
  entry exit noop : Action

pub data Reason : Type 0 where
  regime_entry regime_flip initial_stop margin_call weekly_noop daily_noop : Reason

pub data Failure : Type 0 where
  not_held not_whole load_failed no_rows date_overflow bad_rate stale_rate no_indicators stale_bar
        no_closed_bar no_low missing_days :
      Failure

pub data Result (A : Type 0) : Type 0 where
  ok : A → Result A
  raised : Failure → Result A

pub Result-cases :
    {A : Type 0} (r : Result A) → ((a : A) × (r ≡ ok a)) ⊎ ((e : Failure) × (r ≡ raised e))
Result-cases (ok a) = inl (a, refl)
Result-cases (raised e) = inr (e, refl)

infixl 5 ◌>>=◌
abbrev pub ◌>>=◌ : {A B : Type 0} → Result A → (A → Result B) → Result B
ok a >>= f = f a
raised e >>= f = raised e

-- `RegimeLeverageDecision`
pub record Decision (F : Type 0) : Type 0 where
  pub action : Action
  pub reason : Reason
  pub spy_price_usd : F
  pub usdjpy_rate : F
  pub shares : F
  pub entry_date : Option ℕ
  pub entry_price_jpy : Option F
  pub entry_commission_jpy : Option F
  pub equity_at_entry_jpy : Option F
  pub stop_price_jpy : Option F
  pub equity_now_jpy : F
  pub maintenance_ratio : Option F

-- `RegimeLeverageSnapshot`: a row of the log is a decision with the time at which it was written. The
-- rows stand in a list with the newest first, in place of the column `id`.
pub record Snapshot (F : Type 0) : Type 0 where
  pub executed_at : ℕ
  pub decision : Decision F

module _ {F : Type 0} (fl : Floats F) (terms : Terms F) (market : Market) where
  open fl use {of_int, plus, minus, times, divided, floor_div, less, at_most}

  abbrev pub zero_float : F
  zero_float = of_int (pos 0)

  abbrev pub or_zero : Option F → F
  or_zero none = zero_float
  or_zero (some x) = x

  -- `_calc_commission_usd`
  abbrev pub calc_commission_usd : F → F
  calc_commission_usd notional =
      let c = times notional terms.commission_pct in
      if less terms.commission_cap c then terms.commission_cap else c

  abbrev pub equity_of : Decision F → F → ℕ → ℕ → F → F → F
  equity_of d price now entered entry_price equity =
      let unrealized = times (minus price entry_price) d.shares in
      let days_held = of_int (sub_ℕ (market.jst_day now) (market.jst_day entered)) in
      let interest =
        times
          (divided (times (times entry_price d.shares) terms.interest_annual) (of_int (pos 365)))
          days_held in
      minus (minus (plus equity unrealized) interest) (or_zero d.entry_commission_jpy)

  abbrev equity_parts : Decision F → F → ℕ → Option F → Option ℕ → Option F → Result F
  equity_parts d price now (some entry_price) (some entered) (some equity) =
      ok (equity_of d price now entered entry_price equity)
  equity_parts d price now _ _ _ = raised not_held

  unfoldable pub compute_equity_now : Decision F → F → ℕ → Result F
  compute_equity_now d price now =
      equity_parts d price now d.entry_price_jpy d.entry_date d.equity_at_entry_jpy

  abbrev pub cash_preserved_noop : F → F → F → Decision F
  cash_preserved_noop cash week_close rate = record {
    action = noop;
    reason = weekly_noop;
    spy_price_usd = week_close;
    usdjpy_rate = rate;
    shares = zero_float;
    entry_date = none;
    entry_price_jpy = none;
    entry_commission_jpy = none;
    equity_at_entry_jpy = none;
    stop_price_jpy = none;
    equity_now_jpy = cash;
    maintenance_ratio = none;
  }

  abbrev pub closed_position_decision : Reason → F → F → F → Option F → Decision F
  closed_position_decision reason price rate equity_now ratio = record {
    action = exit;
    reason = reason;
    spy_price_usd = price;
    usdjpy_rate = rate;
    shares = zero_float;
    entry_date = none;
    entry_price_jpy = none;
    entry_commission_jpy = none;
    equity_at_entry_jpy = none;
    stop_price_jpy = none;
    equity_now_jpy = equity_now;
    maintenance_ratio = ratio;
  }

  -- A `noop` that keeps the position.
  abbrev pub kept_position : Decision F → Reason → F → F → F → Option F → Decision F
  kept_position d reason price rate equity_now ratio = record d {
    action = noop;
    reason = reason;
    spy_price_usd = price;
    usdjpy_rate = rate;
    equity_now_jpy = equity_now;
    maintenance_ratio = ratio;
  }

  -- `x * (1 + slippage)` and `x * (1 - slippage)`
  abbrev pub slipped_up : F → F
  slipped_up x = times x (plus (of_int (pos 1)) terms.slippage)

  abbrev pub slipped_down : F → F
  slipped_down x = times x (minus (of_int (pos 1)) terms.slippage)

  unfoldable pub decide_weekly_entry : F → F → F → F → F → ℕ → Result (Decision F)
  decide_weekly_entry cash week_close ma200 atr14 rate now =
      if less ma200 week_close
      then (let entry_price_usd = slipped_up week_close in
          elim (floor_div (times (divided cash rate) terms.leverage) entry_price_usd) [
            | none ↦ raised not_whole
            | some shares ↦
                if at_most shares zero_float
                then ok (cash_preserved_noop cash week_close rate)
                else (let commission =
                      times (calc_commission_usd (times entry_price_usd shares)) rate in
                    ok (record {
                      action = entry;
                      reason = regime_entry;
                      spy_price_usd = week_close;
                      usdjpy_rate = rate;
                      shares = shares;
                      entry_date = some now;
                      entry_price_jpy = some (times entry_price_usd rate);
                      entry_commission_jpy = some commission;
                      equity_at_entry_jpy = some cash;
                      stop_price_jpy =
                          some (times (minus week_close (times terms.stop_atr_mult atr14)) rate);
                      equity_now_jpy = minus cash commission;
                      maintenance_ratio = none;
                    }))
          ])
      else ok (cash_preserved_noop cash week_close rate)

  unfoldable pub decide_weekly_exit : Decision F → F → F → F → ℕ → Result (Decision F)
  unfolding compute_equity_now
  decide_weekly_exit d week_close ma200 rate now =
      let price = times week_close rate in
      compute_equity_now d price now >>= λ equity_now.
      if less ma200 week_close
      then ok (kept_position d weekly_noop week_close rate equity_now none)
      else (compute_equity_now d (slipped_down price) now >>= λ exit_equity.
          ok (closed_position_decision regime_flip week_close rate exit_equity none))

  -- `day_low_jpy <= stop_price_jpy`, where there is a stop.
  abbrev pub reached_stop : F → Option F → Option F
  reached_stop low none = none
  reached_stop low (some stop) = if at_most low stop then some stop else none

  unfoldable pub decide_daily_check : Decision F → F → F → ℕ → Result (Decision F)
  unfolding compute_equity_now
  decide_daily_check d day_low rate now =
      let low = times day_low rate in
      compute_equity_now d low now >>= λ equity_at_low.
      let value = times low d.shares in
      let held = less zero_float value in
      let ratio = if held then divided equity_at_low value else zero_float in
      if held && less ratio terms.maintenance
      then (compute_equity_now d (slipped_down low) now >>= λ exit_equity.
          ok (closed_position_decision margin_call day_low rate exit_equity (some ratio)))
      else elim (reached_stop low d.stop_price_jpy) [
        | some stop ↦ compute_equity_now d (slipped_down stop) now >>= λ exit_equity.
            ok (closed_position_decision initial_stop day_low rate exit_equity (some ratio))
        | none ↦ ok (kept_position d daily_noop day_low rate equity_at_low (some ratio))
      ]
