-- ===== src/Trading/Leverage/Bars.antt =====
-- Which daily bars the daily check looks at: `_latest_expected_bar_date`, `_us_business_days_behind`,
-- `_weekdays_behind`, `_missing_business_days` and `select_unchecked_closed_bars` of
-- python/src/trading/regime_leverage_strategy/service.py.
use stock_fixer.Prelude.{
  ℕ, zero, suc, ◌+◌, ◌-◌, Bool, not, ◌&&◌, Option, none, some, List, [], ◌∷◌, if◌then◌else◌, leb,
  ltb, keep, length, mem_nat, map,
}
use stock_fixer.Prelude.Elem.{is_empty}
use stock_fixer.Trading.Leverage.{Market}

-- A row of the frame; the columns that the jobs read.
pub record Bar (F : Type 0) : Type 0 where
  pub on_day : ℕ
  pub low : F
  pub close : F
  pub ma200 : F
  pub atr14 : F

-- The days from `first` on, `n` of them.
abbrev pub days_from : ℕ → ℕ → List ℕ
days_from first zero = []
days_from first (suc n) = first ∷ days_from (suc first) n

abbrev pub last_or_none {ℓ} : {A : Type ℓ} → List A → Option A
last_or_none [] = none
last_or_none (x ∷ []) = some x
last_or_none (x ∷ y ∷ xs) = last_or_none (y ∷ xs)

module _ (market : Market) where
  open market use {bar_close_at, us_day, is_us_business_day, is_weekday}

  -- A business day whose bar has closed by `now`.
  abbrev pub is_due : ℕ → ℕ → Bool
  is_due now day = is_us_business_day day && leb (bar_close_at day) now

  -- The loop down from a day; before the first day of the calendar Python raises.
  unfoldable pub latest_due : ℕ → ℕ → Option ℕ
  latest_due now zero = if is_due now zero then some zero else none
  latest_due now (suc day) =
      let earlier = latest_due now day in if is_due now (suc day) then some (suc day) else earlier

  unfoldable pub latest_expected_bar_date : ℕ → Option ℕ
  unfolding latest_due
  latest_expected_bar_date now = latest_due now (us_day now)

  unfoldable pub us_business_days_behind : ℕ → ℕ → ℕ
  us_business_days_behind last_bar expected_bar =
      length (keep is_us_business_day (days_from (last_bar + 1) (expected_bar - last_bar)))

  unfoldable pub weekdays_behind : ℕ → ℕ → ℕ
  weekdays_behind last_bar expected_bar =
      length (keep is_weekday (days_from (last_bar + 1) (expected_bar - last_bar)))

  module _ {F : Type 0} where
    abbrev pub bar_days : List (Bar F) → List ℕ
    bar_days = map (λ b. b.on_day)

    abbrev pub is_missing : List (Bar F) → ℕ → ℕ → Bool
    is_missing df since day =
        is_us_business_day day && (ltb since (bar_close_at day) && not (mem_nat day (bar_days df)))

    unfoldable pub missing_business_days : List (Bar F) → ℕ → ℕ → List ℕ
    missing_business_days df since last_bar =
        let first_day = us_day since in
        keep (is_missing df since) (days_from first_day (last_bar - first_day))

    abbrev pub has_closed : ℕ → Bar F → Bool
    has_closed now b = leb (bar_close_at b.on_day) now

    abbrev pub is_unchecked : ℕ → Bar F → Bool
    is_unchecked since b = ltb since (bar_close_at b.on_day)

    -- `closed.iloc[[-1]]`
    abbrev pub last_one : List (Bar F) → List (Bar F)
    last_one bars = elim (last_or_none bars) [ none ↦ [] | some b ↦ b ∷ [] ]

    abbrev pub unchecked_or_last : List (Bar F) → Option ℕ → List (Bar F)
    unchecked_or_last closed none = last_one closed
    unchecked_or_last closed (some since) =
        let unchecked = keep (is_unchecked since) closed in
        if is_empty unchecked then last_one closed else unchecked

    unfoldable pub select_unchecked_closed_bars : List (Bar F) → Option ℕ → ℕ → List (Bar F)
    select_unchecked_closed_bars df last_checked_at now =
        unchecked_or_last (keep (has_closed now) df) last_checked_at
