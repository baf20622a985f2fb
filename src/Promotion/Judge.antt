-- ===== src/Promotion/Judge.antt =====
-- The judgements of python/src/prediction/backtest_promotion/judge.py: whether a candidate won, and
-- whether a swap is undone. The numbers are a parameter: the source computes with Python's floats.
use stock_fixer.Prelude.{
  ℕ, ◌*◌, Bool, true, false, not, ◌&&◌, ◌||◌, Option, none, some, List, [], ◌∷◌, String,
  if◌then◌else◌, ltb, length, keep, lookup,
}
pub mod Decisions

-- What the code does with its floats, and its constants: `MIN_COVERAGE` times a number of rows,
-- `ROLLBACK_HIT_MARGIN - _EPS`, `UP_RATE_LOW`, `UP_RATE_HIGH` and `CONSTANT_PREDICTION_STD`.
pub record Numbers (F : Type 0) : Type 0 where
  pub nought : F
  pub less : F → F → Bool
  pub at_most : F → F → Bool
  pub minus : F → F → F
  pub covered : ℕ → F
  pub rollback_hit_margin : F
  pub up_rate_low : F
  pub up_rate_high : F
  pub constant_prediction_std : F

-- The texts of the reasons, by their condition.
pub data Reason : Type 0 where
  few_rows_of_candidate few_rows_of_production low_hit_rate high_mae low_rank_corr : Reason
  few_daily_wins constant_prediction : Reason

pub data Trigger : Type 0 where
  low_live_hit_rate low_live_rank_corr one_sided_predictions : Trigger

pub record WinDecision : Type 0 where
  pub won : Bool
  pub reasons : List Reason

pub record RollbackDecision : Type 0 where
  pub rollback : Bool
  pub triggered : List Trigger
  pub old_is_better : Bool

-- A dictionary of `baseline_metrics()`, whose values may be `None`.
abbrev pub Metrics : Type 0 → Type 0
Metrics F = List (String × Option F)

abbrev pub is_empty {ℓ} : {A : Type ℓ} → List A → Bool
is_empty [] = true
is_empty (x ∷ xs) = false

-- `if test: reasons.append(r)`
abbrev pub append_if {ℓ} : {A : Type ℓ} → Bool → A → List A → List A
append_if test r later = if test then r ∷ later else later

module _ {F : Type 0} where
  abbrev pub flat : Option (Option F) → Option F
  flat none = none
  flat (some o) = o

  -- `_get`
  unfoldable pub get_metric : Metrics F → String → Option F
  get_metric metrics key = flat (lookup key metrics)

module _ {F : Type 0} (numbers : Numbers F) where
  abbrev pub too_few : Option F → F → Bool
  too_few none need = true
  too_few (some n) need = numbers.less n need

  -- `c is None or p is None or not c > p`
  abbrev pub not_above : Option F → Option F → Bool
  not_above none p = true
  not_above (some c) none = true
  not_above (some c) (some p) = not (numbers.less p c)

  -- `c is None or p is None or not c < p`
  abbrev pub not_below : Option F → Option F → Bool
  not_below none p = true
  not_below (some c) none = true
  not_below (some c) (some p) = not (numbers.less c p)

  abbrev pub not_above_and_positive : Option F → Option F → Bool
  not_above_and_positive none p = true
  not_above_and_positive (some c) none = true
  not_above_and_positive (some c) (some p) = not (numbers.less p c && numbers.less numbers.nought c)

  unfoldable pub is_constant_prediction : Option F → Bool
  is_constant_prediction none = false
  is_constant_prediction (some std) = numbers.less std numbers.constant_prediction_std

  abbrev pub daily_wins : List F → ℕ
  daily_wins daily_diff = length (keep (λ d. numbers.less numbers.nought d) daily_diff)

  abbrev pub no_majority : List F → Bool
  no_majority daily_diff =
      is_empty daily_diff || not (ltb (length daily_diff) (daily_wins daily_diff * 2))

  unfoldable pub win_reasons : Metrics F → Metrics F → List F → ℕ → List Reason
  win_reasons candidate production daily_diff expected_rows =
      let need = numbers.covered expected_rows in
      append_if (too_few (get_metric candidate "n_baseline") need) Reason.few_rows_of_candidate (
        append_if (too_few (get_metric production "n_baseline") need) Reason.few_rows_of_production
          (append_if
            (not_above (get_metric candidate "hit_rate_minus_majority")
              (get_metric production "hit_rate_minus_majority"))
            Reason.low_hit_rate
            (append_if (not_below (get_metric candidate "mae") (get_metric production "mae"))
              Reason.high_mae
              (append_if
                (not_above_and_positive (get_metric candidate "rank_corr")
                  (get_metric production "rank_corr"))
                Reason.low_rank_corr
                (append_if (no_majority daily_diff) Reason.few_daily_wins (
                  append_if (is_constant_prediction (get_metric candidate "prediction_std"))
                    Reason.constant_prediction []))))))

  unfoldable pub judge_win : Metrics F → Metrics F → List F → ℕ → WinDecision
  judge_win candidate production daily_diff expected_rows =
      let reasons = win_reasons candidate production daily_diff expected_rows in
      record { won = is_empty reasons; reasons = reasons }

  abbrev pub fell_behind : Option F → Option F → Bool
  fell_behind none bt = false
  fell_behind (some live) none = false
  fell_behind (some live) (some bt) =
      numbers.at_most numbers.rollback_hit_margin (numbers.minus bt live)

  abbrev pub or_nought : Option F → F
  or_nought none = numbers.nought
  or_nought (some v) = v

  abbrev pub is_one_sided : Option F → Bool
  is_one_sided none = false
  is_one_sided (some r) = numbers.less numbers.up_rate_high r || numbers.less r numbers.up_rate_low

  abbrev pub is_better : Option F → Option F → Option F → F → Bool
  is_better none old_rc live_hit live_rc = false
  is_better (some old) none live_hit live_rc = false
  is_better (some old) (some rc) none live_rc = false
  is_better (some old) (some rc) (some live) live_rc =
      numbers.less live old && numbers.less live_rc rc

  abbrev pub triggers : Metrics F → Metrics F → List Trigger
  triggers live backtest_candidate =
      append_if
        (fell_behind (get_metric live "hit_rate_minus_majority")
          (get_metric backtest_candidate "hit_rate_minus_majority"))
        Trigger.low_live_hit_rate
        (append_if (numbers.at_most (or_nought (get_metric live "rank_corr")) numbers.nought)
          Trigger.low_live_rank_corr
          (append_if (is_one_sided (get_metric live "predicted_up_rate"))
            Trigger.one_sided_predictions []))

  pub judge_rollback : Metrics F → Metrics F → Metrics F → RollbackDecision
  judge_rollback live backtest_candidate backtest_old_production =
      let triggered = triggers live backtest_candidate in
      let better =
        is_better (get_metric backtest_old_production "hit_rate_minus_majority")
          (get_metric backtest_old_production "rank_corr")
          (get_metric live "hit_rate_minus_majority") (or_nought (get_metric live "rank_corr")) in
      record {
        rollback = not (is_empty triggered) && better;
        triggered = triggered;
        old_is_better = better;
      }
