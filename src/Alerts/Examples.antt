-- ===== src/Alerts/Examples.antt =====
-- A drift that has lasted for two days, and three days with two runs on the second.
use stock_fixer.Prelude.{◌≡◌, refl, true, false, none, some, List, [], ◌∷◌, arith}
use stock_fixer.Alerts.{Streak, Config, AlertDispatch, or_zero, drift_notice, is_notice}
use stock_fixer.Alerts.Failures.{Queue}
use stock_fixer.Alerts.Streaks.{working, Day, days_in_a_row, run_days, run_days-days_in_a_row}
use stock_fixer.Alerts.Notices.{alert_run, alert_run-drift_notice}

abbrev no_streak : Streak
no_streak = record { value = none; prev = none; day = none }

abbrev three_days : List Day
three_days =
    record { day_key = "20260302"; first = true; others = [] }
    ∷ record { day_key = "20260303"; first = false; others = true ∷ [] }
    ∷ record { day_key = "20260304"; first = true; others = [] }
    ∷ []

run_days-days_in_a_row_example :
    or_zero (run_days three_days no_streak).value ≡ days_in_a_row 0 three_days
run_days-days_in_a_row_example =
    run_days-days_in_a_row three_days no_streak (refl, (refl, (refl, tt)))

abbrev drifting : Config
drifting = record {
  loss_limit = no_streak;
  drift_warn = record { value = some 2; prev = some 1; day = some "20260303" };
  health_degraded = no_streak;
  drift_stats = some (record { share = 250_000; n_triggered = 5; n_evaluated = 20 });
  drift_notified = none;
}

alert_run-drift_notice_example :
    (drift_notice working (alert_run (Queue.missing false) none true drifting).0 ≡ none)
    × ((alert_run (Queue.missing false) none false drifting).0 ≡ drifting)
    × (is_notice (drift_notice working drifting) ≡ true
        → ((alert_run (Queue.missing false) none true drifting).1 ≡ AlertDispatch.sent)
          × ((alert_run (Queue.missing false) none false drifting).1 ≡ AlertDispatch.failed))
    × (drift_notice working drifting ≡ none
        → (alert_run (Queue.missing false) none true drifting).0 ≡ drifting)
alert_run-drift_notice_example =
    alert_run-drift_notice (Queue.missing false) none drifting (λ h. omega arith)
