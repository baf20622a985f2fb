-- ===== src/Alerts/Notices.antt =====
-- When a drift is reported (python/src/utils/alert_service.py): once, and again only when there is
-- reason to.
use stock_fixer.Prelude.{
  ℕ, ◌≡◌, ◌≤◌, refl, ap, ◌∙◌, inl, inr, arith, Bool, true, false, Option, none, some, List, String,
  Bool-cases, Option-cases, any,
}
use stock_fixer.Alerts.{
  Config, Notice, AlertResult, AlertDispatch, decide_drift_notice, drift_notice, mark_of,
  mark_or_zero, share_of, read, get_streak, is_notice, drift_warn_threshold,
  check_pipeline_fail_rule, check_loss_limit_rule, check_drift_warn_rule,
  check_health_degraded_rule, check_prediction_output_rule, evaluate_alert_conditions,
  commit_notified_marks, run_conditional_notification,
}
use stock_fixer.Alerts.Failures.{Queue}
use stock_fixer.Alerts.Streaks.{working}

-- The evaluation and the notification of one day.
abbrev pub alert_run : Queue → Option (List String) → Bool → Config → Config × AlertDispatch
alert_run queue ids delivered c =
    run_conditional_notification working (evaluate_alert_conditions working queue ids c)
      (some delivered) c

-- After its mark no notice is due, where a warning has a positive share.
decided :
    (count share n ns : ℕ) (kind : Notice)
    → (drift_warn_threshold ≤ count → 1 ≤ share)
    → decide_drift_notice count share n ns ≡ some kind
    → let m = mark_or_zero (mark_of count share (some kind)) in
      decide_drift_notice count share m.count m.share ≡ none
unfolding decide_drift_notice
decided count share n ns Notice.start warned e = ground arith
decided count share n ns Notice.worse warned e = ground arith
decided count share n ns Notice.periodic warned e = ground arith
decided count share n ns Notice.resolved warned e = ground arith

pipeline-mark : (queue : Queue) → (check_pipeline_fail_rule queue).notified_mark ≡ none
unfolding check_pipeline_fail_rule
pipeline-mark queue = ground arith

output-mark : (ids : Option (List String)) → (check_prediction_output_rule ids).notified_mark ≡ none
unfolding check_prediction_output_rule
output-mark none = refl
output-mark (some ids) = refl

-- The mark that a delivered message leaves.
abbrev marked : Option Notice → Config → Config
marked none c = c
marked (some kind) c = record c {
  drift_notified =
      mark_of (get_streak working c.drift_warn) (share_of (read working c.drift_stats)) (some kind);
}

commit-marked :
    (queue : Queue) (ids : Option (List String)) (c : Config)
    → commit_notified_marks working (evaluate_alert_conditions working queue ids c) c
      ≡ marked (drift_notice working c) c
unfolding commit_notified_marks evaluate_alert_conditions check_loss_limit_rule
    check_health_degraded_rule check_drift_warn_rule
commit-marked queue ids c = elim (Option-cases (drift_notice working c)) [
  | inl e ↦ ground (arith, e, pipeline-mark queue, output-mark ids)
  | inr (kind, e) ↦ ground (arith, e, pipeline-mark queue, output-mark ids)
]

any-triggered :
    (queue : Queue) (ids : Option (List String)) (c : Config)
    → is_notice (drift_notice working c) ≡ true
    → any (λ (r : AlertResult). r.triggered) (evaluate_alert_conditions working queue ids c) ≡ true
unfolding any evaluate_alert_conditions check_drift_warn_rule
any-triggered queue ids c h = ground (arith, h)

marked-settled :
    (c : Config)
    → (drift_warn_threshold ≤ get_streak working c.drift_warn → 1 ≤ share_of c.drift_stats)
    → drift_notice working (marked (drift_notice working c) c) ≡ none
marked-settled c warned =
    let m = mark_or_zero c.drift_notified in
    elim (Option-cases (drift_notice working c)) [
      | inl e ↦ rw (e, marked) e
      | inr (kind, e) ↦
          rw (e, marked)
            (decided (get_streak working c.drift_warn) (share_of c.drift_stats) m.count m.share kind
              warned e)
    ]

no_notice :
    (c : Config) → (is_notice (drift_notice working c) ≡ true → ⊥) → drift_notice working c ≡ none
no_notice c never = elim (Option-cases (drift_notice working c)) [
  | inl e ↦ e
  | inr (kind, e) ↦ absurd (never (ap is_notice e))
]

-- Where the table can be read and written, and a warning of at least two days has a positive share:
-- after a message that was delivered no drift notice is due any more, so the same state is never
-- reported twice. A message that was not delivered changes no row, so the notice stays due, and the
-- result says so. And without a due notice the rows stay as they are.
pub alert_run-drift_notice :
    (queue : Queue) (ids : Option (List String)) (c : Config)
    → (drift_warn_threshold ≤ get_streak working c.drift_warn → 1 ≤ share_of c.drift_stats)
    → (drift_notice working (alert_run queue ids true c).0 ≡ none)
      × ((alert_run queue ids false c).0 ≡ c)
      × (is_notice (drift_notice working c) ≡ true
          → ((alert_run queue ids true c).1 ≡ AlertDispatch.sent)
            × ((alert_run queue ids false c).1 ≡ AlertDispatch.failed))
      × (drift_notice working c ≡ none → (alert_run queue ids true c).0 ≡ c)
unfolding run_conditional_notification
alert_run-drift_notice queue ids c warned =
    let committed = commit-marked queue ids c in
    let settled = marked-settled c warned in
    let triggers = any-triggered queue ids c in
    let fires =
      any (λ (r : AlertResult). r.triggered) (evaluate_alert_conditions working queue ids c) in
    (
      elim (Bool-cases fires) [
        | inl y ↦ rw (y, committed) settled
        | inr n ↦ rw n (no_notice c (λ due. cc (n, triggers due)))
      ],
      ground arith,
      λ due. ground (arith, triggers due),
      λ quiet. elim (Bool-cases fires) [
        | inl y ↦ rw y (committed ∙ ap (λ k. marked k c) quiet)
        | inr n ↦ rw n
      ],
    )
