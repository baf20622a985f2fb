-- ===== src/Alerts.antt =====
-- The conditional alerts of python/src/utils/alert_service.py: streaks of bad days, which are kept in
-- the table `system_config`, and the rules that they trigger. The rows of a streak are one record here
-- (`<key>`, `<key>.prev` and `<key>.day`). A share is a number of millionths: it is stored with six
-- decimals. Whether the table can be read and written is an argument.
pub mod Failures
pub mod Streaks
pub mod Notices
mod Examples
use stock_fixer.Prelude.{
  ℕ, ◌+◌, ◌-◌, ◌*◌, Bool, true, false, not, ◌&&◌, ◌||◌, Option, none, some, List, [], ◌∷◌, String,
  if◌then◌else◌, leb, ltb, str_eq, length, any,
}
use stock_fixer.Alerts.Failures.{Queue, Count, count_consecutive_pipeline_failures}

abbrev pub pipeline_fail_threshold : ℕ
pipeline_fail_threshold = 2

abbrev pub loss_limit_threshold : ℕ
loss_limit_threshold = 3

abbrev pub drift_warn_threshold : ℕ
drift_warn_threshold = 2

abbrev pub drift_renotify_days : ℕ
drift_renotify_days = 7

abbrev pub health_degraded_threshold : ℕ
health_degraded_threshold = 2

abbrev pub prediction_output_threshold : ℕ
prediction_output_threshold = 1

pub record Io : Type 0 where
  pub can_read : Bool
  pub can_write : Bool

pub record Streak : Type 0 where
  pub value : Option ℕ
  pub prev : Option ℕ
  pub day : Option String

-- The share of the symbols that drift, their number, and the number of all.
pub record DriftStats : Type 0 where
  pub share : ℕ
  pub n_triggered : ℕ
  pub n_evaluated : ℕ

-- The count and the share of the last notice.
pub record Mark : Type 0 where
  pub count : ℕ
  pub share : ℕ

pub record Config : Type 0 where
  pub loss_limit : Streak
  pub drift_warn : Streak
  pub health_degraded : Streak
  pub drift_stats : Option DriftStats
  pub drift_notified : Option Mark

abbrev pub or_zero : Option ℕ → ℕ
or_zero none = 0
or_zero (some n) = n

abbrev pub or_no_day : Option String → String
or_no_day none = ""
or_no_day (some d) = d

module _ (io : Io) where
  -- `_get_streak` and `_get_streak_day`: a failed read is a missing row.
  abbrev pub read : {A : Type 0} → Option A → Option A
  read row = if io.can_read then row else none

  -- `_set_streak` and the like: a failed write leaves the row.
  abbrev pub written : {A : Type 0} → A → Option A → Option A
  written v row = if io.can_write then some v else row

  abbrev pub get_streak : Streak → ℕ
  get_streak s = or_zero (read s.value)

  abbrev pub start_day : Streak → String → Streak
  start_day s day_key = record s {
    prev = written (get_streak s) s.prev;
    day = written day_key s.day;
  }

  abbrev pub count_day : Bool → ℕ → ℕ
  count_day hit base = if hit then base + 1 else 0

  -- `_update_daily_streak`: the streak, and the values before the day and now.
  unfoldable pub update_daily_streak : Bool → String → Streak → Streak × (ℕ × ℕ)
  update_daily_streak hit day_key s =
      if str_eq (or_no_day (read s.day)) day_key
      then (let base = or_zero (read s.prev) in
          (record s { value = written (count_day hit base) s.value }, (base, count_day hit base)))
      else (let base = get_streak s in
          (
            record (start_day s day_key) { value = written (count_day hit base) s.value },
            (base, count_day hit base),
          ))

  unfoldable pub update_loss_limit_streak : Bool → String → Config → Config
  unfolding update_daily_streak
  update_loss_limit_streak triggered day_key c = record c {
    loss_limit = (update_daily_streak triggered day_key c.loss_limit).0;
  }

  unfoldable pub update_drift_warn_streak : Bool → String → DriftStats → Config → Config
  unfolding update_daily_streak
  update_drift_warn_streak warn_detected day_key stats c = record c {
    drift_stats = written stats c.drift_stats;
    drift_warn = (update_daily_streak warn_detected day_key c.drift_warn).0;
  }

  unfoldable pub update_health_degraded_streak : Bool → String → Config → Config
  unfolding update_daily_streak
  update_health_degraded_streak is_degraded day_key c = record c {
    health_degraded = (update_daily_streak is_degraded day_key c.health_degraded).0;
  }

-- `decide_drift_notice`: the kind of the notice, `none` for "".
pub data Notice : Type 0 where
  start worse periodic resolved : Notice

unfoldable pub decide_drift_notice : ℕ → ℕ → ℕ → ℕ → Option Notice
decide_drift_notice count share notified_count notified_share =
    if leb drift_warn_threshold count
    then (if leb notified_count 0 || ltb count notified_count
        then some start
        else if leb (1500 * notified_share) (1000 * share + 1)
        then some worse
        else if leb drift_renotify_days (count - notified_count)
        then some periodic
        else none)
    else if ltb 0 notified_count
    then some resolved
    else none

pub data Rule : Type 0 where
  pipeline_fail loss_limit_rule drift_warn_rule health_degraded_rule prediction_output : Rule

-- `AlertDispatch`
pub data AlertDispatch : Type 0 where
  sent not_sent failed : AlertDispatch

-- `AlertResult`
pub record AlertResult : Type 0 where
  pub rule_id : Rule
  pub triggered : Bool
  pub consecutive_count : ℕ
  pub threshold : ℕ
  pub notified_mark : Option Mark

abbrev pub by_threshold : Rule → ℕ → ℕ → AlertResult
by_threshold rule count threshold = record {
  rule_id = rule;
  triggered = leb threshold count;
  consecutive_count = count;
  threshold = threshold;
  notified_mark = none;
}

abbrev pub is_resolved : Notice → Bool
is_resolved resolved = true
is_resolved _ = false

abbrev pub mark_of : ℕ → ℕ → Option Notice → Option Mark
mark_of count share none = none
mark_of count share (some kind) = some (
    if is_resolved kind
    then record { count = 0; share = 0 }
    else record { count = count; share = share })

abbrev pub is_notice : Option Notice → Bool
is_notice none = false
is_notice (some kind) = true

-- A file that cannot be read is an alert of its own.
unfoldable pub check_pipeline_fail_rule : Queue → AlertResult
check_pipeline_fail_rule queue = elim (count_consecutive_pipeline_failures queue) [
  | Count.unreadable ↦ record {
    rule_id = pipeline_fail;
    triggered = true;
    consecutive_count = 0;
    threshold = pipeline_fail_threshold;
    notified_mark = none;
  }
  | Count.counted n ↦ by_threshold pipeline_fail n pipeline_fail_threshold
]

-- `None` says that nothing was evaluated.
unfoldable pub check_prediction_output_rule : Option (List String) → AlertResult
check_prediction_output_rule none = record {
  rule_id = prediction_output;
  triggered = true;
  consecutive_count = 1;
  threshold = prediction_output_threshold;
  notified_mark = none;
}
check_prediction_output_rule (some ids) =
    by_threshold prediction_output (length ids) prediction_output_threshold

abbrev pub share_of : Option DriftStats → ℕ
share_of none = 0
share_of (some s) = s.share

abbrev pub mark_or_zero : Option Mark → Mark
mark_or_zero none = record { count = 0; share = 0 }
mark_or_zero (some m) = m

module _ (io : Io) where
  unfoldable pub check_loss_limit_rule : Config → AlertResult
  check_loss_limit_rule c =
      by_threshold loss_limit_rule (get_streak io c.loss_limit) loss_limit_threshold

  unfoldable pub check_health_degraded_rule : Config → AlertResult
  check_health_degraded_rule c =
      by_threshold health_degraded_rule (get_streak io c.health_degraded) health_degraded_threshold

  -- The notice of the day that the rows decide on.
  abbrev pub drift_notice : Config → Option Notice
  drift_notice c =
      let m = mark_or_zero (read io c.drift_notified) in
      decide_drift_notice (get_streak io c.drift_warn) (share_of (read io c.drift_stats)) m.count
        m.share

  unfoldable pub check_drift_warn_rule : Config → AlertResult
  check_drift_warn_rule c =
      let count = get_streak io c.drift_warn in
      let kind = drift_notice c in
      record {
        rule_id = drift_warn_rule;
        triggered = is_notice kind;
        consecutive_count = count;
        threshold = drift_warn_threshold;
        notified_mark = mark_of count (share_of (read io c.drift_stats)) kind;
      }

  unfoldable pub evaluate_alert_conditions :
      Queue → Option (List String) → Config → List AlertResult
  evaluate_alert_conditions queue violation_ids c =
      check_pipeline_fail_rule queue
      ∷ check_loss_limit_rule c
      ∷ check_drift_warn_rule c
      ∷ check_health_degraded_rule c
      ∷ check_prediction_output_rule violation_ids
      ∷ []

  -- `_commit_notified_marks`
  abbrev pub commit_mark : AlertResult → Config → Config
  commit_mark r c = elim r.notified_mark [
    | none ↦ c
    | some m ↦
        if r.triggered then record c { drift_notified = written io m c.drift_notified } else c
  ]

  unfoldable pub commit_notified_marks : List AlertResult → Config → Config
  commit_notified_marks [] c = c
  commit_notified_marks (r ∷ rs) c = commit_notified_marks rs (commit_mark r c)

  -- The notifier is `none`, or the answer that it gives to this message.
  unfoldable pub run_conditional_notification :
      List AlertResult → Option Bool → Config → Config × AlertDispatch
  run_conditional_notification results none c = (c, not_sent)
  run_conditional_notification results (some delivered) c =
      if any (λ (r : AlertResult). r.triggered) results
      then (if delivered then (commit_notified_marks results c, sent) else (c, failed))
      else (c, not_sent)
