-- ===== src/Scheduler/CapNotice/Days.antt =====
-- The business days that passed without a success, in
-- python/src/orchestration/scheduler_cap_notice.py.
pub mod Total
mod Examples
use stock_fixer.Prelude.{
  ℕ, zero, suc, true, false, Option, none, some, List, [], ◌∷◌, String, ltb, if◌then◌else◌,
  mem_text, keep, map,
}
use stock_fixer.Calendar.Date.{Date, Datetime, prev_day, to_ordinal, iso_text}
use stock_fixer.Calendar.JpMarket.{is_jp_business_day}
use stock_fixer.Scheduler.Queue.{Queue, Io, reload_state_for_recovery}
use stock_fixer.Scheduler.CapNotice.{
  mem_pair, still_unreported, Oldest, oldest_event_day, mark_scanned,
}

-- `while len(days) < count`, with `left` days to find. `days` holds the found ones in the order
-- of the reversed list, the oldest first.
pub business_days_loop : ℕ → ℕ → Date → List Date → Option (List Date)
business_days_loop fuel zero day days = some days
business_days_loop zero (suc left) day days = none
business_days_loop (suc fuel) (suc left) day days = elim (is_jp_business_day (prev_day day)) [
  | true ↦ business_days_loop fuel left (prev_day day) (prev_day day ∷ days)
  | false ↦ business_days_loop fuel (suc left) (prev_day day) days
]

abbrev pub past_day_range : ℕ
past_day_range = 5

-- Nine rounds for each day (`LossWindow/Search`).
abbrev pub range_fuel : ℕ
range_fuel = 45

pub business_days_before : Date → Option (List Date)
business_days_before today = business_days_loop range_fuel past_day_range today []

-- The days found, or an exception.
pub data Days : Type 0 where
  found : List String → Days
  failed : Days

abbrev pub days_or_scanned : Queue → String → Datetime → List String → Queue × Days
days_or_scanned q job_id now [] = (mark_scanned q job_id now, Days.found [])
days_or_scanned q job_id now (d ∷ ds) = (q, Days.found (d ∷ ds))

abbrev pub missed_since : Queue → String → Datetime → ℕ → List Date → List String
missed_since q job_id now oldest days =
    keep (still_unreported q job_id) (map iso_text (keep (λ d. ltb oldest (to_ordinal d)) days))

-- A search that runs out of fuel, which `Total` rules out from year 50 on, is `failed` here.
abbrev pub days_since : Queue → String → Datetime → ℕ → Option (List Date) → Queue × Days
days_since q job_id now oldest none = (q, Days.failed)
days_since q job_id now oldest (some days) =
    days_or_scanned q job_id now (missed_since q job_id now oldest days)

abbrev pub days_after : Queue → String → Datetime → Oldest → Queue × Days
days_after q job_id now Oldest.no_day = (q, Days.found [])
days_after q job_id now Oldest.bad_stamp = (q, Days.failed)
days_after q job_id now (Oldest.on_day oldest) =
    days_since q job_id now oldest (business_days_before now.on_date)

unfoldable pub past_days_without_success : Io → Queue → String → Datetime → Queue × Days
past_days_without_success io q job_id now =
    if mem_pair job_id (iso_text now.on_date) q.past_days_scanned
    then (q, Days.found [])
    else if mem_text job_id q.in_progress
    then (q, Days.found [])
    else let (q', usable) = reload_state_for_recovery io q in
      if usable then days_after q' job_id now (oldest_event_day q'.events) else (q', Days.found [])
