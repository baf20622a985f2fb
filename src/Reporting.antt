-- ===== src/Reporting.antt =====
-- `DiscordRateLimiter` of python/src/reporting/discord/rate_limiter.py. A message stands for its hash;
-- times are readings of the monotonic clock in microseconds; a summary is the count that it names.
pub mod Suppressed
mod Examples
use stock_fixer.Prelude.{
  ℕ, ◌+◌, ◌-◌, Bool, true, false, Option, none, some, List, [], ◌∷◌, String, if◌then◌else◌, ltb,
  lookup,
}

-- `_DedupeEntry`
pub record DedupeEntry : Type 0 where
  pub first_seen : ℕ
  pub suppressed_count : ℕ

abbrev pub Cache : Type 0
Cache = List (String × DedupeEntry)

abbrev pub fresh_entry : ℕ → DedupeEntry
fresh_entry now = record { first_seen = now; suppressed_count = 0 }

-- Whether to send, and the count of the summary.
pub record Verdict : Type 0 where
  pub should_send : Bool
  pub summary : Option ℕ

abbrev pub summary_of : ℕ → Option ℕ
summary_of n = if ltb 0 n then some n else none

abbrev pub check_entry : ℕ → Cache → String → ℕ → Option DedupeEntry → Cache × Verdict
check_entry ttl cache key now none =
    ((key, fresh_entry now) ∷ cache, record { should_send = true; summary = none })
check_entry ttl cache key now (some e) =
    if ltb now (e.first_seen + ttl)
    then (
      (key, record e { suppressed_count = e.suppressed_count + 1 }) ∷ cache,
      record { should_send = false; summary = none },
    )
    else (
      (key, fresh_entry now) ∷ cache,
      record { should_send = true; summary = summary_of e.suppressed_count },
    )

pub check_and_record : ℕ → Cache → String → ℕ → Cache × Verdict
check_and_record ttl cache key now = check_entry ttl cache key now (lookup key cache)

-- `apply_rate_limit`: the time that it sleeps for, and the time that it keeps, which is a reading
-- after the sleep. `wait` is zero where Python's is not positive.
pub rate_wait : ℕ → ℕ → ℕ → ℕ
rate_wait rate_interval last_send_time now = last_send_time + rate_interval - now

pub apply_rate_limit : ℕ → ℕ → ℕ → (ℕ → ℕ) → ℕ
apply_rate_limit rate_interval last_send_time now clock_after =
    clock_after (rate_wait rate_interval last_send_time now)
