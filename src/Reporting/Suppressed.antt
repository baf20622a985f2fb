-- ===== src/Reporting/Suppressed.antt =====
-- What `DiscordRateLimiter` (python/src/reporting/discord/rate_limiter.py) holds back, it reports.
use mathlib.Core.Path.{subst}
use stock_fixer.Prelude.{
  ℕ, ◌+◌, ◌-◌, ◌≡◌, ◌≤◌, refl, inl, inr, false, Option, none, some, List, [], ◌∷◌, String, arith,
  if◌then◌else◌, ltb, lookup, str_eq, eq_iff, Bool-cases,
}
use stock_fixer.Reporting.{
  DedupeEntry, Cache, Verdict, check_entry, check_and_record, summary_of, rate_wait,
  apply_rate_limit,
}

abbrev pub waiting_of : Option DedupeEntry → ℕ
waiting_of none = 0
waiting_of (some e) = e.suppressed_count

-- Messages of the key that are held back and not reported.
abbrev pub waiting : String → Cache → ℕ
waiting key cache = waiting_of (lookup key cache)

abbrev pub held_back : Verdict → ℕ
held_back v = if v.should_send then 0 else 1

abbrev pub reported : Verdict → ℕ
reported v = elim v.summary [ none ↦ 0 | some n ↦ n ]

abbrev pub counted_for : String → String → ℕ → ℕ
counted_for key k n = if str_eq k key then n else 0

-- A sequence of messages, each with its time: what is held back and what is reported of one key.
pub held_back_of : ℕ → String → Cache → List (String × ℕ) → ℕ
held_back_of ttl key cache [] = 0
held_back_of ttl key cache ((k, now) ∷ calls) =
    let (cache', v) = check_and_record ttl cache k now in
    counted_for key k (held_back v) + held_back_of ttl key cache' calls

pub reported_of : ℕ → String → Cache → List (String × ℕ) → ℕ
reported_of ttl key cache [] = 0
reported_of ttl key cache ((k, now) ∷ calls) =
    let (cache', v) = check_and_record ttl cache k now in
    counted_for key k (reported v) + reported_of ttl key cache' calls

pub cache_after : ℕ → Cache → List (String × ℕ) → Cache
cache_after ttl cache [] = cache
cache_after ttl cache ((k, now) ∷ calls) =
    cache_after ttl (check_and_record ttl cache k now).0 calls

summary-reported : (n : ℕ) → elim (summary_of n) [ none ↦ 0 | some m ↦ m ] ≡ n
summary-reported n = elim (Bool-cases (ltb 0 n)) [
  | inl y ↦ rw y refl
  | inr e ↦ rw e (ground (arith, e))
]

check_entry-own :
    (ttl : ℕ) (cache : Cache) (k : String) (now : ℕ) (o : Option DedupeEntry)
    → waiting k (check_entry ttl cache k now o).0 + reported (check_entry ttl cache k now o).1
      ≡ waiting_of o + held_back (check_entry ttl cache k now o).1
check_entry-own ttl cache k now none = let h = (eq_iff k k).1 refl in rw h refl
check_entry-own ttl cache k now (some e) =
    let h = (eq_iff k k).1 refl in
    elim (Bool-cases (ltb now (e.first_seen + ttl))) [
      | inl y ↦ rw (y, h) (omega arith)
      | inr n ↦ rw (n, h) (omega (arith, summary-reported e.suppressed_count))
    ]

check_entry-other :
    (ttl : ℕ) (cache : Cache) (k key : String) (now : ℕ) (o : Option DedupeEntry)
    → str_eq k key ≡ false
    → waiting key (check_entry ttl cache k now o).0 ≡ waiting key cache
check_entry-other ttl cache k key now none n = rw n refl
check_entry-other ttl cache k key now (some e) n =
    elim (Bool-cases (ltb now (e.first_seen + ttl))) [
      | inl y ↦ rw (y, n) refl
      | inr m ↦ rw (m, n) refl
    ]

step-waiting :
    (ttl : ℕ) (cache : Cache) (k key : String) (now : ℕ)
    → waiting key (check_and_record ttl cache k now).0
        + counted_for key k (reported (check_and_record ttl cache k now).1)
      ≡ waiting key cache + counted_for key k (held_back (check_and_record ttl cache k now).1)
unfolding check_and_record
step-waiting ttl cache k key now = elim (Bool-cases (str_eq k key)) [
  | inl y ↦
      let same : k ≡ key = (eq_iff k key).0 y in
      rw y (
        subst
          (λ j.
            waiting j (check_entry ttl cache k now (lookup k cache)).0
              + reported (check_entry ttl cache k now (lookup k cache)).1
            ≡ waiting j cache + held_back (check_entry ttl cache k now (lookup k cache)).1)
          same (check_entry-own ttl cache k now (lookup k cache)))
  | inr n ↦ rw n (omega (arith, check_entry-other ttl cache k key now (lookup k cache) n))
]

-- No message that was held back is lost: over any sequence of messages, the counts of the summaries
-- sent for a message and the count that still waits add up to the messages held back, and to the
-- count that waited at the beginning.
pub held_back-reported :
    (ttl : ℕ) (key : String) (cache : Cache) (calls : List (String × ℕ))
    → waiting key (cache_after ttl cache calls) + reported_of ttl key cache calls
      ≡ waiting key cache + held_back_of ttl key cache calls
unfolding cache_after reported_of held_back_of
held_back-reported ttl key cache [] = omega arith
held_back-reported ttl key cache ((k, now) ∷ calls) = omega (
  arith,
  step-waiting ttl cache k key now,
  held_back-reported ttl key (check_and_record ttl cache k now).0 calls,
)

-- If the clock after a sleep has moved on by the sleep at least, two messages are sent at least the
-- interval apart.
apply_rate_limit_lem :
    (rate_interval last_send_time now : ℕ) (clock_after : ℕ → ℕ)
    → ((wait : ℕ) → now + wait ≤ clock_after wait)
    → last_send_time + rate_interval ≤ apply_rate_limit rate_interval last_send_time now clock_after
unfolding apply_rate_limit rate_wait
apply_rate_limit_lem rate_interval last_send_time now clock_after h =
    omega (arith, h (last_send_time + rate_interval - now))
