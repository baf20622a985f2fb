-- ===== src/Scheduler/Queue/Run/Retry.antt =====
-- The retries of a job: how often its function is called, and when the error notice goes out.
use stock_fixer.Prelude.{
  ℕ, zero, suc, ◌+◌, ◌-◌, ◌≤◌, ◌<◌, ◌≡◌, refl, inl, inr, ◌⊎◌, Bool, true, false, not, ◌&&◌, List,
  [], ◌∷◌, String, arith, ltb, if◌then◌else◌, length, Bool-cases,
}
use stock_fixer.Scheduler.Types.{Config, Event}
use stock_fixer.Scheduler.Queue.{Queue, Io, append_event_locked, append_event, save_state}
use stock_fixer.Scheduler.Queue.Run.{
  Exn, Outcome, returned, raised, is_base, is_non_retryable, message, Request, Env, Attempts,
  retry_event, after_exception, attempt_loop, run_with_retry,
}

-- A failure after which the loop goes on while rounds are left.
abbrev pub is_transient : Outcome → Bool
is_transient returned = false
is_transient (raised e) = not (is_base e) && not (is_non_retryable e)

Outcome-cases : (o : Outcome) → (o ≡ returned) ⊎ ((e : Exn) × (o ≡ raised e))
Outcome-cases returned = inl refl
Outcome-cases (raised e) = inr (e, refl)

append_event-ok :
    (io : Io) (e : Event) (q : Queue) → io.save_ok ≡ true → (append_event io e q).1 ≡ true
unfolding append_event append_event_locked save_state
append_event-ok io e q h = rw h

module _ (env : Env) (r : Request) (key : String) (max_retries : ℕ) where
  -- What every run of the loop from attempt `a` on satisfies.
  record Spec (a : ℕ) (t : Attempts) : Type 0 where
    called : a < t.calls
    bounded : t.calls ≤ max_retries + 1
    last_returned : t.outcome ≡ returned → env.func (t.calls - 1) ≡ returned
    once : length t.notices ≤ 1
    silent : t.outcome ≡ returned → t.notices ≡ []
    transient : (i : ℕ) → a ≤ i → suc i < t.calls → is_transient (env.func i) ≡ true

  at_last : (a : ℕ) (o : Outcome) → env.func a ≡ o → env.func (a + 1 - 1) ≡ o
  at_last a o h = let e : a + 1 - 1 ≡ a = omega arith in rw e h

  stop_raised :
      (a : ℕ) (q : Queue) (e : Exn) (ns : List String)
      → a ≤ max_retries
      → length ns ≤ 1
      → Spec a (record { queue = q; outcome = raised e; calls = a + 1; notices = ns })
  stop_raised a q e ns h l = record {
    called = omega arith;
    bounded = omega arith;
    last_returned = λ p. cc;
    once = l;
    silent = λ p. cc;
    transient = λ i lo hi. absurd (omega arith);
  }

  stop_returned :
      (a : ℕ) (q : Queue)
      → a ≤ max_retries
      → env.func a ≡ returned
      → Spec a (record { queue = q; outcome = returned; calls = a + 1; notices = [] })
  stop_returned a q h f = record {
    called = omega arith;
    bounded = omega arith;
    last_returned = λ p. at_last a returned f;
    once = omega arith;
    silent = λ p. refl;
    transient = λ i lo hi. absurd (omega arith);
  }

  go_on : (a : ℕ) (t : Attempts) → is_transient (env.func a) ≡ true → Spec (a + 1) t → Spec a t
  go_on a t f s = record {
    called = omega (arith, s.called);
    bounded = s.bounded;
    last_returned = s.last_returned;
    once = s.once;
    silent = s.silent;
    transient = λ i lo hi. elim (Bool-cases (ltb a i)) [
      | inl l ↦ s.transient i (ground arith) hi
      | inr l ↦ let e : i ≡ a = ground arith in rw e f
    ];
  }

  after_exception-Spec :
      (q : Queue) (a : ℕ) (e : Exn) (rest : Queue → Attempts)
      → a ≤ max_retries
      → env.func a ≡ raised e
      → ((q' : Queue) → a < max_retries → Spec (a + 1) (rest q'))
      → Spec a (after_exception env q r key max_retries a e rest)
  unfolding after_exception
  after_exception-Spec q a e rest h f next = elim (Bool-cases (is_base e)) [
    | inl b ↦ rw b (stop_raised a q e [] h (omega arith))
    | inr b ↦ elim (Bool-cases (ltb a max_retries && not (is_non_retryable e))) [
      | inr n ↦ rw (b, n) (stop_raised a q e (message e ∷ []) h (omega arith))
      | inl n ↦
          rw (b, n)
            (written (append_event (env.retry_io a) (retry_event r key a (env.clock a) e) q).1 n b)
    ]
  ]
    where
      written :
          (ok : Bool)
          → (ltb a max_retries && not (is_non_retryable e)) ≡ true
          → is_base e ≡ false
          → Spec a (
              if ok
              then rest (append_event (env.retry_io a) (retry_event r key a (env.clock a) e) q).0
              else record {
                queue = (append_event (env.retry_io a) (retry_event r key a (env.clock a) e) q).0;
                outcome = raised Exn.write_failed;
                calls = a + 1;
                notices = [];
              })
      written false n b = stop_raised a _ Exn.write_failed [] h (omega arith)
      written true n b = go_on a _ (rw f (ground (arith, n, b))) (next _ (ground (arith, n)))

  loop_step :
      (left a : ℕ) (q : Queue)
      → a ≤ max_retries
      → ((q' : Queue)
          → a < max_retries
          → Spec (a + 1) (attempt_loop env q' r key max_retries (a + 1) left))
      → Spec a (attempt_loop env q r key max_retries a (suc left))
  unfolding attempt_loop
  loop_step left a q h next = elim (Outcome-cases (env.func a)) [
    | inl f ↦ rw (f, attempt_loop) (stop_returned a _ h f)
    | inr (e, f) ↦
        rw (f, attempt_loop)
          (after_exception-Spec _ a e (λ q'. attempt_loop env q' r key max_retries (a + 1) left) h f
            next)
  ]

  attempt_loop-Spec :
      (left a : ℕ) (q : Queue)
      → a + left ≡ max_retries
      → Spec a (attempt_loop env q r key max_retries a (suc left))
  attempt_loop-Spec zero a q h = loop_step zero a q (omega arith) (λ q' lt. absurd (omega arith))
  attempt_loop-Spec (suc left) a q h =
      loop_step (suc left) a q (omega arith)
        (λ q' lt. attempt_loop-Spec left (a + 1) q' (omega arith))

-- A job's function is called at least once and at most `max_retries + 1` times. The call succeeds
-- as a whole only if its last call returned; every call before the last failed in a way that is
-- retried; and the error notice is sent at most once, and never for a run that returned.
pub run_with_retry_lem :
    (env : Env) (q : Queue) (r : Request) (key : String) (config : Config)
    → let t = run_with_retry env q r key config in
      (1 ≤ t.calls)
      × (t.calls ≤ config.max_retries + 1)
      × (t.outcome ≡ returned → env.func (t.calls - 1) ≡ returned)
      × ((i : ℕ) → suc i < t.calls → is_transient (env.func i) ≡ true)
      × (length t.notices ≤ 1)
      × (t.outcome ≡ returned → t.notices ≡ [])
unfolding run_with_retry
run_with_retry_lem env q r key config =
    let e : config.max_retries + 1 ≡ suc config.max_retries = omega arith in
    let s = attempt_loop-Spec env r key config.max_retries config.max_retries 0 q (omega arith) in
    rw e (
      omega (arith, s.called),
      omega (arith, s.bounded),
      s.last_returned,
      λ i hi. s.transient i (omega arith) hi,
      s.once,
      s.silent,
    )

-- From attempt `a` on, `k` rounds before the call that returns.
recovers :
    (env : Env) (r : Request) (key : String) (max_retries n : ℕ)
    → ((i : ℕ) → i < n → (env.retry_io i).save_ok ≡ true)
    → env.func n ≡ returned
    → ((i : ℕ) → i < n → is_transient (env.func i) ≡ true)
    → n ≤ max_retries
    → (k a left : ℕ) (q : Queue) → a + k ≡ n
    → k ≤ left
    → let t = attempt_loop env q r key max_retries a (suc left) in
      (t.outcome ≡ returned) × (t.calls ≡ n + 1) × (t.notices ≡ [])
unfolding attempt_loop after_exception
recovers env r key max_retries n ok f early h zero a left q e l =
    let same : a ≡ n = omega arith in
    let fa : env.func a ≡ returned = rw same f in rw (fa, attempt_loop) (refl, omega arith, refl)
recovers env r key max_retries n ok f early h (suc k) a zero q e l = absurd (omega arith)
recovers env r key max_retries n ok f early h (suc k) a (suc left) q e l =
    elim (Outcome-cases (env.func a)) [
      | inl g ↦ cc (rw g at (early a (omega arith)))
      | inr (x, g) ↦
          let t = rw g at (early a (omega arith)) in
          let b : is_base x ≡ false = ground (arith, t) in
          let nr : (ltb a max_retries && not (is_non_retryable x)) ≡ true = ground (arith, t) in
          rw (g, attempt_loop)
            (rw (b, nr, after_exception)
              (rw (append_event-ok (env.retry_io a) _ _ (ok a (omega arith))) (
                recovers env r key max_retries n ok f early h k (a + 1) left _ (omega arith)
                  (omega arith))))
    ]

-- Where the saves of the state file at its retries succeed, a job whose first `n` calls fail in a way that is
-- retried, and whose next call returns, succeeds with exactly `n + 1` calls and no notice.
pub run_with_retry_recovers :
    (env : Env) (q : Queue) (r : Request) (key : String) (config : Config) (n : ℕ)
    → ((i : ℕ) → i < n → (env.retry_io i).save_ok ≡ true)
    → env.func n ≡ returned
    → ((i : ℕ) → i < n → is_transient (env.func i) ≡ true)
    → n ≤ config.max_retries
    → let t = run_with_retry env q r key config in
      (t.outcome ≡ returned) × (t.calls ≡ n + 1) × (t.notices ≡ [])
unfolding run_with_retry
run_with_retry_recovers env q r key config n ok f early h =
    let e : config.max_retries + 1 ≡ suc config.max_retries = omega arith in
    rw e (
      recovers env r key config.max_retries n ok f early h n 0 config.max_retries q (omega arith) h)
