-- ===== src/Paper/Day/Jobs.antt =====
-- When the job of settle_retry.py (python/src/orchestration/jobs) fails.
use stock_fixer.Prelude.{
  ℕ, ◌≡◌, ◌≤◌, refl, ap, sym, ◌∙◌, arith, inl, inr, Bool, true, false, not, ◌&&◌, ◌||◌, List, [],
  ◌∷◌, String, str_eq, eq_iff, any, keep, length, ltb, Bool-cases,
}
use stock_fixer.Paper.Tables.{Money, Order, Tables, claim_pending}
use stock_fixer.Paper.Day.{
  Day, Accesses, Outcome, is_failed, is_closed, settle_row, settle_rows, settle_pending_orders,
  waiting, errors_of, count_pending_paper_orders, is_final, run_daily_settle_orders,
  run_daily_settle_retry,
}
use stock_fixer.Paper.Day.Claims.{closes, settle_pending_orders-claims}

any-keep :
    {A : Type 0} (p q : A → Bool) (xs : List A) → any p (keep q xs) ≡ any (λ x. p x && q x) xs
unfolding any keep
any-keep p q [] = refl
any-keep p q (x ∷ xs) = ground (arith, any-keep p q xs)

any-length : {A : Type 0} (p : A → Bool) (xs : List A) → any p xs ≡ true → 1 ≤ length xs
unfolding any
any-length p [] h = cc
any-length p (x ∷ xs) h = omega arith

module _ {F : Type 0} where
  abbrev has_number : String → Order F → Bool
  has_number id o = str_eq o.order_id id

  -- No two of the orders have the same number.
  abbrev pub DistinctIds : List (Order F) → Type 0
  DistinctIds [] = Unit
  DistinctIds (o ∷ os) = (any (has_number o.order_id) os ≡ false) × DistinctIds os

  is_failed-open : (r : Outcome F) → is_failed r ≡ true → is_closed r ≡ false
  is_failed-open Outcome.held_back h = refl
  is_failed-open Outcome.failed h = refl
  is_failed-open (Outcome.closed s) h = cc

  module _ (money : Money F) (d : Day F) where
    unnumbered-closes :
        (id : String) (os : List (Order F)) (db : Tables F)
        → any (has_number id) os ≡ false
        → any (closes money d id) (settle_rows money d os db).1 ≡ false
    unfolding any settle_rows
    unnumbered-closes id [] db h = refl
    unnumbered-closes id (o ∷ os) db h =
        ground (arith, h, unnumbered-closes id os (settle_row money d db o).0)

    -- Where a round failed there is an order that no round closed.
    failed-open :
        (os : List (Order F)) (db : Tables F)
        → DistinctIds os
        → 1 ≤ errors_of money d (settle_rows money d os db).1
        → (id : String) × (any (has_number id) os ≡ true)
          × (any (closes money d id) (settle_rows money d os db).1 ≡ false)
    unfolding any settle_rows errors_of
    failed-open [] db apart h = absurd (omega arith)
    failed-open (o ∷ os) db apart h =
        let r = settle_row money d db o in
        elim (Bool-cases (is_failed r.1)) [
          | inl y ↦
              let same : str_eq o.order_id o.order_id ≡ true =
                (eq_iff o.order_id o.order_id).1 refl in
              (
                o.order_id,
                rw same refl,
                rw (same, is_failed-open r.1 y) (unnumbered-closes o.order_id os r.0 apart.0),
              )
          | inr n ↦
              let (id, here, open_) = failed-open os r.0 apart.1 (rw n at h) in
              let other : str_eq o.order_id id ≡ false = elim (Bool-cases (str_eq o.order_id id)) [
                | inr m ↦ m
                | inl y ↦
                    let same : o.order_id ≡ id = (eq_iff o.order_id id).0 y in
                    absurd (cc (apart.0, here, ap (λ i. any (has_number i) os) same))
              ] in
              (id, ground (arith, here), rw other open_)
        ]

    failed-remains :
        (db : Tables F)
        → DistinctIds (waiting money d db)
        → 1 ≤ errors_of money d (settle_pending_orders money d db).1
        → (1 ≤ count_pending_paper_orders money d db)
          × (1 ≤ count_pending_paper_orders money d (settle_pending_orders money d db).0)
    unfolding settle_pending_orders claim_pending
    failed-remains db apart h =
        let (id, here, open_) = failed-open (waiting money d db) db apart h in
        let before : claim_pending db id ≡ true =
          sym (any-keep (has_number id) _ db.orders) ∙ here in
        let after : claim_pending (settle_pending_orders money d db).0 id ≡ true =
          settle_pending_orders-claims money d db id ∙ ground (arith, before, open_) in
        (
          any-length (has_number id) (waiting money d db) here,
          any-length (has_number id) _
              (any-keep (has_number id) _ (settle_pending_orders money d db).0.orders ∙ after),
        )

    -- When a round of the retry fails, where the waiting orders have different numbers: exactly if the
    -- count of the waiting orders raises; or there are some, and the settlement as a whole raises,
    -- outside of live trading; or there are some, it is the last round, from 9:55 on, and the second
    -- count raises or, outside of live trading, the settlement of an order raised. Such an order still
    -- waits, so the count of those that remain never hides it.
    pub run_daily_settle_retry-raises :
        (live : Bool) (access : Accesses) (hour minute : ℕ) (db : Tables F)
        → DistinctIds (waiting money d db)
        → (run_daily_settle_retry money d live access hour minute db).raises ≡ (
            access.count_fails
            || (ltb 0 (count_pending_paper_orders money d db)
                && ((not live && access.run_fails)
                    || (is_final hour minute
                        && (access.recount_fails
                            || (not live
                                && ltb 0
                                    (errors_of money d (settle_pending_orders money d db).1)))))))
    unfolding run_daily_settle_retry run_daily_settle_orders
    run_daily_settle_retry-raises true access hour minute db apart = ground arith
    run_daily_settle_retry-raises false access hour minute db apart =
        ground (arith, failed-remains db apart)
