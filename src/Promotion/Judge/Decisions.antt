-- ===== src/Promotion/Judge/Decisions.antt =====
-- When python/src/prediction/backtest_promotion/judge.py calls a candidate the winner, and when it
-- undoes a swap.
use stock_fixer.Prelude.{
  ℕ, ◌*◌, ◌<◌, ◌≡◌, ◌↔◌, refl, Bool, true, false, not, ◌&&◌, Option, none, some, List, [], ◌∷◌,
  arith, length, keep, Bool-cases, inl, inr,
}
use stock_fixer.Promotion.Judge.{
  Numbers, Metrics, is_empty, append_if, get_metric, too_few, not_above, not_below,
  not_above_and_positive, is_constant_prediction, daily_wins, no_majority, win_reasons, judge_win,
  or_nought, is_better, triggers, judge_rollback,
}

both_true : (a b : Bool) → (a && b) ≡ true → (a ≡ true) × (b ≡ true)
both_true a b h = ground arith

not-true : (a : Bool) → not a ≡ true → a ≡ false
not-true a h = ground arith

module _ {F : Type 0} (numbers : Numbers F) where
  -- Both numbers are known, and they are related so.
  abbrev pub Both : (F → F → Type 0) → Option F → Option F → Type 0
  Both P o p = (a : F) × (b : F) × (o ≡ some a) × (p ≡ some b) × P a b

  abbrev pub EnoughRows : Option F → F → Type 0
  EnoughRows o need = (n : F) × (o ≡ some n) × (numbers.less n need ≡ false)

  too_few_iff : (o : Option F) (need : F) → (too_few numbers o need ≡ false) ↔ EnoughRows o need
  too_few_iff none need = ((λ h. absurd (ground arith)), (λ (n, e, h). absurd (ground (arith, e))))
  too_few_iff (some n) need = ((λ h. (n, refl, h)), (λ (k, e, h). ground (arith, e, h)))

  not_above_iff :
      (o p : Option F) → (not_above numbers o p ≡ false) ↔ Both (λ a b. numbers.less b a ≡ true) o p
  not_above_iff none p =
      ((λ h. absurd (ground arith)), (λ (a, b, e, f, h). absurd (ground (arith, e))))
  not_above_iff (some c) none =
      ((λ h. absurd (ground arith)), (λ (a, b, e, f, h). absurd (ground (arith, f))))
  not_above_iff (some c) (some p) =
      ((λ h. (c, p, refl, refl, ground (arith, h))), (λ (a, b, e, f, h). ground (arith, e, f, h)))

  not_below_iff :
      (o p : Option F) → (not_below numbers o p ≡ false) ↔ Both (λ a b. numbers.less a b ≡ true) o p
  not_below_iff none p =
      ((λ h. absurd (ground arith)), (λ (a, b, e, f, h). absurd (ground (arith, e))))
  not_below_iff (some c) none =
      ((λ h. absurd (ground arith)), (λ (a, b, e, f, h). absurd (ground (arith, f))))
  not_below_iff (some c) (some p) =
      ((λ h. (c, p, refl, refl, ground (arith, h))), (λ (a, b, e, f, h). ground (arith, e, f, h)))

  above_and_positive_iff :
      (o p : Option F)
      → (not_above_and_positive numbers o p ≡ false)
        ↔ Both (λ a b. (numbers.less b a ≡ true) × (numbers.less numbers.nought a ≡ true)) o p
  above_and_positive_iff none p =
      ((λ h. absurd (ground arith)), (λ (a, b, e, f, h). absurd (ground (arith, e))))
  above_and_positive_iff (some c) none =
      ((λ h. absurd (ground arith)), (λ (a, b, e, f, h). absurd (ground (arith, f))))
  above_and_positive_iff (some c) (some p) = (
    (λ h. (c, p, refl, refl, (ground (arith, h), ground (arith, h)))),
    (λ (a, b, e, f, (h, k)). ground (arith, e, f, h, k)),
  )

  no_majority_iff :
      (daily_diff : List F)
      → (no_majority numbers daily_diff ≡ false)
        ↔ (length daily_diff < daily_wins numbers daily_diff * 2)
  unfolding keep
  no_majority_iff [] = ((λ h. absurd (ground arith)), (λ h. absurd (omega (arith, h))))
  no_majority_iff (d ∷ ds) = ground arith

  empty_append_if {ℓ} :
      {A : Type ℓ} (test : Bool) (r : A) (later : List A)
      → (is_empty (append_if test r later) ≡ true) ↔ ((test ≡ false) × (is_empty later ≡ true))
  empty_append_if true r later = ((λ h. absurd (ground arith)), (λ (t, e). absurd (ground arith)))
  empty_append_if false r later = ((λ h. (refl, h)), (λ (t, e). e))

  -- The conditions of a win.
  abbrev pub Won : Metrics F → Metrics F → List F → ℕ → Type 0
  Won candidate production daily_diff expected_rows =
      EnoughRows (get_metric candidate "n_baseline") (numbers.covered expected_rows)
      × EnoughRows (get_metric production "n_baseline") (numbers.covered expected_rows)
      × Both (λ a b. numbers.less b a ≡ true) (get_metric candidate "hit_rate_minus_majority")
          (get_metric production "hit_rate_minus_majority")
      × Both (λ a b. numbers.less a b ≡ true) (get_metric candidate "mae")
          (get_metric production "mae")
      × Both (λ a b. (numbers.less b a ≡ true) × (numbers.less numbers.nought a ≡ true))
          (get_metric candidate "rank_corr") (get_metric production "rank_corr")
      × (length daily_diff < daily_wins numbers daily_diff * 2)
      × (is_constant_prediction numbers (get_metric candidate "prediction_std") ≡ false)

  -- A candidate wins exactly if both models have their rows, its hit rate and its rank correlation are
  -- above those of the production and its error below, all of them known, its rank correlation is
  -- positive, it is ahead on more than half of the days, and its predictions are not constant.
  pub judge_win-Won :
      (candidate production : Metrics F) (daily_diff : List F) (expected_rows : ℕ)
      → ((judge_win numbers candidate production daily_diff expected_rows).won ≡ true)
        ↔ Won candidate production daily_diff expected_rows
  unfolding judge_win win_reasons
  judge_win-Won candidate production daily_diff expected_rows =
      let need = numbers.covered expected_rows in
      let rows = too_few_iff (get_metric candidate "n_baseline") need in
      let rows' = too_few_iff (get_metric production "n_baseline") need in
      let hit =
        not_above_iff (get_metric candidate "hit_rate_minus_majority")
          (get_metric production "hit_rate_minus_majority") in
      let mae = not_below_iff (get_metric candidate "mae") (get_metric production "mae") in
      let corr =
        above_and_positive_iff (get_metric candidate "rank_corr")
          (get_metric production "rank_corr") in
      let days = no_majority_iff daily_diff in
      (
        (λ h.
            let (a, h1) = (empty_append_if _ _ _).0 h in
            let (b, h2) = (empty_append_if _ _ _).0 h1 in
            let (c, h3) = (empty_append_if _ _ _).0 h2 in
            let (d, h4) = (empty_append_if _ _ _).0 h3 in
            let (e, h5) = (empty_append_if _ _ _).0 h4 in
            let (f, h6) = (empty_append_if _ _ _).0 h5 in
            let (g, h7) = (empty_append_if _ _ _).0 h6 in
            (rows.0 a, rows'.0 b, hit.0 c, mae.0 d, corr.0 e, days.0 f, g)),
        (λ (a, b, c, d, e, f, g). (empty_append_if _ _ _).1 (
          rows.1 a,
          (empty_append_if _ _ _).1 (
            rows'.1 b,
            (empty_append_if _ _ _).1 (
              hit.1 c,
              (empty_append_if _ _ _).1 (
                mae.1 d,
                (empty_append_if _ _ _).1 (
                  corr.1 e,
                  (empty_append_if _ _ _).1 (days.1 f, (empty_append_if _ _ _).1 (g, refl)),
                ),
              ),
            ),
          ),
        )),
      )

  -- A swap is undone only if a condition of the watch is met and the old model's hit rate is known
  -- and above the live one, and its rank correlation above the live one, which counts as nought where
  -- it is unknown.
  pub judge_rollback-better :
      (live backtest_candidate old : Metrics F)
      → (judge_rollback numbers live backtest_candidate old).rollback ≡ true
      → (is_empty (judge_rollback numbers live backtest_candidate old).triggered ≡ false)
        × Both
            (λ a b. numbers.less b a ≡ true)
            (get_metric old "hit_rate_minus_majority")
            (get_metric live "hit_rate_minus_majority")
        × ((rc : F) × (get_metric old "rank_corr" ≡ some rc)
            × (numbers.less (or_nought numbers (get_metric live "rank_corr")) rc ≡ true))
  unfolding judge_rollback
  judge_rollback-better live backtest_candidate old h =
      let (met, better) =
        both_true (not (is_empty (triggers numbers live backtest_candidate)))
          (is_better numbers (get_metric old "hit_rate_minus_majority") (get_metric old "rank_corr")
            (get_metric live "hit_rate_minus_majority") rc_live)
          h in
      let (hit, corr) =
        by_values (get_metric old "hit_rate_minus_majority") (get_metric old "rank_corr")
          (get_metric live "hit_rate_minus_majority") better in
      (not-true (is_empty (triggers numbers live backtest_candidate)) met, hit, corr)
    where
      rc_live : F
      rc_live = or_nought numbers (get_metric live "rank_corr")

      by_values :
          (hit rc live_hit : Option F)
          → is_better numbers hit rc live_hit rc_live ≡ true
          → Both (λ a b. numbers.less b a ≡ true) hit live_hit
            × ((c : F) × (rc ≡ some c) × (numbers.less rc_live c ≡ true))
      by_values none rc live_hit h = absurd (ground arith)
      by_values (some a) none live_hit h = absurd (ground arith)
      by_values (some a) (some c) none h = absurd (ground arith)
      by_values (some a) (some c) (some b) h =
          ((a, b, refl, refl, ground (arith, h)), (c, refl, ground (arith, h)))

  -- A winner whose live figures are those of its backtest stays in place, whichever figures it is
  -- watched against, where the order of the numbers is asymmetric.
  judge_rollback-judge_win :
      (candidate production watched : Metrics F) (daily_diff : List F) (expected_rows : ℕ)
      → ((a b : F) → numbers.less a b ≡ true → numbers.less b a ≡ false)
      → (judge_win numbers candidate production daily_diff expected_rows).won ≡ true
      → (judge_rollback numbers candidate watched production).rollback ≡ false
  judge_rollback-judge_win candidate production watched daily_diff expected_rows asym won =
      elim (Bool-cases (judge_rollback numbers candidate watched production).rollback) [
        | inr n ↦ n
        | inl y ↦
            let (rows, rows', (a, b, ea, eb, ab), mae, rank, days, std) =
              (judge_win-Won candidate production daily_diff expected_rows).0 won in
            let (met, (p, c, ep, ec, cp), corr) =
              judge_rollback-better candidate watched production y in
            absurd (
              contradict (get_metric candidate "hit_rate_minus_majority")
                (get_metric production "hit_rate_minus_majority") a b p c ea eb ep ec ab cp)
      ]
    where
      contradict :
          (hit old : Option F) (a b p c : F)
          → hit ≡ some a
          → old ≡ some b
          → old ≡ some p
          → hit ≡ some c
          → numbers.less b a ≡ true
          → numbers.less c p ≡ true
          → ⊥
      contradict none old a b p c ea eb ep ec ab cp = ground arith
      contradict (some x) none a b p c ea eb ep ec ab cp = ground arith
      contradict (some x) (some y) a b p c ea eb ep ec ab cp =
          ground (arith, ea, eb, ep, ec, asym b a ab)
