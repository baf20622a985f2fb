-- ===== src/Promotion/Names/Stamp.antt =====
-- The names of backups that `_production_for_backup` of
-- python/src/prediction/backtest_promotion/state.py recognises.
use stock_fixer.Prelude.{
  ℕ, zero, suc, ◌≡◌, refl, ap, Bool, true, false, some, List, [], ◌∷◌, ◌++◌, arith, length, codes,
  mem_nat, append_assoc, String,
}
use stock_fixer.Promotion.Names.{
  joblib, underscore, all_digits, match_number, after_digits, after_stamp, match_stamp,
  production_of, production_for_backup,
}

-- `%Y%m%d_%H%M%S`
abbrev pub IsStamp : (ℕ → Bool) → List ℕ → Type 0
IsStamp digit stamp =
    (date : List ℕ) × (time : List ℕ) × (stamp ≡ date ++ underscore ∷ time)
    × (length date ≡ 8)
    × (length time ≡ 6)
    × (all_digits digit date ≡ true)
    × (all_digits digit time ≡ true)

after_digits-append :
    (digit : ℕ → Bool) (n : ℕ) (xs rest : List ℕ)
    → length xs ≡ n
    → all_digits digit xs ≡ true
    → after_digits digit n (xs ++ rest) ≡ some rest
after_digits-append digit zero [] rest l h = refl
after_digits-append digit zero (x ∷ xs) rest l h = absurd (omega arith)
after_digits-append digit (suc n) [] rest l h = absurd (omega arith)
after_digits-append digit (suc n) (x ∷ xs) rest l h =
    ground (arith, after_digits-append digit n xs rest)

after_stamp_lem :
    (digit : ℕ → Bool) (stamp rest : List ℕ)
    → IsStamp digit stamp
    → after_stamp digit (underscore ∷ (stamp ++ rest)) ≡ some rest
after_stamp_lem digit stamp rest (date, time, e, l, k, h, g) =
    rw (e, append_assoc date (underscore ∷ time) rest)
      (rw (after_digits-append digit 8 date (underscore ∷ (time ++ rest)) l h)
        (after_digits-append digit 6 time rest k g))

-- The number that keeps two backups of one second apart does not matter.
pub match_stamp_lem :
    (digit : ℕ → Bool) (stamp rest : List ℕ)
    → IsStamp digit stamp
    → match_number digit rest ≡ true
    → match_stamp digit (underscore ∷ (stamp ++ rest)) ≡ true
match_stamp_lem digit stamp rest s m = rw (after_stamp_lem digit stamp rest s, match_stamp) m

pub xgboost_backup :
    (digit : ℕ → Bool) (unified : String) (stamp rest : List ℕ)
    → IsStamp digit stamp
    → match_number digit rest ≡ true
    → production_for_backup digit
        (joblib unified (codes "UnifiedStockXGBoost" ++ underscore ∷ (stamp ++ rest)))
      ≡ some (codes "UnifiedStockXGBoost")
unfolding production_for_backup production_of
xgboost_backup digit unified stamp rest s m = rw (match_stamp_lem digit stamp rest s m) refl

pub lightgbm_backup :
    (digit : ℕ → Bool) (unified : String) (stamp rest : List ℕ)
    → IsStamp digit stamp
    → match_number digit rest ≡ true
    → production_for_backup digit
        (joblib unified (codes "UnifiedStockLightGBM" ++ underscore ∷ (stamp ++ rest)))
      ≡ some (codes "UnifiedStockLightGBM")
unfolding production_for_backup production_of
lightgbm_backup digit unified stamp rest s m = rw (match_stamp_lem digit stamp rest s m) refl

mem_nat-append : (k : ℕ) (xs ys : List ℕ) → mem_nat k (xs ++ k ∷ ys) ≡ true
mem_nat-append k [] ys = ground arith
mem_nat-append k (x ∷ xs) ys = ground (arith, mem_nat-append k xs ys)

-- A name without an underscore is no name of a backup.
pub no_underscore :
    (name stem rest : List ℕ)
    → mem_nat underscore name ≡ false
    → name ≡ stem ++ underscore ∷ rest
    → ⊥
no_underscore name stem rest h e =
    ground (arith, h, mem_nat-append underscore stem rest, ap (λ l. mem_nat underscore l) e)
