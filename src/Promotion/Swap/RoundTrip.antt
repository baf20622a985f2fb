-- ===== src/Promotion/Swap/RoundTrip.antt =====
-- A swap that is undone: `swap_in_candidate` and then `restore_backups`, in
-- python/src/prediction/backtest_promotion/state.py.
use stock_fixer.Prelude.{
  ℕ, ◌≡◌, refl, ap, ◌∙◌, Bool, true, false, Option, some, List, [], ◌∷◌, ◌++◌, String, arith, codes,
  is_some,
}
use stock_fixer.Promotion.Disk.{FilePath, path_eq, get, Disk, System, exists}
use stock_fixer.Promotion.Disk.Copy.{TempNames}
use stock_fixer.Promotion.Names.{
  joblib, production_for_backup, swap_production_names, candidate_names,
}
use stock_fixer.Promotion.Names.Decimal.{Digits}
use stock_fixer.Promotion.Names.Stamp.{IsStamp, xgboost_backup, lightgbm_backup, no_underscore}
use stock_fixer.Promotion.Backup.{Original, copy_with_backup}
use stock_fixer.Promotion.Backup.Fresh.{IsBackupName}
use stock_fixer.Promotion.Backup.Saves.{Saves, done, saved, new, Apart}
use stock_fixer.Promotion.Backup.Copies.{Pairs, Independent}
use stock_fixer.Promotion.Backup.Restores.{Apart-of, backup-IsModel}
use stock_fixer.Promotion.Backup.Works.{AlwaysWorks, copy_with_backup-works, ReturnedBackups}
use stock_fixer.Promotion.Swap.{
  Chosen, Outcome, candidate_pairs, backup_pairs, zip, outcome, without_value, swap_in_candidate,
  restore_backups, with_pair,
}

abbrev pub xgboost : String → FilePath
xgboost unified = joblib unified (codes "UnifiedStockXGBoost")

abbrev pub lightgbm : String → FilePath
lightgbm unified = joblib unified (codes "UnifiedStockLightGBM")

abbrev pub xgboost_candidate : String → FilePath
xgboost_candidate unified = joblib unified (codes "UnifiedStockXGBoost_candidate")

abbrev pub lightgbm_candidate : String → FilePath
lightgbm_candidate unified = joblib unified (codes "UnifiedStockLightGBM_candidate")

xgboost-Apart : (unified : String) (stamp : List ℕ) → Apart stamp (xgboost unified)
xgboost-Apart unified stamp folder stem rest e =
    no_underscore (codes "UnifiedStockXGBoost") stem (stamp ++ rest) refl
      (ap (λ (p : FilePath). p.stem) e)

lightgbm-Apart : (unified : String) (stamp : List ℕ) → Apart stamp (lightgbm unified)
lightgbm-Apart unified stamp folder stem rest e =
    no_underscore (codes "UnifiedStockLightGBM") stem (stamp ++ rest) refl
      (ap (λ (p : FilePath). p.stem) e)

abbrev swap_pairs : String → Pairs
swap_pairs unified =
    (xgboost_candidate unified, xgboost unified)
    ∷ (lightgbm_candidate unified, lightgbm unified)
    ∷ []

swap_pairs-Independent : (unified : String) → Independent (swap_pairs unified)
unfolding path_eq
swap_pairs-Independent unified = (((refl, refl), tt), (tt, tt))

models_distinct : (unified : String) → path_eq (lightgbm unified) (xgboost unified) ≡ false
unfolding path_eq
models_distinct unified = refl

module _ {C : Type 0} where
  chosen_candidates :
      (d : Disk C) (unified : String)
      → exists d (xgboost_candidate unified) ≡ true
      → exists d (lightgbm_candidate unified) ≡ true
      → candidate_pairs d unified (zip candidate_names swap_production_names)
        ≡ Chosen.pairs (swap_pairs unified)
  unfolding candidate_pairs
  chosen_candidates d unified x l = rw (x, l) refl

  -- The backups of the two models.
  abbrev TwoSaved : (ℕ → Bool) → List ℕ → Disk C → Disk C → String → List FilePath → Type 0
  TwoSaved digit stamp d d1 unified bs =
      (a : FilePath) × (b : FilePath) × (bs ≡ a ∷ b ∷ [])
      × (get a d1.files ≡ get (xgboost unified) d.files)
      × (get b d1.files ≡ get (lightgbm unified) d.files)
      × IsBackupName digit (xgboost unified) stamp a
      × IsBackupName digit (lightgbm unified) stamp b

  two_saved :
      (digit : ℕ → Bool) (stamp : List ℕ) (d d1 : Disk C) (unified : String) {os : List Original}
      {bs : List FilePath}
      → exists d (xgboost unified) ≡ true
      → exists d (lightgbm unified) ≡ true
      → Saves digit stamp d d1 (swap_pairs unified) os bs
      → TwoSaved digit stamp d d1 unified bs
  two_saved digit stamp d d1 unified x l (saved src dst a e s n (saved src' dst' b e' s' n' done)) =
      (a, b, refl, s, s', n, n')
  two_saved digit stamp d d1 unified x l (saved src dst a e s n (new src' dst' e' done)) =
      absurd (ground (arith, l, e'))
  two_saved digit stamp d d1 unified x l (new src dst e rest) = absurd (ground (arith, x, e))

  backup_pairs_step :
      (digit : ℕ → Bool) (d : Disk C) (unified : String) (b : FilePath) (bs : List FilePath)
      (production : List ℕ)
      → production_for_backup digit b ≡ some production
      → exists d b ≡ true
      → backup_pairs digit d unified (b ∷ bs)
        ≡ with_pair b (joblib unified production) (backup_pairs digit d unified bs)
  unfolding backup_pairs
  backup_pairs_step digit d unified b bs production e x = rw (e, backup_pairs) (rw x refl)

  chosen_backups :
      (digit : ℕ → Bool) (stamp : List ℕ) (d : Disk C) (unified : String) (a b : FilePath)
      → IsStamp digit stamp
      → IsBackupName digit (xgboost unified) stamp a
      → IsBackupName digit (lightgbm unified) stamp b
      → exists d a ≡ true
      → exists d b ≡ true
      → backup_pairs digit d unified (a ∷ b ∷ [])
        ≡ Chosen.pairs ((a, xgboost unified) ∷ (b, lightgbm unified) ∷ [])
  unfolding backup_pairs
  chosen_backups digit stamp d unified a b t (r, e, m) (r', e', m') x y =
      backup_pairs_step digit d unified a (b ∷ []) (codes "UnifiedStockXGBoost")
        (ap (λ p. production_for_backup digit p) e ∙ xgboost_backup digit unified stamp r t m) x
      ∙ ap (λ c. with_pair a (xgboost unified) c)
          (backup_pairs_step digit d unified b [] (codes "UnifiedStockLightGBM")
            (ap (λ p. production_for_backup digit p) e'
              ∙ lightgbm_backup digit unified stamp r' t m')
            y)

-- The pairs of `restore_backups`.
abbrev restore_pairs : String → FilePath → FilePath → Pairs
restore_pairs unified a b = (a, xgboost unified) ∷ (b, lightgbm unified) ∷ []

module _ {C : Type 0} (system : System C) (works : AlwaysWorks system) (names : TempNames system)
    (digit : ℕ → Bool) (digits : Digits digit) where
  -- It returns, with the models of the production as they were in `d`.
  abbrev pub Back : Disk C → String → Disk C × Outcome → Type 0
  Back d unified r =
      (r.1 ≡ Outcome.returned [])
      × (get (xgboost unified) r.0.files ≡ get (xgboost unified) d.files)
      × (get (lightgbm unified) r.0.files ≡ get (lightgbm unified) d.files)

  abbrev pub Undone : Disk C → String → List ℕ → Disk C × Outcome → Type 0
  Undone d unified stamp r =
      (bs : List FilePath) × (r.1 ≡ Outcome.returned bs)
      × (get (xgboost unified) r.0.files ≡ get (xgboost_candidate unified) d.files)
      × (get (lightgbm unified) r.0.files ≡ get (lightgbm_candidate unified) d.files)
      × Back d unified (restore_backups system digit r.0 unified bs stamp)

  restore_backups-Back :
      (d d1 : Disk C) (unified : String) (a b : FilePath) (stamp later : List ℕ)
      → IsStamp digit stamp
      → exists d (xgboost unified) ≡ true
      → exists d (lightgbm unified) ≡ true
      → get a d1.files ≡ get (xgboost unified) d.files
      → get b d1.files ≡ get (lightgbm unified) d.files
      → IsBackupName digit (xgboost unified) stamp a
      → IsBackupName digit (lightgbm unified) stamp b
      → Back d unified (restore_backups system digit d1 unified (a ∷ b ∷ []) later)
  unfolding restore_backups
  restore_backups-Back d d1 unified a b stamp later t x l sa sb na nb =
      let xa = ap (λ o. is_some o) sa ∙ x in
      let xb = ap (λ o. is_some o) sb ∙ l in
      rw (chosen_backups digit stamp d1 unified a b t na nb xa xb) (
        by_result (copy_with_backup system d1 (restore_pairs unified a b) later) (
          copy_with_backup-works system works names digit d1 (restore_pairs unified a b) later
            digits
            (
              (backup-IsModel digit stamp (xgboost unified) a na, refl),
              ((backup-IsModel digit stamp (lightgbm unified) b nb, refl), tt),
            )
            (xgboost-Apart unified later, (lightgbm-Apart unified later, tt))
            (
              (
                (
                  models_distinct unified,
                  Apart-of digit stamp (xgboost unified) (lightgbm unified) b nb
                      (xgboost-Apart unified stamp),
                ),
                tt,
              ),
              (tt, tt),
            )
            (xa, (xb, tt))))
    where
      by_result :
          (r : Disk C × Option (List FilePath))
          → ReturnedBackups system works digit later d1 (restore_pairs unified a b) r
          → Back d unified ((outcome system r).0, without_value (outcome system r).1)
      by_result (d2, o) (bs, e, (px, (pl, u)), s) = rw e (refl, px ∙ sa, pl ∙ sb)

  -- On a disk where no call fails, with both candidates and both models of the production there and
  -- stamps of the form `YYYYMMDD_HHMMSS`: the swap returns its backups and puts the candidates in
  -- place, and restoring those backups returns and puts the former models back.
  pub swap_in_candidate-restore_backups :
      (d : Disk C) (unified : String) (stamp later : List ℕ)
      → IsStamp digit stamp
      → IsStamp digit later
      → exists d (xgboost_candidate unified) ≡ true
      → exists d (lightgbm_candidate unified) ≡ true
      → exists d (xgboost unified) ≡ true
      → exists d (lightgbm unified) ≡ true
      → Undone d unified later (swap_in_candidate system d unified stamp)
  unfolding swap_in_candidate
  swap_in_candidate-restore_backups d unified stamp later t t' xc lc x l =
      rw (chosen_candidates d unified xc lc) (
        after_swap (copy_with_backup system d (swap_pairs unified) stamp) (
          copy_with_backup-works system works names digit d (swap_pairs unified) stamp digits
            ((refl, refl), ((refl, refl), tt))
            (xgboost-Apart unified stamp, (lightgbm-Apart unified stamp, tt))
            (swap_pairs-Independent unified) (xc, (lc, tt))))
    where
      after_swap :
          (r : Disk C × Option (List FilePath))
          → ReturnedBackups system works digit stamp d (swap_pairs unified) r
          → Undone d unified later (outcome system r)
      after_swap (d1, o) (bs, e, (px, (pl, u)), (os, saves)) =
          let (a, b, eb, sa, sb, na, nb) = two_saved digit stamp d d1 unified x l saves in
          rw e (
            rw eb (
              a ∷ b ∷ [],
              refl,
              px,
              pl,
              restore_backups-Back d d1 unified a b stamp later t x l sa sb na nb,
            ))
