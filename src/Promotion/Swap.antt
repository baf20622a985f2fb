-- ===== src/Promotion/Swap.antt =====
-- `swap_in_candidate` and `restore_backups` of
-- python/src/prediction/backtest_promotion/state.py. `unified` is the folder of the models; the stamp,
-- `now_jst().strftime("%Y%m%d_%H%M%S")`, comes in as an argument.
use stock_fixer.Prelude.{
  ℕ, Bool, true, false, Option, none, some, List, [], ◌∷◌, String, if◌then◌else◌,
}
pub mod RoundTrip
use stock_fixer.Promotion.Disk.{FilePath, Disk, System, exists}
use stock_fixer.Promotion.Names.{
  joblib, swap_production_names, candidate_names, production_for_backup,
}
use stock_fixer.Promotion.Backup.{copy_with_backup}

-- The pairs of the files, or the exception of the loop before the copies.
pub data Chosen : Type 0 where
  pairs : List (FilePath × FilePath) → Chosen
  missing : FilePath → Chosen
  not_a_backup : FilePath → Chosen

-- `backups`, or the exception; `raised` is that of a copy.
pub data Outcome : Type 0 where
  returned : List FilePath → Outcome
  not_found : FilePath → Outcome
  value_error : FilePath → Outcome
  raised : Outcome

abbrev pub with_pair : FilePath → FilePath → Chosen → Chosen
with_pair src dst (Chosen.pairs ps) = Chosen.pairs ((src, dst) ∷ ps)
with_pair src dst (Chosen.missing p) = Chosen.missing p
with_pair src dst (Chosen.not_a_backup p) = Chosen.not_a_backup p

abbrev pub zip : List (List ℕ) → List (List ℕ) → List (List ℕ × List ℕ)
zip [] ys = []
zip (x ∷ xs) [] = []
zip (x ∷ xs) (y ∷ ys) = (x, y) ∷ zip xs ys

module _ {C : Type 0} where
  unfoldable pub candidate_pairs : Disk C → String → List (List ℕ × List ℕ) → Chosen
  candidate_pairs d unified [] = Chosen.pairs []
  candidate_pairs d unified ((candidate, production) ∷ names) =
      let rest = candidate_pairs d unified names in
      if exists d (joblib unified candidate)
      then with_pair (joblib unified candidate) (joblib unified production) rest
      else Chosen.missing (joblib unified candidate)

  unfoldable pub backup_pairs : (ℕ → Bool) → Disk C → String → List FilePath → Chosen
  backup_pairs digit d unified [] = Chosen.pairs []
  backup_pairs digit d unified (backup ∷ backups) =
      let rest = backup_pairs digit d unified backups in
      elim (production_for_backup digit backup) [
        | none ↦ Chosen.not_a_backup backup
        | some production ↦
            if exists d backup
            then with_pair backup (joblib unified production) rest
            else Chosen.missing backup
      ]

abbrev pub without_value : Outcome → Outcome
without_value (Outcome.returned backups) = Outcome.returned []
without_value (Outcome.not_found p) = Outcome.not_found p
without_value (Outcome.value_error p) = Outcome.value_error p
without_value Outcome.raised = Outcome.raised

module _ {C : Type 0} (system : System C) where
  abbrev pub outcome : Disk C × Option (List FilePath) → Disk C × Outcome
  outcome (d, none) = (d, Outcome.raised)
  outcome (d, some backups) = (d, Outcome.returned backups)

  abbrev pub copy_chosen : Disk C → List ℕ → Chosen → Disk C × Outcome
  copy_chosen d stamp (Chosen.pairs ps) = outcome (copy_with_backup system d ps stamp)
  copy_chosen d stamp (Chosen.missing p) = (d, Outcome.not_found p)
  copy_chosen d stamp (Chosen.not_a_backup p) = (d, Outcome.value_error p)

  pub swap_in_candidate : Disk C → String → List ℕ → Disk C × Outcome
  swap_in_candidate d unified stamp =
      copy_chosen d stamp (candidate_pairs d unified (zip candidate_names swap_production_names))

  -- It returns nothing, written `returned []` here.
  pub restore_backups : (ℕ → Bool) → Disk C → String → List FilePath → List ℕ → Disk C × Outcome
  restore_backups digit d unified backups stamp =
      let (d', o) = copy_chosen d stamp (backup_pairs digit d unified backups) in
      (d', without_value o)
