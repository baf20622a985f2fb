-- ===== src/Promotion/Backup/AllOrNothing.antt =====
-- `copy_with_backup` of python/src/prediction/backtest_promotion/state.py replaces all of its targets or
-- none, and changes no other model.
use stock_fixer.Prelude.{
  ℕ, ◌<◌, ◌≡◌, ◌⊎◌, refl, ap, ◌∙◌, inl, inr, Bool, true, false, Option, none, some, List, [], ◌∷◌,
  arith, Bool-cases, is_some,
}
use stock_fixer.Promotion.Disk.{FilePath, get, is_works, Disk, System, exists}
use stock_fixer.Promotion.Disk.Copy.{IsModel, TempNames, Faulted}
use stock_fixer.Promotion.Backup.{
  Original, Saved, save_all, copy_all, finish, copy_saved, copy_with_backup,
}
use stock_fixer.Promotion.Backup.Fresh.{IsBackupName}
use stock_fixer.Promotion.Backup.Saves.{Saves, Apart, Targets, Grows, AllSaved, save_all_lem}
use stock_fixer.Promotion.Backup.Copies.{
  Pairs, Models, NotTarget, Independent, Replaced, SourcesExist, copy_all-others, copy_all-Replaced,
  copy_all-Faulted,
}
use stock_fixer.Promotion.Backup.Restores.{
  Working, put_back-others, put_back-Restored, Apart-of, backup-IsModel,
}

-- Once a call has failed, every later one works.
abbrev pub OneFault : {C : Type 0} → System C → Type 0
OneFault system =
    (m n : ℕ) → m < n → is_works (system.fault m) ≡ false → is_works (system.fault n) ≡ true

abbrev pub any_digit : ℕ → Bool
any_digit c = true

-- The backups with the targets as they were, or an exception.
abbrev pub ReplacedOrRestored :
    {C : Type 0} → Disk C → Pairs → Disk C × Option (List FilePath) → Type 0
ReplacedOrRestored d pairs r =
    ((bs : List FilePath) × (r.1 ≡ some bs) × Replaced d r.0 pairs)
    ⊎ ((r.1 ≡ none) × Targets (λ t. get t r.0.files ≡ get t d.files) pairs)

module _ {C : Type 0} where
  Grows-Restored :
      (stamp : List ℕ) (d d' : Disk C) (pairs : Pairs)
      → Grows stamp d d'
      → Targets (Apart stamp) pairs
      → Targets (λ t. get t d'.files ≡ get t d.files) pairs
  Grows-Restored stamp d d' [] g a = tt
  Grows-Restored stamp d d' (p ∷ pairs) g (a, others) =
      (g p.1 (inr a), Grows-Restored stamp d d' pairs g others)

  pub Grows-Replaced :
      (stamp : List ℕ) (d dS d' : Disk C) (pairs : Pairs)
      → Grows stamp d dS
      → SourcesExist d pairs
      → Replaced dS d' pairs
      → Replaced d d' pairs
  Grows-Replaced stamp d dS d' [] g x r = tt
  Grows-Replaced stamp d dS d' (p ∷ pairs) g (x, xs) (r, rs) =
      (r ∙ g p.0 (inl x), Grows-Replaced stamp d dS d' pairs g xs rs)

  pub Grows-SourcesExist :
      (stamp : List ℕ) (d dS : Disk C) (pairs : Pairs)
      → Grows stamp d dS
      → SourcesExist d pairs
      → SourcesExist dS pairs
  Grows-SourcesExist stamp d dS [] g x = tt
  Grows-SourcesExist stamp d dS (p ∷ pairs) g (x, xs) =
      (ap (λ o. is_some o) (g p.0 (inl x)) ∙ x, Grows-SourcesExist stamp d dS pairs g xs)

pub backup_no_target :
    (digit : ℕ → Bool) (stamp : List ℕ) (dst b : FilePath) (pairs : Pairs)
    → IsBackupName digit dst stamp b
    → Targets (Apart stamp) pairs
    → NotTarget b pairs
backup_no_target digit stamp dst b [] name a = tt
backup_no_target digit stamp dst b (p ∷ pairs) name (a, others) =
    (Apart-of digit stamp p.1 dst b name a, backup_no_target digit stamp dst b pairs name others)

module _ {C : Type 0} (system : System C) (names : TempNames system) where
  -- With one failed call at most, where the targets are distinct models, none of them with the name of
  -- a backup or read as a source after it was replaced, and all the sources exist: a call that returns
  -- leaves every target with the contents of its source, and a call that raises leaves every target,
  -- also one that was not there, as it was.
  pub copy_with_backup-all_or_nothing :
      (d : Disk C) (pairs : Pairs) (stamp : List ℕ)
      → OneFault system
      → Models pairs
      → Targets (Apart stamp) pairs
      → Independent pairs
      → SourcesExist d pairs
      → ReplacedOrRestored d pairs (copy_with_backup system d pairs stamp)
  unfolding copy_with_backup
  copy_with_backup-all_or_nothing d pairs stamp one m a i x =
      by_saved (save_all system d pairs stamp)
        (save_all_lem system any_digit stamp d pairs (λ n h. refl) a)
    where
      working : (d1 d2 : Disk C) → Faulted system d1 d2 → Working system d2
      working d1 d2 (n, l, k, f) = λ o h. one n o (omega (arith, k, h)) f

      by_copies :
          (dS : Disk C) (bs : List FilePath) (os : List Original)
          → Grows stamp d dS
          → Saves any_digit stamp d dS pairs os bs
          → ((copy_all system dS pairs).1 ≡ true) ⊎ ((copy_all system dS pairs).1 ≡ false)
          → ReplacedOrRestored d pairs (finish system bs os (copy_all system dS pairs))
      by_copies dS bs os g s (inl y) = rw y (
          inl (
            bs,
            refl,
            Grows-Replaced stamp d dS (copy_all system dS pairs).0 pairs g x
                (copy_all-Replaced system names dS pairs m i y),
          ))
      by_copies dS bs os g s (inr n) = rw n (
          inr (
            refl,
            put_back-Restored system names (copy_all system dS pairs).0 s m a i
                (working dS (copy_all system dS pairs).0 (
                  copy_all-Faulted system names dS pairs m i
                    (Grows-SourcesExist stamp d dS pairs g x) n))
                (λ dst b name.
                  copy_all-others system names dS pairs b m
                    (backup-IsModel any_digit stamp dst b name)
                    (backup_no_target any_digit stamp dst b pairs name a)),
          ))

      by_saved :
          (r : Saved system)
          → AllSaved system any_digit stamp d pairs r
          → ReplacedOrRestored d pairs (copy_saved system pairs r)
      by_saved (dS, none) (g, e) = inr (refl, Grows-Restored stamp d dS pairs g a)
      by_saved (dS, some (bs, os)) (g, s) =
          by_copies dS bs os g s (Bool-cases (copy_all system dS pairs).1)

  -- Whatever calls fail: a model that is there and is no target stays as it is, where the models among
  -- the pairs end in `.joblib` and no target has the name of a backup.
  pub copy_with_backup-others :
      (d : Disk C) (pairs : Pairs) (stamp : List ℕ) (q : FilePath)
      → Models pairs
      → Targets (Apart stamp) pairs
      → IsModel q
      → exists d q ≡ true
      → NotTarget q pairs
      → get q (copy_with_backup system d pairs stamp).0.files ≡ get q d.files
  unfolding copy_with_backup
  copy_with_backup-others d pairs stamp q m a k x n =
      by_saved (save_all system d pairs stamp)
        (save_all_lem system any_digit stamp d pairs (λ n h. refl) a)
    where
      by_copies :
          (dS : Disk C) (bs : List FilePath) (os : List Original)
          → Saves any_digit stamp d dS pairs os bs
          → ((copy_all system dS pairs).1 ≡ true) ⊎ ((copy_all system dS pairs).1 ≡ false)
          → get q (finish system bs os (copy_all system dS pairs)).0.files ≡ get q dS.files
      by_copies dS bs os s (inl y) = rw y (copy_all-others system names dS pairs q m k n)
      by_copies dS bs os s (inr y) = rw y (
          put_back-others system names (copy_all system dS pairs).0 q k s n
          ∙ copy_all-others system names dS pairs q m k n)

      by_saved :
          (r : Saved system)
          → AllSaved system any_digit stamp d pairs r
          → get q (copy_saved system pairs r).0.files ≡ get q d.files
      by_saved (dS, none) (g, e) = g q (inl x)
      by_saved (dS, some (bs, os)) (g, s) =
          by_copies dS bs os s (Bool-cases (copy_all system dS pairs).1) ∙ g q (inl x)
