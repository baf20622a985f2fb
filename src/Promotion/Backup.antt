-- ===== src/Promotion/Backup.antt =====
-- `copy_with_backup` of python/src/prediction/backtest_promotion/state.py: all the files are replaced,
-- or those that were are put back from the backups.
use stock_fixer.Prelude.{
  ℕ, zero, suc, ◌+◌, Bool, true, false, Option, none, some, List, [], ◌∷◌, ◌++◌, length,
  if◌then◌else◌,
}
pub mod Fresh
pub mod Saves
pub mod Copies
pub mod Restores
pub mod AllOrNothing
pub mod Works
use stock_fixer.Promotion.Disk.{FilePath, get, Disk, System, exists, remove, copy2, copy_replace}
use stock_fixer.Promotion.Names.{joblib, stamped, numbered}

-- A target with its backup, where it had one.
abbrev pub Original : Type 0
Original = FilePath × Option FilePath

module _ {C : Type 0} where
  -- The `while` loop of `_backup_path`, at the number `n`.
  pub next_free : ℕ → Disk C → FilePath → List ℕ → ℕ → Option FilePath
  next_free zero d dst stamp n = none
  next_free (suc fuel) d dst stamp n =
      let path = joblib dst.folder (numbered dst.stem stamp n) in
      elim (exists d path) [ true ↦ next_free fuel d dst stamp (suc n) | false ↦ some path ]

  pub backup_path : Disk C → FilePath → List ℕ → Option FilePath
  backup_path d dst stamp =
      let path = joblib dst.folder (stamped dst.stem stamp) in
      if exists d path then next_free (suc (length d.files)) d dst stamp 2 else some path

module _ {C : Type 0} (system : System C) where
  abbrev pub Saved : Type 0
  Saved = Disk C × Option (List FilePath × List Original)

  abbrev pub with_saved : FilePath → FilePath → Saved → Saved
  with_saved dst backup (d, none) = (d, none)
  with_saved dst backup (d, some (backups, originals)) =
      (d, some (backup ∷ backups, (dst, some backup) ∷ originals))

  abbrev pub with_new : FilePath → Saved → Saved
  with_new dst (d, none) = (d, none)
  with_new dst (d, some (backups, originals)) = (d, some (backups, (dst, none) ∷ originals))

  abbrev pub copy_to_backup : Disk C → FilePath → Option FilePath → Disk C × Option FilePath
  copy_to_backup d dst none = (d, none)
  copy_to_backup d dst (some path) =
      let (d', done) = copy2 system d dst path in (d', (if done then some path else none))

  -- The first loop, with `backups` and `originals`; `none` where a copy raises.
  pub save_all : Disk C → List (FilePath × FilePath) → List ℕ → Saved
  save_all d [] stamp = (d, some ([], []))
  save_all d ((src, dst) ∷ pairs) stamp = elim (exists d dst) [
    | false ↦ with_new dst (save_all d pairs stamp)
    | true ↦
        let r = copy_to_backup d dst (backup_path d dst stamp) in
        elim r.1 [ none ↦ (r.0, none) | some path ↦ with_saved dst path (save_all r.0 pairs stamp) ]
  ]

  -- The loop of the copies, with whether all of them returned.
  pub copy_all : Disk C → List (FilePath × FilePath) → Disk C × Bool
  copy_all d [] = (d, true)
  copy_all d ((src, dst) ∷ pairs) =
      let r = copy_replace system d src dst in
      elim r.1 [ true ↦ copy_all r.0 pairs | false ↦ (r.0, false) ]

  abbrev pub put_back_one : Disk C → Original → Disk C
  put_back_one d (dst, none) = if exists d dst then (remove system d dst).0 else d
  put_back_one d (dst, some saved) = (copy_replace system d saved dst).0

  -- The `except` branch; a target that cannot be put back stops no other.
  pub put_back : Disk C → List Original → Disk C
  put_back d [] = d
  put_back d (o ∷ originals) = put_back (put_back_one d o) originals

  abbrev pub finish :
      List FilePath → List Original → Disk C × Bool → Disk C × Option (List FilePath)
  finish backups originals (d, true) = (d, some backups)
  finish backups originals (d, false) = (put_back d originals, none)

  abbrev pub copy_saved : List (FilePath × FilePath) → Saved → Disk C × Option (List FilePath)
  copy_saved pairs (d, none) = (d, none)
  copy_saved pairs (d, some (backups, originals)) = finish backups originals (copy_all d pairs)

  -- The disk, and the backups; `none` where it raises.
  pub copy_with_backup :
      Disk C → List (FilePath × FilePath) → List ℕ → Disk C × Option (List FilePath)
  copy_with_backup d pairs stamp = copy_saved pairs (save_all d pairs stamp)
