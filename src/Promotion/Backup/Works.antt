-- ===== src/Promotion/Backup/Works.antt =====
-- On a disk that works, `copy_with_backup` of python/src/prediction/backtest_promotion/state.py returns.
use stock_fixer.Prelude.{
  ℕ, ◌≡◌, refl, ◌∙◌, inl, inr, Bool, true, Option, none, some, List, [], ◌∷◌, arith, Bool-cases,
  is_some, if◌then◌else◌,
}
use stock_fixer.Promotion.Disk.{
  FilePath, get, Fault, is_works, Disk, System, exists, copy2, copy_as, copy_found,
}
use stock_fixer.Promotion.Disk.Copy.{TempNames}
use stock_fixer.Promotion.Names.Decimal.{Digits}
use stock_fixer.Promotion.Backup.{
  Original, Saved, with_saved, with_new, backup_path, copy_to_backup, save_all, copy_all,
  copy_saved, copy_with_backup,
}
use stock_fixer.Promotion.Backup.Fresh.{IsBackupName, FreshBackup, backup_path-FreshBackup}
use stock_fixer.Promotion.Backup.Saves.{
  Saves, done, saved, new, Apart, Targets, AllSaved, save_all_lem,
}
use stock_fixer.Promotion.Backup.Copies.{
  Pairs, Models, Independent, Replaced, SourcesExist, copy_all-others, copy_all-Replaced,
  copy_all-Faulted,
}
use stock_fixer.Promotion.Backup.Restores.{backup-IsModel}
use stock_fixer.Promotion.Backup.AllOrNothing.{backup_no_target, Grows-Replaced, Grows-SourcesExist}

abbrev pub AlwaysWorks : {C : Type 0} → System C → Type 0
AlwaysWorks system = (n : ℕ) → is_works (system.fault n) ≡ true

module _ {C : Type 0} where
  -- The entries may be read from a later disk.
  later :
      {digit : ℕ → Bool} {stamp : List ℕ} {d d1 d2 : Disk C} {pairs : Pairs} {os : List Original}
      {bs : List FilePath}
      → ((dst b : FilePath) → IsBackupName digit dst stamp b → get b d2.files ≡ get b d1.files)
      → Saves digit stamp d d1 pairs os bs
      → Saves digit stamp d d2 pairs os bs
  later k done = done
  later k (saved src dst b e s name rest) = saved src dst b e (k dst b name ∙ s) name (later k rest)
  later k (new src dst e rest) = new src dst e (later k rest)

  some_with_new :
      (system : System C) (dst : FilePath) (r : Saved system)
      → is_some r.1 ≡ true
      → is_some (with_new system dst r).1 ≡ true
  some_with_new system dst (d, none) h = absurd (ground arith)
  some_with_new system dst (d, some (bs, os)) h = refl

  some_with_saved :
      (system : System C) (dst b : FilePath) (r : Saved system)
      → is_some r.1 ≡ true
      → is_some (with_saved system dst b r).1 ≡ true
  some_with_saved system dst b (d, none) h = absurd (ground arith)
  some_with_saved system dst b (d, some (bs, os)) h = refl

module _ {C : Type 0} (system : System C) (works : AlwaysWorks system) where
  copy_to_backup-works :
      (digit : ℕ → Bool) (stamp : List ℕ) (d : Disk C) (dst : FilePath) (o : Option FilePath)
      → exists d dst ≡ true
      → FreshBackup digit d dst stamp o
      → is_some (copy_to_backup system d dst o).1 ≡ true
  unfolding copy2
  copy_to_backup-works digit stamp d dst none e k = absurd k
  copy_to_backup-works digit stamp d dst (some b) e k = by_source (get dst d.files) e
    where
      returned : Disk C × Bool → Bool
      returned r = is_some (if r.1 then some b else none)

      by_fault : (c : C) (f : Fault C) → is_works f ≡ true → returned (copy_as d b c f) ≡ true
      by_fault c Fault.works h = refl
      by_fault c Fault.fails h = absurd (ground arith)
      by_fault c (Fault.cut c') h = absurd (ground arith)

      by_source : (o : Option C) → is_some o ≡ true → returned (copy_found system d b o) ≡ true
      by_source none h = absurd (ground arith)
      by_source (some c) h = by_fault c (system.fault d.clock) (works d.clock)

  save_all-works :
      (stamp : List ℕ) (d : Disk C) (pairs : Pairs) (digit : ℕ → Bool)
      → Digits digit
      → is_some (save_all system d pairs stamp).1 ≡ true
  unfolding save_all
  save_all-works stamp d [] digit h = refl
  save_all-works stamp d ((src, dst) ∷ pairs) digit h = elim (Bool-cases (exists d dst)) [
    | inr e ↦
        rw (e, save_all)
          (some_with_new system dst (save_all system d pairs stamp)
            (save_all-works stamp d pairs digit h))
    | inl e ↦
        rw (e, save_all)
          (by_copy (copy_to_backup system d dst (backup_path d dst stamp))
            (copy_to_backup-works digit stamp d dst (backup_path d dst stamp) e
              (backup_path-FreshBackup digit d dst stamp h))
            (λ d1. save_all-works stamp d1 pairs digit h))
  ]
    where
      by_copy :
          (r : Disk C × Option FilePath)
          → is_some r.1 ≡ true
          → ((d1 : Disk C) → is_some (save_all system d1 pairs stamp).1 ≡ true)
          → is_some
              (elim r.1 as (λ o. Saved system) [
                | none ↦ (r.0, none)
                | some path ↦ with_saved system dst path (save_all system r.0 pairs stamp)
              ]).1
            ≡ true
      by_copy (d1, none) k ih = absurd (ground arith)
      by_copy (d1, some b) k ih =
          some_with_saved system dst b (save_all system d1 pairs stamp) (ih d1)

  abbrev pub ReturnedBackups :
      (ℕ → Bool) → List ℕ → Disk C → Pairs → Disk C × Option (List FilePath) → Type 0
  ReturnedBackups digit stamp d pairs r =
      (bs : List FilePath) × (r.1 ≡ some bs)
      × Replaced d r.0 pairs
      × ((os : List Original) × Saves digit stamp d r.0 pairs os bs)

  module _ (names : TempNames system) where
    -- On a disk where no call fails, with distinct targets, none of them with the name of a backup or
    -- read as a source after it was replaced, and sources that exist: the call returns, each target has
    -- the contents of its source, and each target that was there has a backup under the names of its
    -- stamp, listed in order, with its former contents.
    pub copy_with_backup-works :
        (digit : ℕ → Bool) (d : Disk C) (pairs : Pairs) (stamp : List ℕ)
        → Digits digit
        → Models pairs
        → Targets (Apart stamp) pairs
        → Independent pairs
        → SourcesExist d pairs
        → ReturnedBackups digit stamp d pairs (copy_with_backup system d pairs stamp)
    unfolding copy_with_backup
    copy_with_backup-works digit d pairs stamp h m a i x =
        by_saved (save_all system d pairs stamp) (save_all_lem system digit stamp d pairs h a)
          (save_all-works stamp d pairs digit h)
      where
        by_saved :
            (r : Saved system)
            → AllSaved system digit stamp d pairs r
            → is_some r.1 ≡ true
            → ReturnedBackups digit stamp d pairs (copy_saved system pairs r)
        by_saved (dS, none) (g, s) k = absurd (ground arith)
        by_saved (dS, some (bs, os)) (g, s) k = elim (Bool-cases (copy_all system dS pairs).1) [
          | inl y ↦ rw y (
            bs,
            refl,
            Grows-Replaced stamp d dS (copy_all system dS pairs).0 pairs g x
                (copy_all-Replaced system names dS pairs m i y),
            (
              os,
              later
                  (λ dst b name.
                    copy_all-others system names dS pairs b m
                      (backup-IsModel digit stamp dst b name)
                      (backup_no_target digit stamp dst b pairs name a))
                  s,
            ),
          )
          | inr n ↦
              let (k, l, u, f) =
                copy_all-Faulted system names dS pairs m i (Grows-SourcesExist stamp d dS pairs g x)
                  n in
              absurd (ground (arith, works k, f))
        ]
