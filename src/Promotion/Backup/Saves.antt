-- ===== src/Promotion/Backup/Saves.antt =====
-- What the first loop of `copy_with_backup` (python/src/prediction/backtest_promotion/state.py)
-- leaves: no file changes, and each target that is there has a backup with its contents.
use stock_fixer.Prelude.{
  ℕ, ◌≡◌, ◌≢◌, ◌⊎◌, refl, sym, ap, ◌∙◌, inl, inr, Bool, true, false, Option, none, some, List, [],
  ◌∷◌, ◌++◌, String, arith, Bool-cases, All, is_some, if◌then◌else◌,
}
use stock_fixer.Promotion.Disk.{
  FilePath, path_eq, get, put, Fault, Disk, System, exists, after_call, copy2, copy_as, copy_found,
}
use stock_fixer.Promotion.Disk.Paths.{path_eq→≡, get-put_same, get-put_other}
use stock_fixer.Promotion.Names.{joblib, underscore}
use stock_fixer.Promotion.Names.Decimal.{Digits}
use stock_fixer.Promotion.Backup.{
  Original, backup_path, Saved, with_saved, with_new, copy_to_backup, save_all,
}
use stock_fixer.Promotion.Backup.Fresh.{IsBackupName, FreshBackup, backup_path-FreshBackup}

-- No name of a backup with this stamp.
abbrev pub Apart : List ℕ → FilePath → Type 0
Apart stamp q =
    (folder : String) (stem rest : List ℕ)
    → q ≢ joblib folder (stem ++ underscore ∷ (stamp ++ rest))

abbrev pub Targets : (FilePath → Type 0) → List (FilePath × FilePath) → Type 0
Targets P pairs = All (λ (p : FilePath × FilePath). P p.1) pairs

module _ {C : Type 0} where
  abbrev pub Grows : List ℕ → Disk C → Disk C → Type 0
  Grows stamp d d' =
      (q : FilePath) → (exists d q ≡ true) ⊎ Apart stamp q → get q d'.files ≡ get q d.files

  -- The pairs with their entries of `originals` and with `backups`.
  pub data Saves (digit : ℕ → Bool) (stamp : List ℕ) (d d' : Disk C)
      : List (FilePath × FilePath) → List Original → List FilePath → Type 0 where
    done : Saves digit stamp d d' [] [] []
    saved :
        (src dst b : FilePath) {pairs : List (FilePath × FilePath)} {os : List Original}
        {bs : List FilePath}
        → exists d dst ≡ true
        → get b d'.files ≡ get dst d.files
        → IsBackupName digit dst stamp b
        → Saves digit stamp d d' pairs os bs
        → Saves digit stamp d d' ((src, dst) ∷ pairs) ((dst, some b) ∷ os) (b ∷ bs)
    new :
        (src dst : FilePath) {pairs : List (FilePath × FilePath)} {os : List Original}
        {bs : List FilePath}
        → exists d dst ≡ false
        → Saves digit stamp d d' pairs os bs
        → Saves digit stamp d d' ((src, dst) ∷ pairs) ((dst, none) ∷ os) bs

  Grows-trans :
      (stamp : List ℕ) (d d1 d2 : Disk C) → Grows stamp d d1 → Grows stamp d1 d2 → Grows stamp d d2
  Grows-trans stamp d d1 d2 g h q (inl e) =
      h q (inl (ap (λ o. is_some o) (g q (inl e)) ∙ e)) ∙ g q (inl e)
  Grows-trans stamp d d1 d2 g h q (inr a) = h q (inr a) ∙ g q (inr a)

  -- The entries may be read from an earlier disk.
  earlier :
      {digit : ℕ → Bool} {stamp : List ℕ} {d d1 d2 : Disk C} {pairs : List (FilePath × FilePath)}
      {os : List Original} {bs : List FilePath}
      → Grows stamp d d1
      → Saves digit stamp d1 d2 pairs os bs
      → Targets (Apart stamp) pairs
      → Saves digit stamp d d2 pairs os bs
  earlier g done a = done
  earlier g (saved src dst b e s n rest) (a, others) =
      saved src dst b (ap (λ o. is_some o) (sym (g dst (inr a))) ∙ e) (s ∙ g dst (inr a)) n
        (earlier g rest others)
  earlier g (new src dst e rest) (a, others) =
      new src dst (ap (λ o. is_some o) (sym (g dst (inr a))) ∙ e) (earlier g rest others)

  put-Grows :
      (digit : ℕ → Bool) (stamp : List ℕ) (d : Disk C) (dst b : FilePath) (c : C)
      → exists d b ≡ false
      → IsBackupName digit dst stamp b
      → Grows stamp d (after_call d (put b c d.files))
  put-Grows digit stamp d dst b c e (rest, name, m) q k =
      get-put_other b q c d.files (elim (Bool-cases (path_eq b q)) [
        | inr n ↦ n
        | inl y ↦ absurd (by_kind (path_eq→≡ b q y) k)
      ])
    where
      by_kind : b ≡ q → (exists d q ≡ true) ⊎ Apart stamp q → ⊥
      by_kind y (inl x) = ground (arith, ap (λ p. exists d p) y, e, x)
      by_kind y (inr a) = a dst.folder dst.stem rest (sym y ∙ name)

module _ {C : Type 0} (system : System C) where
  -- A backup whose copy returned has the contents of its target.
  abbrev KeptAs : (ℕ → Bool) → List ℕ → Disk C → FilePath → Disk C → Option FilePath → Type 0
  KeptAs digit stamp d dst d' none = Unit
  KeptAs digit stamp d dst d' (some b) =
      (get b d'.files ≡ get dst d.files) × IsBackupName digit dst stamp b

  abbrev Kept : (ℕ → Bool) → List ℕ → Disk C → FilePath → Disk C × Option FilePath → Type 0
  Kept digit stamp d dst r = Grows stamp d r.0 × KeptAs digit stamp d dst r.0 r.1

  copy_to_backup-Kept :
      (digit : ℕ → Bool) (stamp : List ℕ) (d : Disk C) (dst : FilePath) (o : Option FilePath)
      → FreshBackup digit d dst stamp o
      → Kept digit stamp d dst (copy_to_backup system d dst o)
  unfolding copy2
  copy_to_backup-Kept digit stamp d dst none k = absurd k
  copy_to_backup-Kept digit stamp d dst (some b) (e, name) = by_source (get dst d.files) refl
    where
      kept_as : Disk C × Bool → Disk C × Option FilePath
      kept_as r = (r.0, (if r.1 then some b else none))

      by_fault :
          (c : C) (f : Fault C)
          → get dst d.files ≡ some c
          → Kept digit stamp d dst (kept_as (copy_as d b c f))
      by_fault c Fault.works s =
          (put-Grows digit stamp d dst b c e name, (get-put_same b c d.files ∙ sym s, name))
      by_fault c Fault.fails s = ((λ q k. refl), tt)
      by_fault c (Fault.cut c') s = (put-Grows digit stamp d dst b c' e name, tt)

      by_source :
          (o : Option C)
          → get dst d.files ≡ o
          → Kept digit stamp d dst (kept_as (copy_found system d b o))
      by_source none s = ((λ q k. refl), tt)
      by_source (some c) s = by_fault c (system.fault d.clock) s

  abbrev pub EntriesSaved :
      (ℕ → Bool)
      → List ℕ
      → Disk C
      → Disk C
      → List (FilePath × FilePath)
      → Option (List FilePath × List Original)
      → Type 0
  EntriesSaved digit stamp d d' pairs none = Unit
  EntriesSaved digit stamp d d' pairs (some (bs, os)) = Saves digit stamp d d' pairs os bs

  abbrev pub AllSaved :
      (ℕ → Bool) → List ℕ → Disk C → List (FilePath × FilePath) → Saved system → Type 0
  AllSaved digit stamp d pairs r = Grows stamp d r.0 × EntriesSaved digit stamp d r.0 pairs r.1

  with_new-AllSaved :
      (digit : ℕ → Bool) (stamp : List ℕ) (d : Disk C) (src dst : FilePath)
      (pairs : List (FilePath × FilePath)) (r : Saved system)
      → exists d dst ≡ false
      → AllSaved digit stamp d pairs r
      → AllSaved digit stamp d ((src, dst) ∷ pairs) (with_new system dst r)
  with_new-AllSaved digit stamp d src dst pairs (d', none) e (g, x) = (g, tt)
  with_new-AllSaved digit stamp d src dst pairs (d', some (bs, os)) e (g, x) = (g, new src dst e x)

  with_saved-AllSaved :
      (digit : ℕ → Bool) (stamp : List ℕ) (d d1 : Disk C) (src dst b : FilePath)
      (pairs : List (FilePath × FilePath)) (r : Saved system)
      → exists d dst ≡ true
      → Targets (Apart stamp) pairs
      → Grows stamp d d1
      → get b d1.files ≡ get dst d.files
      → IsBackupName digit dst stamp b
      → AllSaved digit stamp d1 pairs r
      → AllSaved digit stamp d ((src, dst) ∷ pairs) (with_saved system dst b r)
  with_saved-AllSaved digit stamp d d1 src dst b pairs (d', none) e a g s name (h, x) =
      (Grows-trans stamp d d1 d' g h, tt)
  with_saved-AllSaved digit stamp d d1 src dst b pairs (d', some (bs, os)) e a g s name (h, x) = (
    Grows-trans stamp d d1 d' g h,
    saved src dst b e (h b (inl (ap (λ o. is_some o) s ∙ e)) ∙ s) name (earlier g x a),
  )

  pub save_all_lem :
      (digit : ℕ → Bool) (stamp : List ℕ) (d : Disk C) (pairs : List (FilePath × FilePath))
      → Digits digit
      → Targets (Apart stamp) pairs
      → AllSaved digit stamp d pairs (save_all system d pairs stamp)
  unfolding save_all
  save_all_lem digit stamp d [] h a = ((λ q k. refl), done)
  save_all_lem digit stamp d ((src, dst) ∷ pairs) h (a, others) = elim (Bool-cases (exists d dst)) [
    | inr e ↦
        rw (e, save_all)
          (with_new-AllSaved digit stamp d src dst pairs (save_all system d pairs stamp) e
            (save_all_lem digit stamp d pairs h others))
    | inl e ↦
        rw (e, save_all)
          (by_copy e (copy_to_backup system d dst (backup_path d dst stamp))
            (copy_to_backup-Kept digit stamp d dst (backup_path d dst stamp)
              (backup_path-FreshBackup digit d dst stamp h))
            (λ d1. save_all_lem digit stamp d1 pairs h others))
  ]
    where
      by_copy :
          exists d dst ≡ true
          → (r : Disk C × Option FilePath) → Kept digit stamp d dst r
          → ((d1 : Disk C) → AllSaved digit stamp d1 pairs (save_all system d1 pairs stamp))
          → AllSaved digit stamp d ((src, dst) ∷ pairs) (elim r.1 [
            | none ↦ (r.0, none)
            | some path ↦ with_saved system dst path (save_all system r.0 pairs stamp)
          ])
      by_copy e (d1, none) (g, k) ih = (g, tt)
      by_copy e (d1, some path) (g, (s, name)) ih =
          with_saved-AllSaved digit stamp d d1 src dst path pairs (save_all system d1 pairs stamp) e
            others g s name (ih d1)
