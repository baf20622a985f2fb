-- ===== src/Promotion/Backup/Fresh.antt =====
-- The name that `_backup_path` of python/src/prediction/backtest_promotion/state.py finds is of no
-- file, and the loop ends within its fuel.
use stock_fixer.Prelude.{
  ℕ, zero, suc, ◌≤◌, ◌<◌, ◌≡◌, refl, sym, ap, inl, inr, Bool, true, false, Option, none, some, List,
  [], ◌∷◌, ◌++◌, arith, length, Bool-cases, is_some, append-nil,
}
use stock_fixer.Promotion.Disk.{FilePath, path_eq, get, delete, Disk, exists}
use stock_fixer.Promotion.Disk.Paths.{path_eq→≡, get-delete_other, length-delete}
use stock_fixer.Promotion.Names.{joblib, stamped, numbered, underscore, decimal, match_number}
use stock_fixer.Promotion.Names.Decimal.{Digits, decimal-injective, match_number-decimal}
use stock_fixer.Promotion.Backup.{next_free, backup_path}

append_cancel : (xs ys zs : List ℕ) → xs ++ ys ≡ xs ++ zs → ys ≡ zs
append_cancel [] ys zs h = h
append_cancel (x ∷ xs) ys zs h = append_cancel xs ys zs (ground arith)

abbrev candidate : FilePath → List ℕ → ℕ → FilePath
candidate dst stamp n = joblib dst.folder (numbered dst.stem stamp n)

candidate-distinct :
    (dst : FilePath) (stamp : List ℕ) (m n : ℕ)
    → m < n
    → path_eq (candidate dst stamp m) (candidate dst stamp n) ≡ false
candidate-distinct dst stamp m n h =
    elim (Bool-cases (path_eq (candidate dst stamp m) (candidate dst stamp n))) [
      | inr e ↦ e
      | inl e ↦ absurd (ground (arith, same (ap (λ (p : FilePath). p.stem) (path_eq→≡ _ _ e))))
    ]
  where
    same : numbered dst.stem stamp m ≡ numbered dst.stem stamp n → m ≡ n
    same s = decimal-injective m n (
        append_cancel (underscore ∷ []) _ _ (
          append_cancel stamp _ _ (
            append_cancel (underscore ∷ []) _ _ (
              append_cancel dst.stem (underscore ∷ (stamp ++ underscore ∷ decimal m))
                (underscore ∷ (stamp ++ underscore ∷ decimal n)) s))))

-- A name of `_production_for_backup`.
abbrev pub IsBackupName : (ℕ → Bool) → FilePath → List ℕ → FilePath → Type 0
IsBackupName digit dst stamp b =
    (rest : List ℕ) × (b ≡ joblib dst.folder (dst.stem ++ underscore ∷ (stamp ++ rest)))
    × (match_number digit rest ≡ true)

module _ {C : Type 0} where
  -- `fs` holds the candidates from `n` on that are files of `d`.
  next_free_lem :
      (fuel : ℕ) (d : Disk C) (dst : FilePath) (stamp : List ℕ) (n : ℕ) (fs : List (FilePath × C))
      → length fs < fuel
      → ((m : ℕ)
          → n ≤ m
          → exists d (candidate dst stamp m) ≡ true
          → is_some (get (candidate dst stamp m) fs) ≡ true)
      → (k : ℕ) × (next_free fuel d dst stamp n ≡ some (candidate dst stamp k))
        × (exists d (candidate dst stamp k) ≡ false)
  unfolding next_free
  next_free_lem zero d dst stamp n fs h k = absurd (omega arith)
  next_free_lem (suc fuel) d dst stamp n fs h k =
      elim (Bool-cases (exists d (candidate dst stamp n))) [
        | inr e ↦ rw (e, next_free) (n, refl, e)
        | inl e ↦
            rw (e, next_free)
              (next_free_lem fuel d dst stamp (suc n) (delete (candidate dst stamp n) fs)
                (omega (arith, length-delete (candidate dst stamp n) fs (k n (omega arith) e)))
                (λ m l x.
                  rw
                    (get-delete_other (candidate dst stamp n) (candidate dst stamp m) fs
                      (candidate-distinct dst stamp n m (omega (arith, l))))
                    (k m (omega (arith, l)) x)))
      ]

  abbrev pub FoundFresh : (ℕ → Bool) → Disk C → FilePath → List ℕ → Type 0
  FoundFresh digit d dst stamp =
      (b : FilePath) × (backup_path d dst stamp ≡ some b)
      × (exists d b ≡ false)
      × IsBackupName digit dst stamp b

  -- The search for a name of a backup ends within its fuel, with the name of no file in the form that
  -- `_production_for_backup` reads.
  pub backup_path_lem :
      (digit : ℕ → Bool) (d : Disk C) (dst : FilePath) (stamp : List ℕ)
      → Digits digit
      → FoundFresh digit d dst stamp
  unfolding backup_path
  backup_path_lem digit d dst stamp h =
      elim (Bool-cases (exists d (joblib dst.folder (stamped dst.stem stamp)))) [
        | inr e ↦ rw e (
          _,
          refl,
          e,
          (
            [],
            ap (λ l. joblib dst.folder (dst.stem ++ underscore ∷ l)) (sym (append-nil stamp)),
            refl,
          ),
        )
        | inl e ↦ rw e (
            let (k, found, e') =
              next_free_lem (suc (length d.files)) d dst stamp 2 d.files (omega arith)
                (λ m l x. x) in
            (_, found, e', (_, refl, match_number-decimal digit k h)))
      ]

  abbrev pub FreshBackup : (ℕ → Bool) → Disk C → FilePath → List ℕ → Option FilePath → Type 0
  FreshBackup digit d dst stamp none = ⊥
  FreshBackup digit d dst stamp (some b) = (exists d b ≡ false) × IsBackupName digit dst stamp b

  pub backup_path-FreshBackup :
      (digit : ℕ → Bool) (d : Disk C) (dst : FilePath) (stamp : List ℕ)
      → Digits digit
      → FreshBackup digit d dst stamp (backup_path d dst stamp)
  backup_path-FreshBackup digit d dst stamp h =
      let (b, found, fresh, name) = backup_path_lem digit d dst stamp h in rw found (fresh, name)
