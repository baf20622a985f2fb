-- ===== src/Promotion/Backup/Restores.antt =====
-- The `except` branch of `copy_with_backup` (python/src/prediction/backtest_promotion/state.py): while
-- the disk works, every target has its former contents again.
use stock_fixer.Prelude.{
  ℕ, ◌≤◌, ◌≡◌, refl, sym, ap, ◌∙◌, inl, inr, Bool, true, false, Option, none, some, List, arith,
  Bool-cases, is_some,
}
use stock_fixer.Promotion.Disk.{
  FilePath, path_eq, get, Fault, is_works, Disk, System, exists, remove, remove_as, copy_replace,
}
use stock_fixer.Promotion.Disk.Paths.{path_eq→≡, get-delete_same, get-delete_other}
use stock_fixer.Promotion.Disk.Copy.{
  IsModel, TempNames, copy_replace_lem, copy_replace-clock, remove-clock,
}
use stock_fixer.Promotion.Backup.{Original, put_back_one, put_back}
use stock_fixer.Promotion.Backup.Fresh.{IsBackupName}
use stock_fixer.Promotion.Backup.Saves.{Saves, done, saved, new, Apart, Targets}
use stock_fixer.Promotion.Backup.Copies.{
  Pairs, Models, NotTarget, Independent, NotTarget-of, other_kept, target_replaced,
}

-- From this moment on every call that writes works.
abbrev pub Working : {C : Type 0} → System C → Disk C → Type 0
Working system d = (n : ℕ) → d.clock ≤ n → is_works (system.fault n) ≡ true

pub backup-IsModel :
    (digit : ℕ → Bool) (stamp : List ℕ) (dst b : FilePath)
    → IsBackupName digit dst stamp b
    → IsModel b
backup-IsModel digit stamp dst b (rest, e, m) = ap (λ p. p.ext) e

some_eq : {x y : FilePath} → ◌≡◌ {A = Option FilePath} (some x) (some y) → x ≡ y
some_eq h = ground arith

pub Apart-of :
    (digit : ℕ → Bool) (stamp : List ℕ) (dst dst' b : FilePath)
    → IsBackupName digit dst' stamp b
    → Apart stamp dst
    → path_eq dst b ≡ false
Apart-of digit stamp dst dst' b (rest, e, m) a = elim (Bool-cases (path_eq dst b)) [
  | inr n ↦ n
  | inl y ↦ absurd (a dst'.folder dst'.stem rest (path_eq→≡ dst b y ∙ e))
]

module _ {C : Type 0} (system : System C) where
  remove-other :
      (d : Disk C) (p q : FilePath)
      → path_eq p q ≡ false
      → get q (remove system d p).0.files ≡ get q d.files
  unfolding remove
  remove-other d p q n = by_fault (system.fault d.clock)
    where
      by_fault : (f : Fault C) → get q (remove_as d p f).0.files ≡ get q d.files
      by_fault Fault.works = get-delete_other p q d.files n
      by_fault Fault.fails = refl
      by_fault (Fault.cut c) = refl

  remove-same :
      (d : Disk C) (p : FilePath) → Working system d → get p (remove system d p).0.files ≡ none
  unfolding remove
  remove-same d p w = by_fault (system.fault d.clock) (w d.clock (omega arith))
    where
      by_fault : (f : Fault C) → is_works f ≡ true → get p (remove_as d p f).0.files ≡ none
      by_fault Fault.works h = get-delete_same p d.files
      by_fault Fault.fails h = absurd (ground arith)
      by_fault (Fault.cut c) h = absurd (ground arith)

  put_back_one-clock : (d : Disk C) (o : Original) → d.clock ≤ (put_back_one system d o).clock
  put_back_one-clock d (dst, none) = elim (Bool-cases (exists d dst)) [
    | inl y ↦ rw y (remove-clock system d dst)
    | inr n ↦ rw n (omega arith)
  ]
  put_back_one-clock d (dst, some b) = copy_replace-clock system d b dst

  module _ (names : TempNames system) where
    put_back_one-other :
        (d : Disk C) (o : Original) (q : FilePath)
        → IsModel q
        → path_eq o.0 q ≡ false
        → ((b : FilePath) → o.1 ≡ some b → IsModel b)
        → get q (put_back_one system d o).files ≡ get q d.files
    put_back_one-other d (dst, none) q m n k = elim (Bool-cases (exists d dst)) [
      | inl y ↦ rw y (remove-other d dst q n)
      | inr x ↦ rw x refl
    ]
    put_back_one-other d (dst, some b) q m n k =
        elim (copy_replace_lem system d b dst names (k b refl)) [
          | inl (y, returned) ↦ other_kept d (copy_replace system d b dst).0 b dst returned q m n
          | inr (y, u, f) ↦ u q m
        ]

    put_back_one-removed :
        (d d0 : Disk C) (dst : FilePath)
        → Working system d
        → exists d0 dst ≡ false
        → get dst (put_back_one system d (dst, none)).files ≡ get dst d0.files
    put_back_one-removed d d0 dst w e = elim (Bool-cases (exists d dst)) [
      | inl y ↦ rw y (remove-same d dst w ∙ sym (is_none (get dst d0.files) e))
      | inr n ↦ rw n (is_none (get dst d.files) n ∙ sym (is_none (get dst d0.files) e))
    ]
      where
        is_none : (o : Option C) → is_some o ≡ false → o ≡ none
        is_none none h = refl
        is_none (some c) h = absurd (ground arith)

    put_back_one-copied :
        (d d0 : Disk C) (dst b : FilePath)
        → Working system d
        → IsModel dst
        → IsModel b
        → exists d0 dst ≡ true
        → get b d.files ≡ get dst d0.files
        → get dst (put_back_one system d (dst, some b)).files ≡ get dst d0.files
    put_back_one-copied d d0 dst b w m k e s = elim (copy_replace_lem system d b dst names k) [
      | inl (y, returned) ↦ target_replaced d (copy_replace system d b dst).0 b dst returned m ∙ s
      | inr (y, u, f) ↦
          let (n, a, l, g) = f (ap (λ o. is_some o) s ∙ e) in absurd (ground (arith, w n a, g))
    ]

    -- Whatever fails, the other models stay.
    pub put_back-others :
        {digit : ℕ → Bool} {stamp : List ℕ} {d0 dS : Disk C} {pairs : Pairs} {os : List Original}
        {bs : List FilePath} (d : Disk C) (q : FilePath)
        → IsModel q
        → Saves digit stamp d0 dS pairs os bs
        → NotTarget q pairs
        → get q (put_back system d os).files ≡ get q d.files
    unfolding put_back
    put_back-others d q m done n = refl
    put_back-others {digit = digit} {stamp = stamp} d q m (saved src dst b e s name rest) (n, ns) =
        put_back-others (put_back_one system d (dst, some b)) q m rest ns
        ∙ put_back_one-other d (dst, some b) q m n
            (λ x y. rw (sym (some_eq y)) (backup-IsModel digit stamp dst b name))
    put_back-others d q m (new src dst e rest) (n, ns) =
        put_back-others (put_back_one system d (dst, none)) q m rest ns
        ∙ put_back_one-other d (dst, none) q m n (λ x y. absurd (ground arith))

    -- The backups are still there.
    abbrev pub Intact : (ℕ → Bool) → List ℕ → Disk C → Disk C → Type 0
    Intact digit stamp dS d =
        (dst b : FilePath) → IsBackupName digit dst stamp b → get b d.files ≡ get b dS.files

    Intact-after :
        (digit : ℕ → Bool) (stamp : List ℕ) (dS d : Disk C) (o : Original)
        → Apart stamp o.0
        → ((b : FilePath) → o.1 ≡ some b → IsModel b)
        → Intact digit stamp dS d
        → Intact digit stamp dS (put_back_one system d o)
    Intact-after digit stamp dS d o a k i dst b name =
        put_back_one-other d o b (backup-IsModel digit stamp dst b name)
          (Apart-of digit stamp o.0 dst b name a) k
        ∙ i dst b name

    abbrev pub Restored : Disk C → Disk C → Pairs → Type 0
    Restored d0 d pairs = Targets (λ t. get t d.files ≡ get t d0.files) pairs

    pub put_back-Restored :
        {digit : ℕ → Bool} {stamp : List ℕ} {d0 dS : Disk C} {pairs : Pairs} {os : List Original}
        {bs : List FilePath} (d : Disk C)
        → Saves digit stamp d0 dS pairs os bs
        → Models pairs
        → Targets (Apart stamp) pairs
        → Independent pairs
        → Working system d
        → Intact digit stamp dS d
        → Restored d0 (put_back system d os) pairs
    unfolding put_back
    put_back-Restored d done m a i w k = tt
    put_back-Restored {digit = digit} {stamp = stamp} {d0 = d0} {dS = dS} d
          (saved src dst b e s name rest) (m, ms) (a, others) (i, is) w k =
        let d1 = put_back_one system d (dst, some b) in
        (
          put_back-others d1 dst m.1 rest (NotTarget-of dst _ i)
              ∙ put_back_one-copied d d0 dst b w m.1 (backup-IsModel digit stamp dst b name) e
                  (k dst b name ∙ s),
          put_back-Restored d1 rest ms others is
              (λ n l. w n (omega (arith, l, put_back_one-clock d (dst, some b))))
              (Intact-after digit stamp dS d (dst, some b) a
                (λ x y. rw (sym (some_eq y)) (backup-IsModel digit stamp dst b name)) k),
        )
    put_back-Restored {digit = digit} {stamp = stamp} {d0 = d0} {dS = dS} d (new src dst e rest)
          (m, ms) (a, others) (i, is) w k =
        let d1 = put_back_one system d (dst, none) in
        (
          put_back-others d1 dst m.1 rest (NotTarget-of dst _ i)
              ∙ put_back_one-removed d d0 dst w e,
          put_back-Restored d1 rest ms others is
              (λ n l. w n (omega (arith, l, put_back_one-clock d (dst, none))))
              (Intact-after digit stamp dS d (dst, none) a (λ x y. absurd (ground arith)) k),
        )
