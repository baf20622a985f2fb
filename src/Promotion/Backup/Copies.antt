-- ===== src/Promotion/Backup/Copies.antt =====
-- The loop of the copies in `copy_with_backup` (python/src/prediction/backtest_promotion/state.py):
-- what it leaves of the targets and of the other models.
use stock_fixer.Prelude.{
  ◌≤◌, ◌≡◌, refl, sym, ap, ◌∙◌, inl, inr, Bool, true, false, some, List, [], ◌∷◌, arith, Bool-cases,
  All, is_some, if◌then◌else◌,
}
use stock_fixer.Promotion.Disk.{FilePath, path_eq, get, Disk, System, exists, copy_replace}
use stock_fixer.Promotion.Disk.Paths.{path_eq_refl}
use stock_fixer.Promotion.Disk.Copy.{
  IsModel, TempNames, Faulted, copy_replace_lem, copy_replace-clock,
}
use stock_fixer.Promotion.Backup.{copy_all}

abbrev pub Pairs : Type 0
Pairs = List (FilePath × FilePath)

abbrev pub Models : Pairs → Type 0
Models pairs = All (λ (p : FilePath × FilePath). IsModel p.0 × IsModel p.1) pairs

abbrev pub NotTarget : FilePath → Pairs → Type 0
NotTarget q pairs = All (λ (p : FilePath × FilePath). path_eq p.1 q ≡ false) pairs

-- The targets are distinct, and no file is read after it was replaced.
abbrev pub Independent : Pairs → Type 0
Independent [] = Unit
Independent (p ∷ pairs) =
    All (λ (r : FilePath × FilePath). (path_eq r.1 p.1 ≡ false) × (path_eq p.1 r.0 ≡ false)) pairs
    × Independent pairs

pub NotTarget-of :
    (t : FilePath) (pairs : Pairs)
    → All (λ (r : FilePath × FilePath). (path_eq r.1 t ≡ false) × (path_eq t r.0 ≡ false)) pairs
    → NotTarget t pairs
NotTarget-of t [] h = tt
NotTarget-of t (p ∷ pairs) (h, k) = (h.0, NotTarget-of t pairs k)

module _ {C : Type 0} where
  -- Each target has what its source had.
  abbrev pub Replaced : Disk C → Disk C → Pairs → Type 0
  Replaced d d' pairs = All (λ (p : FilePath × FilePath). get p.1 d'.files ≡ get p.0 d.files) pairs

  abbrev pub SourcesExist : Disk C → Pairs → Type 0
  SourcesExist d pairs = All (λ (p : FilePath × FilePath). exists d p.0 ≡ true) pairs

  module _ (d d1 : Disk C) (src dst : FilePath)
      (returned : (c : C) × (get src d.files ≡ some c)
        × ((q : FilePath)
            → IsModel q
            → get q d1.files ≡ (if path_eq dst q then some c else get q d.files))) where
    pub other_kept :
        (q : FilePath) → IsModel q → path_eq dst q ≡ false → get q d1.files ≡ get q d.files
    other_kept q m n = returned.2 q m ∙ rw n refl

    pub target_replaced : IsModel dst → get dst d1.files ≡ get src d.files
    target_replaced m = returned.2 dst m ∙ rw (path_eq_refl dst) (sym returned.1)

    later-Replaced :
        (d2 : Disk C) (pairs : Pairs)
        → Models pairs
        → All
            (λ (r : FilePath × FilePath). (path_eq r.1 dst ≡ false) × (path_eq dst r.0 ≡ false))
            pairs
        → Replaced d1 d2 pairs
        → Replaced d d2 pairs
    later-Replaced d2 [] m i r = tt
    later-Replaced d2 (p ∷ pairs) (m, ms) (i, is) (r, rs) =
        (r ∙ other_kept p.0 m.0 i.1, later-Replaced d2 pairs ms is rs)

    later_exist :
        (pairs : Pairs)
        → Models pairs
        → All
            (λ (r : FilePath × FilePath). (path_eq r.1 dst ≡ false) × (path_eq dst r.0 ≡ false))
            pairs
        → SourcesExist d pairs
        → SourcesExist d1 pairs
    later_exist [] m i r = tt
    later_exist (p ∷ pairs) (m, ms) (i, is) (r, rs) =
        (ap (λ o. is_some o) (other_kept p.0 m.0 i.1) ∙ r, later_exist pairs ms is rs)

module _ {C : Type 0} (system : System C) (names : TempNames system) where
  copy_all_step :
      (d : Disk C) (src dst : FilePath) (pairs : Pairs)
      → (copy_replace system d src dst).1 ≡ true
      → copy_all system d ((src, dst) ∷ pairs)
        ≡ copy_all system (copy_replace system d src dst).0 pairs
  unfolding copy_all
  copy_all_step d src dst pairs y = rw (y, copy_all) refl

  pub copy_all-clock : (d : Disk C) (pairs : Pairs) → d.clock ≤ (copy_all system d pairs).0.clock
  unfolding copy_all
  copy_all-clock d [] = omega arith
  copy_all-clock d ((src, dst) ∷ pairs) = elim (Bool-cases (copy_replace system d src dst).1) [
    | inl y ↦
        rw (y, copy_all)
          (omega (
            arith,
            copy_replace-clock system d src dst,
            copy_all-clock (copy_replace system d src dst).0 pairs,
          ))
    | inr n ↦ rw (n, copy_all) (copy_replace-clock system d src dst)
  ]

  -- The other models stay.
  pub copy_all-others :
      (d : Disk C) (pairs : Pairs) (q : FilePath)
      → Models pairs
      → IsModel q
      → NotTarget q pairs
      → get q (copy_all system d pairs).0.files ≡ get q d.files
  unfolding copy_all
  copy_all-others d [] q m k n = refl
  copy_all-others d ((src, dst) ∷ pairs) q (m, ms) k (n, ns) =
      elim (copy_replace_lem system d src dst names m.0) [
        | inl (y, returned) ↦
            rw (y, copy_all)
              (copy_all-others (copy_replace system d src dst).0 pairs q ms k ns
                ∙ other_kept d (copy_replace system d src dst).0 src dst returned q k n)
        | inr (y, u, f) ↦ rw (y, copy_all) (u q k)
      ]

  copy_all_stop :
      (d : Disk C) (src dst : FilePath) (pairs : Pairs)
      → (copy_replace system d src dst).1 ≡ false
      → (copy_all system d ((src, dst) ∷ pairs)).1 ≡ false
  unfolding copy_all
  copy_all_stop d src dst pairs n = rw (n, copy_all) refl

  Replaced-at :
      (d d' : Disk C) (pairs : Pairs)
      → Models pairs
      → Independent pairs
      → copy_all system d pairs ≡ (d', true)
      → Replaced d d' pairs
  Replaced-at d d' [] m i h = tt
  Replaced-at d d' ((src, dst) ∷ pairs) (m, ms) (i, is) h =
      elim (copy_replace_lem system d src dst names m.0) [
        | inl (y, returned) ↦
            let d1 = (copy_replace system d src dst).0 in
            let rest = sym (copy_all_step d src dst pairs y) ∙ h in
            (
              sym (ap (λ (r : Disk C × Bool). get dst r.0.files) rest)
                  ∙ copy_all-others d1 pairs dst ms m.1 (NotTarget-of dst pairs i)
                  ∙ target_replaced d d1 src dst returned m.1,
              later-Replaced d d1 src dst returned d' pairs ms i
                  (Replaced-at d1 d' pairs ms is rest),
            )
        | inr (y, u, f) ↦
            let e = ap (λ (r : Disk C × Bool). r.1) h in
            absurd (ground (arith, copy_all_stop d src dst pairs y, e))
      ]

  pub copy_all-Replaced :
      (d : Disk C) (pairs : Pairs)
      → Models pairs
      → Independent pairs
      → (copy_all system d pairs).1 ≡ true
      → Replaced d (copy_all system d pairs).0 pairs
  copy_all-Replaced d pairs m i h =
      Replaced-at d (copy_all system d pairs).0 pairs m i (λ k. ((copy_all system d pairs).0, h k))

  pub copy_all-Faulted :
      (d : Disk C) (pairs : Pairs)
      → Models pairs
      → Independent pairs
      → SourcesExist d pairs
      → (copy_all system d pairs).1 ≡ false
      → Faulted system d (copy_all system d pairs).0
  unfolding copy_all
  copy_all-Faulted d [] m i x = λ h. absurd (ground arith)
  copy_all-Faulted d ((src, dst) ∷ pairs) (m, ms) (i, is) (x, xs) =
      elim (copy_replace_lem system d src dst names m.0) [
        | inl (y, returned) ↦
            let d1 = (copy_replace system d src dst).0 in
            rw (y, copy_all)
              (λ h.
                let (n, a, b, f) =
                  copy_all-Faulted d1 pairs ms is (later_exist d d1 src dst returned pairs ms i xs)
                    h in
                (n, omega (arith, a, copy_replace-clock system d src dst), b, f))
        | inr (y, u, f) ↦ rw (y, copy_all) (λ h. f x)
      ]
