-- ===== src/Promotion/Disk/Copy.antt =====
-- What `_copy_replace` of python/src/prediction/backtest_promotion/state.py leaves of the files of the
-- models, whichever of its calls fail.
use stock_fixer.Prelude.{
  ℕ, ◌≤◌, ◌<◌, ◌≡◌, ◌⊎◌, refl, sym, ap, ◌∙◌, inl, inr, Bool, true, false, Option, none, some, List,
  arith, if◌then◌else◌, Bool-cases, is_some,
}
use stock_fixer.Promotion.Disk.{
  FilePath, path_eq, get, delete, put, Fault, is_works, Disk, System, exists, after_call, remove,
  remove_as, replace, replace_as, replace_found, copy2, copy_as, copy_found, clean_up,
  replace_copied, copy_replace_as, copy_replace,
}
use stock_fixer.Promotion.Disk.Paths.{get-put_same, get-put_other, get-delete_other}

abbrev pub IsModel : FilePath → Type 0
IsModel p = p.ext ≡ ".joblib"

-- The names of `tempfile.mkstemp` with `suffix=".tmp"`: of no file so far.
pub record TempNames {C : Type 0} (system : System C) : Type 0 where
  pub fresh : (fs : List (FilePath × C)) (dst : FilePath) → get (system.temp_name fs dst) fs ≡ none
  pub suffix : (fs : List (FilePath × C)) (dst : FilePath) → (system.temp_name fs dst).ext ≡ ".tmp"

pub no_model : (p q : FilePath) → p.ext ≡ ".tmp" → IsModel q → path_eq p q ≡ false
unfolding path_eq
no_model p q h m = rw (h, m) (ground arith)

module _ {C : Type 0} where
  abbrev pub Unchanged : Disk C → Disk C → Type 0
  Unchanged d d' = (q : FilePath) → IsModel q → get q d'.files ≡ get q d.files

  -- A failed call between two moments of the run.
  abbrev pub Faulted : System C → Disk C → Disk C → Type 0
  Faulted system d d' =
      (n : ℕ) × (d.clock ≤ n) × (n < d'.clock) × (is_works (system.fault n) ≡ false)

  abbrev pub CopyReturned : Disk C → FilePath → FilePath → Disk C → Type 0
  CopyReturned d src dst d' =
      (c : C) × (get src d.files ≡ some c)
      × ((q : FilePath)
          → IsModel q
          → get q d'.files ≡ (if path_eq dst q then some c else get q d.files))

  -- A copy returns and has replaced its target, or it raises and has changed no model.
  abbrev pub CopyEnd : System C → Disk C → FilePath → FilePath → Disk C × Bool → Type 0
  CopyEnd system d src dst r =
      ((r.1 ≡ true) × CopyReturned d src dst r.0)
      ⊎ ((r.1 ≡ false)
          × Unchanged d r.0
          × (is_some (get src d.files) ≡ true → Faulted system d r.0))

module _ {C : Type 0} (system : System C) where
  remove-Unchanged :
      (d : Disk C) (tmp : FilePath) → tmp.ext ≡ ".tmp" → Unchanged d (remove system d tmp).0
  unfolding remove
  remove-Unchanged d tmp t = by_fault (system.fault d.clock)
    where
      by_fault : (f : Fault C) → Unchanged d (remove_as d tmp f).0
      by_fault Fault.works q m = get-delete_other tmp q d.files (no_model tmp q t m)
      by_fault Fault.fails q m = refl
      by_fault (Fault.cut c) q m = refl

  pub remove-clock : (d : Disk C) (p : FilePath) → d.clock ≤ (remove system d p).0.clock
  unfolding remove
  remove-clock d p = by_fault (system.fault d.clock)
    where
      by_fault : (f : Fault C) → d.clock ≤ (remove_as d p f).0.clock
      by_fault Fault.works = omega arith
      by_fault Fault.fails = omega arith
      by_fault (Fault.cut c) = omega arith

  clean_up-Unchanged :
      (d : Disk C) (tmp : FilePath) → tmp.ext ≡ ".tmp" → Unchanged d (clean_up system d tmp).0
  clean_up-Unchanged d tmp t = elim (Bool-cases (exists d tmp)) [
    | inl y ↦ rw y (remove-Unchanged d tmp t)
    | inr n ↦ rw n (λ q m. refl)
  ]

  clean_up-clock : (d : Disk C) (tmp : FilePath) → d.clock ≤ (clean_up system d tmp).0.clock
  clean_up-clock d tmp = elim (Bool-cases (exists d tmp)) [
    | inl y ↦ rw y (remove-clock d tmp)
    | inr n ↦ rw n (omega arith)
  ]

  replace-get :
      (d d' : Disk C) (dst tmp : FilePath) (c : C)
      → tmp.ext ≡ ".tmp"
      → Unchanged d d'
      → (q : FilePath) → IsModel q
      → get q (put dst c (delete tmp d'.files)) ≡ (if path_eq dst q then some c else get q d.files)
  unfolding get
  replace-get d d' dst tmp c t u q m = elim (Bool-cases (path_eq dst q)) [
    | inl y ↦ rw y refl
    | inr n ↦
        rw n (get-delete_other dst q _ n ∙ get-delete_other tmp q _ (no_model tmp q t m) ∙ u q m)
  ]

  -- `replace` and the rest of `_copy_replace`, from a whole temporary file on.
  moved :
      (d d' : Disk C) (src dst tmp : FilePath) (c : C)
      → tmp.ext ≡ ".tmp"
      → get src d.files ≡ some c
      → Unchanged d d'
      → d.clock ≤ d'.clock
      → get tmp d'.files ≡ some c
      → CopyEnd system d src dst (replace_copied system tmp dst (d', true))
  unfolding replace
  moved d d' src dst tmp c t s u k g = rw g (by_fault (system.fault d'.clock) refl)
    where
      after_replace : Disk C × Bool → Disk C × Bool
      after_replace r = if r.1 then (r.0, true) else clean_up system r.0 tmp

      broken :
          (d'' : Disk C)
          → Unchanged d d''
          → Faulted system d d''
          → CopyEnd system d src dst (clean_up system d'' tmp)
      broken d'' u' (n, a, b, f) = inr (
        refl,
        (λ q m. clean_up-Unchanged d'' tmp t q m ∙ u' q m),
        (λ e. (n, a, omega (arith, b, clean_up-clock d'' tmp), f)),
      )

      by_fault :
          (f : Fault C)
          → system.fault d'.clock ≡ f
          → CopyEnd system d src dst (after_replace (replace_as d' tmp dst c f))
      by_fault Fault.works e = inl (refl, (c, s, replace-get d d' dst tmp c t u))
      by_fault Fault.fails e = broken _ u (d'.clock, k, omega arith, ap (λ f. is_works f) e)
      by_fault (Fault.cut c') e = broken _ u (d'.clock, k, omega arith, ap (λ f. is_works f) e)

  -- From the copy into the temporary file on.
  filled :
      (d d' : Disk C) (src dst tmp : FilePath) (o : Option C)
      → tmp.ext ≡ ".tmp"
      → get src d.files ≡ o
      → Unchanged d d'
      → d.clock ≤ d'.clock
      → CopyEnd system d src dst (replace_copied system tmp dst (copy_found system d' tmp o))
  filled d d' src dst tmp none t s u k =
      inr (
        refl,
        (λ q m. clean_up-Unchanged d' tmp t q m ∙ u q m),
        (λ e. absurd (ground (arith, s, e))),
      )
  filled d d' src dst tmp (some c) t s u k = by_fault (system.fault d'.clock) refl
    where
      untouched : (c' : C) (q : FilePath) → IsModel q → get q (put tmp c' d'.files) ≡ get q d.files
      untouched c' q m = get-put_other tmp q c' d'.files (no_model tmp q t m) ∙ u q m

      by_fault :
          (f : Fault C)
          → system.fault d'.clock ≡ f
          → CopyEnd system d src dst (replace_copied system tmp dst (copy_as d' tmp c f))
      by_fault Fault.works e =
          moved d (after_call d' (put tmp c d'.files)) src dst tmp c t s (untouched c)
            (omega (arith, k)) (get-put_same tmp c d'.files)
      by_fault Fault.fails e = inr (
        refl,
        (λ q m. clean_up-Unchanged (after_call d' d'.files) tmp t q m ∙ u q m),
        (λ x. (d'.clock, k, clean_up-clock (after_call d' d'.files) tmp, ap (λ f. is_works f) e)),
      )
      by_fault (Fault.cut c') e = inr (
        refl,
        (λ q m.
            clean_up-Unchanged (after_call d' (put tmp c' d'.files)) tmp t q m ∙ untouched c' q m),
        (λ x. (
          d'.clock,
          k,
          clean_up-clock (after_call d' (put tmp c' d'.files)) tmp,
          ap (λ f. is_works f) e,
        )),
      )

  pub copy_replace_lem :
      (d : Disk C) (src dst : FilePath)
      → TempNames system
      → IsModel src
      → CopyEnd system d src dst (copy_replace system d src dst)
  unfolding copy_replace copy2
  copy_replace_lem d src dst names m = by_fault (system.fault d.clock) refl
    where
      tmp : FilePath
      tmp = system.temp_name d.files dst

      d1 : Disk C
      d1 = after_call d (put tmp system.empty d.files)

      untouched : (q : FilePath) → IsModel q → get q d1.files ≡ get q d.files
      untouched q m =
          get-put_other tmp q system.empty d.files (no_model tmp q (names.suffix d.files dst) m)

      by_fault :
          (f : Fault C)
          → system.fault d.clock ≡ f
          → CopyEnd system d src dst (copy_replace_as system d src dst tmp f)
      by_fault Fault.works e =
          filled d d1 src dst tmp (get src d1.files) (names.suffix d.files dst)
            (sym (untouched src m)) untouched (omega arith)
      by_fault Fault.fails e =
          inr (
            refl,
            (λ q m. refl),
            (λ x. (d.clock, omega arith, omega arith, ap (λ f. is_works f) e)),
          )
      by_fault (Fault.cut c) e =
          inr (
            refl,
            (λ q m. refl),
            (λ x. (d.clock, omega arith, omega arith, ap (λ f. is_works f) e)),
          )

  copy2-clock : (d : Disk C) (src dst : FilePath) → d.clock ≤ (copy2 system d src dst).0.clock
  unfolding copy2
  copy2-clock d src dst = by_source (get src d.files)
    where
      by_fault : (c : C) (f : Fault C) → d.clock ≤ (copy_as d dst c f).0.clock
      by_fault c Fault.works = omega arith
      by_fault c Fault.fails = omega arith
      by_fault c (Fault.cut c') = omega arith

      by_source : (o : Option C) → d.clock ≤ (copy_found system d dst o).0.clock
      by_source none = omega arith
      by_source (some c) = by_fault c (system.fault d.clock)

  replace-clock : (d : Disk C) (src dst : FilePath) → d.clock ≤ (replace system d src dst).0.clock
  unfolding replace
  replace-clock d src dst = by_source (get src d.files)
    where
      by_fault : (c : C) (f : Fault C) → d.clock ≤ (replace_as d src dst c f).0.clock
      by_fault c Fault.works = omega arith
      by_fault c Fault.fails = omega arith
      by_fault c (Fault.cut c') = omega arith

      by_source : (o : Option C) → d.clock ≤ (replace_found system d src dst o).0.clock
      by_source none = omega arith
      by_source (some c) = by_fault c (system.fault d.clock)

  replace_copied-clock :
      (tmp dst : FilePath) (r : Disk C × Bool)
      → r.0.clock ≤ (replace_copied system tmp dst r).0.clock
  replace_copied-clock tmp dst (d, false) = clean_up-clock d tmp
  replace_copied-clock tmp dst (d, true) = elim (Bool-cases (replace system d tmp dst).1) [
    | inl y ↦ rw y (replace-clock d tmp dst)
    | inr n ↦
        rw n
          (omega (arith, replace-clock d tmp dst, clean_up-clock (replace system d tmp dst).0 tmp))
  ]

  pub copy_replace-clock :
      (d : Disk C) (src dst : FilePath) → d.clock ≤ (copy_replace system d src dst).0.clock
  unfolding copy_replace
  copy_replace-clock d src dst = by_fault (system.temp_name d.files dst) (system.fault d.clock)
    where
      by_fault :
          (tmp : FilePath) (f : Fault C)
          → d.clock ≤ (copy_replace_as system d src dst tmp f).0.clock
      by_fault tmp Fault.works =
          let d1 = after_call d (put tmp system.empty d.files) in
          omega
            (arith, copy2-clock d1 src tmp, replace_copied-clock tmp dst (copy2 system d1 src tmp))
      by_fault tmp Fault.fails = omega arith
      by_fault tmp (Fault.cut c) = omega arith
