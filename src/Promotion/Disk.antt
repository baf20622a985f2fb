-- ===== src/Promotion/Disk.antt =====
-- A tree of files, with the calls of `os`, `shutil` and `tempfile` that state.py of
-- python/src/prediction/backtest_promotion makes. Each call that writes may fail, as an oracle says,
-- and a copy that fails may leave a part of the contents behind.
use stock_fixer.Prelude.{
  ℕ, suc, ◌+◌, Bool, true, false, ◌&&◌, Option, none, some, List, [], ◌∷◌, String, if◌then◌else◌,
  str_eq, ◌==◌, is_some,
}
pub mod Paths
pub mod Copy

-- `os.path.dirname(path)` with the two parts of `os.path.splitext(os.path.basename(path))`; the
-- stem is a list of code points.
pub record FilePath : Type 0 where
  pub folder : String
  pub stem : List ℕ
  pub ext : String

-- How a call that writes ends: `cut` is a copy that breaks off, with what it had written.
pub data Fault (C : Type 0) : Type 0 where
  works fails : Fault C
  cut : C → Fault C

-- The files, and the number of calls that wrote so far.
pub record Disk (C : Type 0) : Type 0 where
  pub files : List (FilePath × C)
  pub clock : ℕ

-- How each call ends, the name `tempfile.mkstemp` takes beside a path, and the empty contents.
pub record System (C : Type 0) : Type 0 where
  pub fault : ℕ → Fault C
  pub temp_name : List (FilePath × C) → FilePath → FilePath
  pub empty : C

module _ {C : Type 0} where
  abbrev pub is_works : Fault C → Bool
  is_works Fault.works = true
  is_works Fault.fails = false
  is_works (Fault.cut c) = false

abbrev pub codes_eq : List ℕ → List ℕ → Bool
codes_eq [] [] = true
codes_eq [] (y ∷ ys) = false
codes_eq (x ∷ xs) [] = false
codes_eq (x ∷ xs) (y ∷ ys) = x == y && codes_eq xs ys

unfoldable pub path_eq : FilePath → FilePath → Bool
path_eq p q = codes_eq p.stem q.stem && (str_eq p.folder q.folder && str_eq p.ext q.ext)

module _ {C : Type 0} where
  unfoldable pub get : FilePath → List (FilePath × C) → Option C
  get p [] = none
  get p ((q, c) ∷ fs) = if path_eq q p then some c else get p fs

  unfoldable pub delete : FilePath → List (FilePath × C) → List (FilePath × C)
  delete p [] = []
  delete p ((q, c) ∷ fs) = let rest = delete p fs in if path_eq q p then rest else (q, c) ∷ rest

  abbrev pub put : FilePath → C → List (FilePath × C) → List (FilePath × C)
  put p c fs = (p, c) ∷ delete p fs

  -- `os.path.exists`
  abbrev pub exists : Disk C → FilePath → Bool
  exists d p = is_some (get p d.files)

  abbrev pub after_call : Disk C → List (FilePath × C) → Disk C
  after_call d fs = record { files = fs; clock = suc d.clock }

  -- `os.remove`, with whether it returned.
  abbrev pub remove_as : Disk C → FilePath → Fault C → Disk C × Bool
  remove_as d p Fault.works = (after_call d (delete p d.files), true)
  remove_as d p Fault.fails = (after_call d d.files, false)
  remove_as d p (Fault.cut c) = (after_call d d.files, false)

  -- `os.replace`
  abbrev pub replace_as : Disk C → FilePath → FilePath → C → Fault C → Disk C × Bool
  replace_as d src dst c Fault.works = (after_call d (put dst c (delete src d.files)), true)
  replace_as d src dst c Fault.fails = (after_call d d.files, false)
  replace_as d src dst c (Fault.cut c') = (after_call d d.files, false)

  -- `shutil.copy2`
  abbrev pub copy_as : Disk C → FilePath → C → Fault C → Disk C × Bool
  copy_as d dst c Fault.works = (after_call d (put dst c d.files), true)
  copy_as d dst c Fault.fails = (after_call d d.files, false)
  copy_as d dst c (Fault.cut c') = (after_call d (put dst c' d.files), false)

module _ {C : Type 0} (system : System C) where
  unfoldable pub remove : Disk C → FilePath → Disk C × Bool
  remove d p = remove_as d p (system.fault d.clock)

  abbrev pub replace_found : Disk C → FilePath → FilePath → Option C → Disk C × Bool
  replace_found d src dst none = (d, false)
  replace_found d src dst (some c) = replace_as d src dst c (system.fault d.clock)

  pub replace : Disk C → FilePath → FilePath → Disk C × Bool
  replace d src dst = replace_found d src dst (get src d.files)

  abbrev pub copy_found : Disk C → FilePath → Option C → Disk C × Bool
  copy_found d dst none = (d, false)
  copy_found d dst (some c) = copy_as d dst c (system.fault d.clock)

  unfoldable pub copy2 : Disk C → FilePath → FilePath → Disk C × Bool
  copy2 d src dst = copy_found d dst (get src d.files)

  -- The `except` branch of `_copy_replace`, which raises again.
  abbrev pub clean_up : Disk C → FilePath → Disk C × Bool
  clean_up d tmp = ((if exists d tmp then (remove d tmp).0 else d), false)

  abbrev pub replace_copied : FilePath → FilePath → Disk C × Bool → Disk C × Bool
  replace_copied tmp dst (d, false) = clean_up d tmp
  replace_copied tmp dst (d, true) =
      let (d', done) = replace d tmp dst in if done then (d', true) else clean_up d' tmp

  abbrev pub copy_replace_as : Disk C → FilePath → FilePath → FilePath → Fault C → Disk C × Bool
  copy_replace_as d src dst tmp Fault.works =
      replace_copied tmp dst (copy2 (after_call d (put tmp system.empty d.files)) src tmp)
  copy_replace_as d src dst tmp Fault.fails = (after_call d d.files, false)
  copy_replace_as d src dst tmp (Fault.cut c) = (after_call d d.files, false)

  -- `_copy_replace`, with whether it returned.
  pub copy_replace : Disk C → FilePath → FilePath → Disk C × Bool
  copy_replace d src dst =
      copy_replace_as d src dst (system.temp_name d.files dst) (system.fault d.clock)
