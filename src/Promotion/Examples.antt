-- ===== src/Promotion/Examples.antt =====
-- A folder of models on a disk with numbers for contents.
use stock_fixer.Prelude.{
  ℕ, zero, suc, ◌+◌, ◌-◌, ◌*◌, ◌/◌, ◌↔◌, ap, ◌++◌, mem_nat, ◌≤◌, ◌<◌, ◌≡◌, refl, Bool, true, false,
  ◌&&◌, none, some, List, [], ◌∷◌, arith, length, codes, leb, ltb, ◌==◌, if◌then◌else◌,
}
use stock_fixer.Promotion.Disk.{FilePath, codes_eq, path_eq, get, Fault, Disk, System}
use stock_fixer.Promotion.Disk.Copy.{TempNames}
use stock_fixer.Promotion.Names.{joblib, underscore}
use stock_fixer.Promotion.Names.Decimal.{Digits}
use stock_fixer.Promotion.Names.Stamp.{IsStamp, no_underscore}
use stock_fixer.Promotion.Backup.{copy_with_backup}
use stock_fixer.Promotion.Backup.Copies.{Pairs}
use stock_fixer.Promotion.Backup.AllOrNothing.{
  OneFault, ReplacedOrRestored, copy_with_backup-all_or_nothing, copy_with_backup-others,
}
use stock_fixer.Promotion.Backup.Works.{ReturnedBackups, copy_with_backup-works}
use stock_fixer.Promotion.Swap.{swap_in_candidate}
use stock_fixer.Promotion.Swap.RoundTrip.{Undone, swap_in_candidate-restore_backups}
use stock_fixer.Promotion.Backup.Fresh.{FoundFresh, backup_path_lem}
use stock_fixer.Promotion.Backup.Saves.{Apart, Targets}
use stock_fixer.Promotion.Judge.{Numbers, Metrics, judge_win}
use stock_fixer.Promotion.Judge.Decisions.{Won, judge_win-Won}

-- A name that is longer than all the others.
abbrev long_name : ℕ → List ℕ
long_name zero = []
long_name (suc n) = 120 ∷ long_name n

abbrev total_length : List (FilePath × ℕ) → ℕ
total_length [] = 0
total_length ((p, c) ∷ fs) = suc (length p.stem) + total_length fs

abbrev temp_name : List (FilePath × ℕ) → FilePath → FilePath
temp_name fs dst = record { folder = dst.folder; stem = long_name (total_length fs); ext = ".tmp" }

length-long_name : (n : ℕ) → length (long_name n) ≡ n
length-long_name zero = refl
length-long_name (suc n) = omega (arith, length-long_name n)

longer : (xs ys : List ℕ) → length xs < length ys → codes_eq xs ys ≡ false
longer [] [] h = absurd (omega arith)
longer [] (y ∷ ys) h = refl
longer (x ∷ xs) [] h = refl
longer (x ∷ xs) (y ∷ ys) h = ground (arith, longer xs ys)

get-longer :
    (fs : List (FilePath × ℕ)) (p : FilePath) → total_length fs ≤ length p.stem → get p fs ≡ none
unfolding get path_eq
get-longer [] p h = refl
get-longer ((q, c) ∷ fs) p h =
    rw (longer q.stem p.stem (omega (arith, h))) (get-longer fs p (omega (arith, h)))

abbrev disk_with : (ℕ → Fault ℕ) → System ℕ
disk_with fault = record { fault = fault; temp_name = temp_name; empty = 0 }

names_of : (fault : ℕ → Fault ℕ) → TempNames (disk_with fault)
names_of fault = record {
  fresh = λ fs dst.
      get-longer fs (temp_name fs dst) (omega (arith, length-long_name (total_length fs)));
  suffix = λ fs dst. refl;
}

abbrev digit : ℕ → Bool
digit c = leb 48 c && leb c 57

digit-Digits : Digits digit
digit-Digits n h = ground arith

abbrev model : List ℕ → FilePath
model name = joblib "models/unified" name

-- `seventh` breaks off in the second copy, after the two backups, and leaves 9 behind.
abbrev seventh : ℕ → Fault ℕ
seventh n = if n == 6 then Fault.cut 9 else Fault.works

abbrev never : ℕ → Fault ℕ
never n = Fault.works

abbrev models : Disk ℕ
models = record {
  files =
      (model (codes "UnifiedStockXGBoost"), 1)
      ∷ (model (codes "UnifiedStockLightGBM"), 2)
      ∷ (model (codes "UnifiedStockXGBoost_candidate"), 3)
      ∷ (model (codes "UnifiedStockLightGBM_candidate"), 4)
      ∷ [];
  clock = 0;
}

seventh-OneFault : OneFault (disk_with seventh)
seventh-OneFault m n h f = ground arith

abbrev noon : List ℕ
noon = codes "20260105_120000"

abbrev evening : List ℕ
evening = codes "20260105_180000"

noon-IsStamp : IsStamp digit noon
noon-IsStamp = (codes "20260105", codes "120000", refl, refl, refl, refl, refl)

evening-IsStamp : IsStamp digit evening
evening-IsStamp = (codes "20260105", codes "180000", refl, refl, refl, refl, refl)

swap_in_candidate-restore_backups_example :
    Undone
      (disk_with never)
      (λ n. refl)
      (names_of never)
      digit
      digit-Digits
      models
      "models/unified"
      evening
      (swap_in_candidate (disk_with never) models "models/unified" noon)
unfolding get path_eq
swap_in_candidate-restore_backups_example =
    swap_in_candidate-restore_backups (disk_with never) (λ n. refl) (names_of never) digit
      digit-Digits models "models/unified" noon evening noon-IsStamp evening-IsStamp refl refl refl
      refl

abbrev trial : Pairs
trial =
    (model (codes "UnifiedStockXGBoost_candidate"), model (codes "UnifiedStockXGBoost"))
    ∷ (model (codes "UnifiedStockLightGBM_candidate"), model (codes "New"))
    ∷ []

name-Apart : (name : List ℕ) → mem_nat underscore name ≡ false → Apart noon (model name)
name-Apart name h folder stem rest e =
    no_underscore name stem (noon ++ rest) h (ap (λ (p : FilePath). p.stem) e)

trial-Apart : Targets (Apart noon) trial
trial-Apart = (name-Apart (codes "UnifiedStockXGBoost") refl, (name-Apart (codes "New") refl, tt))

-- The backup is made, the copy of the second model breaks off, and the first one is put back.
copy_with_backup-all_or_nothing_example :
    ReplacedOrRestored models trial (copy_with_backup (disk_with seventh) models trial noon)
unfolding get path_eq
copy_with_backup-all_or_nothing_example =
    copy_with_backup-all_or_nothing (disk_with seventh) (names_of seventh) models trial noon
      seventh-OneFault ((refl, refl), ((refl, refl), tt)) trial-Apart (((refl, refl), tt), (tt, tt))
      (refl, (refl, tt))

copy_with_backup-others_example :
    get
      (model (codes "UnifiedStockLightGBM"))
      (copy_with_backup (disk_with seventh) models trial noon).0.files
    ≡ get (model (codes "UnifiedStockLightGBM")) models.files
unfolding get path_eq
copy_with_backup-others_example =
    copy_with_backup-others (disk_with seventh) (names_of seventh) models trial noon
      (model (codes "UnifiedStockLightGBM")) ((refl, refl), ((refl, refl), tt)) trial-Apart refl
      refl (refl, (refl, tt))

copy_with_backup-works_example :
    ReturnedBackups
      (disk_with never)
      (λ n. refl)
      digit
      noon
      models
      trial
      (copy_with_backup (disk_with never) models trial noon)
unfolding get path_eq
copy_with_backup-works_example =
    copy_with_backup-works (disk_with never) (λ n. refl) (names_of never) digit models trial noon
      digit-Digits ((refl, refl), ((refl, refl), tt)) trial-Apart (((refl, refl), tt), (tt, tt))
      (refl, (refl, tt))

backup_path_lem_example : FoundFresh digit models (model (codes "UnifiedStockXGBoost")) noon
backup_path_lem_example =
    backup_path_lem digit models (model (codes "UnifiedStockXGBoost")) noon digit-Digits

-- Rates in thousandths.
abbrev thousandths : Numbers ℕ
thousandths = record {
  nought = 0;
  less = λ a b. ltb a b;
  at_most = λ a b. leb a b;
  minus = λ a b. a - b;
  covered = λ n. n * 4 / 5;
  rollback_hit_margin = 30;
  up_rate_low = 100;
  up_rate_high = 900;
  constant_prediction_std = 1;
}

abbrev metrics : ℕ → ℕ → ℕ → Metrics ℕ
metrics hit mae corr =
    ("n_baseline", some 900)
    ∷ ("hit_rate_minus_majority", some hit)
    ∷ ("mae", some mae)
    ∷ ("rank_corr", some corr)
    ∷ ("prediction_std", some 20)
    ∷ []

judge_win-Won_example :
    ((judge_win thousandths (metrics 60 15 40) (metrics 50 16 30) (1 ∷ 2 ∷ 0 ∷ []) 1000).won ≡ true)
    ↔ Won thousandths (metrics 60 15 40) (metrics 50 16 30) (1 ∷ 2 ∷ 0 ∷ []) 1000
judge_win-Won_example =
    judge_win-Won thousandths (metrics 60 15 40) (metrics 50 16 30) (1 ∷ 2 ∷ 0 ∷ []) 1000
