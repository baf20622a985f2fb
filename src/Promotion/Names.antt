-- ===== src/Promotion/Names.antt =====
-- The names of the models and of their backups, in
-- python/src/prediction/backtest_promotion/state.py.
use stock_fixer.Prelude.{
  ℕ, zero, suc, ◌+◌, ◌/◌, ◌%◌, ◌≡◌, Bool, true, false, ◌&&◌, ◌||◌, Option, none, some, List, [],
  ◌∷◌, ◌++◌, String, if◌then◌else◌, str_eq, ◌==◌, ltb, codes, ◌>>=◌,
}
pub mod Decimal
pub mod Stamp
use stock_fixer.Promotion.Disk.{FilePath}

abbrev pub swap_production_names : List (List ℕ)
swap_production_names = codes "UnifiedStockXGBoost" ∷ codes "UnifiedStockLightGBM" ∷ []

abbrev pub candidate_names : List (List ℕ)
candidate_names =
    codes "UnifiedStockXGBoost_candidate" ∷ codes "UnifiedStockLightGBM_candidate" ∷ []

abbrev pub joblib : String → List ℕ → FilePath
joblib folder stem = record { folder = folder; stem = stem; ext = ".joblib" }

-- `f"{n}"`: 48 is the digit 0.
pub decimal_on : ℕ → ℕ → List ℕ
decimal_on zero n = []
decimal_on (suc fuel) n =
    let rest = decimal_on fuel (n / 10) in
    if ltb n 10 then (48 + n) ∷ [] else rest ++ (48 + n % 10) ∷ []

pub decimal : ℕ → List ℕ
decimal n = decimal_on (suc n) n

abbrev pub underscore : ℕ
underscore = 95

-- `<name>_<stamp>` and `<name>_<stamp>_<n>`
abbrev pub stamped : List ℕ → List ℕ → List ℕ
stamped name stamp = name ++ underscore ∷ stamp

abbrev pub numbered : List ℕ → List ℕ → ℕ → List ℕ
numbered name stamp n = name ++ underscore ∷ (stamp ++ underscore ∷ decimal n)

-- `re.fullmatch`, with the characters that `\d` accepts as an argument.
abbrev pub all_digits : (ℕ → Bool) → List ℕ → Bool
all_digits digit [] = true
all_digits digit (c ∷ cs) = digit c && all_digits digit cs

abbrev pub match_number : (ℕ → Bool) → List ℕ → Bool
match_number digit [] = true
match_number digit (c ∷ []) = false
match_number digit (c ∷ e ∷ cs) = c == underscore && (digit e && all_digits digit cs)

-- `\d{n}`: what follows the n digits.
abbrev pub after_digits : (ℕ → Bool) → ℕ → List ℕ → Option (List ℕ)
after_digits digit zero cs = some cs
after_digits digit (suc n) [] = none
after_digits digit (suc n) (c ∷ cs) = if digit c then after_digits digit n cs else none

abbrev pub after_underscore : List ℕ → Option (List ℕ)
after_underscore [] = none
after_underscore (c ∷ cs) = if c == underscore then some cs else none

abbrev pub after_literal : List ℕ → List ℕ → Option (List ℕ)
after_literal [] cs = some cs
after_literal (x ∷ xs) [] = none
after_literal (x ∷ xs) (c ∷ cs) = if x == c then after_literal xs cs else none

-- `_\d{8}_\d{6}(_\d+)?`
abbrev pub after_stamp : (ℕ → Bool) → List ℕ → Option (List ℕ)
after_stamp digit cs = do
  date ← after_underscore cs
  rest ← after_digits digit 8 date
  time ← after_underscore rest
  after_digits digit 6 time

abbrev pub match_stamp : (ℕ → Bool) → List ℕ → Bool
match_stamp digit cs = elim (after_stamp digit cs) [
  | none ↦ false
  | some rest ↦ match_number digit rest
]

abbrev pub is_backup_of : (ℕ → Bool) → List ℕ → FilePath → Bool
is_backup_of digit production p = elim (after_literal production p.stem) [
  | none ↦ false
  | some rest ↦ match_stamp digit rest && str_eq p.ext ".joblib"
]

-- `_production_for_backup`; `none` is the `ValueError`.
pub production_of : (ℕ → Bool) → List (List ℕ) → FilePath → Option (List ℕ)
production_of digit [] p = none
production_of digit (name ∷ names) p =
    if is_backup_of digit name p then some name else production_of digit names p

pub production_for_backup : (ℕ → Bool) → FilePath → Option (List ℕ)
production_for_backup digit p = production_of digit swap_production_names p
