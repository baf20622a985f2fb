-- ===== src/Alerts/Streaks.antt =====
-- What the streaks of python/src/utils/alert_service.py count.
use stock_fixer.Prelude.{
  ℕ, ◌+◌, ◌≡◌, refl, sym, ap, ◌∙◌, arith, Bool, true, false, some, List, [], ◌∷◌, String,
  if◌then◌else◌, str_eq, eq_iff,
}
use mathlib.Core.Path.{subst}
use stock_fixer.Alerts.{Io, Streak, or_zero, or_no_day, count_day, update_daily_streak}

-- A day with the outcomes of its runs: the first and the others.
pub record Day : Type 0 where
  pub day_key : String
  pub first : Bool
  pub others : List Bool

-- The outcome of the day's last run.
abbrev pub last_of : Bool → List Bool → Bool
last_of h [] = h
last_of h (k ∷ ks) = last_of k ks

-- The days in a row, up to the last one, whose last run was a hit.
abbrev pub days_in_a_row : ℕ → List Day → ℕ
days_in_a_row n [] = n
days_in_a_row n (d ∷ ds) = days_in_a_row (if last_of d.first d.others then n + 1 else 0) ds

-- Each day has another key than the one before.
abbrev pub Successive : String → List Day → Type 0
Successive before [] = Unit
Successive before (d ∷ ds) = (str_eq before d.day_key ≡ false) × Successive d.day_key ds

-- The table works.
abbrev pub working : Io
working = record { can_read = true; can_write = true }

abbrev pub update : Bool → String → Streak → Streak
update hit day_key s = (update_daily_streak working hit day_key s).0

pub run_day : String → Bool → List Bool → Streak → Streak
run_day day_key h [] s = update h day_key s
run_day day_key h (k ∷ ks) s = run_day day_key k ks (update h day_key s)

pub run_days : List Day → Streak → Streak
run_days [] s = s
run_days (d ∷ ds) s = run_days ds (run_day d.day_key d.first d.others s)

-- The rows within a day.
abbrev During : String → ℕ → Bool → Streak → Type 0
During day_key base hit s =
    (s.value ≡ some (count_day working hit base)) × (s.prev ≡ some base) × (s.day ≡ some day_key)

again-During :
    (day_key : String) (base : ℕ) (h k : Bool) (s : Streak)
    → During day_key base h s
    → During day_key base k (update k day_key s)
unfolding update_daily_streak
again-During day_key base h k s d = ground (arith, d, eq_iff day_key day_key)

first-During :
    (day_key : String) (h : Bool) (s : Streak)
    → str_eq (or_no_day s.day) day_key ≡ false
    → During day_key (or_zero s.value) h (update h day_key s)
unfolding update_daily_streak
first-During day_key h s n = ground (arith, n)

rest-During :
    (day_key : String) (base : ℕ) (h k : Bool) (ks : List Bool) (s : Streak)
    → During day_key base h s
    → During day_key base (last_of k ks) (run_day day_key k ks s)
unfolding run_day
rest-During day_key base h k [] s d = again-During day_key base h k s d
rest-During day_key base h k (l ∷ ls) s d =
    rest-During day_key base k l ls (update k day_key s) (again-During day_key base h k s d)

run_day-During :
    (day_key : String) (h : Bool) (hs : List Bool) (s : Streak)
    → str_eq (or_no_day s.day) day_key ≡ false
    → During day_key (or_zero s.value) (last_of h hs) (run_day day_key h hs s)
unfolding run_day
run_day-During day_key h [] s n = first-During day_key h s n
run_day-During day_key h (k ∷ ks) s n =
    rest-During day_key (or_zero s.value) h k ks (update h day_key s) (first-During day_key h s n)

-- Where the table can be read and written: over days with different keys one after another, and any
-- number of runs on each, the streak is the number of days in a row, up to the last, whose last run was
-- a hit, counted on from the value at the start. A second run of a day is not counted twice, and the
-- last one decides.
pub run_days-days_in_a_row :
    (ds : List Day) (s : Streak)
    → Successive (or_no_day s.day) ds
    → or_zero (run_days ds s).value ≡ days_in_a_row (or_zero s.value) ds
unfolding run_days
run_days-days_in_a_row [] s h = refl
run_days-days_in_a_row (d ∷ ds) s h =
    let s' = run_day d.day_key d.first d.others s in
    let r = run_day-During d.day_key d.first d.others s h.0 in
    let day : or_no_day s'.day ≡ d.day_key = ap or_no_day r.2 in
    let value : or_zero s'.value ≡ (if last_of d.first d.others then or_zero s.value + 1 else 0) =
      ap or_zero r.0 in
    run_days-days_in_a_row ds s' (subst (λ k. Successive k ds) (sym day) h.1)
    ∙ ap (λ n. days_in_a_row n ds) value
