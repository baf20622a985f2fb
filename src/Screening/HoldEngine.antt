-- ===== src/Screening/HoldEngine.antt =====
-- `simulate_position` of python/src/screening/hold_engine.py, with `PositionEvent` of
-- python/src/domain/types.py. Floats are a parameter. The rolling mean of pandas is an argument, a
-- function of the closes up to a day, the newest first; so is the text of the reason of a partial
-- sale. A frame without its columns and a missing one are the empty list.
pub mod Lookahead
pub mod Course
use stock_fixer.Prelude.{
  Bool, true, false, not, ◌&&◌, ◌||◌, Option, none, some, List, [], ◌∷◌, ◌++◌, String,
  if◌then◌else◌, str_eq, any, keep, map,
}
use stock_fixer.Prelude.Elem.{is_empty}

pub record Floats (F : Type 0) : Type 0 where
  pub zero_float : F
  pub one_float : F
  pub minus : F → F → F
  pub times : F → F → F
  pub divided : F → F → F
  pub less : F → F → Bool
  pub at_most : F → F → Bool
  pub same : F → F → Bool
  pub is_positive_finite : F → Bool

-- `HoldRules`
pub record HoldRules (F : Type 0) : Type 0 where
  pub rolling_ma : List F → Option F
  pub trail_stop_pct : F
  pub scale_out_multiples : List F
  pub scale_out_fraction : F
  pub scale_reason : F → String

-- A row of the frame.
pub record PriceRow (F : Type 0) : Type 0 where
  pub date : String
  pub close : F

pub data EventAction : Type 0 where
  entry scale_out exit : EventAction

pub record PositionEvent (F : Type 0) : Type 0 where
  pub date : String
  pub action : EventAction
  pub price : F
  pub held_fraction : F
  pub reason : String
  pub multiple : F

-- The first row of a date, and the rows before and after it, those before with the newest first.
unfoldable pub find_entry :
    {F : Type 0}
    → String
    → List F
    → List (PriceRow F)
    → Option (List F × (PriceRow F × List (PriceRow F)))
find_entry entry_date seen [] = none
find_entry entry_date seen (b ∷ bs) =
    let rest = find_entry entry_date (b.close ∷ seen) bs in
    if str_eq b.date entry_date then some (seen, (b, bs)) else rest

module _ {F : Type 0} (fl : Floats F) (rules : HoldRules F) where
  open fl use {zero_float, one_float, minus, times, divided, less, at_most, same}

  unfoldable pub drop_invalid_closes : List (PriceRow F) → List (PriceRow F)
  drop_invalid_closes rows = keep (λ (b : PriceRow F). fl.is_positive_finite b.close) rows

  abbrev pub below_ma : F → Option F → Bool
  below_ma close none = false
  below_ma close (some ma) = less close ma

  -- `_is_ma_break`, of the closes up to the day.
  abbrev pub is_ma_break : F → List F → Bool
  is_ma_break close seen = below_ma close (rules.rolling_ma seen)

  abbrev pub is_trail_stop : F → F → Bool
  is_trail_stop close peak = at_most close (times peak (minus one_float rules.trail_stop_pct))

  -- `sorted`
  unfoldable pub insert_level : F → List F → List F
  insert_level x [] = x ∷ []
  insert_level x (y ∷ ys) =
      let rest = insert_level x ys in if less y x then y ∷ rest else x ∷ y ∷ ys

  unfoldable pub sort_levels : List F → List F
  sort_levels [] = []
  sort_levels (x ∷ xs) = insert_level x (sort_levels xs)

  unfoldable pub newly_crossed_multiples : F → List F → List F
  newly_crossed_multiples multiple achieved =
      if is_empty rules.scale_out_multiples || at_most rules.scale_out_fraction zero_float
      then []
      else sort_levels (
          keep (λ level. not (any (same level) achieved) && at_most level multiple)
            rules.scale_out_multiples)

  -- `max(a, b)` of Python.
  abbrev pub higher : F → F → F
  higher a b = if less a b then b else a

  abbrev pub left_of : F → F
  left_of held = higher zero_float (minus held rules.scale_out_fraction)

  abbrev pub held_after : List F → F → F
  held_after [] held = held
  held_after (level ∷ levels) held = held_after levels (left_of held)

  abbrev pub scale_outs : PriceRow F → F → List F → F → List (PositionEvent F)
  scale_outs b multiple [] held = []
  scale_outs b multiple (level ∷ levels) held =
      record {
        date = b.date;
        action = scale_out;
        price = b.close;
        held_fraction = left_of held;
        reason = rules.scale_reason level;
        multiple = multiple;
      }
      ∷ scale_outs b multiple levels (left_of held)

  abbrev pub exit_event : PriceRow F → String → F → PositionEvent F
  exit_event b reason multiple = record {
    date = b.date;
    action = exit;
    price = b.close;
    held_fraction = zero_float;
    reason = reason;
    multiple = multiple;
  }

  -- The sale of what is left on the last day.
  abbrev pub end_of_data : F → PriceRow F → PositionEvent F
  end_of_data entry_price b = exit_event b "end_of_data" (divided b.close entry_price)

  -- The loop over the rows after `last`.
  unfoldable pub simulate_from :
      F → F → F → List F → List F → PriceRow F → List (PriceRow F) → List (PositionEvent F)
  simulate_from entry_price peak held achieved seen last [] = end_of_data entry_price last ∷ []
  simulate_from entry_price peak held achieved seen last (b ∷ bs) =
      let top = higher peak b.close in
      let multiple = divided b.close entry_price in
      let levels = newly_crossed_multiples multiple achieved in
      let rest =
        simulate_from entry_price top (held_after levels held) (levels ++ achieved) (b.close ∷ seen)
          b bs in
      if is_ma_break b.close (b.close ∷ seen)
      then exit_event b "ma_break" multiple ∷ []
      else if is_trail_stop b.close top
      then exit_event b "trail_stop" multiple ∷ []
      else scale_outs b multiple levels held ++ rest

  abbrev pub entry_event : PriceRow F → PositionEvent F
  entry_event b = record {
    date = b.date;
    action = entry;
    price = b.close;
    held_fraction = one_float;
    reason = "entry";
    multiple = one_float;
  }

  abbrev pub simulate_at :
      Option (List F × (PriceRow F × List (PriceRow F))) → List (PositionEvent F)
  simulate_at none = []
  simulate_at (some (seen, (b, bs))) =
      entry_event b ∷ simulate_from b.close b.close one_float [] (b.close ∷ seen) b bs

  unfoldable pub simulate_position : List (PriceRow F) → String → List (PositionEvent F)
  simulate_position prices entry_date =
      simulate_at (find_entry entry_date [] (drop_invalid_closes prices))
