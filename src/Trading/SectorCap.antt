-- ===== src/Trading/SectorCap.antt =====
-- `filter_by_sector_cap` of python/src/domain/sector_cap.py. A `Counter` is an association list with
-- zero for a missing key; the item's sector is a function that the caller gives.
pub mod Counts
use stock_fixer.Prelude.{
  ℕ, ◌+◌, Bool, true, false, List, [], ◌∷◌, String, if◌then◌else◌, leb, str_eq,
}

abbrev pub Counter : Type 0
Counter = List (String × ℕ)

unfoldable pub count_of : String → Counter → ℕ
count_of k [] = 0
count_of k ((j, n) ∷ m) = if str_eq j k then n else count_of k m

-- `counts[k] += 1`
abbrev pub bump : String → Counter → Counter
bump k m = (k, count_of k m + 1) ∷ m

module _ {A : Type 0} (sector_getter : A → String) (max_sector_positions : ℕ) where
  -- The loop over the items.
  pub select : Counter → List A → List A
  select counts [] = []
  select counts (x ∷ xs) =
      let sector = sector_getter x in
      let skipped = select counts xs in
      let selected = x ∷ select (bump sector counts) xs in
      if leb max_sector_positions (count_of sector counts) then skipped else selected

  pub filter_by_sector_cap : List A → Counter → List A
  filter_by_sector_cap items initial_counts =
      if leb max_sector_positions 0 then items else select initial_counts items
