-- ===== src/Trading/SectorCap/Counts.antt =====
-- How many items of a sector `filter_by_sector_cap` (python/src/domain/sector_cap.py) lets through.
use stock_fixer.Prelude.{
  ℕ, suc, ◌+◌, ◌≡◌, ◌≤◌, max, refl, inl, inr, true, false, List, [], ◌∷◌, String, arith,
  if◌then◌else◌, leb, str_eq, eq_iff, Bool-cases, ap,
}
use stock_fixer.Trading.SectorCap.{Counter, count_of, bump, select, filter_by_sector_cap}

-- A key that is equal to `t` has the count of `t`.
pub count-same : (k t : String) (m : Counter) → str_eq k t ≡ true → count_of k m ≡ count_of t m
count-same k t m e = ap (λ j. count_of j m) ((eq_iff k t).0 e)

pub bump-same :
    (k t : String) (m : Counter) → str_eq k t ≡ true → count_of t (bump k m) ≡ count_of t m + 1
unfolding count_of
bump-same k t m e = let c = count-same k t m e in rw e (ap (λ n. n + 1) c)

pub bump-other :
    (k t : String) (m : Counter) → str_eq k t ≡ false → count_of t (bump k m) ≡ count_of t m
unfolding count_of
bump-other k t m n = rw n refl

module _ {A : Type 0} (sector_getter : A → String) (cap : ℕ) where
  -- The items of the sector `t`.
  abbrev pub of_sector : String → List A → ℕ
  of_sector t [] = 0
  of_sector t (x ∷ xs) =
      let rest = of_sector t xs in if str_eq (sector_getter x) t then suc rest else rest

  select-count :
      (counts : Counter) (xs : List A) (t : String)
      → count_of t counts + of_sector t (select sector_getter cap counts xs)
        ≤ max cap (count_of t counts)
  unfolding select
  select-count counts [] t = omega arith
  select-count counts (x ∷ xs) t =
      let k = sector_getter x in
      elim (Bool-cases (leb cap (count_of k counts))) [
        | inl full ↦ rw full (select-count counts xs t)
        | inr room ↦
            let ih = select-count (bump k counts) xs t in
            rw room (elim (Bool-cases (str_eq k t)) [
              | inl e ↦
                  rw e (ground (arith, ih, room, bump-same k t counts e, count-same k t counts e))
              | inr n ↦ rw n (ground (arith, ih, bump-other k t counts n))
            ])
      ]

  -- With a positive cap, the items that are let through and the initial count of their sector add up
  -- to the cap at most, or to the initial count where that is above the cap already.
  pub filter_by_sector_cap_lem :
      (items : List A) (initial_counts : Counter) (t : String)
      → 1 ≤ cap
      → count_of t initial_counts
          + of_sector t (filter_by_sector_cap sector_getter cap items initial_counts)
        ≤ max cap (count_of t initial_counts)
  unfolding filter_by_sector_cap
  filter_by_sector_cap_lem items initial_counts t h =
      let z : leb cap 0 ≡ false = ground (arith, h) in rw z (select-count initial_counts items t)
