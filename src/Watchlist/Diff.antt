-- ===== src/Watchlist/Diff.antt =====
-- What a diff of python/src/watchlist/manager.py says of a list and the members of the index.
use stock_fixer.Prelude.{
  ℕ, ◌≡◌, ◌≤◌, ◌∙◌, inl, inr, arith, Bool, true, false, not, ◌&&◌, ◌||◌, List, [], ◌∷◌, map, String,
  if◌then◌else◌, Bool-cases, length, length-take, take, keep, ltb, mem_text, lookup, str_eq,
}
use stock_fixer.Prelude.Elem.{is_empty}
use stock_fixer.Watchlist.{
  Texts, Web, WatchlistDiff, Watchlist, or_empty, max_remove, sort_set, with_removal,
  diff_watchlist, market_key,
}
use stock_fixer.Watchlist.Symbols.{
  mem-keep, mem-sort_set, mem-take, Upper, Upper-map, Upper-keep, Upper-take, Upper-sort_set,
}

module _ (texts : Texts) where
  open texts use {upper}

  -- The symbols of a list, in upper case.
  abbrev pub has : List String → String → Bool
  has xs s = mem_text s (map upper xs)

  -- The members that the list is to have: those of the old list and of the index, less the removed.
  abbrev pub target : List String → List String → List String → String → Bool
  target current fetched removed s = not (mem_text s removed) && (has current s || has fetched s)

module _ (texts : Texts) (web : Web) where
  abbrev pub list_of : Watchlist → String → List String
  list_of w market = or_empty (lookup (market_key texts web market) w)

  -- What a diff says: it removes only members that left the index and are no longer traded, at most
  -- a tenth of the list (or one), and adds exactly the members of the index that the list lacks.
  pub record Careful (current fetched : List String) (market : String) (d : WatchlistDiff)
      : Type 0 where
    pub adds :
        (s : String) → mem_text s d.added ≡ (not (has texts current s) && has texts fetched s)
    pub removes :
        (s : String)
        → mem_text s d.removed ≡ true
        → (has texts current s ≡ true)
          × (has texts fetched s ≡ false)
          × (web.verify_symbol_active s market ≡ false)
    pub few : length d.removed ≤ max_remove (length current)
    pub added_upper : Upper texts d.added
    pub removed_upper : Upper texts d.removed

  -- No other market of the list has the key of `market`.
  abbrev pub Apart : String → List String → Type 0
  Apart market [] = Unit
  Apart market (m ∷ ms) =
      (str_eq (market_key texts web m) (market_key texts web market) ≡ false) × Apart market ms

  -- The markets have different keys.
  abbrev pub Distinct : List String → Type 0
  Distinct [] = Unit
  Distinct (m ∷ ms) = Apart m ms × Distinct ms

module _ (texts : Texts) (web : Web)
    (upper_twice : (s : String) → texts.upper (texts.upper s) ≡ texts.upper s) where
  open texts use {upper}

  -- The members of the list that are not in the index.
  abbrev gone : List String → List String → List String
  gone current fetched =
      sort_set texts (keep (λ s. not (mem_text s (map upper fetched))) (map upper current))

  mem-gone :
      (current fetched : List String) (s : String)
      → mem_text s (gone current fetched) ≡ (not (has texts fetched s) && has texts current s)
  mem-gone current fetched s =
      mem-sort_set texts s (keep (λ x. not (mem_text x (map upper fetched))) (map upper current))
      ∙ mem-keep (λ x. not (mem_text x (map upper fetched))) s (map upper current)

  Upper-gone : (current fetched : List String) → Upper texts (gone current fetched)
  Upper-gone current fetched = Upper-sort_set texts _ (
      Upper-keep texts (λ x. not (mem_text x (map upper fetched))) (map upper current)
        (Upper-map texts upper_twice current))

  -- The first of the candidates that are no longer traded.
  abbrev capped_removal : ℕ → List String → List String
  capped_removal n confirmed =
      if ltb (max_remove n) (length confirmed) then take (max_remove n) confirmed else confirmed

  length-capped_removal : (n : ℕ) (xs : List String) → length (capped_removal n xs) ≤ max_remove n
  length-capped_removal n xs = ground (arith, length-take (max_remove n) xs)

  mem-capped_removal :
      (s : String) (n : ℕ) (xs : List String)
      → mem_text s (capped_removal n xs) ≡ true
      → mem_text s xs ≡ true
  mem-capped_removal s n xs h = ground (arith, mem-take s (max_remove n) xs)

  Upper-capped_removal :
      (n : ℕ) (xs : List String) → Upper texts xs → Upper texts (capped_removal n xs)
  Upper-capped_removal n xs h = ground (arith, Upper-take texts (max_remove n) xs h, h)

  pub diff-Careful :
      (current fetched : List String) (market : String)
      → Careful texts web current fetched market (diff_watchlist texts web current fetched market)
  unfolding diff_watchlist with_removal
  diff-Careful current fetched market =
      let candidates = gone current fetched in
      let inactive = λ (s : String). not (web.verify_symbol_active s market) in
      let missing = λ (s : String). not (mem_text s (map upper current)) in
      record {
        adds = λ s. ground (
          arith,
          mem-sort_set texts s (keep missing (map upper fetched)),
          mem-keep missing s (map upper fetched),
        );
        removes = λ s h. ground (
          arith,
          mem-capped_removal s (length current) (keep inactive candidates),
          mem-keep inactive s candidates,
          mem-gone current fetched s,
        );
        few = ground (arith, length-capped_removal (length current) (keep inactive candidates));
        added_upper =
            let all_upper = Upper-sort_set texts _ (
              Upper-keep texts missing (map upper fetched) (Upper-map texts upper_twice fetched)) in
            elim (Bool-cases (is_empty candidates)) [
              | inl e ↦ rw e all_upper
              | inr e ↦ rw e all_upper
            ];
        removed_upper = elim (Bool-cases (is_empty candidates)) [
          | inl e ↦ rw e tt
          | inr e ↦ rw e (
              Upper-capped_removal (length current) (keep inactive candidates)
                (Upper-keep texts inactive candidates (Upper-gone current fetched)))
        ];
      }
