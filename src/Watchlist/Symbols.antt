-- ===== src/Watchlist/Symbols.antt =====
-- The sets of symbols of python/src/watchlist/manager.py: what their operations on lists do to the
-- members.
use stock_fixer.Prelude.{
  ℕ, zero, suc, ◌≡◌, refl, ap, ◌∙◌, inl, inr, arith, Bool, true, not, ◌&&◌, ◌||◌, List, [], ◌∷◌,
  ◌++◌, map, String, Bool-cases, take, keep, mem_text, str_eq, eq_iff, discard, All,
}
use stock_fixer.Watchlist.{
  Texts, Web, insert_sorted, sort_set, discard_all, updated_list, WatchlistDiff,
}

mem-append :
    (s : String) (xs ys : List String) → mem_text s (xs ++ ys) ≡ (mem_text s xs || mem_text s ys)
mem-append s [] ys = refl
mem-append s (x ∷ xs) ys = ground (arith, mem-append s xs ys)

pub mem-keep :
    (p : String → Bool) (s : String) (xs : List String)
    → mem_text s (keep p xs) ≡ (p s && mem_text s xs)
unfolding keep
mem-keep p s [] = ground arith
mem-keep p s (x ∷ xs) = elim (Bool-cases (str_eq x s)) [
  | inl e ↦ ground (arith, e, ap p ((eq_iff x s).0 e), mem-keep p s xs)
  | inr n ↦ ground (arith, n, mem-keep p s xs)
]

mem-discard :
    (k s : String) (xs : List String)
    → mem_text s (discard k xs) ≡ (not (str_eq k s) && mem_text s xs)
unfolding discard
mem-discard k s [] = ground arith
mem-discard k s (x ∷ xs) = ground (arith, eq_iff x k, eq_iff x s, eq_iff k s, mem-discard k s xs)

module _ (texts : Texts) where
  open texts use {upper, before}

  mem-insert_sorted :
      (s x : String) (xs : List String)
      → mem_text s (insert_sorted texts x xs) ≡ (str_eq x s || mem_text s xs)
  unfolding insert_sorted
  mem-insert_sorted s x [] = refl
  mem-insert_sorted s x (y ∷ ys) =
      ground (arith, eq_iff x y, eq_iff y s, eq_iff x s, mem-insert_sorted s x ys)

  pub mem-sort_set :
      (s : String) (xs : List String) → mem_text s (sort_set texts xs) ≡ mem_text s xs
  unfolding sort_set
  mem-sort_set s [] = refl
  mem-sort_set s (x ∷ xs) =
      ground (arith, mem-insert_sorted s x (sort_set texts xs), mem-sort_set s xs)

  module _ (web : Web) where
    mem-discard_all :
        (s : String) (ks xs : List String)
        → mem_text s (discard_all texts web ks xs)
          ≡ (not (mem_text s (map upper ks)) && mem_text s xs)
    unfolding discard_all
    mem-discard_all s [] xs = refl
    mem-discard_all s (k ∷ ks) xs =
        ground (arith, mem-discard_all s ks (discard (upper k) xs), mem-discard (upper k) s xs)

    pub mem-updated_list :
        (s : String) (current : List String) (diff : WatchlistDiff)
        → mem_text s (updated_list texts web current diff) ≡ (
            not (mem_text s (map upper diff.removed))
            && (mem_text s (map upper diff.added) || mem_text s (map upper current)))
    unfolding updated_list
    mem-updated_list s current diff =
        let before_removal = map upper diff.added ++ map upper current in
        mem-sort_set s (discard_all texts web diff.removed before_removal)
        ∙ mem-discard_all s diff.removed before_removal
        ∙ ap (λ b. not (mem_text s (map upper diff.removed)) && b)
            (mem-append s (map upper diff.added) (map upper current))

  -- Symbols in upper case stay as they are.
  abbrev pub Upper : List String → Type 0
  Upper = All (λ s. upper s ≡ s)

  pub map-Upper : (xs : List String) → Upper xs → map upper xs ≡ xs
  map-Upper [] h = refl
  map-Upper (x ∷ xs) h = cc (h.0, map-Upper xs h.1)

  pub Upper-map :
      ((s : String) → upper (upper s) ≡ upper s) → (xs : List String) → Upper (map upper xs)
  Upper-map twice [] = tt
  Upper-map twice (x ∷ xs) = (twice x, Upper-map twice xs)

  pub Upper-keep : (p : String → Bool) (xs : List String) → Upper xs → Upper (keep p xs)
  unfolding keep
  Upper-keep p [] h = tt
  Upper-keep p (x ∷ xs) h = ground (arith, Upper-keep p xs h.1, h)

  pub Upper-take : (n : ℕ) (xs : List String) → Upper xs → Upper (take n xs)
  Upper-take zero xs h = tt
  Upper-take (suc n) [] h = tt
  Upper-take (suc n) (x ∷ xs) h = (h.0, Upper-take n xs h.1)

  Upper-insert_sorted :
      (x : String) (xs : List String) → upper x ≡ x → Upper xs → Upper (insert_sorted texts x xs)
  unfolding insert_sorted
  Upper-insert_sorted x [] e h = (e, tt)
  Upper-insert_sorted x (y ∷ ys) e h = ground (arith, Upper-insert_sorted x ys e h.1, h, e)

  pub Upper-sort_set : (xs : List String) → Upper xs → Upper (sort_set texts xs)
  unfolding sort_set
  Upper-sort_set [] h = tt
  Upper-sort_set (x ∷ xs) h = Upper-insert_sorted x (sort_set texts xs) h.0 (Upper-sort_set xs h.1)

  Upper-append : (xs ys : List String) → Upper xs → Upper ys → Upper (xs ++ ys)
  Upper-append [] ys h k = k
  Upper-append (x ∷ xs) ys h k = (h.0, Upper-append xs ys h.1 k)

  Upper-discard : (k : String) (xs : List String) → Upper xs → Upper (discard k xs)
  unfolding discard
  Upper-discard k [] h = tt
  Upper-discard k (x ∷ xs) h = ground (arith, Upper-discard k xs h.1, h)

  module _ (web : Web) (upper_twice : (s : String) → upper (upper s) ≡ upper s) where
    Upper-discard_all : (ks xs : List String) → Upper xs → Upper (discard_all texts web ks xs)
    unfolding discard_all
    Upper-discard_all [] xs h = h
    Upper-discard_all (k ∷ ks) xs h =
        Upper-discard_all ks (discard (upper k) xs) (Upper-discard (upper k) xs h)

    pub Upper-updated_list :
        (current : List String) (diff : WatchlistDiff) → Upper (updated_list texts web current diff)
    unfolding updated_list
    Upper-updated_list current diff =
        let before_removal = map upper diff.added ++ map upper current in
        Upper-sort_set (discard_all texts web diff.removed before_removal) (
          Upper-discard_all diff.removed before_removal (
            Upper-append (map upper diff.added) (map upper current)
              (Upper-map upper_twice diff.added) (Upper-map upper_twice current)))

pub mem-take :
    (s : String) (n : ℕ) (xs : List String) → mem_text s (take n xs) ≡ true → mem_text s xs ≡ true
mem-take s zero xs h = cc
mem-take s (suc n) [] h = h
mem-take s (suc n) (x ∷ xs) h = ground (arith, mem-take s n xs)
