-- ===== src/Screening/HoldEngine/Course.antt =====
-- The course of a position in python/src/screening/hold_engine.py: one entry, partial sales at each
-- level once at most, one exit.
use stock_fixer.Prelude.{
  ℕ, suc, ◌+◌, ◌≡◌, ◌≤◌, ◌⊎◌, refl, ap, ◌∙◌, arith, inl, inr, Bool, true, false, not, ◌&&◌, ◌||◌,
  Option, none, some, List, [], ◌∷◌, ◌++◌, String, str_eq, keep, any, any-append, length,
  length-keep, Bool-cases,
}
use stock_fixer.Prelude.Elem.{is_empty, Elem, keep-Elem}
use stock_fixer.Screening.HoldEngine.{
  Floats, HoldRules, PriceRow, PositionEvent, EventAction, find_entry, drop_invalid_closes,
  is_ma_break, is_trail_stop, insert_level, sort_levels, newly_crossed_multiples, held_after,
  higher, left_of, scale_outs, simulate_from, entry_event, simulate_at, simulate_position,
}

-- What is kept by two tests that exclude each other, out of what a third keeps.
keep-parts :
    {A : Type 0} (p q r : A → Bool) (xs : List A)
    → ((a : A) → Elem a xs → q a ≡ true → p a ≡ true)
    → ((a : A) → Elem a xs → r a ≡ true → (p a ≡ true) × (q a ≡ false))
    → length (keep q xs) + length (keep r xs) ≤ length (keep p xs)
unfolding keep
keep-parts p q r [] hq hr = omega arith
keep-parts p q r (x ∷ xs) hq hr =
    let rest = keep-parts p q r xs (λ a m. hq a (inr m)) (λ a m. hr a (inr m)) in
    elim (Bool-cases (r x)) [
      | inl y ↦ let (now, not_q) = hr x (inl refl) y in rw (y, now, not_q) (omega (arith, rest))
      | inr n ↦ rw n (elim (Bool-cases (q x)) [
        | inl y ↦ rw (y, hq x (inl refl) y) (omega (arith, rest))
        | inr m ↦
            rw m
              (elim (Bool-cases (p x)) [ inl z ↦ rw z (omega (arith, rest)) | inr k ↦ rw k rest ])
      ])
    ]

any-Elem :
    {A : Type 0} (p : A → Bool) (a : A) (xs : List A) → Elem a xs → p a ≡ true → any p xs ≡ true
unfolding any
any-Elem p a [] m h = absurd m
any-Elem p a (x ∷ xs) (inl e) h = rw (e, h) refl
any-Elem p a (x ∷ xs) (inr m) h = ground (arith, any-Elem p a xs m h)

module _ {F : Type 0} (fl : Floats F) (rules : HoldRules F) where
  insert-Elem : (a x : F) (xs : List F) → (x ≡ a) ⊎ Elem a xs → Elem a (insert_level fl rules x xs)
  unfolding insert_level
  insert-Elem a x [] m = m
  insert-Elem a x (y ∷ ys) m = elim (Bool-cases (fl.less y x)) [
    | inr n ↦ rw n m
    | inl l ↦ rw l (elim m [
      | inl e ↦ inr (insert-Elem a x ys (inl e))
      | inr r ↦ elim r [ inl e ↦ inl e | inr k ↦ inr (insert-Elem a x ys (inr k)) ]
    ])
  ]

  sort-Elem : (a : F) (xs : List F) → Elem a xs → Elem a (sort_levels fl rules xs)
  unfolding sort_levels
  sort-Elem a [] m = m
  sort-Elem a (x ∷ xs) (inl e) = insert-Elem a x (sort_levels fl rules xs) (inl e)
  sort-Elem a (x ∷ xs) (inr m) = insert-Elem a x (sort_levels fl rules xs) (inr (sort-Elem a xs m))

  length-insert : (x : F) (xs : List F) → length (insert_level fl rules x xs) ≡ suc (length xs)
  unfolding insert_level
  length-insert x [] = refl
  length-insert x (y ∷ ys) = elim (Bool-cases (fl.less y x)) [
    | inl l ↦ rw l (ap suc (length-insert x ys))
    | inr n ↦ rw n refl
  ]

  length-sort : (xs : List F) → length (sort_levels fl rules xs) ≡ length xs
  unfolding sort_levels
  length-sort [] = refl
  length-sort (x ∷ xs) = length-insert x (sort_levels fl rules xs) ∙ ap suc (length-sort xs)

  abbrev is_open : List F → F → Bool
  is_open achieved level = not (any (fl.same level) achieved)

  -- How many levels are not achieved yet.
  abbrev levels_left : List F → ℕ
  levels_left achieved = length (keep (is_open achieved) rules.scale_out_multiples)

  -- `n` partial sales, and the exit of the rest.
  pub data Course : ℕ → List (PositionEvent F) → Type 0 where
    leaves :
        (e : PositionEvent F)
        → e.action ≡ EventAction.exit
        → e.held_fraction ≡ fl.zero_float
        → Course 0 (e ∷ [])
    sells :
        {n : ℕ} {es : List (PositionEvent F)} (e : PositionEvent F)
        → e.action ≡ EventAction.scale_out
        → Course n es
        → Course (suc n) (e ∷ es)

  scale_outs-Course :
      (b : PriceRow F) (multiple : F) (levels : List F) (held : F) (n : ℕ)
      (es : List (PositionEvent F))
      → Course n es
      → (m : ℕ) × (m ≡ length levels + n)
        × Course m (scale_outs fl rules b multiple levels held ++ es)
  scale_outs-Course b multiple [] held n es c = (n, omega arith, c)
  scale_outs-Course b multiple (level ∷ levels) held n es c =
      let (m, e, rest) = scale_outs-Course b multiple levels (left_of fl rules held) n es c in
      (suc m, omega (arith, e), sells _ refl rest)

  module _ (reflexive : (x : F) → fl.same x x ≡ true) where
    crossed-left :
        (multiple : F) (achieved : List F)
        → let levels = newly_crossed_multiples fl rules multiple achieved in
          length levels + levels_left (levels ++ achieved) ≤ levels_left achieved
    unfolding newly_crossed_multiples
    crossed-left multiple achieved =
        let ms = rules.scale_out_multiples in
        let q : F → Bool =
          λ level. not (any (fl.same level) achieved) && fl.at_most level multiple in
        let levels = sort_levels fl rules (keep q ms) in
        elim (Bool-cases (is_empty ms || fl.at_most rules.scale_out_fraction fl.zero_float)) [
          | inl y ↦ rw y (omega arith)
          | inr n ↦ rw n (
              omega (
                arith,
                length-sort (keep q ms),
                keep-parts (is_open achieved) q (is_open (levels ++ achieved)) ms
                    (λ a m y. ground (arith, y))
                    (λ a m y.
                      let both = any-append (fl.same a) levels achieved in
                      (
                        ground (arith, y, both),
                        elim (Bool-cases (q a)) [
                          | inr k ↦ k
                          | inl z ↦
                              let met : any (fl.same a) levels ≡ true =
                                any-Elem (fl.same a) a levels
                                  (sort-Elem a (keep q ms) (keep-Elem q a ms m z)) (reflexive a) in
                              ground (arith, y, both, met)
                        ],
                      )),
              ))
        ]

    simulate_from-Course :
        (entry_price peak held : F) (achieved seen : List F) (last : PriceRow F)
        (bars : List (PriceRow F))
        → (n : ℕ) × (n ≤ levels_left achieved)
          × Course n (simulate_from fl rules entry_price peak held achieved seen last bars)
    unfolding simulate_from
    simulate_from-Course entry_price peak held achieved seen last [] =
        (0, omega arith, leaves _ refl refl)
    simulate_from-Course entry_price peak held achieved seen last (b ∷ bars) =
        let multiple = fl.divided b.close entry_price in
        let top = higher fl rules peak b.close in
        let levels = newly_crossed_multiples fl rules multiple achieved in
        elim (Bool-cases (is_ma_break fl rules b.close (b.close ∷ seen))) [
          | inl y ↦ rw y (0, omega arith, leaves _ refl refl)
          | inr n ↦ rw n (elim (Bool-cases (is_trail_stop fl rules b.close top)) [
            | inl y ↦ rw y (0, omega arith, leaves _ refl refl)
            | inr m ↦
                let (k, few, course) =
                  simulate_from-Course entry_price top (held_after fl rules levels held)
                    (levels ++ achieved) (b.close ∷ seen) b bars in
                let (all, e, sold) = scale_outs-Course b multiple levels held k _ course in
                rw m (all, omega (arith, e, few, crossed-left multiple achieved), sold)
          ])
        ]

    find_entry-date :
        (entry_date : String) (seen : List F) (rows : List (PriceRow F)) (before : List F)
        (b : PriceRow F) (after : List (PriceRow F))
        → find_entry entry_date seen rows ≡ some (before, (b, after))
        → str_eq b.date entry_date ≡ true
    unfolding find_entry
    find_entry-date entry_date seen [] before b after h = cc
    find_entry-date entry_date seen (x ∷ rows) before b after h =
        elim (Bool-cases (str_eq x.date entry_date)) [
          | inr n ↦ find_entry-date entry_date (x.close ∷ seen) rows before b after (rw n at h)
          | inl y ↦ ground (arith, y, h)
        ]

    simulate_at-Course :
        (rows : List (PriceRow F)) (entry_date : String)
        (found : Option (List F × (PriceRow F × List (PriceRow F))))
        → find_entry entry_date [] rows ≡ found
        → (simulate_at fl rules found ≡ [])
          ⊎ ((b : PriceRow F) × (n : ℕ) × (rest : List (PositionEvent F)) × (simulate_at fl rules
                  found
                ≡ entry_event fl rules b ∷ rest)
              × (str_eq b.date entry_date ≡ true)
              × (n ≤ length rules.scale_out_multiples)
              × Course n rest)
    simulate_at-Course rows entry_date none e = inl refl
    simulate_at-Course rows entry_date (some (before, (b, after))) e =
        let (n, few, course) =
          simulate_from-Course b.close b.close fl.one_float [] (b.close ∷ before) b after in
        inr (
          b,
          n,
          _,
          refl,
          find_entry-date entry_date [] rows before b after e,
          omega (arith, few, length-keep (is_open []) rules.scale_out_multiples),
          course,
        )

    -- The course of a position, where the test of two levels for equality is reflexive: there are no
    -- events, or first the entry on the given date, then partial sales, no more than there are levels,
    -- and at last the one exit, which leaves nothing held.
    pub simulate_position-Course :
        (rows : List (PriceRow F)) (entry_date : String)
        → (simulate_position fl rules rows entry_date ≡ [])
          ⊎ ((b : PriceRow F) × (n : ℕ) × (rest : List (PositionEvent F)) × (simulate_position fl
                  rules rows entry_date
                ≡ entry_event fl rules b ∷ rest)
              × (str_eq b.date entry_date ≡ true)
              × (n ≤ length rules.scale_out_multiples)
              × Course n rest)
    unfolding simulate_position
    simulate_position-Course rows entry_date =
        simulate_at-Course (drop_invalid_closes fl rules rows) entry_date _ refl
