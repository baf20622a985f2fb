-- ===== src/Screening/HoldEngine/Lookahead.antt =====
-- The engine of python/src/screening/hold_engine.py does not look ahead.
use stock_fixer.Prelude.{
  ◌≡◌, refl, ap, sym, ◌∙◌, arith, ◌⊎◌, inl, inr, Bool, All, false, Option, none, some, List, [],
  ◌∷◌, ◌++◌, String, str_eq, keep, Bool-cases, append_assoc,
}
use stock_fixer.Prelude.Elem.{is_empty, Elem}
use stock_fixer.Screening.HoldEngine.{
  Floats, HoldRules, PriceRow, PositionEvent, find_entry, left_of, drop_invalid_closes, is_ma_break,
  is_trail_stop, newly_crossed_multiples, held_after, higher, scale_outs, end_of_data, exit_event,
  simulate_from, entry_event, simulate_at, simulate_position,
}

keep-append :
    {A : Type 0} (p : A → Bool) (xs ys : List A) → keep p (xs ++ ys) ≡ keep p xs ++ keep p ys
unfolding keep
keep-append p [] ys = refl
keep-append p (x ∷ xs) ys = ground (arith, keep-append p xs ys)

module _ {F : Type 0} where
  with_more :
      List (PriceRow F)
      → Option (List F × (PriceRow F × List (PriceRow F)))
      → Option (List F × (PriceRow F × List (PriceRow F)))
  with_more more none = none
  with_more more (some (before, (b, after))) = some (before, (b, after ++ more))

  find_entry-append :
      (entry_date : String) (seen before : List F) (bars more after : List (PriceRow F))
      (b : PriceRow F)
      → find_entry entry_date seen bars ≡ some (before, (b, after))
      → find_entry entry_date seen (bars ++ more) ≡ some (before, (b, after ++ more))
  unfolding find_entry with_more
  find_entry-append entry_date seen before [] more after b h = cc
  find_entry-append entry_date seen before (x ∷ bars) more after b h =
      elim (Bool-cases (str_eq x.date entry_date)) [
        | inr n ↦
            rw n
              (find_entry-append entry_date (x.close ∷ seen) before bars more after b (rw n at h))
        | inl y ↦ rw y (ap (with_more more) (rw y at h))
      ]

  -- The last of a row and those after it, and of a frame.
  abbrev final_row : PriceRow F → List (PriceRow F) → PriceRow F
  final_row b [] = b
  final_row b (c ∷ cs) = final_row c cs

  abbrev pub last_row : List (PriceRow F) → Option (PriceRow F)
  last_row [] = none
  last_row (b ∷ bs) = some (final_row b bs)

  abbrev last_of_found : Option (List F × (PriceRow F × List (PriceRow F))) → Option (PriceRow F)
  last_of_found none = none
  last_of_found (some (before, (b, after))) = some (final_row b after)

  find_entry-last_row :
      (entry_date : String) (seen before : List F) (bars after : List (PriceRow F)) (b : PriceRow F)
      → find_entry entry_date seen bars ≡ some (before, (b, after))
      → last_row bars ≡ some (final_row b after)
  unfolding find_entry
  find_entry-last_row entry_date seen before [] after b h = cc
  find_entry-last_row entry_date seen before (x ∷ []) after b h =
      elim (Bool-cases (str_eq x.date entry_date)) [
        | inr n ↦ cc (rw n at h)
        | inl y ↦ ap last_of_found (rw y at h)
      ]
  find_entry-last_row entry_date seen before (x ∷ c ∷ bars) after b h =
      elim (Bool-cases (str_eq x.date entry_date)) [
        | inr n ↦
            find_entry-last_row entry_date (x.close ∷ seen) before (c ∷ bars) after b (rw n at h)
        | inl y ↦ ap last_of_found (rw y at h)
      ]

  -- The event carries the date and the close of one of the rows.
  abbrev pub IsOfRow : List (PriceRow F) → PositionEvent F → Type 0
  IsOfRow rows e = (b : PriceRow F) × Elem b rows × (e.date ≡ b.date) × (e.price ≡ b.close)

  wider :
      (b : PriceRow F) (rows : List (PriceRow F)) (evs : List (PositionEvent F))
      → All (IsOfRow rows) evs
      → All (IsOfRow (b ∷ rows)) evs
  wider b rows [] h = tt
  wider b rows (e ∷ evs) ((c, m, d, p), h) = ((c, inr m, d, p), wider b rows evs h)

  All-append :
      (rows : List (PriceRow F)) (xs ys : List (PositionEvent F))
      → All (IsOfRow rows) xs
      → All (IsOfRow rows) ys
      → All (IsOfRow rows) (xs ++ ys)
  All-append rows [] ys hx hy = hy
  All-append rows (x ∷ xs) ys (h, hx) hy = (h, All-append rows xs ys hx hy)

  module _ (fl : Floats F) (rules : HoldRules F) where
    scale_outs-IsOfRow :
        (b : PriceRow F) (rows : List (PriceRow F)) (multiple : F) (levels : List F) (held : F)
        → All (IsOfRow (b ∷ rows)) (scale_outs fl rules b multiple levels held)
    scale_outs-IsOfRow b rows multiple [] held = tt
    scale_outs-IsOfRow b rows multiple (level ∷ levels) held = (
      (b, inl refl, refl, refl),
      scale_outs-IsOfRow b rows multiple levels (left_of fl rules held),
    )

    -- The events of the loop are those of its rows, and of the row before them if there are none.
    simulate_from-IsOfRow :
        (entry_price peak held : F) (achieved seen : List F) (last : PriceRow F)
        (bars : List (PriceRow F))
        → All
            (IsOfRow (last ∷ bars))
            (simulate_from fl rules entry_price peak held achieved seen last bars)
          × (is_empty bars ≡ false
              → All
                  (IsOfRow bars)
                  (simulate_from fl rules entry_price peak held achieved seen last bars))
    unfolding simulate_from
    simulate_from-IsOfRow entry_price peak held achieved seen last [] =
        (((last, inl refl, refl, refl), tt), λ h. cc)
    simulate_from-IsOfRow entry_price peak held achieved seen last (b ∷ bars) =
        let own : All (IsOfRow (b ∷ bars))
            (simulate_from fl rules entry_price peak held achieved seen last (b ∷ bars)) =
          let multiple = fl.divided b.close entry_price in
          let top = higher fl rules peak b.close in
          let levels = newly_crossed_multiples fl rules multiple achieved in
          elim (Bool-cases (is_ma_break fl rules b.close (b.close ∷ seen))) [
            | inl y ↦ rw y ((b, inl refl, refl, refl), tt)
            | inr n ↦ rw n (elim (Bool-cases (is_trail_stop fl rules b.close top)) [
              | inl y ↦ rw y ((b, inl refl, refl, refl), tt)
              | inr m ↦ rw m (
                  All-append (b ∷ bars) _ _ (scale_outs-IsOfRow b bars multiple levels held)
                    (simulate_from-IsOfRow entry_price top (held_after fl rules levels held)
                      (levels ++ achieved) (b.close ∷ seen) b bars).0)
            ])
          ] in
        (wider last (b ∷ bars) _ own, λ h. own)

    -- The events end with an exit by one of the two rules.
    pub IsLeft : List (PositionEvent F) → Type 0
    IsLeft evs =
        (earlier : List (PositionEvent F)) × (b : PriceRow F) × (reason : String) × (multiple : F)
        × (evs ≡ earlier ++ exit_event fl rules b reason multiple ∷ [])
        × ((reason ≡ "ma_break") ⊎ (reason ≡ "trail_stop"))

    -- The events of fewer rows and of those with `more` after them. They are the same, and the
    -- position was left by a rule or there are no more rows; or the former end with the sale on the
    -- last row, and the latter begin with all events before that sale, and go on with events of the
    -- later rows alone.
    pub Agrees :
        Option (PriceRow F)
        → List (PriceRow F)
        → List (PositionEvent F)
        → List (PositionEvent F)
        → Type 0
    Agrees final more short long =
        ((long ≡ short) × (IsLeft short ⊎ (more ≡ [])))
        ⊎ ((shared : List (PositionEvent F)) × (later : List (PositionEvent F)) × (entry_price : F)
            × (last : PriceRow F) × (final ≡ some last)
            × (short ≡ shared ++ end_of_data fl rules entry_price last ∷ [])
            × (long ≡ shared ++ later)
            × All (IsOfRow more) later)

    prepend :
        (final : Option (PriceRow F)) (more : List (PriceRow F))
        (evs short long : List (PositionEvent F))
        → Agrees final more short long
        → Agrees final more (evs ++ short) (evs ++ long)
    unfolding Agrees IsLeft
    prepend final more evs short long (inl (e, inr none_more)) =
        inl (ap (λ z. evs ++ z) e, inr none_more)
    prepend final more evs short long (inl (e, inl (earlier, b, reason, multiple, is, by_rule))) =
        inl (
          ap (λ z. evs ++ z) e,
          inl (
            evs ++ earlier,
            b,
            reason,
            multiple,
            ap (λ z. evs ++ z) is ∙ sym (append_assoc evs earlier _),
            by_rule,
          ),
        )
    prepend final more evs short long (inr (shared, later, price, last, f, e, e', rows)) = inr (
      evs ++ shared,
      later,
      price,
      last,
      f,
      ap (λ z. evs ++ z) e ∙ sym (append_assoc evs shared _),
      ap (λ z. evs ++ z) e' ∙ sym (append_assoc evs shared later),
      rows,
    )

    simulate_from-Agrees :
        (entry_price peak held : F) (achieved seen : List F) (last : PriceRow F)
        (bars more : List (PriceRow F))
        → Agrees
            (some (final_row last bars))
            more
            (simulate_from fl rules entry_price peak held achieved seen last bars)
            (simulate_from fl rules entry_price peak held achieved seen last (bars ++ more))
    unfolding Agrees IsLeft simulate_from
    simulate_from-Agrees entry_price peak held achieved seen last [] [] = inl (refl, inr refl)
    simulate_from-Agrees entry_price peak held achieved seen last [] (m ∷ more) = inr (
      [],
      _,
      entry_price,
      last,
      refl,
      refl,
      refl,
      (simulate_from-IsOfRow entry_price peak held achieved seen last (m ∷ more)).1 refl,
    )
    simulate_from-Agrees entry_price peak held achieved seen last (b ∷ bars) more =
        let levels = newly_crossed_multiples fl rules (fl.divided b.close entry_price) achieved in
        elim (Bool-cases (is_ma_break fl rules b.close (b.close ∷ seen))) [
          | inl y ↦ rw y (inl (refl, inl ([], b, "ma_break", _, refl, inl refl)))
          | inr n ↦
              rw n
                (elim (Bool-cases (is_trail_stop fl rules b.close (higher fl rules peak b.close))) [
                  | inl y ↦ rw y (inl (refl, inl ([], b, "trail_stop", _, refl, inr refl)))
                  | inr m ↦ rw m (
                      prepend (some (final_row b bars)) more
                        (scale_outs fl rules b (fl.divided b.close entry_price) levels held) _ _
                        (simulate_from-Agrees entry_price (higher fl rules peak b.close)
                          (held_after fl rules levels held) (levels ++ achieved) (b.close ∷ seen) b
                          bars more))
                ])
        ]

    entered-Agrees :
        (bars more : List (PriceRow F)) (entry_date : String)
        (found : Option (List F × (PriceRow F × List (PriceRow F))))
        → find_entry entry_date [] bars ≡ found
        → is_empty (simulate_at fl rules found) ≡ false
        → Agrees
            (last_row bars)
            more
            (simulate_at fl rules found)
            (simulate_at fl rules (find_entry entry_date [] (bars ++ more)))
    entered-Agrees bars more entry_date none e entered = cc
    entered-Agrees bars more entry_date (some (before, (b, after))) e entered =
        rw (find_entry-append entry_date [] before bars more after b e) (
          rw (find_entry-last_row entry_date [] before bars after b e) (
            prepend (some (final_row b after)) more (entry_event fl rules b ∷ []) _ _ (
              simulate_from-Agrees b.close b.close fl.one_float [] (b.close ∷ before) b after
                more)))

    -- No look ahead: the rows of later days do not change what happened before. Of a position that
    -- is entered, the events with more rows are those with fewer, where a rule ends them or no
    -- valid row is added; or the latter end with the sale on their last valid row, and the former
    -- begin with all the events before that sale and go on with events that carry the date and the
    -- close of later rows alone. The mean is taken of the closes up to its day.
    pub simulate_position-Agrees :
        (bars more : List (PriceRow F)) (entry_date : String)
        → is_empty (simulate_position fl rules bars entry_date) ≡ false
        → Agrees
            (last_row (drop_invalid_closes fl rules bars))
            (drop_invalid_closes fl rules more)
            (simulate_position fl rules bars entry_date)
            (simulate_position fl rules (bars ++ more) entry_date)
    unfolding simulate_position drop_invalid_closes
    simulate_position-Agrees bars more entry_date entered =
        rw (keep-append (λ (b : PriceRow F). fl.is_positive_finite b.close) bars more) (
          entered-Agrees (drop_invalid_closes fl rules bars) (drop_invalid_closes fl rules more)
            entry_date _ refl entered)
