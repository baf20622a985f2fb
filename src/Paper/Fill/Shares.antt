-- ===== src/Paper/Fill/Shares.antt =====
-- The shares before and after a fill (`apply_fill` of python/src/trading/brokers/paper/fill.py).
use stock_fixer.Prelude.{
  ℕ, ◌+◌, ◌-◌, ◌≡◌, refl, ◌∙◌, inl, inr, true, Option, none, some, List, [], ◌∷◌, ◌++◌, String,
  arith, str_eq, eq_iff, Bool-cases, leb, min, ap,
}
use stock_fixer.Paper.Tables.{
  Money, Side, Holding, Tables, find_row, update_rows, delete_rows, held, shares_of,
}
use stock_fixer.Paper.Fill.{reduce_rows, apply_fill, fill_buy, fill_sell, fill_short, fill_cover}

module _ {F : Type 0} where
  found_symbol :
      (s : String) (rs : List (Holding F)) (r : Holding F)
      → find_row s rs ≡ some r
      → str_eq r.symbol s ≡ true
  unfolding find_row
  found_symbol s [] r e = cc
  found_symbol s (x ∷ rs) r e = elim (Bool-cases (str_eq x.symbol s)) [
    | inl y ↦ cc (rw y at e, y)
    | inr n ↦ found_symbol s rs r (rw n at e)
  ]

  -- A row that is added where there is none is found.
  pub held-append :
      (s : String) (q : ℕ) (a : F) (rs : List (Holding F))
      → find_row s rs ≡ none
      → find_row s (rs ++ record { symbol = s; qty = q; avg = a } ∷ [])
        ≡ some (record { symbol = s; qty = q; avg = a })
  unfolding find_row
  held-append s q a [] e = let h = (eq_iff s s).1 refl in rw h refl
  held-append s q a (x ∷ rs) e = elim (Bool-cases (str_eq x.symbol s)) [
    | inl y ↦ cc (rw y at e)
    | inr n ↦ rw n (held-append s q a rs (rw n at e))
  ]

  -- An update that keeps the symbols is found with its change.
  find_row-update_rows :
      (s : String) (f : Holding F → Holding F) (rs : List (Holding F)) (r : Holding F)
      → ((x : Holding F) → (f x).symbol ≡ x.symbol)
      → find_row s rs ≡ some r
      → find_row s (update_rows s f rs) ≡ some (f r)
  unfolding find_row update_rows
  find_row-update_rows s f [] r k e = cc
  find_row-update_rows s f (x ∷ rs) r k e = elim (Bool-cases (str_eq x.symbol s)) [
    | inl y ↦
        let same : some x ≡ some r = rw y at e in
        let kept : str_eq (f x).symbol s ≡ true = rw (k x) y in
        rw (y, kept) (ap (λ o. elim o [ none ↦ none | some z ↦ some (f z) ]) same)
    | inr n ↦ rw (n, n) (find_row-update_rows s f rs r k (rw n at e))
  ]

  find_row-delete_rows : (s : String) (rs : List (Holding F)) → find_row s (delete_rows s rs) ≡ none
  unfolding find_row delete_rows
  find_row-delete_rows s [] = refl
  find_row-delete_rows s (x ∷ rs) = elim (Bool-cases (str_eq x.symbol s)) [
    | inl y ↦ rw y (find_row-delete_rows s rs)
    | inr n ↦ rw (n, n) (find_row-delete_rows s rs)
  ]

  held-reduce_rows :
      (money : Money F) (s : String) (q : ℕ) (rs : List (Holding F)) (r : Holding F)
      → find_row s rs ≡ some r
      → held s (reduce_rows money s q rs) ≡ q
  unfolding reduce_rows
  held-reduce_rows money s q rs r e = elim (Bool-cases (leb q 0)) [
    | inl y ↦ rw y (ap shares_of (find_row-delete_rows s rs) ∙ ground arith)
    | inr n ↦ rw n (ap shares_of (find_row-update_rows s _ rs r (λ x. refl) e))
  ]

  -- What a fill of `qty` shares does to the shares of its symbol: a purchase adds them; a sale and a
  -- cover take off what they fill, which is at most what is held; a short finds its shares registered
  -- already, or adds them. The other table of holdings stays as it is.
  abbrev pub Booked : Side → String → ℕ → Tables F → Tables F × ℕ → Type 0
  Booked Side.buy s qty db r =
      (r.1 ≡ qty)
      × (held s r.0.positions ≡ held s db.positions + qty)
      × (r.0.short_positions ≡ db.short_positions)
  Booked Side.sell s qty db r =
      (r.1 ≡ min qty (held s db.positions))
      × (held s r.0.positions + r.1 ≡ held s db.positions)
      × (r.0.short_positions ≡ db.short_positions)
  Booked Side.short s qty db r =
      (r.1 ≡ qty)
      × (held s r.0.short_positions
          ≡ elim (find_row s db.short_positions) [ none ↦ qty | some x ↦ x.qty ])
      × (r.0.positions ≡ db.positions)
  Booked Side.short_cover s qty db r =
      (r.1 ≡ min qty (held s db.short_positions))
      × (held s r.0.short_positions + r.1 ≡ held s db.short_positions)
      × (r.0.positions ≡ db.positions)

  buy-Booked :
      (money : Money F) (db : Tables F) (s : String) (qty : ℕ) (p : F) (o : Option (Holding F))
      → find_row s db.positions ≡ o
      → Booked Side.buy s qty db (fill_buy money db s qty p o, qty)
  buy-Booked money db s qty p none e = (
    refl,
    ap shares_of (held-append s qty p db.positions e) ∙ omega (arith, ap shares_of e),
    refl,
  )
  buy-Booked money db s qty p (some r) e = (
    refl,
    ap shares_of (find_row-update_rows s _ db.positions r (λ x. refl) e)
        ∙ omega (arith, ap shares_of e),
    refl,
  )

  sell-Booked :
      (money : Money F) (db : Tables F) (id s : String) (qty : ℕ) (p : F) (o : Option (Holding F))
      → find_row s db.positions ≡ o
      → Booked Side.sell s qty db (fill_sell money db id s qty p o)
  sell-Booked money db id s qty p none e =
      let h = ap shares_of e in (omega (arith, h), omega (arith, h), refl)
  sell-Booked money db id s qty p (some r) e =
      let h = ap shares_of e in
      let k = held-reduce_rows money s (r.qty - min qty r.qty) db.positions r e in
      (omega (arith, h), omega (arith, h, k), refl)

  short-Booked :
      (money : Money F) (db : Tables F) (id s : String) (qty : ℕ) (p : F) (o : Option (Holding F))
      → find_row s db.short_positions ≡ o
      → Booked Side.short s qty db (fill_short money db id s qty p o, qty)
  short-Booked money db id s qty p none e =
      (refl, rw e (ap shares_of (held-append s qty p db.short_positions e)), refl)
  short-Booked money db id s qty p (some r) e = (
    refl,
    rw e (ap shares_of (find_row-update_rows s _ db.short_positions r (λ x. refl) e)),
    refl,
  )

  cover-Booked :
      (money : Money F) (db : Tables F) (id s : String) (qty : ℕ) (p : F) (o : Option (Holding F))
      → find_row s db.short_positions ≡ o
      → Booked Side.short_cover s qty db (fill_cover money db id s qty p o)
  cover-Booked money db id s qty p none e =
      let h = ap shares_of e in (omega (arith, h), omega (arith, h), refl)
  cover-Booked money db id s qty p (some r) e =
      let h = ap shares_of e in
      let k = held-reduce_rows money s (r.qty - min qty r.qty) db.short_positions r e in
      (omega (arith, h), omega (arith, h, k), refl)

-- `apply_fill` books the shares as `Booked` says, on each of the four sides: nobody sells or covers
-- more than the holding, and no share appears or is lost.
pub apply_fill_lem :
    {F : Type 0} (money : Money F) (db : Tables F) (id s : String) (side : Side) (qty : ℕ) (p : F)
    → Booked side s qty db (apply_fill money db id s side qty p)
unfolding apply_fill
apply_fill_lem money db id s Side.buy qty p =
    buy-Booked money db s qty p (find_row s db.positions) refl
apply_fill_lem money db id s Side.sell qty p =
    sell-Booked money db id s qty p (find_row s db.positions) refl
apply_fill_lem money db id s Side.short qty p =
    short-Booked money db id s qty p (find_row s db.short_positions) refl
apply_fill_lem money db id s Side.short_cover qty p =
    cover-Booked money db id s qty p (find_row s db.short_positions) refl
