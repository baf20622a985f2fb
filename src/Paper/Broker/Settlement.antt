-- ===== src/Paper/Broker/Settlement.antt =====
-- A settlement of python/src/trading/brokers/paper/paper_broker.py fills an order once, and buys with
-- cash only.
use stock_fixer.Prelude.{
  ℕ, ◌+◌, ◌≡◌, ◌≤◌, ◌⊎◌, refl, inl, inr, true, false, ◌&&◌, Option, none, some, List, [], ◌∷◌,
  String, arith, str_eq, Bool-cases, ◌==◌, any, leb,
}
use stock_fixer.Paper.Tables.{
  Money, Side, is_buy, is_short, Holding, Order, OrderType, OrderStatus, is_pending, Tables,
  update_orders, claim_pending, held, find_row,
}
use stock_fixer.Paper.Fill.{apply_fill, fill_buy}
use stock_fixer.Paper.Fill.Shares.{apply_fill_lem}
use stock_fixer.Paper.Broker.{
  set_status, set_filled, undo_short_registration, undo_row, Bar, fill_price_of, Settled, skipped,
  rejected, filled, expire_order, fill_order, settle_order,
}

module _ {F : Type 0} where
  -- After an update that sets a settled status, no order of that number is pending.
  no_claim :
      (id : String) (f : Order F → Order F) (os : List (Order F))
      → ((o : Order F) → is_pending (f o).status ≡ false)
      → any (λ (o : Order F). str_eq o.order_id id && is_pending o.status) (update_orders id f os)
        ≡ false
  unfolding any update_orders
  no_claim id f [] h = refl
  no_claim id f (o ∷ os) h = elim (Bool-cases (str_eq o.order_id id)) [
    | inl y ↦ rw y (ground (arith, h o, no_claim id f os h))
    | inr n ↦ rw n (ground (arith, n, no_claim id f os h))
  ]

  same_orders :
      (id : String) (a b : Tables F)
      → a.orders ≡ b.orders
      → claim_pending b id ≡ false
      → claim_pending a id ≡ false
  unfolding claim_pending
  same_orders id a b e h = rw e h

  set_status-no_claim :
      (money : Money F) (id : String) (st : OrderStatus) (db : Tables F)
      → is_pending st ≡ false
      → claim_pending (set_status money id st db) id ≡ false
  unfolding claim_pending
  set_status-no_claim money id st db h = no_claim id _ db.orders (λ o. h)

  set_filled-no_claim :
      (money : Money F) (id : String) (n : ℕ) (p : F) (db : Tables F)
      → claim_pending (set_filled money id n p db) id ≡ false
  unfolding claim_pending
  set_filled-no_claim money id n p db = no_claim id _ db.orders (λ o. refl)

  pub undo-orders :
      (money : Money F) (db : Tables F) (s : String) (qty : ℕ) (price : Option F) (removed : ℕ)
      → (undo_short_registration money db s qty price removed).orders ≡ db.orders
  unfolding undo_short_registration
  undo-orders money db s qty price removed = by_row (find_row s db.short_positions)
    where
      by_row :
          (r : Option (Holding F)) → (undo_row money db s qty price removed r).orders ≡ db.orders
      by_row none = refl
      by_row (some r) = elim (Bool-cases (leb r.qty removed)) [
        | inl y ↦ rw y refl
        | inr n ↦ rw n refl
      ]

  expire_order-no_claim :
      (money : Money F) (db : Tables F) (id s : String) (side : Side) (qty : ℕ) (limit_price : F)
      → claim_pending (expire_order money db id s side qty limit_price).0 id ≡ false
  unfolding expire_order
  expire_order-no_claim money db id s side qty limit_price =
      let gone = set_status-no_claim money id OrderStatus.expired db refl in
      elim (Bool-cases (claim_pending db id)) [
        | inr n ↦ rw n n
        | inl y ↦ rw y (elim (Bool-cases (is_short side)) [
          | inr n ↦ rw n gone
          | inl z ↦ rw z (
              same_orders id _ (set_status money id OrderStatus.expired db)
                (undo-orders money _ s qty _ qty) gone)
        ])
      ]

  fill_order-no_claim :
      (money : Money F) (db : Tables F) (id s : String) (side : Side) (qty : ℕ) (p : F)
      → claim_pending (fill_order money db id s side qty p).0 id ≡ false
  unfolding fill_order
  fill_order-no_claim money db id s side qty p = elim (Bool-cases (claim_pending db id)) [
    | inr n ↦ rw n n
    | inl y ↦ rw y (elim (Bool-cases (is_buy side && money.less db.balance (money.times p qty))) [
      | inl z ↦ rw z (set_status-no_claim money id OrderStatus.rejected db refl)
      | inr n ↦ rw n (elim (Bool-cases ((apply_fill money db id s side qty p).1 == 0)) [
        | inl z ↦ rw z (set_status-no_claim money id OrderStatus.rejected _ refl)
        | inr m ↦ rw m (set_filled-no_claim money id _ p _)
      ])
    ])
  ]

  pub settle_order-no_claim :
      (money : Money F) (db : Tables F) (id s : String) (side : Side) (qty : ℕ) (limit_price : F)
      (t : OrderType) (bar : Bar F)
      → claim_pending (settle_order money db id s side qty limit_price t bar).0 id ≡ false
  unfolding settle_order
  settle_order-no_claim money db id s side qty limit_price t bar =
      by_price (fill_price_of money side t limit_price bar)
    where
      settled_at : Option F → Tables F × Settled F
      settled_at r = elim r [
        | none ↦ expire_order money db id s side qty limit_price
        | some p ↦ fill_order money db id s side qty p
      ]

      by_price : (r : Option F) → claim_pending (settled_at r).0 id ≡ false
      by_price none = expire_order-no_claim money db id s side qty limit_price
      by_price (some p) = fill_order-no_claim money db id s side qty p

  unclaimed-skipped :
      (money : Money F) (db : Tables F) (id s : String) (side : Side) (qty : ℕ) (limit_price : F)
      (t : OrderType) (bar : Bar F)
      → claim_pending db id ≡ false
      → settle_order money db id s side qty limit_price t bar ≡ (db, skipped)
  unfolding settle_order expire_order fill_order
  unclaimed-skipped money db id s side qty limit_price t bar h =
      by_price (fill_price_of money side t limit_price bar)
    where
      by_price :
          (r : Option F)
          → elim r [
            | none ↦ expire_order money db id s side qty limit_price
            | some p ↦ fill_order money db id s side qty p
          ]
            ≡ (db, skipped)
      by_price none = rw (h, expire_order) refl
      by_price (some p) = rw (h, fill_order) refl

  buy-balance :
      (money : Money F) (db : Tables F) (id s : String) (qty : ℕ) (p : F)
      → (apply_fill money db id s Side.buy qty p).0.balance
        ≡ money.minus db.balance (money.times p qty)
  unfolding apply_fill
  buy-balance money db id s qty p = by_row (find_row s db.positions)
    where
      by_row :
          (r : Option (Holding F))
          → (fill_buy money db s qty p r).balance ≡ money.minus db.balance (money.times p qty)
      by_row none = refl
      by_row (some r) = refl

-- An order is settled once. Whatever a settlement did with it, a second one of the same number, with
-- any symbol, shares, price and bar, skips it and changes nothing.
pub settle_order-once :
    {F : Type 0} (money : Money F) (db : Tables F) (id s s' : String) (side side' : Side)
    (qty qty' : ℕ) (limit_price limit_price' : F) (t t' : OrderType) (bar bar' : Bar F)
    → settle_order money
        (settle_order money db id s side qty limit_price t bar).0
        id
        s'
        side'
        qty'
        limit_price'
        t'
        bar'
      ≡ ((settle_order money db id s side qty limit_price t bar).0, skipped)
settle_order-once money db id s s' side side' qty qty' limit_price limit_price' t t' bar bar' =
    unclaimed-skipped money _ id s' side' qty' limit_price' t' bar'
      (settle_order-no_claim money db id s side qty limit_price t bar)

-- Phase 2 of a purchase that is still pending, of at least one share. If the cost is above the cash,
-- the order is rejected and neither the cash nor a holding moves; else all the shares are bought, the
-- cash falls by the cost, and the holding grows by the shares.
pub fill_order-cash :
    {F : Type 0} (money : Money F) (db : Tables F) (id s : String) (qty : ℕ) (p : F)
    → claim_pending db id ≡ true
    → 1 ≤ qty
    → ((money.less db.balance (money.times p qty) ≡ true)
        × ((fill_order money db id s Side.buy qty p).1 ≡ rejected)
        × ((fill_order money db id s Side.buy qty p).0.balance ≡ db.balance)
        × ((fill_order money db id s Side.buy qty p).0.positions ≡ db.positions))
      ⊎ ((money.less db.balance (money.times p qty) ≡ false)
          × ((fill_order money db id s Side.buy qty p).1 ≡ filled qty p)
          × ((fill_order money db id s Side.buy qty p).0.balance
              ≡ money.minus db.balance (money.times p qty))
          × (held s (fill_order money db id s Side.buy qty p).0.positions
              ≡ held s db.positions + qty))
unfolding fill_order
fill_order-cash money db id s qty p c h =
    elim (Bool-cases (money.less db.balance (money.times p qty))) [
      | inl y ↦
          inl
            (y, rw (c, y, fill_order) refl, rw (c, y, fill_order) refl, rw (c, y, fill_order) refl)
      | inr n ↦
          let b = apply_fill_lem money db id s Side.buy qty p in
          let e : (apply_fill money db id s Side.buy qty p).1 ≡ qty = b.0 in
          let q : (qty == 0) ≡ false = ground (arith, h) in
          let m = buy-balance money db id s qty p in
          inr (
            n,
            rw (c, n, e, q, fill_order) refl,
            rw (c, n, e, q, fill_order) m,
            rw (c, n, e, q, fill_order) b.1,
          )
    ]
