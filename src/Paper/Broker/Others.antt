-- ===== src/Paper/Broker/Others.antt =====
-- A settlement of python/src/trading/brokers/paper/paper_broker.py leaves the other orders waiting.
use stock_fixer.Prelude.{
  ℕ, ◌≡◌, refl, ap, ◌∙◌, inl, inr, Bool, false, ◌&&◌, Option, none, some, List, [], ◌∷◌, String,
  str_eq, eq_iff, any, Bool-cases, ◌==◌,
}
use stock_fixer.Paper.Tables.{
  Money, Side, is_buy, is_short, Holding, Order, OrderType, OrderStatus, is_pending, Tables,
  update_orders, claim_pending, find_row,
}
use stock_fixer.Paper.Fill.{apply_fill, fill_buy, fill_sell, fill_short, fill_cover}
use stock_fixer.Paper.Broker.{
  set_status, Bar, fill_price_of, expire_order, fill_order, settle_order, Settled,
}
use stock_fixer.Paper.Broker.Settlement.{undo-orders}

module _ {F : Type 0} where
  abbrev waits : String → Order F → Bool
  waits id o = str_eq o.order_id id && is_pending o.status

  -- An update of the orders of one number leaves those of another.
  other_waits :
      (id other : String) (f : Order F → Order F) (os : List (Order F))
      → ((o : Order F) → (f o).order_id ≡ o.order_id)
      → str_eq id other ≡ false
      → any (waits other) (update_orders id f os) ≡ any (waits other) os
  unfolding any update_orders
  other_waits id other f [] h n = refl
  other_waits id other f (o ∷ os) h n =
      let rest = other_waits id other f os h n in
      elim (Bool-cases (str_eq o.order_id id)) [
        | inr m ↦ rw m (rw rest refl)
        | inl y ↦
            let same : o.order_id ≡ id = (eq_iff o.order_id id).0 y in
            rw y (rw (rest, h o, same, n) refl)
      ]

  module _ (money : Money F) (id other : String) (n : str_eq id other ≡ false) where
    abbrev Same : List (Order F) → List (Order F) → Type 0
    Same new old = any (waits other) new ≡ any (waits other) old

    set_status-other :
        (st : OrderStatus) (db : Tables F) → Same (set_status money id st db).orders db.orders
    set_status-other st db =
        other_waits id other (λ o. record o { status = st }) db.orders (λ o. refl) n

    apply_fill-other :
        (db : Tables F) (s : String) (side : Side) (qty : ℕ) (p : F)
        → Same (apply_fill money db id s side qty p).0.orders db.orders
    unfolding apply_fill
    apply_fill-other db s Side.buy qty p = by_row (find_row s db.positions)
      where
        by_row : (r : Option (Holding F)) → Same (fill_buy money db s qty p r).orders db.orders
        by_row none = refl
        by_row (some r) = refl
    apply_fill-other db s Side.sell qty p = by_row (find_row s db.positions)
      where
        by_row :
            (r : Option (Holding F)) → Same (fill_sell money db id s qty p r).0.orders db.orders
        by_row none = refl
        by_row (some r) = other_waits id other _ db.orders (λ o. refl) n
    apply_fill-other db s Side.short qty p = by_row (find_row s db.short_positions)
      where
        by_row : (r : Option (Holding F)) → Same (fill_short money db id s qty p r).orders db.orders
        by_row none = refl
        by_row (some r) = refl
    apply_fill-other db s Side.short_cover qty p = by_row (find_row s db.short_positions)
      where
        by_row :
            (r : Option (Holding F)) → Same (fill_cover money db id s qty p r).0.orders db.orders
        by_row none = refl
        by_row (some r) = other_waits id other _ db.orders (λ o. refl) n

    expire_order-other :
        (db : Tables F) (s : String) (side : Side) (qty : ℕ) (limit_price : F)
        → Same (expire_order money db id s side qty limit_price).0.orders db.orders
    unfolding expire_order
    expire_order-other db s side qty limit_price =
        let marked = set_status-other OrderStatus.expired db in
        elim (Bool-cases (claim_pending db id)) [
          | inr m ↦ rw m refl
          | inl y ↦ rw y (elim (Bool-cases (is_short side)) [
            | inr m ↦ rw m marked
            | inl z ↦ rw z (ap (any (waits other)) (undo-orders money _ s qty _ qty) ∙ marked)
          ])
        ]

    fill_order-other :
        (db : Tables F) (s : String) (side : Side) (qty : ℕ) (p : F)
        → Same (fill_order money db id s side qty p).0.orders db.orders
    unfolding fill_order
    fill_order-other db s side qty p =
        let booked = apply_fill-other db s side qty p in
        let db' = (apply_fill money db id s side qty p).0 in
        elim (Bool-cases (claim_pending db id)) [
          | inr m ↦ rw m refl
          | inl y ↦
              rw y (elim (Bool-cases (is_buy side && money.less db.balance (money.times p qty))) [
                | inl z ↦ rw z (set_status-other OrderStatus.rejected db)
                | inr m ↦ rw m (elim (Bool-cases ((apply_fill money db id s side qty p).1 == 0)) [
                  | inl z ↦ rw z (set_status-other OrderStatus.rejected db' ∙ booked)
                  | inr k ↦ rw k (other_waits id other _ db'.orders (λ o. refl) n ∙ booked)
                ])
              ])
        ]

    pub settle_order-other :
        (db : Tables F) (s : String) (side : Side) (qty : ℕ) (limit_price : F) (t : OrderType)
        (bar : Bar F)
        → claim_pending (settle_order money db id s side qty limit_price t bar).0 other
          ≡ claim_pending db other
    unfolding settle_order claim_pending
    settle_order-other db s side qty limit_price t bar =
        by_price (fill_price_of money side t limit_price bar)
      where
        settled_at : Option F → Tables F × Settled F
        settled_at r = elim r [
          | none ↦ expire_order money db id s side qty limit_price
          | some p ↦ fill_order money db id s side qty p
        ]

        by_price : (r : Option F) → Same (settled_at r).0.orders db.orders
        by_price none = expire_order-other db s side qty limit_price
        by_price (some p) = fill_order-other db s side qty p
