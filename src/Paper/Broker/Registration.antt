-- ===== src/Paper/Broker/Registration.antt =====
-- Taking and cancelling an order of python/src/trading/brokers/paper/paper_broker.py.
use stock_fixer.Prelude.{
  ℕ, ◌≡◌, refl, inl, inr, Bool, true, false, ◌&&◌, none, some, List, [], ◌∷◌, ◌++◌, String, arith,
  str_eq, eq_iff, Bool-cases, any, any-append, ap, leb,
}
use stock_fixer.Paper.Tables.{
  Money, Side, Order, OrderType, is_pending, Tables, find_row, delete_rows, Holding,
}
use stock_fixer.Paper.Fill.{insert_row}
use stock_fixer.Paper.Fill.Shares.{held-append}
use stock_fixer.Paper.Broker.{
  waiting_buy, new_order, send_order, find_pending, cancel_pending, cancel_order,
  undo_short_registration,
}

module _ {F : Type 0} (money : Money F) where
  any-last :
      (p : Order F → Bool) (os : List (Order F)) (o : Order F)
      → p o ≡ true
      → any p (os ++ o ∷ []) ≡ true
  unfolding any
  any-last p os o h = rw (any-append p os (o ∷ [])) (ground (arith, h))

  new-waits :
      (db : Tables F) (id s : String) (qty : ℕ) (price : F) (t : OrderType)
      → waiting_buy money
          (record db { orders = db.orders ++ new_order money id s Side.buy qty price t ∷ [] })
          s
        ≡ true
  new-waits db id s qty price t =
      any-last _ db.orders (new_order money id s Side.buy qty price t)
        (let h = (eq_iff s s).1 refl in rw h refl)

  delete-append :
      (s : String) (q : ℕ) (a : F) (rs : List (Holding F))
      → find_row s rs ≡ none
      → delete_rows s (insert_row money s q a rs) ≡ rs
  unfolding find_row delete_rows
  delete-append s q a [] e = let h = (eq_iff s s).1 refl in rw h refl
  delete-append s q a (x ∷ rs) e = elim (Bool-cases (str_eq x.symbol s)) [
    | inl y ↦ cc (rw y at e)
    | inr n ↦ rw n (ap (λ ys. x ∷ ys) (delete-append s q a rs (rw n at e)))
  ]

  find_pending-append :
      (id : String) (os : List (Order F)) (o : Order F)
      → str_eq o.order_id id && is_pending o.status ≡ true
      → find_pending money id os ≡ none
      → find_pending money id (os ++ o ∷ []) ≡ some o
  unfolding find_pending
  find_pending-append id [] o h e = rw h refl
  find_pending-append id (x ∷ os) o h e =
      elim (Bool-cases (str_eq x.order_id id && is_pending x.status)) [
        | inl y ↦ cc (rw y at e)
        | inr n ↦ rw n (find_pending-append id os o h (rw n at e))
      ]

  undo-registered :
      (db : Tables F) (s : String) (qty : ℕ) (price : F)
      → find_row s db.short_positions ≡ some (record { symbol = s; qty = qty; avg = price })
      → undo_short_registration money db s qty (some price) qty
        ≡ record db { short_positions = delete_rows s db.short_positions }
  unfolding undo_short_registration
  undo-registered db s qty price e =
      let l : leb qty qty ≡ true = ground arith in rw (e, l, undo_short_registration) refl

  cancel-registered :
      (db : Tables F) (id s : String) (qty : ℕ) (price : F) (t : OrderType)
      → find_pending money id db.orders ≡ some (new_order money id s Side.short qty price t)
      → find_row s db.short_positions ≡ some (record { symbol = s; qty = qty; avg = price })
      → cancel_order money db id qty ≡ record db {
        orders = cancel_pending money id db.orders;
        short_positions = delete_rows s db.short_positions;
      }
  unfolding cancel_order
  cancel-registered db id s qty price t e r =
      rw (e, cancel_order)
        (undo-registered (record db { orders = cancel_pending money id db.orders }) s qty price r)

-- One purchase of a symbol waits at a time. Once a purchase has been taken, the next one of the same
-- symbol is refused and changes nothing, whatever its number, shares and price.
pub send_order-one_buy :
    {F : Type 0} (money : Money F) (db : Tables F) (id id' s : String) (qty qty' : ℕ)
    (price price' : F) (t t' : OrderType) (added added' : ℕ)
    → (send_order money db id s Side.buy qty price t added).1 ≡ true
    → send_order money
        (send_order money db id s Side.buy qty price t added).0
        id'
        s
        Side.buy
        qty'
        price'
        t'
        added'
      ≡ ((send_order money db id s Side.buy qty price t added).0, false)
unfolding send_order
send_order-one_buy money db id id' s qty qty' price price' t t' added added' h =
    elim (Bool-cases (waiting_buy money db s)) [
      | inl y ↦ cc (rw y at h)
      | inr n ↦ let w = new-waits money db id s qty price t in rw (n, w) refl
    ]

-- Cancelling takes a new short back: where the symbol had no short position and the number no
-- pending order, `cancel_order` after `send_order`, with no split in between, leaves the short
-- positions, the positions and the balance as they were.
pub cancel_order-send_order :
    {F : Type 0} (money : Money F) (db : Tables F) (id s : String) (qty : ℕ) (price : F)
    (t : OrderType)
    → find_row s db.short_positions ≡ none
    → find_pending money id db.orders ≡ none
    → ((cancel_order money
          (send_order money db id s Side.short qty price t qty).0
          id
          qty).short_positions
        ≡ db.short_positions)
      × ((cancel_order money
            (send_order money db id s Side.short qty price t qty).0
            id
            qty).positions
          ≡ db.positions)
      × ((cancel_order money (send_order money db id s Side.short qty price t qty).0 id qty).balance
          ≡ db.balance)
unfolding send_order
cancel_order-send_order money db id s qty price t no_row no_order =
    let o = new_order money id s Side.short qty price t in
    let self : str_eq id id ≡ true = (eq_iff id id).1 refl in
    let f : find_pending money id (db.orders ++ o ∷ []) ≡ some o =
      find_pending-append money id db.orders o (rw self refl) no_order in
    let c =
      cancel-registered money
        (record db {
          orders = db.orders ++ o ∷ [];
          short_positions = insert_row money s qty price db.short_positions;
        })
        id s qty price t f (held-append s qty price db.short_positions no_row) in
    let d = delete-append money s qty price db.short_positions no_row in
    rw (no_row, c) (d, refl, refl)
