-- ===== src/Paper/Broker.antt =====
-- Orders of python/src/trading/brokers/paper/paper_broker.py: how one is taken, cancelled and settled.
-- The share counts that stock splits change (split_adjust.py) come in as arguments. A settlement runs
-- in a transaction, which is the whole function here.
use stock_fixer.Prelude.{
  ℕ, ◌+◌, ◌-◌, Bool, true, false, not, ◌&&◌, Option, none, some, List, [], ◌∷◌, ◌++◌, String,
  if◌then◌else◌, leb, ◌==◌, str_eq, any, keep,
}
use stock_fixer.Paper.Tables.{
  Money, Side, is_buy, is_short, Order, OrderType, OrderStatus, is_pending, Holding, Tables,
  find_row, update_rows, delete_rows, find_order, update_orders, claim_pending,
}
use stock_fixer.Paper.Fill.{insert_row, apply_fill}
pub mod Settlement
pub mod Registration
pub mod Others

-- The open, the high and the low of today's bar.
pub record Bar (F : Type 0) : Type 0 where
  pub open_price : F
  pub high_price : F
  pub low_price : F

-- What becomes of a pending order.
pub data Settled (F : Type 0) : Type 0 where
  skipped expired rejected : Settled F
  filled : ℕ → F → Settled F

module _ {F : Type 0} (money : Money F) where
  abbrev pub set_status : String → OrderStatus → Tables F → Tables F
  set_status id s db = record db {
    orders = update_orders id (λ o. record o { status = s }) db.orders;
  }

  abbrev pub price_or_zero : Option F → F
  price_or_zero none = money.zero_money
  price_or_zero (some p) = p

  -- `_undo_short_registration`; `removed` is `int(round(qty * factor))`.
  abbrev pub undo_row : Tables F → String → ℕ → Option F → ℕ → Option (Holding F) → Tables F
  undo_row db sym qty price removed none = db
  undo_row db sym qty price removed (some r) =
      if leb r.qty removed
      then record db { short_positions = delete_rows sym db.short_positions }
      else let rest = r.qty - removed in
        let rest_avg =
          money.divided
            (money.minus (money.times r.avg r.qty) (money.times (price_or_zero price) qty)) rest in
        record db {
          short_positions =
              update_rows sym (λ x. record x { qty = rest; avg = rest_avg }) db.short_positions;
        }

  pub undo_short_registration : Tables F → String → ℕ → Option F → ℕ → Tables F
  undo_short_registration db sym qty price removed =
      undo_row db sym qty price removed (find_row sym db.short_positions)

  -- The registration of a new short in `send_order`; `added` is `int(round(qty * factor))`.
  abbrev pub register_row : Tables F → String → ℕ → F → ℕ → Option (Holding F) → Tables F
  register_row db sym qty price added none = record db {
    short_positions = insert_row money sym qty price db.short_positions;
  }
  register_row db sym qty price added (some r) =
      let new_qty = r.qty + added in
      let new_avg =
        money.divided (money.plus (money.times r.avg r.qty) (money.times price qty)) new_qty in
      record db {
        short_positions =
            update_rows sym (λ x. record x { qty = new_qty; avg = new_avg }) db.short_positions;
      }

  abbrev pub waiting_buy : Tables F → String → Bool
  waiting_buy db sym =
      any (λ (o : Order F). str_eq o.symbol sym && (is_buy o.side && is_pending o.status)) db.orders

  abbrev pub new_order : String → String → Side → ℕ → F → OrderType → Order F
  new_order id sym side qty price order_type = record {
    order_id = id;
    symbol = sym;
    side = side;
    qty = qty;
    price = some price;
    order_type = order_type;
    status = OrderStatus.pending;
    fill_price = none;
    realized_pnl = none;
  }

  -- `send_order`: the tables, and whether the order was taken. `sym` has no ".T".
  unfoldable pub send_order :
      Tables F → String → String → Side → ℕ → F → OrderType → ℕ → Tables F × Bool
  send_order db id sym side qty price order_type added =
      if is_buy side && waiting_buy db sym
      then (db, false)
      else (let db' = record db {
        orders = db.orders ++ new_order id sym side qty price order_type ∷ [];
      } in
          if is_short side
          then (register_row db' sym qty price added (find_row sym db'.short_positions), true)
          else (db', true))

  unfoldable pub find_pending : String → List (Order F) → Option (Order F)
  find_pending id [] = none
  find_pending id (o ∷ os) =
      if str_eq o.order_id id && is_pending o.status then some o else find_pending id os

  abbrev pub cancel_pending : String → List (Order F) → List (Order F)
  cancel_pending id os =
      update_orders id
        (λ o. if is_pending o.status then record o { status = OrderStatus.cancelled } else o) os

  -- `cancel_order`
  pub cancel_order : Tables F → String → ℕ → Tables F
  cancel_order db id removed =
      let db' = record db { orders = cancel_pending id db.orders } in
      elim (find_pending id db.orders) [
        | none ↦ db'
        | some o ↦
            if is_short o.side
            then undo_short_registration db' o.symbol o.qty o.price removed
            else db'
      ]

  -- `min(a, b)` and `max(a, b)` of Python.
  abbrev pub lower : F → F → F
  lower a b = if money.less b a then b else a

  abbrev pub higher : F → F → F
  higher a b = if money.less a b then b else a

  -- The price of the fill; `none` where a limit is not reached.
  pub fill_price_of : Side → OrderType → F → Bar F → Option F
  fill_price_of side OrderType.market limit_price bar = some bar.open_price
  fill_price_of Side.buy OrderType.limit limit_price bar =
      if money.at_most bar.low_price limit_price
      then some (lower limit_price bar.open_price)
      else none
  fill_price_of Side.sell OrderType.limit limit_price bar =
      if money.at_most limit_price bar.high_price
      then some (higher limit_price bar.open_price)
      else none
  fill_price_of Side.short OrderType.limit limit_price bar =
      if money.at_most limit_price bar.high_price
      then some (higher limit_price bar.open_price)
      else none
  fill_price_of Side.short_cover OrderType.limit limit_price bar =
      if money.at_most bar.low_price limit_price
      then some (lower limit_price bar.open_price)
      else none

  abbrev pub set_filled : String → ℕ → F → Tables F → Tables F
  set_filled id qty p db = record db {
    orders =
        update_orders id
          (λ o. record o { status = OrderStatus.filled; qty = qty; fill_price = some p }) db.orders;
  }

  -- The limit was not reached.
  pub expire_order : Tables F → String → String → Side → ℕ → F → Tables F × Settled F
  expire_order db id sym side qty limit_price =
      if not (claim_pending db id)
      then (db, skipped)
      else let db' = set_status id OrderStatus.expired db in
        (
          if is_short side then undo_short_registration db' sym qty (some limit_price) qty else db',
          expired,
        )

  -- Phase 2: the check of the cash, the bookings and the status.
  pub fill_order : Tables F → String → String → Side → ℕ → F → Tables F × Settled F
  fill_order db id sym side qty p =
      if not (claim_pending db id)
      then (db, skipped)
      else if is_buy side && money.less db.balance (money.times p qty)
      then (set_status id OrderStatus.rejected db, rejected)
      else let (db', n) = apply_fill money db id sym side qty p in
        if n == 0
        then (set_status id OrderStatus.rejected db', rejected)
        else (set_filled id n p db', filled n p)

  -- From the price on, for one order whose guards have passed.
  pub settle_order :
      Tables F → String → String → Side → ℕ → F → OrderType → Bar F → Tables F × Settled F
  settle_order db id sym side qty limit_price order_type bar =
      elim (fill_price_of side order_type limit_price bar) [
        | none ↦ expire_order db id sym side qty limit_price
        | some p ↦ fill_order db id sym side qty p
      ]
