-- ===== src/Paper/Fill.antt =====
-- `apply_fill` of python/src/trading/brokers/paper/fill.py: the bookings of a fill, and the shares
-- that were filled. Shares are natural numbers.
pub mod Shares
use stock_fixer.Prelude.{
  ℕ, ◌+◌, ◌-◌, min, Bool, true, false, Option, none, some, List, [], ◌∷◌, ◌++◌, String,
  if◌then◌else◌, leb,
}
use stock_fixer.Paper.Tables.{
  Money, Side, Order, Holding, Tables, find_row, update_rows, delete_rows, find_order,
  update_orders,
}

module _ {F : Type 0} (money : Money F) where
  -- `INSERT INTO`, `UPDATE ... SET qty`, and the `UPDATE` of the realized profit.
  abbrev pub insert_row : String → ℕ → F → List (Holding F) → List (Holding F)
  insert_row sym qty avg rs = rs ++ record { symbol = sym; qty = qty; avg = avg } ∷ []

  -- `DELETE` at zero, `UPDATE` otherwise.
  pub reduce_rows : String → ℕ → List (Holding F) → List (Holding F)
  reduce_rows sym new_qty rs =
      if leb new_qty 0
      then delete_rows sym rs
      else update_rows sym (λ r. record r { qty = new_qty }) rs

  abbrev pub set_pnl : String → F → List (Order F) → List (Order F)
  set_pnl id pnl os = update_orders id (λ o. record o { realized_pnl = some pnl }) os

  abbrev pub fill_buy : Tables F → String → ℕ → F → Option (Holding F) → Tables F
  fill_buy db sym qty p none = record db {
    balance = money.minus db.balance (money.times p qty);
    positions = insert_row sym qty p db.positions;
  }
  fill_buy db sym qty p (some r) =
      let new_qty = r.qty + qty in
      let new_avg =
        money.divided (money.plus (money.times r.avg r.qty) (money.times p qty)) new_qty in
      record db {
        balance = money.minus db.balance (money.times p qty);
        positions = update_rows sym (λ x. record x { qty = new_qty; avg = new_avg }) db.positions;
      }

  abbrev pub fill_sell : Tables F → String → String → ℕ → F → Option (Holding F) → Tables F × ℕ
  fill_sell db id sym qty p none = (db, 0)
  fill_sell db id sym qty p (some r) =
      let sell_qty = min qty r.qty in
      (
        record db {
          balance = money.plus db.balance (money.times p sell_qty);
          positions = reduce_rows sym (r.qty - sell_qty) db.positions;
          orders = set_pnl id (money.times (money.minus p r.avg) sell_qty) db.orders;
        },
        sell_qty,
      )

  -- The part of the average that the order itself put in when it was registered.
  abbrev pub provisional : Option (Order F) → ℕ → F → F
  provisional none qty p = money.times p qty
  provisional (some o) qty p = elim o.price [
    | none ↦ money.times p qty
    | some price ↦ money.times price o.qty
  ]

  abbrev pub fill_short : Tables F → String → String → ℕ → F → Option (Holding F) → Tables F
  fill_short db id sym qty p none = record db {
    short_positions = insert_row sym qty p db.short_positions;
  }
  fill_short db id sym qty p (some r) =
      let amount = provisional (find_order id db.orders) qty p in
      let new_avg =
        money.plus r.avg (money.divided (money.minus (money.times p qty) amount) r.qty) in
      record db {
        short_positions = update_rows sym (λ x. record x { avg = new_avg }) db.short_positions;
      }

  abbrev pub fill_cover : Tables F → String → String → ℕ → F → Option (Holding F) → Tables F × ℕ
  fill_cover db id sym qty p none = (db, 0)
  fill_cover db id sym qty p (some r) =
      let cover_qty = min qty r.qty in
      let pnl = money.times (money.minus r.avg p) cover_qty in
      (
        record db {
          balance = money.plus db.balance pnl;
          short_positions = reduce_rows sym (r.qty - cover_qty) db.short_positions;
          orders = set_pnl id pnl db.orders;
        },
        cover_qty,
      )

  unfoldable pub apply_fill : Tables F → String → String → Side → ℕ → F → Tables F × ℕ
  apply_fill db id sym Side.buy qty p = (fill_buy db sym qty p (find_row sym db.positions), qty)
  apply_fill db id sym Side.sell qty p = fill_sell db id sym qty p (find_row sym db.positions)
  apply_fill db id sym Side.short qty p =
      (fill_short db id sym qty p (find_row sym db.short_positions), qty)
  apply_fill db id sym Side.short_cover qty p =
      fill_cover db id sym qty p (find_row sym db.short_positions)
