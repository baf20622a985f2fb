-- ===== src/Paper/Tables.antt =====
-- The tables `paper_orders`, `paper_positions`, `paper_short_positions` and `paper_balance`, with the
-- statements that fill.py and paper_broker.py of python/src/trading/brokers/paper run on them. Money
-- is a parameter: the source computes with Python's floats. Columns that nothing here reads
-- (market, times of creation and update) are left out.
use stock_fixer.Prelude.{
  ℕ, Bool, true, false, ◌&&◌, Option, none, some, List, [], ◌∷◌, String, if◌then◌else◌, str_eq, any,
}

-- What the code does with its floats.
pub record Money (F : Type 0) : Type 0 where
  pub zero_money : F
  pub plus : F → F → F
  pub minus : F → F → F
  pub times : F → ℕ → F
  pub divided : F → ℕ → F
  pub less : F → F → Bool
  pub at_most : F → F → Bool

-- `OrderSide`
pub data Side : Type 0 where
  buy sell short short_cover : Side

abbrev pub is_buy : Side → Bool
is_buy Side.buy = true
is_buy _ = false

abbrev pub is_short : Side → Bool
is_short Side.short = true
is_short _ = false

-- `OrderType`
pub data OrderType : Type 0 where
  market limit : OrderType

pub data OrderStatus : Type 0 where
  pending filled expired rejected cancelled : OrderStatus

abbrev pub is_pending : OrderStatus → Bool
is_pending OrderStatus.pending = true
is_pending _ = false

pub record Order (F : Type 0) : Type 0 where
  pub order_id : String
  pub symbol : String
  pub side : Side
  pub qty : ℕ
  pub price : Option F
  pub order_type : OrderType
  pub status : OrderStatus
  pub fill_price : Option F
  pub realized_pnl : Option F

-- A row of either table of holdings.
pub record Holding (F : Type 0) : Type 0 where
  pub symbol : String
  pub qty : ℕ
  pub avg : F

pub record Tables (F : Type 0) : Type 0 where
  pub orders : List (Order F)
  pub positions : List (Holding F)
  pub short_positions : List (Holding F)
  pub balance : F

module _ {F : Type 0} where
  -- `SELECT ... WHERE symbol=%s`, `UPDATE ... WHERE symbol=%s`, `DELETE ... WHERE symbol=%s`
  unfoldable pub find_row : String → List (Holding F) → Option (Holding F)
  find_row sym [] = none
  find_row sym (r ∷ rs) = if str_eq r.symbol sym then some r else find_row sym rs

  unfoldable pub update_rows :
      String → (Holding F → Holding F) → List (Holding F) → List (Holding F)
  update_rows sym f [] = []
  update_rows sym f (r ∷ rs) = (if str_eq r.symbol sym then f r else r) ∷ update_rows sym f rs

  unfoldable pub delete_rows : String → List (Holding F) → List (Holding F)
  delete_rows sym [] = []
  delete_rows sym (r ∷ rs) =
      let rest = delete_rows sym rs in if str_eq r.symbol sym then rest else r ∷ rest

  pub find_order : String → List (Order F) → Option (Order F)
  find_order id [] = none
  find_order id (o ∷ os) = if str_eq o.order_id id then some o else find_order id os

  unfoldable pub update_orders : String → (Order F → Order F) → List (Order F) → List (Order F)
  update_orders id f [] = []
  update_orders id f (o ∷ os) = (if str_eq o.order_id id then f o else o) ∷ update_orders id f os

  -- `claim_pending`
  unfoldable pub claim_pending : Tables F → String → Bool
  claim_pending db id = any (λ (o : Order F). str_eq o.order_id id && is_pending o.status) db.orders

  -- The shares of a symbol in a table.
  abbrev pub shares_of : Option (Holding F) → ℕ
  shares_of none = 0
  shares_of (some r) = r.qty

  abbrev pub held : String → List (Holding F) → ℕ
  held sym rs = shares_of (find_row sym rs)
