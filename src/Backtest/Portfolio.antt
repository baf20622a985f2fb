-- ===== src/Backtest/Portfolio.antt =====
-- `Portfolio` of python/src/backtest/longterm/portfolio.py and `TradeLedger` of ledger.py. Amounts of
-- money are integers; prices, fractions and numbers of shares are floats of a type `Q`, and the
-- proceeds of a sale (python/src/backtest/execution) are an argument. The days, the multiples and the
-- rate of a closed trade are left out, which are only reported, and `events_by_date` of a position,
-- which the loop over the days reads.
pub mod Balance
use stock_fixer.Prelude.{
  ℕ, Bool, true, false, Option, none, some, List, [], ◌∷◌, ◌++◌, String, if◌then◌else◌, str_eq,
}
use stock_fixer.Screening.HoldEngine.{PositionEvent}
use stock_fixer.Prelude.Int.{ℤ, pos, ◌+ℤ◌, ◌-ℤ◌}

-- What the code does with its quantities: `shares * fraction`, a difference, and `x <= 0`.
pub record Quantities (Q : Type 0) : Type 0 where
  pub one : Q
  pub zero_quantity : Q
  pub of_shares : ℕ → Q
  pub shares_times : ℕ → Q → Q
  pub minus : Q → Q → Q
  pub not_positive : Q → Bool

-- `buy`, or the name of a sale.
pub data TradeAction : Type 0 where
  buy sell scale_out_sale : TradeAction

-- `TradeRecord`
pub record TradeRecord (Q : Type 0) : Type 0 where
  pub date : String
  pub action : TradeAction
  pub symbol : String
  pub price : Q
  pub qty : Q
  pub amount : ℤ
  pub cash : ℤ

pub record OpenPosition (Q : Type 0) : Type 0 where
  pub symbol : String
  pub entry_date : String
  pub entry_price : Q
  pub shares : ℕ
  pub current_hf : Q
  pub cost_basis : ℤ
  pub realized : ℤ

pub record ClosedTrade (Q : Type 0) : Type 0 where
  pub symbol : String
  pub entry_date : String
  pub exit_date : String
  pub entry_price : Q
  pub exit_price : Q
  pub exit_reason : String
  pub realized_pnl : ℤ

-- `positions` is a dictionary by symbol, and `records` is the ledger.
pub record Portfolio (Q : Type 0) : Type 0 where
  pub cash : ℤ
  pub positions : List (String × OpenPosition Q)
  pub records : List (TradeRecord Q)
  pub closed : List (ClosedTrade Q)

abbrev pub is_buy : TradeAction → Bool
is_buy TradeAction.buy = true
is_buy _ = false

module _ {Q : Type 0} where
  abbrev pub new_portfolio : ℤ → Portfolio Q
  new_portfolio cash = record { cash = cash; positions = []; records = []; closed = [] }

  -- `positions[symbol] = pos`, `positions[symbol]` and `positions.pop(symbol)`
  unfoldable pub put_position :
      String → OpenPosition Q → List (String × OpenPosition Q) → List (String × OpenPosition Q)
  put_position symbol new [] = (symbol, new) ∷ []
  put_position symbol new ((s, p) ∷ ps) =
      let rest = put_position symbol new ps in
      if str_eq s symbol then (s, new) ∷ ps else (s, p) ∷ rest

  unfoldable pub position_of : String → List (String × OpenPosition Q) → Option (OpenPosition Q)
  position_of symbol [] = none
  position_of symbol ((s, p) ∷ ps) = if str_eq s symbol then some p else position_of symbol ps

  unfoldable pub pop_position :
      String → List (String × OpenPosition Q) → List (String × OpenPosition Q)
  pop_position symbol [] = []
  pop_position symbol ((s, p) ∷ ps) =
      let rest = pop_position symbol ps in if str_eq s symbol then ps else (s, p) ∷ rest

  -- `net_cash_flow`: the sums over the purchases and over the sales.
  unfoldable pub paid : List (TradeRecord Q) → ℤ
  paid [] = pos 0
  paid (r ∷ rs) = let rest = paid rs in if is_buy r.action then r.amount +ℤ rest else rest

  unfoldable pub received : List (TradeRecord Q) → ℤ
  received [] = pos 0
  received (r ∷ rs) = let rest = received rs in if is_buy r.action then rest else r.amount +ℤ rest

  unfoldable pub net_cash_flow : List (TradeRecord Q) → ℤ
  net_cash_flow rs = paid rs -ℤ received rs

  -- `enter`, with `record_buy`; a position of the same symbol is replaced.
  unfoldable pub enter : Quantities Q → OpenPosition Q → Portfolio Q → Portfolio Q
  enter q p pf =
      let cash = pf.cash -ℤ p.cost_basis in
      record pf {
        cash = cash;
        positions = put_position p.symbol p pf.positions;
        records =
            pf.records
            ++ record {
              date = p.entry_date;
              action = TradeAction.buy;
              symbol = p.symbol;
              price = p.entry_price;
              qty = q.of_shares p.shares;
              amount = p.cost_basis;
              cash = cash;
            }
              ∷ [];
      }

  -- `record_sell`
  abbrev pub record_sell :
      TradeAction
      → String
      → PositionEvent Q
      → Q
      → ℤ
      → ℤ
      → List (TradeRecord Q)
      → List (TradeRecord Q)
  record_sell action symbol ev sold proceeds cash rs =
      rs
      ++ record {
        date = ev.date;
        action = action;
        symbol = symbol;
        price = ev.price;
        qty = sold;
        amount = proceeds;
        cash = cash;
      }
        ∷ []

  module _ (q : Quantities Q) (sell_proceeds : Q → Q → Q → ℤ) where
    -- The sale of `scale_out`, which follows the guard.
    abbrev pub sale_of : String → PositionEvent Q → Q → OpenPosition Q → Portfolio Q → Portfolio Q
    sale_of symbol ev volume p pf =
        let sold = q.shares_times p.shares (q.minus p.current_hf ev.held_fraction) in
        let proceeds = sell_proceeds sold ev.price volume in
        let cash = pf.cash +ℤ proceeds in
        record pf {
          cash = cash;
          positions =
              put_position symbol
                (record p { realized = p.realized +ℤ proceeds; current_hf = ev.held_fraction })
                pf.positions;
          records = record_sell TradeAction.scale_out_sale symbol ev sold proceeds cash pf.records;
        }

    abbrev pub scale_out_of :
        String → PositionEvent Q → Q → OpenPosition Q → Portfolio Q → Portfolio Q
    scale_out_of symbol ev volume p pf =
        if q.not_positive (q.minus p.current_hf ev.held_fraction)
        then pf
        else sale_of symbol ev volume p pf

    -- `none` where Python raises `KeyError`.
    unfoldable pub scale_out : String → PositionEvent Q → Q → Portfolio Q → Option (Portfolio Q)
    scale_out symbol ev volume pf = elim (position_of symbol pf.positions) [
      | none ↦ none
      | some p ↦ some (scale_out_of symbol ev volume p pf)
    ]

    abbrev pub closed_trade : String → PositionEvent Q → OpenPosition Q → ℤ → ClosedTrade Q
    closed_trade symbol ev p proceeds = record {
      symbol = symbol;
      entry_date = p.entry_date;
      exit_date = ev.date;
      entry_price = p.entry_price;
      exit_price = ev.price;
      exit_reason = ev.reason;
      realized_pnl = (p.realized +ℤ proceeds) -ℤ p.cost_basis;
    }

    abbrev pub close_of : String → PositionEvent Q → Q → OpenPosition Q → Portfolio Q → Portfolio Q
    close_of symbol ev volume p pf =
        let sold = q.shares_times p.shares p.current_hf in
        let proceeds = sell_proceeds sold ev.price volume in
        let cash = pf.cash +ℤ proceeds in
        record {
          cash = cash;
          positions = pop_position symbol pf.positions;
          records = record_sell TradeAction.sell symbol ev sold proceeds cash pf.records;
          closed = pf.closed ++ closed_trade symbol ev p proceeds ∷ [];
        }

    unfoldable pub close : String → PositionEvent Q → Q → Portfolio Q → Option (Portfolio Q)
    close symbol ev volume pf = elim (position_of symbol pf.positions) [
      | none ↦ none
      | some p ↦ some (close_of symbol ev volume p pf)
    ]
