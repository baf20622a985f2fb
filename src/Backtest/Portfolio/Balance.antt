-- ===== src/Backtest/Portfolio/Balance.antt =====
-- The balance of the portfolio of python/src/backtest/longterm/portfolio.py: what the ledger says of
-- the cash.
use stock_fixer.Prelude.{
  ◌≡◌, refl, ap, arith, true, false, none, some, List, [], ◌∷◌, ◌++◌, String, str_eq, Option-cases,
  Bool-cases, inl, inr,
}
use stock_fixer.Prelude.Int.{ℤ, pos, ◌+ℤ◌, ◌-ℤ◌, int_laws, parts_of}
use stock_fixer.Screening.HoldEngine.{PositionEvent}
use stock_fixer.Backtest.Portfolio.{
  Quantities, ClosedTrade, TradeRecord, OpenPosition, Portfolio, is_buy, new_portfolio, position_of,
  put_position, pop_position, paid, received, net_cash_flow, enter, scale_out_of, sale_of,
  scale_out, close_of, close, closed_trade,
}

module _ {Q : Type 0} where
  paid-buy :
      (rs : List (TradeRecord Q)) (r : TradeRecord Q)
      → is_buy r.action ≡ true
      → (paid (rs ++ r ∷ []) ≡ paid rs +ℤ r.amount) × (received (rs ++ r ∷ []) ≡ received rs)
  unfolding paid received
  paid-buy [] r y = rw y (omega int_laws, refl)
  paid-buy (x ∷ rs) r y =
      let ih = paid-buy rs r y in
      elim (Bool-cases (is_buy x.action)) [
        | inl b ↦
            rw b (omega (int_laws, parts_of (paid (rs ++ r ∷ [])) (paid rs +ℤ r.amount) ih.0), ih.1)
        | inr b ↦ rw b (ih.0, ap (λ z. x.amount +ℤ z) ih.1)
      ]

  paid-sale :
      (rs : List (TradeRecord Q)) (r : TradeRecord Q)
      → is_buy r.action ≡ false
      → (paid (rs ++ r ∷ []) ≡ paid rs) × (received (rs ++ r ∷ []) ≡ received rs +ℤ r.amount)
  unfolding paid received
  paid-sale [] r n = rw n (refl, omega int_laws)
  paid-sale (x ∷ rs) r n =
      let ih = paid-sale rs r n in
      elim (Bool-cases (is_buy x.action)) [
        | inl b ↦ rw b (ap (λ z. x.amount +ℤ z) ih.0, ih.1)
        | inr b ↦ rw b (
          ih.0,
          omega (int_laws, parts_of (received (rs ++ r ∷ [])) (received rs +ℤ r.amount) ih.1),
        )
      ]

  -- What the open positions have brought in, less what they have cost.
  pub open_result : List (String × OpenPosition Q) → ℤ
  open_result [] = pos 0
  open_result ((s, p) ∷ ps) = (p.realized -ℤ p.cost_basis) +ℤ open_result ps

  pub closed_result : List (ClosedTrade Q) → ℤ
  closed_result [] = pos 0
  closed_result (t ∷ ts) = t.realized_pnl +ℤ closed_result ts

  closed_result-append :
      (ts : List (ClosedTrade Q)) (t : ClosedTrade Q)
      → closed_result (ts ++ t ∷ []) ≡ closed_result ts +ℤ t.realized_pnl
  unfolding closed_result
  closed_result-append [] t = omega int_laws
  closed_result-append (x ∷ ts) t = omega (
    int_laws,
    parts_of (closed_result (ts ++ t ∷ [])) (closed_result ts +ℤ t.realized_pnl)
        (closed_result-append ts t),
  )

  put_position-new :
      (symbol : String) (p : OpenPosition Q) (ps : List (String × OpenPosition Q))
      → position_of symbol ps ≡ none
      → open_result (put_position symbol p ps) ≡ open_result ps +ℤ (p.realized -ℤ p.cost_basis)
  unfolding open_result put_position position_of
  put_position-new symbol p [] h = omega int_laws
  put_position-new symbol p ((s, x) ∷ ps) h = elim (Bool-cases (str_eq s symbol)) [
    | inl y ↦ ground (arith, y, h)
    | inr n ↦
        let before = open_result ps +ℤ (p.realized -ℤ p.cost_basis) in
        rw n (
          omega (
            int_laws,
            parts_of (open_result (put_position symbol p ps)) before
                (put_position-new symbol p ps (ground (arith, n, h))),
          ))
  ]

  -- Replacing and taking out the position that is found.
  put_position-old :
      (symbol : String) (old new : OpenPosition Q) (ps : List (String × OpenPosition Q))
      → position_of symbol ps ≡ some old
      → open_result (put_position symbol new ps) +ℤ (old.realized -ℤ old.cost_basis)
        ≡ open_result ps +ℤ (new.realized -ℤ new.cost_basis)
  unfolding open_result put_position position_of
  put_position-old symbol old new [] h = cc
  put_position-old symbol old new ((s, x) ∷ ps) h = elim (Bool-cases (str_eq s symbol)) [
    | inl y ↦ let e : x ≡ old = ground (arith, y, h) in rw y (rw (← e) (omega int_laws))
    | inr n ↦
        let ih = put_position-old symbol old new ps (ground (arith, n, h)) in
        rw n (
          omega (
            int_laws,
            parts_of (open_result (put_position symbol new ps) +ℤ (old.realized -ℤ old.cost_basis))
                (open_result ps +ℤ (new.realized -ℤ new.cost_basis)) ih,
          ))
  ]

  pop_position-old :
      (symbol : String) (old : OpenPosition Q) (ps : List (String × OpenPosition Q))
      → position_of symbol ps ≡ some old
      → open_result (pop_position symbol ps) +ℤ (old.realized -ℤ old.cost_basis) ≡ open_result ps
  unfolding open_result pop_position position_of
  pop_position-old symbol old [] h = cc
  pop_position-old symbol old ((s, x) ∷ ps) h = elim (Bool-cases (str_eq s symbol)) [
    | inl y ↦ let e : x ≡ old = ground (arith, y, h) in rw y (rw (← e) (omega int_laws))
    | inr n ↦
        let ih = pop_position-old symbol old ps (ground (arith, n, h)) in
        rw n (
          omega (
            int_laws,
            parts_of (open_result (pop_position symbol ps) +ℤ (old.realized -ℤ old.cost_basis))
                (open_result ps) ih,
          ))
  ]

  -- What a portfolio has earned: its closed trades, and its open positions as if they were worth
  -- nothing.
  abbrev pub result_of : Portfolio Q → ℤ
  result_of pf = closed_result pf.closed +ℤ open_result pf.positions

  module _ (q : Quantities Q) (sell_proceeds : Q → Q → Q → ℤ) (start : ℤ) where
    -- The portfolios that a backtest comes to: a purchase is a new position of a symbol that is not
    -- held.
    pub data Reached : Portfolio Q → Type 0 where
      begun : Reached (new_portfolio start)
      entered :
          {pf : Portfolio Q} (p : OpenPosition Q)
          → position_of p.symbol pf.positions ≡ none
          → p.realized ≡ pos 0
          → Reached pf
          → Reached (enter q p pf)
      scaled :
          {pf : Portfolio Q} {pf' : Portfolio Q} (symbol : String) (ev : PositionEvent Q)
          (volume : Q)
          → scale_out q sell_proceeds symbol ev volume pf ≡ some pf'
          → Reached pf
          → Reached pf'
      closed :
          {pf : Portfolio Q} {pf' : Portfolio Q} (symbol : String) (ev : PositionEvent Q)
          (volume : Q)
          → close q sell_proceeds symbol ev volume pf ≡ some pf'
          → Reached pf
          → Reached pf'

    abbrev pub Accounts : Portfolio Q → Type 0
    Accounts pf = (pf.cash +ℤ net_cash_flow pf.records ≡ start) × (result_of pf ≡ pf.cash -ℤ start)

    new-Accounts : Accounts (new_portfolio start)
    unfolding net_cash_flow paid received open_result closed_result
    new-Accounts = (omega int_laws, omega int_laws)

    -- The two equations after a purchase and after a sale, from what changes.
    bought :
        (pf pf' : Portfolio Q) (cost : ℤ)
        → pf'.cash ≡ pf.cash -ℤ cost
        → paid pf'.records ≡ paid pf.records +ℤ cost
        → received pf'.records ≡ received pf.records
        → result_of pf' ≡ result_of pf -ℤ cost
        → Accounts pf
        → Accounts pf'
    unfolding net_cash_flow
    bought pf pf' cost c p r e a = (
      omega (
        int_laws,
        parts_of pf'.cash (pf.cash -ℤ cost) c,
        parts_of (paid pf'.records) (paid pf.records +ℤ cost) p,
        parts_of (received pf'.records) (received pf.records) r,
        parts_of (pf.cash +ℤ (paid pf.records -ℤ received pf.records)) start a.0,
      ),
      omega (
        int_laws,
        parts_of pf'.cash (pf.cash -ℤ cost) c,
        parts_of (result_of pf') (result_of pf -ℤ cost) e,
        parts_of (result_of pf) (pf.cash -ℤ start) a.1,
      ),
    )

    sold :
        (pf pf' : Portfolio Q) (proceeds : ℤ)
        → pf'.cash ≡ pf.cash +ℤ proceeds
        → paid pf'.records ≡ paid pf.records
        → received pf'.records ≡ received pf.records +ℤ proceeds
        → result_of pf' ≡ result_of pf +ℤ proceeds
        → Accounts pf
        → Accounts pf'
    unfolding net_cash_flow
    sold pf pf' proceeds c p r e a = (
      omega (
        int_laws,
        parts_of pf'.cash (pf.cash +ℤ proceeds) c,
        parts_of (paid pf'.records) (paid pf.records) p,
        parts_of (received pf'.records) (received pf.records +ℤ proceeds) r,
        parts_of (pf.cash +ℤ (paid pf.records -ℤ received pf.records)) start a.0,
      ),
      omega (
        int_laws,
        parts_of pf'.cash (pf.cash +ℤ proceeds) c,
        parts_of (result_of pf') (result_of pf +ℤ proceeds) e,
        parts_of (result_of pf) (pf.cash -ℤ start) a.1,
      ),
    )

    enter-Accounts :
        (p : OpenPosition Q) (pf : Portfolio Q)
        → position_of p.symbol pf.positions ≡ none
        → p.realized ≡ pos 0
        → Accounts pf
        → Accounts (enter q p pf)
    unfolding enter
    enter-Accounts p pf none_held fresh a =
        let (paid_more, received_same) = paid-buy pf.records _ refl in
        bought pf (enter q p pf) p.cost_basis refl paid_more received_same
          (omega (
            int_laws,
            parts_of (open_result (put_position p.symbol p pf.positions))
                (open_result pf.positions +ℤ (p.realized -ℤ p.cost_basis))
                (put_position-new p.symbol p pf.positions none_held),
            parts_of p.realized (pos 0) fresh,
          ))
          a

    sale-Accounts :
        (symbol : String) (ev : PositionEvent Q) (volume : Q) (p : OpenPosition Q)
        (pf : Portfolio Q)
        → position_of symbol pf.positions ≡ some p
        → Accounts pf
        → Accounts (sale_of q sell_proceeds symbol ev volume p pf)
    sale-Accounts symbol ev volume p pf found a =
        let delta = q.minus p.current_hf ev.held_fraction in
        let proceeds = sell_proceeds (q.shares_times p.shares delta) ev.price volume in
        let left : OpenPosition Q = record p {
          realized = p.realized +ℤ proceeds;
          current_hf = ev.held_fraction;
        } in
        let (paid_same, received_more) = paid-sale pf.records _ refl in
        sold pf (sale_of q sell_proceeds symbol ev volume p pf) proceeds refl paid_same
          received_more
          (omega (
            int_laws,
            parts_of
                (open_result (put_position symbol left pf.positions)
                  +ℤ (p.realized -ℤ p.cost_basis))
                (open_result pf.positions +ℤ (left.realized -ℤ p.cost_basis))
                (put_position-old symbol p left pf.positions found),
          ))
          a

    scale_out-Accounts :
        (symbol : String) (ev : PositionEvent Q) (volume : Q) (p : OpenPosition Q)
        (pf : Portfolio Q)
        → position_of symbol pf.positions ≡ some p
        → Accounts pf
        → Accounts (scale_out_of q sell_proceeds symbol ev volume p pf)
    scale_out-Accounts symbol ev volume p pf found a =
        elim (Bool-cases (q.not_positive (q.minus p.current_hf ev.held_fraction))) [
          | inl y ↦ rw y a
          | inr n ↦ rw n (sale-Accounts symbol ev volume p pf found a)
        ]

    close-Accounts :
        (symbol : String) (ev : PositionEvent Q) (volume : Q) (p : OpenPosition Q)
        (pf : Portfolio Q)
        → position_of symbol pf.positions ≡ some p
        → Accounts pf
        → Accounts (close_of q sell_proceeds symbol ev volume p pf)
    close-Accounts symbol ev volume p pf found a =
        let proceeds = sell_proceeds (q.shares_times p.shares p.current_hf) ev.price volume in
        let t = closed_trade q sell_proceeds symbol ev p proceeds in
        let (paid_same, received_more) = paid-sale pf.records _ refl in
        sold pf (close_of q sell_proceeds symbol ev volume p pf) proceeds refl paid_same
          received_more
          (omega (
            int_laws,
            parts_of
                (open_result (pop_position symbol pf.positions) +ℤ (p.realized -ℤ p.cost_basis))
                (open_result pf.positions) (pop_position-old symbol p pf.positions found),
            parts_of (closed_result (pf.closed ++ t ∷ []))
                (closed_result pf.closed +ℤ t.realized_pnl) (closed_result-append pf.closed t),
          ))
          a

    -- The books balance. In every portfolio that a backtest comes to by purchases of symbols that are
    -- not held, by scaling out and by closing: the cash and the net cash flow of the ledger add up to
    -- the capital of the start, and the results of the closed trades, with what the open positions
    -- have brought in less their cost, are the change of the cash.
    pub Reached-Accounts : (pf : Portfolio Q) → Reached pf → Accounts pf
    unfolding scale_out close
    Reached-Accounts _ begun = new-Accounts
    Reached-Accounts _ (entered {pf = pf} p not_held fresh r) =
        enter-Accounts p pf not_held fresh (Reached-Accounts pf r)
    Reached-Accounts pf' (scaled {pf = pf} symbol ev volume h r) =
        elim (Option-cases (position_of symbol pf.positions)) [
          | inl n ↦ ground (arith, n, h)
          | inr (p, found) ↦
              let e : scale_out_of q sell_proceeds symbol ev volume p pf ≡ pf' =
                ground (arith, found, h) in
              rw (← e) (scale_out-Accounts symbol ev volume p pf found (Reached-Accounts pf r))
        ]
    Reached-Accounts pf' (closed {pf = pf} symbol ev volume h r) =
        elim (Option-cases (position_of symbol pf.positions)) [
          | inl n ↦ ground (arith, n, h)
          | inr (p, found) ↦
              let e : close_of q sell_proceeds symbol ev volume p pf ≡ pf' =
                ground (arith, found, h) in
              rw (← e) (close-Accounts symbol ev volume p pf found (Reached-Accounts pf r))
        ]
