-- ===== src/Paper/Day/Claims.antt =====
-- What the loop of `settle_pending_orders` (python/src/trading/brokers/paper/paper_broker.py) leaves
-- waiting.
use stock_fixer.Prelude.{
  ◌≡◌, ◌∙◌, arith, inl, inr, Bool, not, ◌&&◌, List, [], ◌∷◌, String, str_eq, eq_iff, any,
  Bool-cases,
}
use stock_fixer.Paper.Tables.{Money, Order, Tables, claim_pending}
use stock_fixer.Paper.Broker.{Bar}
use stock_fixer.Paper.Broker.Settlement.{settle_order-no_claim}
use stock_fixer.Paper.Broker.Others.{settle_order-other}
use stock_fixer.Paper.Day.{
  Quote, Answer, Day, Outcome, call_failed, no_rows, last_row, adjust_failed, not_now, adjusted,
  is_closed, may_fill, settle_adjusted, settle_at, settle_row, settle_rows, settle_pending_orders,
  waiting,
}

module _ {F : Type 0} (money : Money F) (d : Day F) where
  -- The order of this number was closed in the round.
  abbrev pub closes : String → Order F × Outcome F → Bool
  closes id r = str_eq r.0.order_id id && is_closed r.1

  settle_adjusted-claims :
      (db : Tables F) (o : Order F) (bar : Bar F) (a : Answer F) (id : String)
      → let r = settle_adjusted money d db o bar a in
        claim_pending r.0 id ≡ (claim_pending db id && not (closes id (o, r.1)))
  settle_adjusted-claims db o bar adjust_failed id = ground arith
  settle_adjusted-claims db o bar not_now id = ground arith
  settle_adjusted-claims db o bar (adjusted qty limit_price) id = elim (Bool-cases (d.fails o)) [
    | inl y ↦ rw y (ground arith)
    | inr m ↦ rw m (elim (Bool-cases (str_eq o.order_id id)) [
      | inr n ↦ rw n (
          settle_order-other money o.order_id id n db o.symbol o.side qty limit_price o.order_type
            bar
          ∙ ground arith)
      | inl y ↦
          let same : o.order_id ≡ id = (eq_iff o.order_id id).0 y in
          let gone =
            settle_order-no_claim money db o.order_id o.symbol o.side qty limit_price o.order_type
              bar in
          rw y (rw (← same) (gone ∙ ground arith))
    ])
  ]

  settle_at-claims :
      (db : Tables F) (o : Order F) (q : Quote F) (id : String)
      → let r = settle_at money d db o q in
        claim_pending r.0 id ≡ (claim_pending db id && not (closes id (o, r.1)))
  unfolding claim_pending
  settle_at-claims db o call_failed id = ground arith
  settle_at-claims db o no_rows id = ground arith
  settle_at-claims db o (last_row bar_date bar) id =
      elim (Bool-cases (may_fill money d (d.placed o) bar_date bar)) [
        | inr n ↦ rw n (ground arith)
        | inl y ↦ rw y (settle_adjusted-claims _ o bar _ id)
      ]

  settle_rows-claims :
      (os : List (Order F)) (db : Tables F) (id : String)
      → let r = settle_rows money d os db in
        claim_pending r.0 id ≡ (claim_pending db id && not (any (closes id) r.1))
  unfolding settle_rows any
  settle_rows-claims [] db id = ground arith
  settle_rows-claims (o ∷ os) db id =
      let r = settle_row money d db o in
      ground (arith, settle_rows-claims os r.0 id, settle_at-claims db o (d.quote o.symbol) id)

  -- An order waits after a run exactly if it waited before and its round did not close it: an order
  -- that is held back, or whose round raises, is neither filled nor lost, and every order that a round
  -- fills, rejects or lets expire waits no more, whatever the other orders are.
  pub settle_pending_orders-claims :
      (db : Tables F) (id : String)
      → let r = settle_pending_orders money d db in
        claim_pending r.0 id ≡ (claim_pending db id && not (any (closes id) r.1))
  unfolding settle_pending_orders
  settle_pending_orders-claims db id = settle_rows-claims (waiting money d db) db id
