-- ===== src/Paper/Day.antt =====
-- `settle_pending_orders` of python/src/trading/brokers/paper/paper_broker.py with the guards on the
-- bar of the day (bar_timing.py), and the two jobs that call it: `run_daily_settle_orders` of
-- python/src/orchestration/jobs/daily.py with settle_notify.py, and settle_retry.py. The rows of
-- `paper_orders` stand in the order of their creation. The market data, the adjustment for splits
-- (split_adjust.py), and which transactions fail are arguments; days are numbers, and a time of day
-- is in microseconds, in Japan.
pub mod Claims
pub mod Jobs
mod Examples
use stock_fixer.Prelude.{
  ℕ, suc, min, ◌-◌, Bool, true, false, not, ◌&&◌, ◌||◌, Option, none, some, List, [], ◌∷◌, ◌++◌,
  String, if◌then◌else◌, leb, ltb, ◌==◌, keep, length,
}
use stock_fixer.Paper.Tables.{Money, Order, is_pending, Holding, Tables}
use stock_fixer.Paper.Broker.{Bar, Settled, filled, settle_order}

-- `get_ohlcv` raises, has no rows, or has a last row with its date.
pub data Quote (F : Type 0) : Type 0 where
  call_failed no_rows : Quote F
  last_row : ℕ → Bar F → Quote F

-- The columns `market`, `predicted_at` (as `parse_predicted_date` reads it) and `created_at` (its day
-- and its time of day) of an order.
pub record Placed : Type 0 where
  pub is_us : Bool
  pub signal_date : Option ℕ
  pub created_at : Option (ℕ × ℕ)

-- `adjust_order_for_splits`: the holdings after it, and whether it raises, holds the order back, or
-- gives the shares and the limit.
pub data Answer (F : Type 0) : Type 0 where
  adjust_failed not_now : Answer F
  adjusted : ℕ → F → Answer F

pub record Adjusted (F : Type 0) : Type 0 where
  pub positions : List (Holding F)
  pub short_positions : List (Holding F)
  pub answer : Answer F

-- What lies outside of a run.
pub record Day (F : Type 0) : Type 0 where
  pub today : ℕ
  pub quote : String → Quote F
  pub placed : Order F → Placed
  pub is_nan : F → Bool
  pub adjust : Tables F → Order F → F → Adjusted F
  pub fails : Order F → Bool

-- What a round of the loop does with an order.
pub data Outcome (F : Type 0) : Type 0 where
  held_back failed : Outcome F
  closed : Settled F → Outcome F

-- `_JP_CLOSE`, half past three.
abbrev pub jp_close : ℕ
jp_close = 55_800_000_000

abbrev pub created_after_bar_close : Option (ℕ × ℕ) → ℕ → Bool
created_after_bar_close none bar_date = false
created_after_bar_close (some (day, time)) bar_date = (day == bar_date) && leb jp_close time

-- The last row is not newer than the signal.
abbrev pub before_signal : Option ℕ → ℕ → Bool
before_signal none bar_date = false
before_signal (some signal_date) bar_date = leb bar_date signal_date

abbrev pub is_failed : {F : Type 0} → Outcome F → Bool
is_failed failed = true
is_failed _ = false

abbrev pub is_closed : {F : Type 0} → Outcome F → Bool
is_closed (closed s) = true
is_closed _ = false

module _ {F : Type 0} (money : Money F) (d : Day F) where
  abbrev pub has_nan : Bar F → Bool
  has_nan bar = d.is_nan bar.open_price || (d.is_nan bar.high_price || d.is_nan bar.low_price)

  -- The guards on the row of the day.
  abbrev pub may_fill : Placed → ℕ → Bar F → Bool
  may_fill p bar_date bar =
      not (before_signal p.signal_date bar_date)
      && (not (ltb bar_date d.today)
          && (not (not p.is_us && created_after_bar_close p.created_at bar_date)
              && not (has_nan bar)))

  -- From the adjustment on.
  abbrev pub settle_adjusted : Tables F → Order F → Bar F → Answer F → Tables F × Outcome F
  settle_adjusted db o bar adjust_failed = (db, failed)
  settle_adjusted db o bar not_now = (db, held_back)
  settle_adjusted db o bar (adjusted qty limit_price) =
      if d.fails o
      then (db, failed)
      else (let r =
            settle_order money db o.order_id o.symbol o.side qty limit_price o.order_type bar in
          (r.0, closed r.1))

  abbrev pub settle_at : Tables F → Order F → Quote F → Tables F × Outcome F
  settle_at db o call_failed = (db, failed)
  settle_at db o no_rows = (db, held_back)
  settle_at db o (last_row bar_date bar) =
      if may_fill (d.placed o) bar_date bar
      then (let a = d.adjust db o bar.open_price in
          settle_adjusted
            (record db { positions = a.positions; short_positions = a.short_positions }) o bar
            a.answer)
      else (db, held_back)

  -- One round of the loop.
  abbrev pub settle_row : Tables F → Order F → Tables F × Outcome F
  settle_row db o = settle_at db o (d.quote o.symbol)

  unfoldable pub settle_rows : List (Order F) → Tables F → Tables F × List (Order F × Outcome F)
  settle_rows [] db = (db, [])
  settle_rows (o ∷ os) db =
      let r = settle_row db o in let rest = settle_rows os r.0 in (rest.0, (o, r.1) ∷ rest.1)

  abbrev pub waiting : Tables F → List (Order F)
  waiting db = keep (λ (o : Order F). is_pending o.status) db.orders

  -- The tables after the run, and what was done with each order that waited.
  unfoldable pub settle_pending_orders : Tables F → Tables F × List (Order F × Outcome F)
  settle_pending_orders db = settle_rows (waiting db) db

  -- The list that the method returns, and `last_settle_errors`.
  unfoldable pub settled_of : List (Order F × Outcome F) → List (Order F × (ℕ × F))
  settled_of [] = []
  settled_of ((o, closed (filled qty p)) ∷ rows) = (o, (qty, p)) ∷ settled_of rows
  settled_of ((o, _) ∷ rows) = settled_of rows

  unfoldable pub errors_of : List (Order F × Outcome F) → ℕ
  errors_of [] = 0
  errors_of ((o, r) ∷ rows) = let rest = errors_of rows in if is_failed r then suc rest else rest

  abbrev pub count_pending_paper_orders : Tables F → ℕ
  count_pending_paper_orders db = length (waiting db)

-- A notice of settle_notify.py or settle_retry.py.
pub data SettleNotice : Type 0 where
  completed with_errors : ℕ → SettleNotice
  left_over : ℕ → ℕ → SettleNotice

abbrev pub notify_settle_result : ℕ → ℕ → Bool → List SettleNotice × ℕ
notify_settle_result settled_count error_count notify_when_none = (
  (if ltb 0 settled_count || notify_when_none then completed settled_count ∷ [] else [])
      ++ (if leb error_count 0 then [] else with_errors error_count ∷ []),
  error_count,
)

-- What a job leaves: the tables, its notices, and whether it fails.
pub record Ran (F : Type 0) : Type 0 where
  pub tables : Tables F
  pub notices : List SettleNotice
  pub raises : Bool

-- At or after `SETTLE_RETRY_CUTOFF_JST`, 9:55.
abbrev pub is_final : ℕ → ℕ → Bool
is_final hour minute = ltb 9 hour || ((hour == 9) && leb 55 minute)

-- Which of a job's accesses to the database raise: the first count of the waiting orders, the making
-- of the broker or its reading of the orders, and the last count.
pub record Accesses : Type 0 where
  pub count_fails : Bool
  pub run_fails : Bool
  pub recount_fails : Bool

module _ {F : Type 0} (money : Money F) (d : Day F) (live : Bool) (access : Accesses) where
  -- `none` where it raises, before the first order is settled.
  unfoldable pub run_daily_settle_orders :
      Bool → Tables F → Option (Tables F × (List SettleNotice × ℕ))
  run_daily_settle_orders notify_when_none db =
      if live
      then some (db, ([], 0))
      else if access.run_fails
      then none
      else (let r = settle_pending_orders money d db in
          some (
            r.0,
            notify_settle_result (length (settled_of money d r.1)) (errors_of money d r.1)
                notify_when_none,
          ))

  -- The end of the last round of the morning.
  abbrev pub close_morning : Tables F → List SettleNotice → ℕ → Ran F
  close_morning db notices errors =
      let remaining = count_pending_paper_orders money d db in
      if access.recount_fails
      then record { tables = db; notices = notices; raises = true }
      else if leb remaining 0
      then record { tables = db; notices = notices; raises = false }
      else record {
        tables = db;
        notices =
            notices ++ left_over (remaining - min errors remaining) (min errors remaining) ∷ [];
        raises = ltb 0 (min errors remaining);
      }

  -- From the settlement on.
  abbrev pub after_settlement :
      ℕ → ℕ → Tables F → Option (Tables F × (List SettleNotice × ℕ)) → Ran F
  after_settlement hour minute db none = record { tables = db; notices = []; raises = true }
  after_settlement hour minute db (some (settled, (notices, errors))) =
      if is_final hour minute
      then close_morning settled notices errors
      else record { tables = settled; notices = notices; raises = false }

  unfoldable pub run_daily_settle_retry : ℕ → ℕ → Tables F → Ran F
  run_daily_settle_retry hour minute db =
      if access.count_fails
      then record { tables = db; notices = []; raises = true }
      else if count_pending_paper_orders money d db == 0
      then record { tables = db; notices = []; raises = false }
      else after_settlement hour minute db (run_daily_settle_orders false db)
