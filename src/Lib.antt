-- ===== src/Lib.antt =====
-- StockFixer: an automatic trader of Japanese and American stocks (python/src). This library models
-- the parts in which its own rules live:
--
--  - Scheduler: the queue that runs the jobs. Scheduler/Types holds the records of the history and of
--   the configuration. Scheduler/Weekdays, Scheduler/Interrupted, Scheduler/Cutoff and
--   Scheduler/RecoveryGap are `_parse_day_of_week`, scheduler_interrupted.py, scheduler_cutoff.py and
--   scheduler_recovery_gap.py of python/src/orchestration. Scheduler/Queue is `SchedulerQueueManager`
--   of scheduler_queue.py: its state file, its counts, its recovery decisions (`should_recover`,
--   Queue/Missed for `get_missed_past_periods`) and in Queue/Run `run_job` with `_run_with_retry`.
--   Scheduler/CapNotice is scheduler_cap_notice.py, which reads the manager and records its notices
--   in the manager's history.
--  - Calendar: Calendar/UsMarket and Calendar/JpMarket are us_market_holidays.py and
--   jp_market_holidays.py of python/src/domain; Calendar/LossWindow is
--   python/src/trading/daily_loss_window.py. Calendar/Date defines the dates of Python's standard
--   library. The scheduler and the loss window ask the calendars for business days.
--  - Paper: the broker of python/src/trading/brokers/paper. Paper/Tables holds the database tables,
--   Paper/Fill is fill.py, Paper/Broker is `send_order`, `cancel_order` and the settlement of one
--   order of paper_broker.py, and Paper/Day its loop over the orders with the guards on the row of the
--   day, and the jobs of python/src/orchestration/jobs that run it (daily.py, settle_retry.py).
--  - Trading: Trading/SectorCap is python/src/domain/sector_cap.py, Trading/OrderCaps is
--   python/src/trading/claude_order_caps.py, Trading/Losses is `count_leading_losses` of
--   python/src/trading/consecutive_losses.py. Trading/Leverage is service.py, types.py and
--   repository.py of python/src/trading/regime_leverage_strategy: the decisions, in Leverage/Bars the
--   choice of the daily bars, and in Leverage/Jobs the weekly and the daily job over their log.
--  - Prices: Prices/Ticks is python/src/domain/tick_size.py, Prices/LimitOrders is
--   python/src/domain/limit_order_rules.py.
--  - Promotion: the trial replacement of models of python/src/prediction/backtest_promotion.
--   Promotion/Names, Promotion/Backup and Promotion/Swap are state.py: the names of the backups,
--   `copy_with_backup`, and `swap_in_candidate` with `restore_backups`, over the files of
--   Promotion/Disk. Promotion/Judge is judge.py, whose verdicts decide on the swap and its undoing.
--  - Watchlist: python/src/watchlist/manager.py, the difference of the watchlist with the members of
--   the index, its application and the refresh.
--  - Screening: Screening/HoldEngine is python/src/screening/hold_engine.py, which makes the events of
--   a position from the closes.
--  - Backtest: Backtest/Portfolio is portfolio.py and ledger.py of python/src/backtest/longterm, which
--   book those events.
--  - Alerts: python/src/utils/alert_service.py, with Alerts/Failures for
--   python/src/utils/scheduler_failure_count.py.
--  - Reporting: the limits on notices of python/src/reporting/discord/rate_limiter.py.
--
-- A method takes the manager (or the tables) and returns it with its result; an exception is a
-- value. Times are microseconds and dates of the wall clock in Japan. What lies outside is given by
-- arguments: whether a write succeeds (`Io`), what a call of a job's function does, what other
-- processes do to the state file and whether each write of a run succeeds, at its start, at a retry
-- and at its end (`Env`), whether a notice goes out (`Send`), the arithmetic of prices (`Money`,
-- `Numbers`), the sector of a symbol, how each call of the file system ends and which temporary
-- name it gives (`System`), the floats of the leverage strategy and of the engine of positions
-- (`Floats`), the quantities and proceeds of the backtest (`Quantities`), the rolling mean of the
-- closes (`HoldRules`), the exchange's closing times and business days (`Market`), what the web
-- answers about the index (`Web`), the market data of a day and which transactions fail (`Day`),
-- which accesses of the settlement jobs to the database raise (`Accesses`), and the upper case and
-- the order of texts (`Texts`). A limit price is a whole number of units, `one` to the yen or
-- dollar; the cash of the backtest is an integer, so the rounding of floats plays no part there;
-- the share in an alert counts millionths, as it is stored. The files that have the suffix
-- `.joblib` are the models; `TempNames` says that a temporary file has another suffix and a new
-- name. Three loops run on fuel: the search for the last business day (`search_fuel`, nine days,
-- enough from year 3 on) and the search for the last five of them (`range_fuel`, nine rounds for
-- each, enough from year 50 on). The search for the name of a backup has one round more than there
-- are files.
--
-- Not modelled: logging, the texts of messages, waiting times between retries, durations in the
-- entries of the history, the locks (a method runs as one step); the paper broker's adjustment for
-- stock splits; the indicators of the leverage strategy, which are series of pandas, and the
-- allocation of the capital; the days of the backtest's loop and its market value; the snapshot of
-- the index that the refresh of the watchlist stores; the other packages of python/src, which are
-- data pipelines over pandas and web services, or are left for later.
pub mod Prelude
pub mod Calendar
pub mod Scheduler
pub mod Paper
pub mod Prices
pub mod Trading
pub mod Promotion
pub mod Watchlist
pub mod Screening
pub mod Backtest
pub mod Alerts
pub mod Reporting
