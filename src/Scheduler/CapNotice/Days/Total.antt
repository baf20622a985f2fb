-- ===== src/Scheduler/CapNotice/Days/Total.antt =====
-- The search for the business days before today (`_business_days_before` of
-- python/src/orchestration/scheduler_cap_notice.py) ends within its fuel.
use stock_fixer.Calendar.Date.{Date}
