-- ===== src/Scheduler/CapNotice/Days/Examples.antt =====
-- The five business days before a Thursday after the holidays of the new year.
use stock_fixer.Calendar.Date.{Date, date}

abbrev a_thursday : Date
a_thursday = date 2026 1 8
