-- ===== src/Scheduler.antt =====
-- The scheduler's queue (python/src/orchestration): the run history and its counts, the cutoff and
-- the recovery gap, the state file, the run of a job with its retries, the recovery decisions and
-- the notices about periods that were given up.
pub mod Types
pub mod Weekdays
pub mod Interrupted
pub mod Cutoff
pub mod RecoveryGap
pub mod Queue
pub mod CapNotice
