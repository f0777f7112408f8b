-- ===== src/Scheduler.antt =====
-- The `scheduler` package: when runs are started, and how many at a time.
pub mod Trigger
pub mod Catchup
pub mod Deadline
pub mod Sync
pub mod Webhook
pub mod Dispatch
pub mod RuntimeSchedules
