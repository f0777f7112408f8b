-- ===== src/State.antt =====
-- The `state` package: what is recorded of a run, and what is read back from the record.
pub mod Event
pub mod Run
pub mod Summary
pub mod Diff
pub mod Schedules
pub mod Projects
