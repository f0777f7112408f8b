-- ===== src/Engine.antt =====
-- The `internal/engine` package: how a run executes its steps.
pub mod Action
pub mod Step
pub mod Retry
pub mod Guards
pub mod Run
