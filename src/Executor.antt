-- ===== src/Executor.antt =====
-- Reading what the process of a step writes (internal/executor/process.go and drain.go).
pub mod Drain
pub mod Markers
pub mod Detail
