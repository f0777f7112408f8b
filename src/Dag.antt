-- ===== src/Dag.antt =====
-- The `dag` package: what a workflow is, and what can be said of it before it runs.
pub mod Model
pub mod StepTypes
pub mod TopoSort
pub mod Validate
pub mod Matrix
pub mod Redact
pub mod Defaults
pub mod Workdir
