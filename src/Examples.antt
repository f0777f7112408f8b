-- ===== src/Examples.antt =====
-- Tests on concrete inputs, and the theorems at inputs that meet their hypotheses.
mod Sorting
mod Validation
mod Recording
mod Running
mod Diffing
mod Scheduling
mod Configuring
mod Syncing
mod Registering
mod Archiving
mod Sources
mod Caching
mod Executing
