-- ===== src/Lib.antt =====
-- daggle runs workflows of steps with dependencies (a "DAG"), written in YAML, by hand or on
-- triggers. This library models the parts of it that decide what is run, in which order, and what
-- is recorded of it.
--
-- The parts, and where they are modelled (paths from the repository's root):
--   Go/             what the program uses of Go's standard library: texts, maps, hex,
--                   time.ParseDuration
--   Dag/Model       dag/dag.go: the structs of a workflow
--   Dag/StepTypes   dag/step_types.go and StepType: the registry of step types
--   Dag/TopoSort    dag/toposort.go: Kahn's algorithm and the tiers that run in parallel
--   Dag/Validate    dag/validate.go: all checks of a parsed workflow
--   Dag/Matrix      dag/matrix.go: a matrix step as one step for each combination
--   Dag/Redact      dag/redact.go: the masking of secret values
--   Dag/Defaults    dag/parse.go, filter.go: the defaults of base.yaml, and the filters of a listing
--   Dag/Workdir     dag/dag.go: the directory that a step runs in
--   State/Event     state/event.go: the events of a run and the log they are appended to
--   State/Run       state/run.go: the status of a run, and which run a look-up returns
--   State/Summary   state/summary.go: the state of each step, accumulated from the events
--   State/Diff      state/diff_util.go: the line diff of two workflow files
--   State/Schedules state/schedules.go: the registry of the schedules added at run time
--   State/Projects  state/projects.go: the registry of projects, and the sources of workflows
--   Engine/Action   what a step does to the outside, and what the engine calls (`World`)
--   Engine/Step     internal/engine/retry.go, outputs.go, artifacts.go: after the last attempt
--   Engine/Retry    internal/engine/retry.go: the attempts of a step and their delays
--   Engine/Guards   internal/engine/guards.go, cache.go, runStep: what stands before the attempts
--   Engine/Run      internal/engine/engine.go, hooks.go: the tiers of a run, its events and hooks
--   Scheduler/Trigger  scheduler/scheduler.go: triggers and active runs, as a step relation
--   Scheduler/Catchup  scheduler/catchup.go, cron_executor.go: missed and due ticks of a schedule
--   Scheduler/Deadline scheduler/trigger_deadline.go: deadlines that fire once a day
--   Scheduler/Sync     scheduler/sync.go, cron_executor.go, catchup.go: the scan that registers triggers
--   Scheduler/Webhook  scheduler/webhook.go: the endpoint and its signature
--   Scheduler/Dispatch scheduler/trigger_ondag.go: what a finished run triggers
--   Scheduler/RuntimeSchedules  scheduler/runtime_schedules.go: the calls of the API on schedules
--   Archive         internal/archive/archive.go, verify.go: archives of runs with their manifest
--   Cache           cache/cache.go, internal/engine/cache.go, internal/cli/plan.go: cache keys, the plan
--   Executor        internal/executor/drain.go, process.go: what a step prints, its error detail
--   Examples/       tests on concrete inputs, and each theorem at such an input
--
-- How the parts interact: a workflow that `validate` accepts is expanded (`expand_matrix`), sorted
-- into tiers (`topo_sort`) and run tier by tier (`run`); each step passes its guards (`run_step`)
-- and is tried (`execute_with_retries`); what happens is written as events, from which
-- `run_status` and `build_step_summaries` read the state back.
--
-- How it corresponds: a Go function `validateStepRetry` is `validate_step_retry` here; a helper by
-- clauses stands for the body of a loop, a closure or the part of a function behind a nil check. A
-- pointer is an `Option`, a set of texts a list, an error of a check a constructor with the
-- arguments of its format, an error of the engine its message. `int` is the type of integers of
-- Prelude/Int, or a number with its wrap at 2 ^ 64. What the engine does is a list of actions; the
-- steps of a tier act at the same time, and `Concurrency` is any way in which their actions and
-- errors interleave. The executor, the conditions, the file system, the cache and the redactor are
-- fields of `World`, any functions of the step; the order in which Go walks a map is `Order`. The
-- scheduler's sections under its lock are functions on its state, in any order of steps. A file in YAML
-- is what its encoder makes of it, a parameter; a directory tree is what the walk returns. Whether a
-- write to the log succeeds and how long the line of an event is are parameters; a step whose number
-- of attempts wraps ends the program with a panic, which is an error of the step here.
--
-- Fuel: the loop of `topo_sort` has one round more than there are steps, which is always enough
-- (`topo_sort_ends`); `parse_duration` and `replace` have one round for each character; `missed_ticks`
-- has one round for each unit of time up to now, enough where `Next` is later than its argument;
-- `drain_lines` has one read for each byte and one more.
--
-- Not modelled: YAML decoding and text/template, the files of the step cache, the scheduler's watchers,
-- the HTTP API, the terminal UI, the start and the end of a subprocess, and what it does.
pub mod Prelude
pub mod Go
pub mod Dag
pub mod State
pub mod Engine
pub mod Scheduler
pub mod Archive
pub mod Cache
pub mod Executor
pub mod Examples
