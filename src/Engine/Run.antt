-- ===== src/Engine/Run.antt =====
-- A whole run (Run and runTier in internal/engine/engine.go). The steps of a tier run at the same
-- time: `Concurrency` says how their actions interleave and in which order their errors arrive.
pub mod Cases
pub mod Dependencies
pub mod Ends
pub mod Status
use daggle.Prelude.{
  ℕ, suc, String, Bool, true, false, List, [], ◌∷◌, ◌++◌, map, Option, none, some, if◌then◌else◌,
}
use daggle.Go.Strings.{text_append, join}
use daggle.Dag.Model.{Dag, Step, Hook}
use daggle.Dag.Matrix.{Order, expand_matrix}
use daggle.Dag.TopoSort.{Sorted, tiers, cycle, out_of_fuel, topo_sort}
use daggle.Dag.Validate.{validate_channels}
use daggle.Dag.Validate.Errors.{ValidationError}
use daggle.State.Event.{event, event_run_started, event_run_completed, event_run_failed}
use daggle.Engine.Action.{Action, ran_hook, wrote_meta, Outcome, World, after}
use daggle.Engine.Step.{write_event, run_hook}
use daggle.Engine.Guards.{run_step, step_message}

pub record Concurrency : Type 0 where
  pub interleave : List (List Action) → List Action
  pub arrival : List String → List String

-- The errors of the steps of a tier, wrapped with the step's id.
abbrev pub step_error : Step → Option String → List String
step_error s none = []
step_error s (some message) = step_message s (text_append " failed: " message) ∷ []

unfoldable pub tier_errors : World → List Step → List String
tier_errors w [] = []
tier_errors w (s ∷ tier) = step_error s (run_step w s).err ++ tier_errors w tier

-- errors.Join
abbrev pub join_errors : Concurrency → List String → Option String
join_errors c [] = none
join_errors c (x ∷ xs) = some (join "\n" (c.arrival (x ∷ xs)))

unfoldable pub run_tier : World → Concurrency → List Step → Outcome
unfolding tier_errors
run_tier w c tier = record {
  trace = c.interleave (map (λ s. (run_step w s).trace) tier);
  err = join_errors c (tier_errors w tier);
}

-- EventRunFailed, with the error
abbrev pub failed : World → String → List Action
failed w message = write_event w (record (event event_run_failed) { error = message }) ∷ []

-- After a tier: the next tiers, or the end of the run.
abbrev pub settle_tier : World → List Action → Option String → Outcome → Outcome
settle_tier w trace none rest = after trace rest
settle_tier w trace (some message) rest = record {
  trace = trace ++ failed w message;
  err = some message;
}

-- The loop over the tiers; `cancelled` is the check for a cancel request before the i-th.
unfoldable pub run_tiers : World → Concurrency → (ℕ → Bool) → ℕ → List (List Step) → Outcome
run_tiers w c cancelled i [] = record { trace = []; err = none }
run_tiers w c cancelled i (tier ∷ ts) =
    let rest = run_tiers w c cancelled (suc i) ts in
    if cancelled i
    then record { trace = failed w "run cancelled"; err = some "run cancelled" }
    else settle_tier w (run_tier w c tier).trace (run_tier w c tier).err rest

-- meta.json is written where the run has metadata.
abbrev pub write_meta : Option String → String → List Action
write_meta none status = []
write_meta (some source) status = wrote_meta status ∷ []

-- runHooks: on_exit, then the hook of the result.
abbrev pub run_hooks : Dag → Option String → List Action
run_hooks d none = run_hook d.on_exit "on_exit" ++ run_hook d.on_success "on_success"
run_hooks d (some message) = run_hook d.on_exit "on_exit" ++ run_hook d.on_failure "on_failure"

abbrev pub completed : World → Option String → List Action
completed w none = write_event w (event event_run_completed) ∷ []
completed w (some message) = []

abbrev pub final_status : Option String → String
final_status none = "completed"
final_status (some message) = "failed"

-- What follows the tiers.
unfoldable pub end_run : World → Dag → Option String → Outcome → Outcome
end_run w d meta o = record {
  trace =
      o.trace ++ completed w o.err ++ (write_meta meta (final_status o.err) ++ run_hooks d o.err);
  err = o.err;
}

-- A run that fails before its first tier: no hook runs.
abbrev pub refuse : World → String → Outcome
refuse w message = record { trace = failed w message; err = some message }

abbrev pub run_sorted : World → Concurrency → (ℕ → Bool) → Dag → Option String → Sorted → Outcome
run_sorted w c cancelled d meta (tiers ts) = end_run w d meta (run_tiers w c cancelled 0 ts)
run_sorted w c cancelled d meta (cycle n) = refuse w "topo sort: cycle detected in DAG"
run_sorted w c cancelled d meta out_of_fuel = refuse w "topo sort"

-- The matrix steps are expanded before the steps are sorted.
abbrev pub run_checked :
    World → Concurrency → (ℕ → Bool) → Order → Dag → Option String → List ValidationError → Outcome
run_checked w c cancelled order d meta (e ∷ es) = refuse w "unknown notification channel"
run_checked w c cancelled order d meta [] =
    run_sorted w c cancelled d meta (topo_sort (expand_matrix order d.steps))

abbrev pub source_of : Option String → String
source_of none = ""
source_of (some source) = source

-- Run: `meta` is the trigger source of the run's metadata, if it has any.
unfoldable pub run :
    World → Concurrency → (ℕ → Bool) → Order → List String → Dag → Option String → Outcome
unfolding run_tiers end_run
run w c cancelled order channels d meta =
    after
      (write_event w (record (event event_run_started) { source = source_of meta })
        ∷ write_meta meta "")
      (run_checked w c cancelled order d meta (validate_channels d channels))
