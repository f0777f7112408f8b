-- ===== src/Dag/Validate.antt =====
-- dag/validate.go: a workflow is valid when `validate_with_channels` reports nothing.
pub mod Errors
pub mod Version
pub mod Steps
pub mod Parts
pub mod Accepts
pub mod Runnable
pub mod Hooks
pub mod Fields
pub mod Ordering
use Errors.{ValidationError, name_missing, no_steps, max_parallel_negative, cycle_detected}
use Steps.{report, validate_steps}
use Parts.{
  validate_r_version, validate_triggers, validate_hooks, validate_notify_channels,
  validate_exposures,
}
use daggle.Prelude.{String, List, [], ◌∷◌, ◌++◌, Option, none, some, ◌==◌, concat}
use daggle.Prelude.Int.{is_neg}
use daggle.Dag.Model.{Dag, Step}
use daggle.Dag.TopoSort.{Sorted, tiers, cycle, out_of_fuel, topo_sort}

abbrev pub no_steps_error : List Step → List ValidationError
no_steps_error [] = no_steps ∷ []
no_steps_error (s ∷ steps) = []

-- The loop of the sort always ends (`topo_sort_ends`), so the last clause is never reached.
abbrev pub sort_error : Sorted → List ValidationError
sort_error (tiers ts) = []
sort_error (cycle n) = cycle_detected n ∷ []
sort_error out_of_fuel = cycle_detected 0 ∷ []

-- Cycle detection runs only when there are no other errors.
unfoldable pub validate_cycles : List Step → List ValidationError → List ValidationError
validate_cycles steps [] = sort_error (topo_sort steps)
validate_cycles steps (e ∷ errs) = []

-- `none` is the nil channel map, which skips the check of the channel names.
abbrev pub channel_errors : Dag → Option (List String) → List ValidationError
channel_errors d none = []
channel_errors d (some channels) = validate_notify_channels d channels

-- What is checked before the cycles.
abbrev pub field_checks : Dag → Option (List String) → List (List ValidationError)
field_checks d channels =
    report (d.name == "") name_missing
    ∷ no_steps_error d.steps
    ∷ report (is_neg d.max_parallel) (max_parallel_negative d.max_parallel)
    ∷ validate_steps d.steps
    ∷ validate_r_version d
    ∷ validate_triggers d
    ∷ validate_hooks d
    ∷ channel_errors d channels
    ∷ validate_exposures d
    ∷ []

unfoldable pub field_errors : Dag → Option (List String) → List ValidationError
field_errors d channels = concat (field_checks d channels)

-- The list of errors; `nil` is the empty list.
unfoldable pub validate_with_channels : Dag → Option (List String) → List ValidationError
unfolding validate_cycles field_errors
validate_with_channels d channels =
    let errs = field_errors d channels in errs ++ validate_cycles d.steps errs

unfoldable pub validate : Dag → List ValidationError
unfolding validate_with_channels
validate d = validate_with_channels d none

unfoldable pub validate_channels : Dag → List String → List ValidationError
validate_channels d channels = validate_notify_channels d channels
