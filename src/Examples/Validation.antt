-- ===== src/Examples/Validation.antt =====
-- dag/validate.go on small workflows.
use daggle.Prelude.{ℕ, String, ◌≡◌, refl, ◌↔◌, List, [], ◌∷◌, false, none, some}
use daggle.Prelude.Int.{pos}
use daggle.Go.Text.{codes}
use daggle.Go.Duration.{parse_duration}
use daggle.Dag.Model.{Dag, Step, Hook, Retry, zero_step}
use daggle.Dag.StepTypes.{count_step_types, step_type_registry}
use daggle.Dag.TopoSort.{topo_sort, tiers}
use daggle.Dag.TopoSort.Schedule.{IsSchedule}
use daggle.Dag.TopoSort.Complete.{IsRanked}
use daggle.Dag.Validate.{validate, validate_with_channels, field_errors}
use daggle.Dag.Validate.Errors.{
  ValidationError, duplicate_step_id, step_error, unknown_dependency, cycle_detected,
}
use daggle.Dag.Validate.Version.{
  validate_r_version_constraint, compare_versions, check_r_version, passed, is_less,
}
use daggle.Dag.Validate.Steps.{
  validate_steps, validate_each, validate_step, validate_step_type, validate_step_connect,
  validate_step_database, validate_step_email, validate_step_docker, validate_step_dependencies,
  validate_step_timeout, validate_step_error_on, validate_step_artifacts, validate_step_freshness,
  validate_step_cache, validate_step_retry, validate_step_approve, all_ids_of,
}
use daggle.Dag.Validate.Parts.{
  validate_r_version, validate_triggers, validate_hooks, validate_notify_channels,
  validate_exposures,
}
use daggle.Dag.Validate.Accepts.{AreWellFormed, validate_steps-AreWellFormed}
use daggle.Dag.Validate.Runnable.{validate_schedules, validate_iff_acyclic}

abbrev extract : Step
extract = record zero_step { id = "extract"; command = "echo 1"; timeout = "10m" }

abbrev steady : Retry
steady = record { limit = pos 3; backoff = "linear"; max_delay = "60s" }

abbrev clean : Step
clean = record zero_step {
  id = "clean";
  command = "echo 2";
  depends = "extract" ∷ [];
  retry = some steady;
}

abbrev alert : Hook
alert = record { r_expr = ""; command = ""; notify = "ops"; message = "" }

abbrev nightly : Dag
nightly = record {
  version = "1";
  name = "nightly";
  trigger = none;
  env = none;
  params = [];
  steps = clean ∷ extract ∷ [];
  workdir = "";
  max_parallel = pos 0;
  owner = "";
  team = "";
  description = "";
  tags = [];
  exposures = [];
  r_version = ">=4.1.0";
  r_version_strict = false;
  source_dir = "";
  on_success = none;
  on_failure = some alert;
  on_exit = none;
}

-- What a test of the whole validation looks into.
evaluated : Dag → List ValidationError
unfolding validate field_errors validate_with_channels topo_sort validate_each validate_step
    validate_step_type count_step_types step_type_registry validate_step_connect
    validate_step_database validate_step_email validate_step_docker validate_step_dependencies
    validate_step_timeout validate_step_error_on validate_step_artifacts validate_step_freshness
    validate_step_cache validate_step_retry validate_step_approve all_ids_of validate_steps
    validate_r_version validate_r_version_constraint validate_triggers validate_hooks
    validate_notify_channels validate_exposures parse_duration zero_step
evaluated d = validate d

nightly_fields : field_errors nightly (some ("ops" ∷ [])) ≡ []
unfolding evaluated
nightly_fields = refl

nightly_accepted : validate_with_channels nightly (some ("ops" ∷ [])) ≡ []
unfolding evaluated
nightly_accepted = refl

-- A dependency on itself is found only once all else is in order.
self_dependent :
    validate (record nightly { steps = record extract { depends = "extract" ∷ [] } ∷ [] })
    ≡ cycle_detected 1 ∷ []
unfolding evaluated
self_dependent = refl

duplicate_and_unknown :
    validate (record nightly { steps = extract ∷ record extract { depends = "load" ∷ [] } ∷ [] })
    ≡ duplicate_step_id "extract" ∷ step_error "extract" (unknown_dependency "load") ∷ []
unfolding evaluated
duplicate_and_unknown = refl

validate_schedules_example :
    (ts : List (List Step)) × (topo_sort nightly.steps ≡ tiers ts) × IsSchedule nightly.steps ts
validate_schedules_example = validate_schedules nightly (some ("ops" ∷ [])) nightly_accepted

validate_iff_acyclic_example :
    (validate_with_channels nightly (some ("ops" ∷ [])) ≡ [])
    ↔ ((rank : String → ℕ) × IsRanked rank nightly.steps)
validate_iff_acyclic_example = validate_iff_acyclic nightly (some ("ops" ∷ [])) nightly_fields

steps_accepted : validate_steps nightly.steps ≡ []
unfolding evaluated
steps_accepted = refl

validate_steps-AreWellFormed_example : AreWellFormed nightly.steps
validate_steps-AreWellFormed_example = validate_steps-AreWellFormed nightly.steps steps_accepted

at_4_1 : check_r_version (codes ">=4.1") (codes "4.1.3") ≡ passed
unfolding check_r_version
at_4_1 = refl

newer : is_less (compare_versions (codes "4.4.0") (codes "4.1.3")) ≡ false
unfolding compare_versions
newer = refl
