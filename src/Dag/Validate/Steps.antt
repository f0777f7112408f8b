-- ===== src/Dag/Validate/Steps.antt =====
-- The checks of one step, each in the order of the source, and `validateSteps` over all of them.
-- A helper by clauses stands for the nil check of a pointer.
pub mod Checks
unfoldable pub use daggle.Dag.Validate.Steps.Checks.*
use daggle.Prelude.{
  ℕ, ◌+◌, String, Bool, true, false, ◌&&◌, ◌||◌, not, List, [], ◌∷◌, ◌++◌, map, Option, none, some,
  nat_eq, if◌then◌else◌, contains, ◌==◌, concat,
}
use daggle.Prelude.Int.{is_neg}
use daggle.Go.Text.{Text, codes, is_digit, is_letter, has_char, ext, to_lower, is_abs, text_eq}
use daggle.Go.Duration.{parse_duration}
use daggle.Dag.Model.{
  Step, ConnectDeploy, DatabaseStep, EmailStep, DockerStep, ApproveStep, Artifact, FreshnessCheck,
  Retry,
}
use daggle.Dag.StepTypes.{count_step_types, is_set, is_some}
use daggle.Dag.Validate.Errors.{
  StepError, ValidationError, step_id_required, duplicate_step_id, step_error, no_type,
  multiple_types, connect_type_required, connect_path_required, connect_type_invalid,
  database_driver_required, database_query_required, database_query_both, database_output_required,
  database_driver_invalid, database_output_extension, email_channel_required,
  email_subject_required, email_body_required, email_body_both, docker_image_required,
  docker_command_required, docker_pull_invalid, docker_volume_form, unknown_dependency,
  timeout_invalid, approve_timeout_invalid, error_on_invalid, artifact_name_required,
  artifact_name_form, artifact_duplicate, artifact_path_required, artifact_path_absolute,
  freshness_path_required, freshness_max_age_required, freshness_max_age_invalid,
  freshness_on_stale_invalid, cache_with_approve, cache_with_call, retry_limit_negative,
  retry_backoff_invalid, retry_max_delay_invalid,
}

-- for _, dep := range s.Depends
abbrev pub check_depends : List String → List String → List StepError
check_depends all_ids [] = []
check_depends all_ids (dep ∷ deps) =
    report (not (contains all_ids dep)) (unknown_dependency dep) ++ check_depends all_ids deps

unfoldable pub validate_step_dependencies : Step → List String → List StepError
validate_step_dependencies s all_ids = check_depends all_ids s.depends

unfoldable pub validate_step_timeout : Step → List StepError
validate_step_timeout s = optional_duration timeout_invalid s.timeout

abbrev check_approve : ApproveStep → List StepError
check_approve a = optional_duration approve_timeout_invalid a.timeout

unfoldable pub validate_step_approve : Step → List StepError
validate_step_approve s = check check_approve s.approve

abbrev pub error_levels : List String
error_levels = "error" ∷ "warning" ∷ "message" ∷ []

unfoldable pub validate_step_error_on : Step → List StepError
validate_step_error_on s =
    if s.error_on == ""
    then []
    else report (not (contains error_levels s.error_on)) (error_on_invalid s.error_on)

-- `artifactNameRe`: ^[a-zA-Z_][a-zA-Z0-9_]*$
abbrev pub is_name_tail : Text → Bool
is_name_tail [] = true
is_name_tail (c ∷ s) = (is_letter c || is_digit c || nat_eq c b'_') && is_name_tail s

abbrev pub is_artifact_name : Text → Bool
is_artifact_name [] = false
is_artifact_name (c ∷ s) = (is_letter c || nat_eq c b'_') && is_name_tail s

abbrev check_artifact_name : List String → Artifact → List StepError
check_artifact_name seen art =
    if art.name == ""
    then artifact_name_required ∷ []
    else if not (is_artifact_name (codes art.name))
    then artifact_name_form art.name ∷ []
    else report (contains seen art.name) (artifact_duplicate art.name)

abbrev check_artifact_path : Artifact → List StepError
check_artifact_path art =
    if art.path == ""
    then artifact_path_required art.name ∷ []
    else report (is_abs (codes art.path)) (artifact_path_absolute art.name art.path)

-- for _, art := range s.Artifacts, with `artNames` as `seen`
abbrev pub check_artifacts : List String → List Artifact → List StepError
check_artifacts seen [] = []
check_artifacts seen (art ∷ arts) =
    check_artifact_name seen art
    ++ (check_artifact_path art ++ check_artifacts (art.name ∷ seen) arts)

unfoldable pub validate_step_artifacts : Step → List StepError
validate_step_artifacts s = check_artifacts [] s.artifacts

abbrev pub stale_policies : List String
stale_policies = "" ∷ "fail" ∷ "warn" ∷ []

-- for i, fc := range s.Freshness
abbrev check_freshness : ℕ → List FreshnessCheck → List StepError
check_freshness i [] = []
check_freshness i (fc ∷ fcs) =
    report (fc.path == "") (freshness_path_required i)
    ++ ((if fc.max_age == ""
          then freshness_max_age_required i ∷ []
          else report (is_bad_duration fc.max_age) (freshness_max_age_invalid i fc.max_age))
        ++ (report (not (contains stale_policies fc.on_stale))
              (freshness_on_stale_invalid i fc.on_stale)
            ++ check_freshness (i + 1) fcs))

unfoldable pub validate_step_freshness : Step → List StepError
validate_step_freshness s = check_freshness 0 s.freshness

unfoldable pub validate_step_cache : Step → List StepError
validate_step_cache s =
    if s.cache
    then report (is_some s.approve) cache_with_approve ++ report (is_some s.call) cache_with_call
    else []

abbrev pub is_bad_backoff : String → Bool
is_bad_backoff b = is_set b && not (b == "linear") && not (b == "exponential")

abbrev pub retry_checks : Retry → List (List StepError)
retry_checks r =
    report (is_neg r.limit) retry_limit_negative
    ∷ report (is_bad_backoff r.backoff) retry_backoff_invalid
    ∷ optional_duration retry_max_delay_invalid r.max_delay
    ∷ []

abbrev pub check_retry : Retry → List StepError
check_retry r = concat (retry_checks r)

unfoldable pub validate_step_retry : Step → List StepError
validate_step_retry s = check check_retry s.retry

-- All checks of a step that has an id.
abbrev pub step_checks : List String → Step → List (List StepError)
step_checks all_ids s =
    validate_step_type s
    ∷ validate_step_connect s
    ∷ validate_step_database s
    ∷ validate_step_email s
    ∷ validate_step_docker s
    ∷ validate_step_dependencies s all_ids
    ∷ validate_step_timeout s
    ∷ validate_step_error_on s
    ∷ validate_step_artifacts s
    ∷ validate_step_freshness s
    ∷ validate_step_cache s
    ∷ validate_step_retry s
    ∷ validate_step_approve s
    ∷ []

unfoldable pub validate_step : List String → Step → List StepError
validate_step all_ids s = concat (step_checks all_ids s)

-- allIDs: the ids that are not empty
unfoldable pub all_ids_of : List Step → List String
all_ids_of [] = []
all_ids_of (s ∷ steps) = let rest = all_ids_of steps in if s.id == "" then rest else s.id ∷ rest

-- for _, s := range d.Steps, with `ids` as `seen`
unfoldable pub validate_each : List String → List String → List Step → List ValidationError
validate_each all_ids seen [] = []
validate_each all_ids seen (s ∷ steps) =
    let missing = step_id_required ∷ validate_each all_ids seen steps in
    let checked =
      report (contains seen s.id) (duplicate_step_id s.id)
      ++ (map (step_error s.id) (validate_step all_ids s)
          ++ validate_each all_ids (s.id ∷ seen) steps) in
    if s.id == "" then missing else checked

unfoldable pub validate_steps : List Step → List ValidationError
unfolding all_ids_of validate_each
validate_steps steps = validate_each (all_ids_of steps) [] steps
