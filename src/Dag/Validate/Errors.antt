-- ===== src/Dag/Validate/Errors.antt =====
-- The messages of dag/validate.go: one constructor for each format, with its arguments. Where the
-- source prints an error of `time.ParseDuration` at the end, the argument is the text refused.
use daggle.Prelude.{ℕ, String}
use daggle.Prelude.Int.{ℤ}

pub data VersionError : Type 0 where
  bad_operator bad_part_count not_numeric : VersionError

pub data DeadlineError : Type 0 where
  bad_format cannot_parse hour_out_of_range minute_out_of_range : DeadlineError

-- What is wrong with a step; the step's id stands beside it.
pub data StepError : Type 0 where
  no_type multiple_types : StepError
  connect_type_required connect_path_required : StepError
  connect_type_invalid : String → StepError
  database_driver_required database_query_required database_query_both : StepError
  database_output_required : StepError
  database_driver_invalid database_output_extension : String → StepError
  email_channel_required email_subject_required email_body_required email_body_both : StepError
  docker_image_required docker_command_required : StepError
  docker_pull_invalid : String → StepError
  docker_volume_form : ℕ → String → StepError
  unknown_dependency timeout_invalid approve_timeout_invalid error_on_invalid : String → StepError
  artifact_name_required : StepError
  artifact_name_form artifact_duplicate artifact_path_required : String → StepError
  artifact_path_absolute : String → String → StepError
  freshness_path_required freshness_max_age_required : ℕ → StepError
  freshness_max_age_invalid freshness_on_stale_invalid : ℕ → String → StepError
  cache_with_approve cache_with_call : StepError
  retry_limit_negative retry_backoff_invalid : StepError
  retry_max_delay_invalid : String → StepError

pub data TriggerError : Type 0 where
  overlap_invalid catchup_invalid : String → TriggerError
  catchup_without_schedule watch_path_required : TriggerError
  watch_debounce_invalid : String → TriggerError
  on_dag_name_required : TriggerError
  on_dag_status_invalid : String → TriggerError
  condition_empty : TriggerError
  condition_poll_interval_invalid git_poll_interval_invalid git_event_invalid :
      String → TriggerError
  deadline_invalid : String → DeadlineError → TriggerError
  on_deadline_without_deadline : TriggerError

pub data HookPlace : Type 0 where
  on_success on_failure on_exit on_deadline : HookPlace
  approve_notify : String → HookPlace

pub data HookError : Type 0 where
  hook_empty hook_multiple : HookError
  unknown_channel : String → HookError

pub data ExposureError : Type 0 where
  name_required type_required : ExposureError
  duplicate_name type_invalid : String → ExposureError

pub data ValidationError : Type 0 where
  name_missing no_steps step_id_required : ValidationError
  max_parallel_negative : ℤ → ValidationError
  duplicate_step_id : String → ValidationError
  step_error : String → StepError → ValidationError
  r_version_invalid : String → VersionError → ValidationError
  trigger_error : TriggerError → ValidationError
  hook_error : HookPlace → HookError → ValidationError
  exposure_error : ℕ → ExposureError → ValidationError
  cycle_detected : ℕ → ValidationError
