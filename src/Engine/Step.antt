-- ===== src/Engine/Step.antt =====
-- What follows the attempts of a step (onStepSuccess and onStepFailure in internal/engine/retry.go,
-- outputs.go and artifacts.go).
use daggle.Prelude.{
  ℕ, String, ◌&&◌, ◌||◌, List, [], ◌∷◌, ◌++◌, Option, none, some, ◌==◌, ◌⊎◌, inl, inr,
  if◌then◌else◌, nat_eq, leb, ◌-◌,
}
use daggle.Go.Text.{Text, codes}
use daggle.Go.Strings.{text_append, join}
use daggle.Dag.Model.{Assoc, Step, Artifact, Hook}
use daggle.State.Event.{
  Event, event, ArtifactInfo, event_step_completed, event_step_failed, event_step_artifact,
}
use daggle.Engine.Action.{
  ValidationResult, Result, Action, wrote, ran_hook, set_output, summary_file, metadata_file,
  validation_file, saved_cache, Outcome, World, after,
}

-- writeEvent: the texts of an error are redacted.
abbrev pub write_event : World → Event → Action
write_event w e =
    wrote (record e { error = w.redact e.error; error_detail = w.redact e.error_detail })

-- strings.ToUpper, on ASCII
abbrev pub to_upper : Text → Text
to_upper [] = []
to_upper (c ∷ s) = (if leb b'a' c && leb c b'z' then c - 32 else c) ∷ to_upper s

-- strings.ReplaceAll(s, "-", "_")
abbrev pub underscores : Text → Text
underscores [] = []
underscores (c ∷ s) = (if nat_eq c b'-' then b'_' else c) ∷ underscores s

-- collectOutputs: each output is stored under a key that names the step.
abbrev pub output_key : String → String → Text
output_key id k =
    codes "DAGGLE_OUTPUT_" ++ to_upper (underscores (codes id)) ++ b'_' ∷ to_upper (codes k)

unfoldable pub collect_outputs : String → Assoc String → List Action
collect_outputs id [] = []
collect_outputs id ((k, v) ∷ outputs) = set_output (output_key id k) v ∷ collect_outputs id outputs

-- writeSummaryFile, writeMetadataFile and writeValidationFile write nothing where there is nothing.
abbrev pub unless_empty : {A : Type 0} → List A → Action → List Action
unless_empty [] a = []
unless_empty (x ∷ xs) a = a ∷ []

unfoldable pub write_files : String → Result → List Action
write_files id r =
    unless_empty r.summaries (summary_file id r.summaries)
    ++ unless_empty r.metadata (metadata_file id r.metadata)
    ++ unless_empty r.validations (validation_file id r.validations)

-- The names of the validations that failed.
abbrev pub failed_validations : List ValidationResult → List String
failed_validations [] = []
failed_validations (v ∷ vs) =
    let rest = failed_validations vs in if v.status == "fail" then v.name ∷ rest else rest

-- checkValidationFailures
abbrev pub validation_error : List String → Option String
validation_error [] = none
validation_error (x ∷ xs) = some (text_append "validation failed: " (join ", " (x ∷ xs)))

unfoldable pub check_validation_failures : List ValidationResult → Option String
check_validation_failures vs = validation_error (failed_validations vs)

-- verifyArtifacts: the artifacts up to the first that the file system refuses.
abbrev pub artifact_event : World → Step → ArtifactInfo → Action
artifact_event w s info =
    write_event w (record (event event_step_artifact) { step_id = s.id; artifact_info = some info })

-- One artifact: it is recorded, or the loop ends with an error.
abbrev pub settle_artifact : World → Step → ArtifactInfo ⊎ String → Outcome → Outcome
settle_artifact w s (inl info) rest = after (artifact_event w s info ∷ []) rest
settle_artifact w s (inr message) rest = record { trace = []; err = some message }

unfoldable pub verify_each : World → Step → List Artifact → Outcome
verify_each w s [] = record { trace = []; err = none }
verify_each w s (a ∷ artifacts) =
    settle_artifact w s (w.record_artifact s a) (verify_each w s artifacts)

-- The hook of a step, where it has one.
abbrev pub run_hook : Option Hook → String → List Action
run_hook none name = []
run_hook (some h) name = ran_hook h name ∷ []

abbrev pub hook_name : Step → String → String
hook_name s which = text_append "step " (text_append s.id which)

abbrev pub completed_event_of : World → Step → Result → ℕ → Event
completed_event_of w s r attempt = record (event event_step_completed) {
  step_id = s.id;
  exit_code = r.exit_code;
  duration = w.duration_text r.duration;
  error = w.redact "";
  error_detail = w.redact "";
  attempt = attempt;
  peak_rss_kb = r.peak_rss_kb;
  user_cpu_sec = r.user_cpu_sec;
  sys_cpu_sec = r.sys_cpu_sec;
}

-- The failure of a step whose attempt succeeded but whose validations did not.
abbrev pub invalid : World → Step → Result → ℕ → String → Outcome
invalid w s r attempt message = record {
  trace =
      write_event w (record (event event_step_failed) {
        step_id = s.id;
        error = message;
        duration = w.duration_text r.duration;
        attempt = attempt;
      })
      ∷ run_hook s.on_failure (hook_name s " on_failure");
  err = some message;
}

-- The cache is written and the hook runs once the artifacts are there.
abbrev pub ending : World → Step → Result → Option String → List Action
ending w s r (some message) = []
ending w s r none =
    (if s.cache && w.has_cache then saved_cache s.id r.outputs ∷ [] else [])
    ++ run_hook s.on_success (hook_name s " on_success")

abbrev pub finish_step : World → Step → Result → Outcome → Outcome
finish_step w s r o = record { trace = o.trace ++ ending w s r o.err; err = o.err }

-- Only with error_on "error", the default, are failed validations an error.
abbrev pub validation_failure : Step → Result → Option String
validation_failure s r =
    if s.error_on == "" || s.error_on == "error"
    then check_validation_failures r.validations
    else none

unfoldable pub settle_validations : World → Step → Result → ℕ → Option String → Outcome
unfolding verify_each
settle_validations w s r attempt none = finish_step w s r (verify_each w s s.artifacts)
settle_validations w s r attempt (some message) = invalid w s r attempt message

unfoldable pub on_step_success : World → Step → Result → ℕ → Outcome
unfolding collect_outputs write_files check_validation_failures settle_validations
on_step_success w s r attempt =
    after
      (wrote (completed_event_of w s r attempt) ∷ collect_outputs s.id r.outputs
        ++ write_files s.id r)
      (settle_validations w s r attempt (validation_failure s r))

unfoldable pub on_step_failure : World → Step → Result → String → ℕ → Outcome
on_step_failure w s r message max_attempts = record {
  trace =
      write_event w (record (event event_step_failed) {
        step_id = s.id;
        exit_code = r.exit_code;
        error = message;
        error_detail = r.error_detail;
        duration = w.duration_text r.duration;
        attempt = max_attempts;
      })
      ∷ run_hook s.on_failure (hook_name s " on_failure");
  err = some message;
}
