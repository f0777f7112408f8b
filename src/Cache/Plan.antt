-- ===== src/Cache/Plan.antt =====
-- What `daggle plan` says of each step (computePlan in internal/cli/plan.go). Looking a key up in
-- the store is a parameter.
use daggle.Prelude.{
  String, Bool, true, false, not, List, [], ◌∷◌, Option, none, some, ◌==◌, if◌then◌else◌, contains,
}
use daggle.Go.Text.{Text}
use daggle.Go.Strings.{text_append}
use daggle.Dag.Model.{Dag, Step}
use daggle.Archive.{Sha}
use daggle.Cache.{ReadFile, step_cache_type, env_vars, step_parts, compute_key}

pub record PlanEntry : Type 0 where
  pub step_id : String
  pub status : String
  pub reason : String

-- SHA-256, the script files, and whether the store has an entry for a workflow, a step and a key.
pub record PlanWorld : Type 0 where
  pub sha : Sha
  pub read : ReadFile
  pub lookup : String → String → Text → Bool

unfoldable pub reason_for_outdated : Step → String
reason_for_outdated s =
    if not (s.script == "")
    then text_append "script " (text_append s.script " changed")
    else if not (s.r_expr == "")
    then "r_expr changed"
    else if not (s.command == "")
    then "command changed"
    else "inputs changed"

-- The first dependency that is outdated, as far as it has an id.
abbrev pub upstream_outdated : List String → List String → Option String
upstream_outdated outdated [] = none
upstream_outdated outdated (dep ∷ depends) =
    let rest = upstream_outdated outdated depends in
    if contains outdated dep then some dep else rest

-- The parts of the key that the plan asks for. The workflow is as it stands in its file, with the
-- default parameters: planDAG does not resolve the references in its variables.
unfoldable pub plan_parts : ReadFile → Dag → Step → List Text
unfolding step_parts step_cache_type
plan_parts read d s = step_parts (step_cache_type read s d) (env_vars d s) [] []

-- cache.ComputeStepKey(stepType, envVars, nil, "")
unfoldable pub plan_key : PlanWorld → Dag → Step → Text
unfolding compute_key plan_parts
plan_key w d s = compute_key w.sha (plan_parts w.read d s)

-- The entry of a step, given the steps found outdated so far.
abbrev pub looked_up : Bool → Step → PlanEntry
looked_up true s = record { step_id = s.id; status = "cached"; reason = "" }
looked_up false s = record { step_id = s.id; status = "outdated"; reason = reason_for_outdated s }

abbrev pub upstream_entry : PlanWorld → Dag → Step → Option String → PlanEntry
upstream_entry w d s none = looked_up (w.lookup d.name s.id (plan_key w d s)) s
upstream_entry w d s (some dep) = record {
  step_id = s.id;
  status = "outdated";
  reason = text_append "upstream " (text_append dep " changed");
}

abbrev pub no_cache : Step → PlanEntry
no_cache s = record { step_id = s.id; status = "no-cache"; reason = "caching not enabled" }

unfoldable pub plan_entry : PlanWorld → Dag → List String → Step → PlanEntry
unfolding plan_key reason_for_outdated
plan_entry w d outdated s =
    if s.cache then upstream_entry w d s (upstream_outdated outdated s.depends) else no_cache s

abbrev pub with_outdated : PlanEntry → List String → List String
with_outdated e outdated = if e.status == "outdated" then e.step_id ∷ outdated else outdated

unfoldable pub compute_plan_from : PlanWorld → Dag → List String → List Step → List PlanEntry
unfolding plan_entry
compute_plan_from w d outdated [] = []
compute_plan_from w d outdated (s ∷ steps) =
    let e = plan_entry w d outdated s in e ∷ compute_plan_from w d (with_outdated e outdated) steps

unfoldable pub compute_plan : PlanWorld → Dag → List Step → List PlanEntry
unfolding compute_plan_from
compute_plan w d steps = compute_plan_from w d [] steps
