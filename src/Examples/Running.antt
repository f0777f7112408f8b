-- ===== src/Examples/Running.antt =====
-- Runs of small workflows.
use daggle.Prelude.{
  ℕ, ◌≤◌, String, ◌≡◌, refl, ◌⊎◌, inl, inr, Bool, true, false, List, [], ◌∷◌, map, Option, none,
  some, arith, ltb, if◌then◌else◌, ◌-◌, ◌+◌, All, concat,
}
use daggle.Prelude.Int.{pos, negsuc}
use daggle.Go.Duration.{parse_duration}
use daggle.Go.Strings.{to_upper, size}
use daggle.Engine.Step.{on_step_success, validation_failure, check_validation_failures}
use daggle.Dag.Model.{Assoc, Step, zero_step, Retry, Dag, EnvVar, Artifact}
use daggle.Dag.Matrix.{
  Order, write_combo, combine, sort_keys, insert_key, matrix_combinations, instances_of,
  matrix_instance, build_instances, matrix_instances,
}
use daggle.Dag.Matrix.Shared.{last_value, entries_of, instances_of-last_value}
use daggle.Go.Map.{get}
use daggle.Dag.TopoSort.{topo_sort, tiers}
use daggle.Dag.TopoSort.Build.{ids, IsDistinct}
use daggle.State.Event.{Event}
use daggle.Engine.Action.{Result, World}
use daggle.Engine.Retry.{
  max_attempts, attempt_count, IsTried, retry_delay, attempt_with, execute_with_retries,
}
use daggle.Engine.Retry.Attempts.{FirstSuccess, NoSuccess, execute_with_retries_cases}
use daggle.Engine.Retry.Status.{
  ReadsCompleted, execute_with_retries-status, on_step_success-unreported,
}
use daggle.Engine.Run.{Concurrency, run, run_tiers}
use daggle.Engine.Run.Cases.{Executed, run_tiers-Executed}
use daggle.Engine.Run.Dependencies.{RanAfterDependencies, run_tiers-RanAfterDependencies}
use daggle.Engine.Run.Status.{ReadsAs, log_of, run-ReadsAs}

-- The result of a command that ends after two milliseconds.
abbrev ended : Option String → Result
ended err = record {
  exit_code = pos 0;
  duration = pos 2_000_000;
  err = err;
  outputs = [];
  error_detail = "";
  summaries = [];
  metadata = [];
  validations = [];
  peak_rss_kb = pos 0;
  user_cpu_sec = 0;
  sys_cpu_sec = 0;
}

-- Each step succeeds in its second attempt.
abbrev second_try : ℕ → Result
second_try attempt = if ltb attempt 2 then ended (some "exit status 1") else ended none

abbrev world : World
world = record {
  condition_met = λ c. inl true;
  source_age = λ s f. inl (pos 0);
  cache_lookup = λ s. none;
  executor = λ s. some second_try;
  record_artifact = λ s a. inr "not found";
  redact = λ s. s;
  duration_text = λ d. "2ms";
  has_cache = false;
}

abbrev one_by_one : Concurrency
one_by_one = record { interleave = concat; arrival = λ errors. errors }

abbrev patient : Retry
patient = record { limit = pos 2; backoff = "exponential"; max_delay = "60s" }

abbrev load : Step
load = record zero_step { id = "load"; command = "load.sh"; retry = some patient }

abbrev fit : Step
fit = record zero_step {
  id = "fit";
  command = "fit.sh";
  retry = some patient;
  depends = "load" ∷ [];
}

abbrev both : List Step
both = fit ∷ load ∷ []

both_sorted : topo_sort both ≡ tiers ((load ∷ []) ∷ (fit ∷ []) ∷ [])
unfolding topo_sort zero_step
both_sorted = refl

both-IsDistinct : IsDistinct (ids both)
both-IsDistinct = (refl, (refl, tt))

load-IsTried : IsTried load
unfolding max_attempts zero_step
load-IsTried = omega arith

fit-IsTried : IsTried fit
unfolding max_attempts zero_step
fit-IsTried = omega arith

never : ℕ → Bool
never i = false

run_tiers-RanAfterDependencies_example :
    RanAfterDependencies world one_by_one
      ((load ∷ []) ∷ (fit ∷ []) ∷ [])
      (run_tiers world one_by_one never 0 ((load ∷ []) ∷ (fit ∷ []) ∷ []))
run_tiers-RanAfterDependencies_example =
    run_tiers-RanAfterDependencies world one_by_one never both ((load ∷ []) ∷ (fit ∷ []) ∷ [])
      both-IsDistinct (fit-IsTried, (load-IsTried, tt)) both_sorted

run_tiers-Executed_example :
    Executed world one_by_one never 0
      ((load ∷ []) ∷ (fit ∷ []) ∷ [])
      (run_tiers world one_by_one never 0 ((load ∷ []) ∷ (fit ∷ []) ∷ []))
run_tiers-Executed_example =
    run_tiers-Executed world one_by_one never 0 ((load ∷ []) ∷ (fit ∷ []) ∷ [])
      ((load-IsTried, tt), ((fit-IsTried, tt), tt))

abbrev training : Dag
training = record {
  version = "1";
  name = "training";
  trigger = none;
  env = none;
  params = [];
  steps = both;
  workdir = "";
  max_parallel = pos 0;
  owner = "";
  team = "";
  description = "";
  tags = [];
  exposures = [];
  r_version = "";
  r_version_strict = false;
  source_dir = "";
  on_success = none;
  on_failure = none;
  on_exit = none;
}

-- The entries of a combination in the order of the keys.
abbrev by_key : Order
by_key combo = combo

-- A line of the log is as long as its error and 200 bytes more.
abbrev line_size : Event → ℕ
line_size e = size e.error + 200

abbrev good_disk : ℕ → Bool
good_disk n = true

run-ReadsAs_example :
    ReadsAs line_size
      (log_of good_disk (λ n. n + 1) (run world one_by_one never by_key [] training none).trace)
      (run world one_by_one never by_key [] training none).err
run-ReadsAs_example =
    run-ReadsAs line_size good_disk (λ n. n + 1) world one_by_one never by_key [] training none
      (λ n. refl) (fit-IsTried, (load-IsTried, tt))

execute_with_retries_cases_example :
    FirstSuccess world load second_try
      (attempt_count (max_attempts load) - 1)
      1
      (execute_with_retries world load)
    ⊎ NoSuccess world load second_try
        (attempt_count (max_attempts load) - 1)
        1
        (execute_with_retries world load)
execute_with_retries_cases_example =
    execute_with_retries_cases world load second_try refl load-IsTried

-- One more than the largest int is negative, so that no attempt is made.
abbrev endless : Retry
endless = record { limit = pos 9_223_372_036_854_775_807; backoff = ""; max_delay = "" }

wrapped_attempts :
    max_attempts (record load { retry = some endless }) ≡ negsuc 9_223_372_036_854_775_807
unfolding max_attempts zero_step
wrapped_attempts = refl

load_executed : (execute_with_retries world load).err ≡ none
unfolding execute_with_retries attempt_with on_step_success zero_step
load_executed = refl

execute_with_retries-status_example :
    (attempt : ℕ) × (1 ≤ attempt)
    × (attempt ≤ attempt_count (max_attempts load))
    × ReadsCompleted load attempt (execute_with_retries world load).trace
execute_with_retries-status_example =
    execute_with_retries-status world load second_try refl load_executed

-- From the 35th attempt on the delay no longer fits in an int64, and the cap does not see it.
overflowed : retry_delay 35 (some patient) ≡ negsuc 1_266_874_889_709_551_615
unfolding retry_delay parse_duration
overflowed = refl

-- A matrix step with an environment of its own.
abbrev setting : EnvVar
setting = record { value = "4"; secret = false }

abbrev train : Step
train = record zero_step {
  id = "train";
  matrix = ("algo", "lm" ∷ "glm" ∷ []) ∷ [];
  env = some (("CORES", setting) ∷ []);
}

-- Both instances see the last combination's value.
train_env :
    map (λ i. i.env) (instances_of by_key train)
    ≡ some
        (("CORES", setting) ∷ ("DAGGLE_MATRIX_ALGO", record { value = "glm"; secret = false }) ∷ [])
      ∷ some (
          ("CORES", setting)
          ∷ ("DAGGLE_MATRIX_ALGO", record { value = "glm"; secret = false })
          ∷ [])
      ∷ []
unfolding matrix_instances build_instances matrix_instance write_combo matrix_combinations to_upper
    zero_step combine sort_keys insert_key
train_env = refl

instances_of-last_value_example :
    (final : Assoc EnvVar) × All (λ i. i.env ≡ some final) (instances_of by_key train)
    × ((name : String)
        → get final name
          ≡ last_value name
              (entries_of by_key (matrix_combinations (("algo", "lm" ∷ "glm" ∷ []) ∷ [])))
              (get (("CORES", setting) ∷ []) name))
instances_of-last_value_example =
    instances_of-last_value by_key train (("CORES", setting) ∷ []) "algo" ("lm" ∷ "glm" ∷ []) []
      refl refl

-- A step whose command succeeds without writing its artifact.
abbrev table : Artifact
table = record { name = "table"; path = "out.csv"; format = "csv"; versioned = false }

abbrev export : Step
export = record zero_step { id = "export"; command = "true"; artifacts = table ∷ [] }

export_valid : validation_failure export (ended none) ≡ none
unfolding zero_step check_validation_failures
export_valid = refl

export_fails : (on_step_success world export (ended none) 1).err ≡ some "not found"
unfolding on_step_success zero_step
export_fails = refl

on_step_success-unreported_example :
    ReadsCompleted export 1 (on_step_success world export (ended none) 1).trace
on_step_success-unreported_example =
    on_step_success-unreported world export (ended none) 1 "not found" export_valid export_fails
