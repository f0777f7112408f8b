-- ===== src/Examples/Caching.antt =====
-- The keys and the plan of a small workflow with cached steps.
use daggle.Prelude.{String, ◌≡◌, ◌↔◌, refl, true, false, List, [], ◌∷◌, ◌++◌, none, some, ◌==◌}
use daggle.Go.Text.{codes}
use daggle.Go.Sort.{Reordered, swap, sort_texts, insert_text, text_less}
use daggle.Dag.Model.{Assoc, EnvMap, Dag, Step, zero_step}
use daggle.Dag.Workdir.{resolve_workdir}
use daggle.Archive.{Sha}
use daggle.Cache.{
  ReadFile, Texts, join_parts, step_parts, compute_step_key, step_cache_type, compute_cache_key,
  output_parts, renv_lock_hash, engine_parts, env_vars,
}
use daggle.Cache.Order.{compute_step_key-Reordered, compute_cache_key-exchanged}
use daggle.Cache.Distinct.{join_parts-step_parts-injective}
use daggle.Cache.Plan.{
  plan_parts, PlanEntry, PlanWorld, reason_for_outdated, plan_entry, compute_plan_from,
  compute_plan,
}
use daggle.Cache.Agreement.{IsShownCached, compute_plan-cached_iff}
use daggle.Cache.PlanKey.{plan_parts-engine_parts_iff}

-- The text itself stands for its digest.
abbrev as_is : Sha
as_is text = text

abbrev no_files : ReadFile
no_files path = none

abbrev var : String → String → EnvMap
var k v = some ((k, record { value = v; secret = false }) ∷ [])

abbrev workflow : Dag
workflow = record {
  version = "";
  name = "nightly";
  trigger = none;
  env = var "MODE" "full";
  params = [];
  steps = [];
  workdir = "";
  max_parallel = zero_step.max_parallel;
  owner = "";
  team = "";
  description = "";
  tags = [];
  exposures = [];
  r_version = "";
  r_version_strict = false;
  source_dir = "/srv/dags";
  on_success = none;
  on_failure = none;
  on_exit = none;
}

abbrev extract : Step
extract = record zero_step {
  id = "extract";
  command = "make data";
  env = var "MODE" "quick";
  cache = true;
}

abbrev report : Step
report = record zero_step {
  id = "report";
  r_expr = "render()";
  depends = "extract" ∷ [];
  cache = true;
}

relative_script :
    resolve_workdir workflow (record zero_step { workdir = "models" }) ≡ "/srv/dags/models"
unfolding resolve_workdir zero_step
relative_script = refl

-- The step runs with MODE=quick, and with MODE=full once the two variables are exchanged.
compute_cache_key-exchanged_example :
    compute_cache_key as_is no_files
      (record workflow { env = extract.env })
      (record extract { env = workflow.env })
      []
      none
    ≡ compute_cache_key as_is no_files workflow extract [] none
compute_cache_key-exchanged_example =
    compute_cache_key-exchanged as_is no_files workflow extract [] none

abbrev outputs : Texts
outputs = (codes "ROWS", codes "3") ∷ (codes "FILE", codes "a.csv") ∷ []

compute_step_key-Reordered_example :
    compute_step_key as_is (codes "command:ls") (codes "B=1" ∷ codes "A=2" ∷ []) outputs []
    ≡ compute_step_key as_is
        (codes "command:ls")
        (codes "A=2" ∷ codes "B=1" ∷ [])
        ((codes "FILE", codes "a.csv") ∷ (codes "ROWS", codes "3") ∷ [])
        []
compute_step_key-Reordered_example =
    compute_step_key-Reordered as_is (codes "command:ls") [] (swap (codes "B=1") (codes "A=2") [])
      (swap (codes "ROWS", codes "3") (codes "FILE", codes "a.csv") []) (refl, (refl, tt))

key_text :
    join_parts
      (step_parts (codes "command:ls") (codes "B=1" ∷ codes "A=2" ∷ []) outputs (codes "f0"))
    ≡ codes "command:ls"
      ++ (0 ∷ codes "env:A=2"
          ++ (0 ∷ codes "env:B=1"
              ++ (0 ∷ codes "output:FILE=a.csv"
                  ++ (0 ∷ codes "output:ROWS=3" ++ (0 ∷ codes "renv:f0")))))
unfolding join_parts step_parts sort_texts insert_text text_less
key_text = refl

join_parts-step_parts-injective_example :
    (codes "command:ls" ≡ codes "command:ls")
    × (sort_texts (codes "B=1" ∷ codes "A=2" ∷ []) ≡ sort_texts (codes "A=2" ∷ codes "B=1" ∷ []))
    × (output_parts outputs ≡ output_parts outputs)
    × (codes "f0" ≡ codes "f0")
unfolding step_parts sort_texts insert_text text_less
join_parts-step_parts-injective_example =
    join_parts-step_parts-injective (codes "command:ls") (codes "command:ls")
      (codes "B=1" ∷ codes "A=2" ∷ []) (codes "A=2" ∷ codes "B=1" ∷ []) outputs outputs (codes "f0")
      (codes "f0") (refl, (refl, (refl, (refl, (refl, (refl, tt))))))
      (refl, (refl, (refl, (refl, (refl, (refl, tt)))))) refl

-- A store that has an entry for every key, and one that has none for the first step.
abbrev full_store : PlanWorld
full_store = record { sha = as_is; read = no_files; lookup = λ d s k. true }

abbrev stale_store : PlanWorld
stale_store = record { sha = as_is; read = no_files; lookup = λ d s k. s == "report" }

stale_plan :
    compute_plan stale_store workflow (extract ∷ report ∷ [])
    ≡ record { step_id = "extract"; status = "outdated"; reason = "command changed" }
      ∷ record { step_id = "report"; status = "outdated"; reason = "upstream extract changed" }
      ∷ []
unfolding compute_plan compute_plan_from plan_entry reason_for_outdated zero_step
stale_plan = refl

compute_plan-cached_iff_example :
    (e : PlanEntry) × (rest : List PlanEntry) × (compute_plan full_store workflow
        (extract ∷ report ∷ [])
      ≡ compute_plan full_store workflow (extract ∷ []) ++ e ∷ rest)
    × (e.step_id ≡ "report")
    × ((e.status ≡ "cached")
        ↔ IsShownCached full_store workflow
            (compute_plan full_store workflow (extract ∷ []))
            report)
compute_plan-cached_iff_example =
    compute_plan-cached_iff full_store workflow (extract ∷ []) [] report

abbrev collected : Assoc String
collected = ("ROWS", "3") ∷ []

-- The variable of the workflow stands as a reference in the file, and is resolved for a run.
abbrev as_written : Dag
as_written = record workflow { env = var "MODE" "${env:MODE}" }

plan_parts-engine_parts_iff_example :
    (join_parts (plan_parts no_files as_written extract)
      ≡ join_parts (engine_parts no_files workflow extract collected (some "f0")))
    ↔ ((step_cache_type no_files extract as_written ≡ step_cache_type no_files extract workflow)
        × Reordered (env_vars as_written extract) (env_vars workflow extract)
        × (collected ≡ [])
        × (renv_lock_hash (some "f0") ≡ []))
unfolding plan_parts engine_parts step_parts step_cache_type zero_step sort_texts insert_text
    text_less
plan_parts-engine_parts_iff_example =
    plan_parts-engine_parts_iff no_files no_files as_written workflow extract extract collected
      (some "f0") (refl, (refl, (refl, tt))) (refl, (refl, (refl, (refl, (refl, tt)))))
