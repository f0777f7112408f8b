-- ===== src/Cache.antt =====
-- The keys of the step cache: cache/cache.go and internal/engine/cache.go. SHA-256 is a parameter,
-- and so is what reading the script file gives. A text is the list of its bytes. A map is the list
-- of its entries in the order in which `range` gives them.
pub mod Order
pub mod Distinct
pub mod Plan
pub mod Agreement
pub mod PlanKey
use daggle.Prelude.{String, not, List, [], ◌∷◌, ◌++◌, map, Option, none, some, ◌==◌, if◌then◌else◌}
use daggle.Go.Text.{Text, codes, is_abs, is_empty, text_eq}
use daggle.Go.Hex.{hex_encode}
use daggle.Go.Sort.{sort_texts}
use daggle.Dag.Model.{Assoc, EnvVar, EnvMap, Dag, Step}
use daggle.Dag.StepTypes.{step_type}
use daggle.Dag.Workdir.{join_paths, resolve_workdir}
use daggle.Archive.{Sha}

-- map[string]string
abbrev pub Texts : Type 0
Texts = List (Text × Text)

-- m[k], which is "" for a key that is missing
abbrev pub value_of : Texts → Text → Text
value_of [] k = []
value_of ((j, v) ∷ m) k = let rest = value_of m k in if text_eq j k then v else rest

abbrev pub text_keys : Texts → List Text
text_keys [] = []
text_keys ((k, v) ∷ m) = k ∷ text_keys m

-- strings.Join(parts, "\x00")
unfoldable pub join_parts : List Text → Text
join_parts [] = []
join_parts (p ∷ []) = p
join_parts (p ∷ q ∷ ps) = p ++ (0 ∷ join_parts (q ∷ ps))

unfoldable pub compute_key : Sha → List Text → Text
compute_key sha parts = hex_encode (sha (join_parts parts))

abbrev pub env_part : Text → Text
env_part ev = codes "env:" ++ ev

abbrev pub output_part : Texts → Text → Text
output_part outputs k = codes "output:" ++ (k ++ (b'=' ∷ value_of outputs k))

abbrev pub renv_part : Text → List Text
renv_part hash = if is_empty hash then [] else (codes "renv:" ++ hash) ∷ []

abbrev pub output_parts : Texts → List Text
output_parts outputs = map (output_part outputs) (sort_texts (text_keys outputs))

-- The parts that ComputeStepKey joins.
unfoldable pub step_parts : Text → List Text → Texts → Text → List Text
step_parts kind env outputs renv_lock =
    kind ∷ (map env_part (sort_texts env) ++ (output_parts outputs ++ renv_part renv_lock))

unfoldable pub compute_step_key : Sha → Text → List Text → Texts → Text → Text
unfolding compute_key step_parts
compute_step_key sha kind env outputs renv_lock =
    compute_key sha (step_parts kind env outputs renv_lock)

-- os.ReadFile
abbrev pub ReadFile : Type 0
ReadFile = String → Option Text

abbrev pub script_path : Dag → Step → String
script_path d s =
    if is_abs (codes s.script) then s.script else join_paths (resolve_workdir d s) s.script

abbrev pub script_content : Option Text → String → Text
script_content none script = codes "script:" ++ codes script
script_content (some content) script = codes "script:" ++ content

-- StepCacheType
unfoldable pub step_cache_type : ReadFile → Step → Dag → Text
unfolding resolve_workdir
step_cache_type read s d =
    if not (s.script == "")
    then script_content (read (script_path d s)) s.script
    else if not (s.r_expr == "")
    then codes "r_expr:" ++ codes s.r_expr
    else if not (s.command == "")
    then codes "command:" ++ codes s.command
    else codes "type:" ++ codes (step_type s)

abbrev pub env_pair : String × EnvVar → Text
env_pair (k, v) = codes k ++ (b'=' ∷ codes v.value)

abbrev pub env_pairs : EnvMap → List Text
env_pairs none = []
env_pairs (some env) = map env_pair env

-- The variables of the workflow, then those of the step.
abbrev pub env_vars : Dag → Step → List Text
env_vars d s = env_pairs d.env ++ env_pairs s.env

abbrev pub texts_of : Assoc String → Texts
texts_of [] = []
texts_of ((k, v) ∷ m) = (codes k, codes v) ∷ texts_of m

-- `e.meta.RenvLockHash`, where the run has metadata
abbrev pub renv_lock_hash : Option String → Text
renv_lock_hash none = []
renv_lock_hash (some hash) = codes hash

-- The parts of the engine's key for a step, given the outputs collected so far. The workflow and the
-- step are those of the run: with its parameters, and after `ResolveEnv`.
unfoldable pub engine_parts : ReadFile → Dag → Step → Assoc String → Option String → List Text
unfolding step_parts step_cache_type
engine_parts read d s outputs meta =
    step_parts (step_cache_type read s d) (env_vars d s) (texts_of outputs) (renv_lock_hash meta)

-- computeCacheKey, which calls ComputeStepKey
unfoldable pub compute_cache_key : Sha → ReadFile → Dag → Step → Assoc String → Option String → Text
unfolding compute_key engine_parts
compute_cache_key sha read d s outputs meta = compute_key sha (engine_parts read d s outputs meta)
