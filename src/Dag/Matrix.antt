-- ===== src/Dag/Matrix.antt =====
-- Matrix steps (dag/matrix.go): a step with a matrix becomes one step for each combination of its
-- values. Go leaves the order of a `range` over a map open: `Order` is the order of a combination's
-- entries. The copies of a step hold the same map in their Env, which is modelled as a reference
-- (`EnvRef`) and the contents that it refers to.
pub mod Count
pub mod Shared
use daggle.Prelude.{
  String, Bool, true, false, List, [], ◌∷◌, ◌++◌, map, Option, none, some, ◌==◌, if◌then◌else◌,
}
use daggle.Go.Map.{put}
use daggle.Go.Strings.{text_append, join, text_less, to_upper, Pair, replace}
use daggle.Dag.Model.{Assoc, EnvVar, EnvMap, Step}

abbrev pub Combo : Type 0
Combo = Assoc String

-- for k, v := range combo
abbrev pub Order : Type 0
Order = Combo → Combo

-- sort.Strings(keys), each key with its values
unfoldable pub insert_key : String → List String → Assoc (List String) → Assoc (List String)
insert_key k vals [] = (k, vals) ∷ []
insert_key k vals ((j, us) ∷ m) =
    let rest = insert_key k vals m in
    if text_less j k then (j, us) ∷ rest else (k, vals) ∷ (j, us) ∷ m

unfoldable pub sort_keys : Assoc (List String) → Assoc (List String)
sort_keys [] = []
sort_keys ((k, vals) ∷ m) = insert_key k vals (sort_keys m)

-- newCombo[key] = val, for each value
abbrev pub extend_combo : Combo → String → List String → List Combo
extend_combo combo key [] = []
extend_combo combo key (val ∷ vals) = (combo ++ (key, val) ∷ []) ∷ extend_combo combo key vals

abbrev pub extend_combos : List Combo → String → List String → List Combo
extend_combos [] key vals = []
extend_combos (combo ∷ combos) key vals =
    extend_combo combo key vals ++ extend_combos combos key vals

unfoldable pub combine : Assoc (List String) → List Combo → List Combo
combine [] combos = combos
combine ((key, vals) ∷ m) combos = combine m (extend_combos combos key vals)

unfoldable pub matrix_combinations : Assoc (List String) → List Combo
matrix_combinations m = combine (sort_keys m) ([] ∷ [])

-- fmt.Sprintf("%s_%s", k, v)
abbrev pub id_parts : Combo → List String
id_parts [] = []
id_parts ((k, v) ∷ combo) = text_append k (text_append "_" v) ∷ id_parts combo

abbrev pub instance_id : String → Combo → String
instance_id id combo = text_append id (text_append "-" (join "-" (id_parts combo)))

-- "DAGGLE_MATRIX_"+strings.ToUpper(k)
abbrev pub env_name : String → String
env_name k = text_append "DAGGLE_MATRIX_" (to_upper k)

-- for k, v := range combo, over the entries in the order of the walk
unfoldable pub write_combo : Combo → Assoc EnvVar → Assoc EnvVar
write_combo [] env = env
write_combo ((k, v) ∷ combo) env =
    write_combo combo (put env (env_name k) (record { value = v; secret = false }))

-- What the field Env of an instance refers to: the map of its step, which the copies of the step
-- share, or a map that was made for it.
pub data EnvRef : Type 0 where
  step_map : EnvRef
  own_map : Assoc EnvVar → EnvRef

-- The Env of one instance, and the contents of the step's map once its values have been written:
-- to a new map where the Env of the step is nil, else to the step's.
abbrev pub write_env : Combo → EnvMap → Assoc EnvVar → EnvRef × Assoc EnvVar
write_env combo none contents = (own_map (write_combo combo []), contents)
write_env combo (some env) contents = (step_map, write_combo combo contents)

-- matrixReplacer
abbrev pub matrix_replacer : Combo → List Pair
matrix_replacer [] = []
matrix_replacer ((k, v) ∷ combo) =
    record { old = text_append "{{ .Matrix." (text_append k " }}"); new = v }
    ∷ record { old = text_append "{{.Matrix." (text_append k "}}"); new = v }
    ∷ matrix_replacer combo

-- The step of one combination, with the Env of the step.
unfoldable pub matrix_instance : Order → Step → Combo → Step
matrix_instance order s combo =
    let rep = replace (matrix_replacer (order combo)) in
    record s {
      id = instance_id s.id (order combo);
      args = map rep s.args;
      output_dir = rep s.output_dir;
      output_name = rep s.output_name;
      matrix = [];
    }

-- for _, combo := range combos: the instances with what their Env refers to, and the contents of the
-- step's map at the end.
unfoldable pub build_instances :
    Order → Step → List Combo → Assoc EnvVar → List (Step × EnvRef) × Assoc EnvVar
unfolding matrix_instance write_combo
build_instances order s [] contents = ([], contents)
build_instances order s (combo ∷ combos) contents =
    let (ref, written) = write_env (order combo) s.env contents in
    let (later, final) = build_instances order s combos written in
    ((matrix_instance order s combo, ref) ∷ later, final)

-- What an instance reads in its Env once all of them are made.
abbrev pub read_env : Assoc EnvVar → EnvRef → EnvMap
read_env contents step_map = some contents
read_env contents (own_map env) = some env

abbrev pub with_env : Assoc EnvVar → Step × EnvRef → Step
with_env contents (s, ref) = record s { env = read_env contents ref }

abbrev pub env_contents : EnvMap → Assoc EnvVar
env_contents none = []
env_contents (some env) = env

unfoldable pub matrix_instances : Order → Step → List Combo → List Step
unfolding build_instances
matrix_instances order s combos =
    let (made, contents) = build_instances order s combos (env_contents s.env) in
    map (with_env contents) made

-- What a step becomes before dependencies are rewritten.
abbrev pub instances_by : Order → Step → Assoc (List String) → List Step
instances_by order s [] = s ∷ []
instances_by order s (e ∷ m) = matrix_instances order s (matrix_combinations (e ∷ m))

abbrev pub instances_of : Order → Step → List Step
instances_of order s = instances_by order s s.matrix

abbrev pub step_ids : List Step → List String
step_ids [] = []
step_ids (s ∷ steps) = s.id ∷ step_ids steps

-- `replacements`: the ids of the instances of each matrix step; the last step with an id wins.
unfoldable pub replacements : Order → List Step → Assoc (List String)
replacements order [] = []
replacements order (s ∷ steps) =
    replacements order steps
    ++ elim s.matrix [ [] ↦ [] | ◌∷◌ e m ↦ (s.id, step_ids (instances_of order s)) ∷ [] ]

abbrev pub lookup : String → Assoc (List String) → Option (List String)
lookup k [] = none
lookup k ((j, ids) ∷ m) = let rest = lookup k m in if j == k then some ids else rest

abbrev pub ids_for : String → Option (List String) → List String
ids_for dep none = dep ∷ []
ids_for dep (some ids) = ids

unfoldable pub expand_deps : Assoc (List String) → List String → List String
expand_deps m [] = []
expand_deps m (dep ∷ deps) = ids_for dep (lookup dep m) ++ expand_deps m deps

unfoldable pub expand_steps : Order → List Step → List Step
unfolding matrix_instances matrix_combinations
expand_steps order [] = []
expand_steps order (s ∷ steps) = instances_of order s ++ expand_steps order steps

-- A dependency on a matrix step becomes one on each of its instances.
abbrev pub rename_depends : Assoc (List String) → Step → Step
rename_depends m s = record s { depends = expand_deps m s.depends }

unfoldable pub expand_matrix : Order → List Step → List Step
unfolding expand_steps expand_deps replacements
expand_matrix order steps =
    map (rename_depends (replacements order steps)) (expand_steps order steps)
