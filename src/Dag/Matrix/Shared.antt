-- ===== src/Dag/Matrix/Shared.antt =====
-- The environments of the instances of one matrix step.
use daggle.Prelude.{
  String, ◌≡◌, refl, sym, subst, ap, ◌∙◌, false, List, [], ◌∷◌, ◌++◌, map, All, Option, some,
  concat, ◌==◌, if◌then◌else◌,
}
use daggle.Go.Map.{get, put, get-put}
use daggle.Dag.Model.{Assoc, EnvVar, Step}
use daggle.Dag.Matrix.{
  Combo, Order, matrix_combinations, env_name, write_combo, write_env, build_instances, with_env,
  env_contents, matrix_instances, instances_by, instances_of,
}

-- The value that the last entry for a variable gives it, or the one before all of them.
abbrev pub last_value : String → Combo → Option EnvVar → Option EnvVar
last_value name [] before = before
last_value name ((k, v) ∷ entries) before =
    last_value name entries
      (if env_name k == name then some (record { value = v; secret = false }) else before)

last_value-append :
    (name : String) (xs ys : Combo) (before : Option EnvVar)
    → last_value name (xs ++ ys) before ≡ last_value name ys (last_value name xs before)
last_value-append name [] ys before = refl
last_value-append name ((k, v) ∷ xs) ys before = last_value-append name xs ys _

get-write_combo :
    (combo : Combo) (env : Assoc EnvVar) (name : String)
    → get (write_combo combo env) name ≡ last_value name combo (get env name)
unfolding write_combo
get-write_combo [] env name = refl
get-write_combo ((k, v) ∷ combo) env name =
    get-write_combo combo (put env (env_name k) (record { value = v; secret = false })) name
    ∙ ap (last_value name combo)
        (get-put env (env_name k) name (record { value = v; secret = false }))

-- All entries of the combinations, in the order in which Go walks them.
abbrev pub entries_of : Order → List Combo → Combo
entries_of order combos = concat (map order combos)

module _ (order : Order) (s : Step) (env : Assoc EnvVar) (given : s.env ≡ some env) where
  next_contents :
      (combo : Combo) (contents : Assoc EnvVar)
      → (write_env (order combo) s.env contents).1 ≡ write_combo (order combo) contents
  next_contents combo contents = rw given refl

  -- The contents of the step's map at the end.
  build_instances-contents :
      (combos : List Combo) (contents : Assoc EnvVar) (name : String)
      → get (build_instances order s combos contents).1 name
        ≡ last_value name (entries_of order combos) (get contents name)
  unfolding build_instances
  build_instances-contents [] contents name = refl
  build_instances-contents (combo ∷ combos) contents name =
      build_instances-contents combos (write_env (order combo) s.env contents).1 name
      ∙ ap (λ m. last_value name (entries_of order combos) (get m name))
          (next_contents combo contents)
      ∙ ap (last_value name (entries_of order combos)) (get-write_combo (order combo) contents name)
      ∙ sym (last_value-append name (order combo) (entries_of order combos) (get contents name))

  -- Every instance refers to it.
  build_instances-shared :
      (combos : List Combo) (contents final : Assoc EnvVar)
      → All
          (λ i. i.env ≡ some final)
          (map (with_env final) (build_instances order s combos contents).0)
  unfolding build_instances
  build_instances-shared [] contents final = tt
  build_instances-shared (combo ∷ combos) contents final = (
    rw given refl,
    build_instances-shared combos (write_env (order combo) s.env contents).1 final,
  )

  matrix_instances-shared :
      (combos : List Combo)
      → (final : Assoc EnvVar) × All (λ i. i.env ≡ some final) (matrix_instances order s combos)
        × ((name : String)
            → get final name ≡ last_value name (entries_of order combos) (get env name))
  unfolding matrix_instances
  matrix_instances-shared combos =
      let final = (build_instances order s combos (env_contents s.env)).1 in
      let same : env_contents s.env ≡ env = ap env_contents given in
      (
        final,
        build_instances-shared combos (env_contents s.env) final,
        λ name.
            build_instances-contents combos (env_contents s.env) name
            ∙ ap (λ m. last_value name (entries_of order combos) (get m name)) same,
      )

-- The instances of a matrix step that declares an `env` all end with one and the same environment, in
-- which each variable has the value that the last combination with it gives, whichever combination
-- the instance was made for, and a variable of no combination the value that the step gives.
pub instances_of-last_value :
    (order : Order) (s : Step) (env : Assoc EnvVar) (k : String) (vals : List String)
    (m : Assoc (List String))
    → s.env ≡ some env
    → s.matrix ≡ (k, vals) ∷ m
    → (final : Assoc EnvVar) × All (λ i. i.env ≡ some final) (instances_of order s)
      × ((name : String)
          → get final name
            ≡ last_value name
                (entries_of order (matrix_combinations ((k, vals) ∷ m)))
                (get env name))
instances_of-last_value order s env k vals m given h =
    subst
      (λ u.
        (final : Assoc EnvVar) × All (λ i. i.env ≡ some final) (instances_by order s u)
        × ((name : String)
            → get final name
              ≡ last_value name (entries_of order (matrix_combinations ((k, vals) ∷ m)))
                  (get env name)))
      (sym h) (matrix_instances-shared order s env given (matrix_combinations ((k, vals) ∷ m)))
