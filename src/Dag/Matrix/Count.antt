-- ===== src/Dag/Matrix/Count.antt =====
-- How many steps a matrix makes.
use daggle.Prelude.{
  ℕ, ◌+◌, ◌*◌, String, ◌≡◌, refl, List, [], ◌∷◌, map, arith, length, length-append, Bool-cases, inl,
  inr, ◌∙◌, ap, All, All-append,
}
use native.Mathlib.Nat.{mul_left_comm, mul_assoc}
use daggle.Go.Strings.{text_less}
use daggle.Dag.Model.{Assoc, EnvVar, Step}
use daggle.Dag.Matrix.{
  Combo, Order, insert_key, sort_keys, extend_combo, extend_combos, combine, matrix_combinations,
  instances_by, instances_of, matrix_instance, matrix_instances, build_instances, write_env,
  with_env, env_contents, expand_steps, expand_matrix, rename_depends, replacements,
}

-- The product of the numbers of values.
abbrev pub product : Assoc (List String) → ℕ
product [] = 1
product ((k, vals) ∷ m) = length vals * product m

insert_key-product :
    (k : String) (vals : List String) (m : Assoc (List String))
    → product (insert_key k vals m) ≡ length vals * product m
unfolding insert_key
insert_key-product k vals [] = refl
insert_key-product k vals ((j, us) ∷ m) = elim (Bool-cases (text_less j k)) [
  | inl b ↦ rw b (
      ap (λ n. length us * n) (insert_key-product k vals m)
      ∙ mul_left_comm (length us) (length vals) (product m))
  | inr b ↦ rw b refl
]

sort_keys-product : (m : Assoc (List String)) → product (sort_keys m) ≡ product m
unfolding sort_keys
sort_keys-product [] = refl
sort_keys-product ((k, vals) ∷ m) =
    insert_key-product k vals (sort_keys m) ∙ ap (λ n. length vals * n) (sort_keys-product m)

extend_combo-length :
    (c : Combo) (k : String) (vals : List String) → length (extend_combo c k vals) ≡ length vals
extend_combo-length c k [] = refl
extend_combo-length c k (v ∷ vals) = omega (arith, extend_combo-length c k vals)

extend_combos-length :
    (cs : List Combo) (k : String) (vals : List String)
    → length (extend_combos cs k vals) ≡ length cs * length vals
extend_combos-length [] k vals = omega arith
extend_combos-length (c ∷ cs) k vals = omega (
  arith,
  length-append (extend_combo c k vals) (extend_combos cs k vals),
  extend_combo-length c k vals,
  extend_combos-length cs k vals,
)

combine-length :
    (m : Assoc (List String)) (cs : List Combo) → length (combine m cs) ≡ length cs * product m
unfolding combine
combine-length [] cs = omega arith
combine-length ((k, vals) ∷ m) cs =
    combine-length m (extend_combos cs k vals)
    ∙ ap (λ n. n * product m) (extend_combos-length cs k vals)
    ∙ mul_assoc (length cs) (length vals) (product m)

length-map {ℓ κ} :
    {A : Type ℓ} {B : Type κ} (f : A → B) (xs : List A) → length (map f xs) ≡ length xs
length-map f [] = refl
length-map f (x ∷ xs) = omega (arith, length-map f xs)

-- How many instances a step has.
abbrev pub count_by : Assoc (List String) → ℕ
count_by [] = 1
count_by (e ∷ m) = product (e ∷ m)

abbrev pub instance_count : Step → ℕ
instance_count s = count_by s.matrix

abbrev pub total_instances : List Step → ℕ
total_instances [] = 0
total_instances (s ∷ steps) = instance_count s + total_instances steps

build_instances-length :
    (order : Order) (s : Step) (combos : List Combo) (contents : Assoc EnvVar)
    → length (build_instances order s combos contents).0 ≡ length combos
unfolding build_instances
build_instances-length order s [] contents = refl
build_instances-length order s (combo ∷ combos) contents =
    omega (arith, build_instances-length order s combos (write_env (order combo) s.env contents).1)

matrix_instances-length :
    (order : Order) (s : Step) (combos : List Combo)
    → length (matrix_instances order s combos) ≡ length combos
unfolding matrix_instances
matrix_instances-length order s combos =
    let made = build_instances order s combos (env_contents s.env) in
    length-map (with_env made.1) made.0 ∙ build_instances-length order s combos (env_contents s.env)

instances_by-length :
    (order : Order) (s : Step) (m : Assoc (List String))
    → length (instances_by order s m) ≡ count_by m
unfolding matrix_combinations
instances_by-length order s [] = refl
instances_by-length order s (e ∷ m) =
    matrix_instances-length order s (matrix_combinations (e ∷ m))
    ∙ combine-length (sort_keys (e ∷ m)) ([] ∷ [])
    ∙ omega (arith, sort_keys-product (e ∷ m))

expand_steps-length :
    (order : Order) (steps : List Step) → length (expand_steps order steps) ≡ total_instances steps
unfolding expand_steps
expand_steps-length order [] = refl
expand_steps-length order (s ∷ steps) = omega (
  arith,
  length-append (instances_of order s) (expand_steps order steps),
  instances_by-length order s s.matrix,
  expand_steps-length order steps,
)

-- `ExpandMatrix` makes of each step with a matrix as many steps as the product of the numbers of
-- its values, and of every other step one.
pub expand_matrix-length :
    (order : Order) (steps : List Step) → length (expand_matrix order steps) ≡ total_instances steps
unfolding expand_matrix
expand_matrix-length order steps =
    length-map (rename_depends _) (expand_steps order steps) ∙ expand_steps-length order steps

-- The step is not a matrix step.
abbrev pub IsConcrete : Step → Type 0
IsConcrete s = s.matrix ≡ []

build_instances-IsConcrete :
    (order : Order) (s : Step) (combos : List Combo) (contents final : Assoc EnvVar)
    → All IsConcrete (map (with_env final) (build_instances order s combos contents).0)
unfolding build_instances matrix_instance
build_instances-IsConcrete order s [] contents final = tt
build_instances-IsConcrete order s (combo ∷ combos) contents final = (
  refl,
  build_instances-IsConcrete order s combos (write_env (order combo) s.env contents).1 final,
)

instances_by-IsConcrete :
    (order : Order) (s : Step) (m : Assoc (List String))
    → s.matrix ≡ m
    → All IsConcrete (instances_by order s m)
unfolding matrix_instances
instances_by-IsConcrete order s [] e = (e, tt)
instances_by-IsConcrete order s (x ∷ m) e =
    build_instances-IsConcrete order s (matrix_combinations (x ∷ m)) (env_contents s.env) _

expand_steps-IsConcrete :
    (order : Order) (steps : List Step) → All IsConcrete (expand_steps order steps)
unfolding expand_steps
expand_steps-IsConcrete order [] = tt
expand_steps-IsConcrete order (s ∷ steps) =
    All-append IsConcrete (instances_of order s) (expand_steps order steps)
      (instances_by-IsConcrete order s s.matrix refl) (expand_steps-IsConcrete order steps)

renamed-IsConcrete :
    (m : Assoc (List String)) (steps : List Step)
    → All IsConcrete steps
    → All IsConcrete (map (rename_depends m) steps)
renamed-IsConcrete m [] h = tt
renamed-IsConcrete m (s ∷ steps) h = (h.0, renamed-IsConcrete m steps h.1)

-- No step that `ExpandMatrix` returns has a matrix.
expand_matrix-IsConcrete :
    (order : Order) (steps : List Step) → All IsConcrete (expand_matrix order steps)
unfolding expand_matrix
expand_matrix-IsConcrete order steps =
    renamed-IsConcrete (replacements order steps) (expand_steps order steps)
      (expand_steps-IsConcrete order steps)
