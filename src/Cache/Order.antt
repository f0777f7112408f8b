-- ===== src/Cache/Order.antt =====
-- The keys of the step cache and the order in which Go walks a map: what `ComputeStepKey` and
-- `computeCacheKey` make of reordered entries.
use daggle.Prelude.{
  ◌≡◌, refl, sym, ap, ◌∙◌, subst, String, Bool, false, ◌||◌, List, [], ◌∷◌, ◌++◌, map, Option,
  append-nil, arith,
}
use daggle.Go.Text.{Text, text_eq}
use daggle.Go.TextLaws.{text_eq_iff}
use daggle.Go.Sort.{sort_texts, Reordered, same, keep, swap, after, sort_texts-Reordered}
use daggle.Dag.Model.{Assoc, EnvMap, Dag, Step}
use daggle.Dag.Workdir.{resolve_workdir}
use daggle.Dag.StepTypes.{step_type, step_type_registry}
use daggle.Archive.{Sha}
use daggle.Cache.{
  Texts, ReadFile, value_of, text_keys, output_part, output_parts, env_pairs, texts_of,
  renv_lock_hash, step_parts, step_cache_type, compute_step_key, compute_cache_key, engine_parts,
  env_vars,
}

module _ {ℓ κ} {A : Type ℓ} {B : Type κ} (f : A → B) where
  pub map-Reordered : {xs ys : List A} → Reordered xs ys → Reordered (map f xs) (map f ys)
  map-Reordered (same xs) = same (map f xs)
  map-Reordered (keep x r) = keep (f x) (map-Reordered r)
  map-Reordered (swap x y xs) = swap (f x) (f y) (map f xs)
  map-Reordered (after r q) = after (map-Reordered r) (map-Reordered q)

module _ {ℓ} {A : Type ℓ} where
  cons-Reordered_last : (x : A) (xs : List A) → Reordered (x ∷ xs) (xs ++ x ∷ [])
  cons-Reordered_last x [] = same (x ∷ [])
  cons-Reordered_last x (y ∷ xs) = after (swap x y xs) (keep y (cons-Reordered_last x xs))

  move-Reordered : (x : A) (xs ys : List A) → Reordered (x ∷ xs ++ ys) (xs ++ x ∷ ys)
  move-Reordered x [] ys = same (x ∷ ys)
  move-Reordered x (y ∷ xs) ys = after (swap x y (xs ++ ys)) (keep y (move-Reordered x xs ys))

  append_comm-Reordered : (xs ys : List A) → Reordered (xs ++ ys) (ys ++ xs)
  append_comm-Reordered [] ys = subst (Reordered ys) (sym (append-nil ys)) (same ys)
  append_comm-Reordered (x ∷ xs) ys =
      after (keep x (append_comm-Reordered xs ys)) (move-Reordered x ys xs)

-- Every key of a map stands once in it.
abbrev pub has_key : Texts → Text → Bool
has_key [] k = false
has_key ((j, v) ∷ m) k = text_eq j k || has_key m k

abbrev pub IsTextMap : Texts → Type 0
IsTextMap [] = Unit
IsTextMap ((k, v) ∷ m) = (has_key m k ≡ false) × IsTextMap m

has_key-Reordered : {m n : Texts} (k : Text) → Reordered m n → has_key m k ≡ has_key n k
has_key-Reordered k (same m) = refl
has_key-Reordered k (keep (j, v) r) = ap (λ b. text_eq j k || b) (has_key-Reordered k r)
has_key-Reordered k (swap (i, v) (j, w) m) = ground arith
has_key-Reordered k (after r q) = has_key-Reordered k r ∙ has_key-Reordered k q

text_eq_sym : (s t : Text) → text_eq s t ≡ text_eq t s
text_eq_sym s t = ground (arith, text_eq_iff s t, text_eq_iff t s)

IsTextMap-Reordered : {m n : Texts} → Reordered m n → IsTextMap m → IsTextMap n
IsTextMap-Reordered (same m) h = h
IsTextMap-Reordered (keep (j, v) r) h =
    (sym (has_key-Reordered j r) ∙ h.0, IsTextMap-Reordered r h.1)
IsTextMap-Reordered (swap (i, v) (j, w) m) h =
    (ground (arith, h.0, h.1.0, text_eq_sym i j), (ground (arith, h.0), h.1.1))
IsTextMap-Reordered (after r q) h = IsTextMap-Reordered q (IsTextMap-Reordered r h)

value_of-Reordered :
    {m n : Texts} (k : Text) → Reordered m n → IsTextMap m → value_of m k ≡ value_of n k
value_of-Reordered k (same m) h = refl
value_of-Reordered k (keep (j, v) r) h = rw (value_of-Reordered k r h.1) refl
value_of-Reordered k (swap (i, v) (j, w) m) h =
    ground (arith, text_eq_iff i k, text_eq_iff j k, text_eq_iff j i, h.0)
value_of-Reordered k (after r q) h =
    value_of-Reordered k r h ∙ value_of-Reordered k q (IsTextMap-Reordered r h)

text_keys-Reordered : {m n : Texts} → Reordered m n → Reordered (text_keys m) (text_keys n)
text_keys-Reordered (same m) = same (text_keys m)
text_keys-Reordered (keep (j, v) r) = keep j (text_keys-Reordered r)
text_keys-Reordered (swap (i, v) (j, w) m) = swap i j (text_keys m)
text_keys-Reordered (after r q) = after (text_keys-Reordered r) (text_keys-Reordered q)

map-output_part :
    {m n : Texts} (ks : List Text)
    → Reordered m n
    → IsTextMap m
    → map (output_part m) ks ≡ map (output_part n) ks
map-output_part [] r h = refl
map-output_part (k ∷ ks) r h = rw (value_of-Reordered k r h, map-output_part ks r h) refl

output_parts-Reordered :
    {m n : Texts} → Reordered m n → IsTextMap m → output_parts m ≡ output_parts n
output_parts-Reordered {m} {n} r h =
    ap (map (output_part m)) (sort_texts-Reordered (text_keys-Reordered r))
    ∙ map-output_part (sort_texts (text_keys n)) r h

-- The key of a step is the same in whatever order the variables and the entries of the map of
-- outputs, whose keys are distinct, are given.
pub compute_step_key-Reordered :
    (sha : Sha) (kind lock : Text) {env env' : List Text} {m n : Texts}
    → Reordered env env'
    → Reordered m n
    → IsTextMap m
    → compute_step_key sha kind env m lock ≡ compute_step_key sha kind env' n lock
unfolding compute_step_key step_parts
compute_step_key-Reordered sha kind lock r q h =
    rw (sort_texts-Reordered r, output_parts-Reordered q h) refl

compute_step_key-env :
    (sha : Sha) (kind : Text) (m : Texts) (lock : Text) {env env' : List Text}
    → Reordered env env'
    → compute_step_key sha kind env m lock ≡ compute_step_key sha kind env' m lock
unfolding compute_step_key step_parts
compute_step_key-env sha kind m lock r = rw (sort_texts-Reordered r) refl

step_type-env : (s : Step) (env : EnvMap) → step_type (record s { env = env }) ≡ step_type s
unfolding step_type step_type_registry
step_type-env s env = refl

resolve_workdir-env :
    (d : Dag) (s : Step) (env env' : EnvMap)
    → resolve_workdir (record d { env = env }) (record s { env = env' }) ≡ resolve_workdir d s
unfolding resolve_workdir
resolve_workdir-env d s env env' = refl

-- What a step runs does not depend on the variables.
step_cache_type-env :
    (read : ReadFile) (d : Dag) (s : Step) (env env' : EnvMap)
    → step_cache_type read (record s { env = env' }) (record d { env = env })
      ≡ step_cache_type read s d
unfolding step_cache_type
step_cache_type-env read d s env env' =
    rw (step_type-env s env', resolve_workdir-env d s env env') refl

-- The engine's key is that of ComputeStepKey.
compute_cache_key_lem :
    (sha : Sha) (read : ReadFile) (d : Dag) (s : Step) (outputs : Assoc String)
    (meta : Option String)
    → compute_cache_key sha read d s outputs meta
      ≡ compute_step_key sha
          (step_cache_type read s d)
          (env_vars d s)
          (texts_of outputs)
          (renv_lock_hash meta)
unfolding compute_cache_key compute_step_key engine_parts
compute_cache_key_lem sha read d s outputs meta = refl

-- Exchanging the variables of the workflow and those of the step does not change the engine's key,
-- although a variable of the step overrides that of the workflow when the step runs.
pub compute_cache_key-exchanged :
    (sha : Sha) (read : ReadFile) (d : Dag) (s : Step) (outputs : Assoc String)
    (meta : Option String)
    → compute_cache_key sha read (record d { env = s.env }) (record s { env = d.env }) outputs meta
      ≡ compute_cache_key sha read d s outputs meta
compute_cache_key-exchanged sha read d s outputs meta =
    compute_cache_key_lem sha read (record d { env = s.env }) (record s { env = d.env }) outputs
      meta
    ∙ ap
        (λ kind.
          compute_step_key sha kind (env_pairs s.env ++ env_pairs d.env) (texts_of outputs)
            (renv_lock_hash meta))
        (step_cache_type-env read d s s.env d.env)
    ∙ compute_step_key-env sha (step_cache_type read s d) (texts_of outputs) (renv_lock_hash meta)
        (append_comm-Reordered (env_pairs s.env) (env_pairs d.env))
    ∙ sym (compute_cache_key_lem sha read d s outputs meta)
