-- ===== src/Dag/Defaults/Merge.antt =====
-- The workflow's own values win over the defaults, and the defaults are applied only once.
use daggle.Prelude.{
  String, ◌≡◌, refl, inl, inr, Bool, true, false, List, [], ◌∷◌, ◌++◌, map, Option, none, some,
  ◌==◌, eq_iff, eq_refl, subst, All, arith, Bool-cases, sym, ap, ◌∙◌, append_assoc,
}
use daggle.Dag.Model.{Assoc, EnvVar, EnvMap, Step, Dag}
use daggle.Dag.Defaults.{
  BaseDefaults, find, put_new, merge_env, entries, merge_maps, text_or, option_or, step_defaults,
  apply_base_defaults,
}

find-append : (k : String) (m n : Assoc EnvVar) → find k (m ++ n) ≡ option_or (find k m) (find k n)
find-append k [] n = refl
find-append k ((j, v) ∷ m) n = elim (Bool-cases (j == k)) [
  | inl b ↦ rw b refl
  | inr b ↦ rw b (find-append k m n)
]

option_or_assoc {ℓ} :
    {A : Type ℓ} (a b c : Option A) → option_or (option_or a b) c ≡ option_or a (option_or b c)
option_or_assoc none b c = refl
option_or_assoc (some x) b c = refl

option_or-none {ℓ} : {A : Type ℓ} (a : Option A) → option_or a none ≡ a
option_or-none none = refl
option_or-none (some x) = refl

find-first :
    (k : String) (v : EnvVar) (base : Assoc EnvVar) (j : String)
    → option_or (find j ((k, v) ∷ [])) (find j base) ≡ find j ((k, v) ∷ base)
find-first k v base j = elim (Bool-cases (k == j)) [ inl b ↦ rw b refl | inr b ↦ rw b refl ]

-- A key that is there already keeps its value.
put_new-find :
    (k : String) (v : EnvVar) (o : Option EnvVar) (m : Assoc EnvVar) (j : String)
    → find k m ≡ o
    → find j (put_new k v o m) ≡ option_or (find j m) (find j ((k, v) ∷ []))
put_new-find k v none m j e = find-append j m ((k, v) ∷ [])
put_new-find k v (some u) m j e = elim (Bool-cases (k == j)) [
  | inl b ↦ rw (subst (λ z. find z m ≡ some u) ((eq_iff k j).0 b) e) refl
  | inr b ↦ rw b (sym (option_or-none (find j m)))
]

-- After the merge a key has the workflow's value, or else the default.
merge_env-find :
    (base m : Assoc EnvVar) (j : String)
    → find j (merge_env base m) ≡ option_or (find j m) (find j base)
unfolding merge_env
merge_env-find [] m j = sym (option_or-none (find j m))
merge_env-find ((k, v) ∷ base) m j =
    merge_env-find base (put_new k v (find k m) m) j
    ∙ ap (λ o. option_or o (find j base)) (put_new-find k v (find k m) m j refl)
    ∙ option_or_assoc (find j m) (find j ((k, v) ∷ [])) (find j base)
    ∙ ap (option_or (find j m)) (find-first k v base j)

merge_maps-find :
    (base m : EnvMap) (j : String)
    → find j (entries (merge_maps base m)) ≡ option_or (find j (entries m)) (find j (entries base))
unfolding merge_env
merge_maps-find none m j = sym (option_or-none (find j (entries m)))
merge_maps-find (some []) m j = sym (option_or-none (find j (entries m)))
merge_maps-find (some (e ∷ base)) m j = merge_env-find (e ∷ base) (entries m) j

-- Every variable of a workflow to which the defaults of base.yaml are applied has the workflow's own
-- value, if it has one, or else the default.
pub apply_base_defaults-env :
    (d : Dag) (b : BaseDefaults) (k : String)
    → find k (entries (apply_base_defaults d (some b)).env)
      ≡ option_or (find k (entries d.env)) (find k (entries b.env))
unfolding apply_base_defaults
apply_base_defaults-env d b k = merge_maps-find b.env d.env k

abbrev is_there : Option EnvVar → Bool
is_there none = false
is_there (some v) = true

-- Each key of `base` has a value.
abbrev AreThere : Assoc EnvVar → Assoc EnvVar → Type 0
AreThere base m = All (λ e. is_there (find e.0 m) ≡ true) base

put_new-there :
    (k : String) (v : EnvVar) (o : Option EnvVar) (m : Assoc EnvVar)
    → is_there o ≡ true
    → put_new k v o m ≡ m
put_new-there k v none m h = cc
put_new-there k v (some u) m h = refl

merge_env-there : (base m : Assoc EnvVar) → AreThere base m → merge_env base m ≡ m
unfolding merge_env
merge_env-there [] m h = refl
merge_env-there ((k, v) ∷ base) m h =
    ap (merge_env base) (put_new-there k v (find k m) m h.0) ∙ merge_env-there base m h.1

there-or : (a b : Option EnvVar) → is_there b ≡ true → is_there (option_or a b) ≡ true
there-or none b h = h
there-or (some x) b h = refl

suffix-AreThere : (before base : Assoc EnvVar) → AreThere base (before ++ base)
suffix-AreThere before [] = tt
suffix-AreThere before ((k, v) ∷ base) = (
  rw (find-append k before ((k, v) ∷ base))
      (there-or (find k before) (find k ((k, v) ∷ base)) (rw (eq_refl k) refl)),
  subst (AreThere base) (append_assoc before ((k, v) ∷ []) base)
      (suffix-AreThere (before ++ (k, v) ∷ []) base),
)

merged-AreThere : (all base m : Assoc EnvVar) → AreThere base all → AreThere base (merge_env all m)
merged-AreThere all [] m h = tt
merged-AreThere all ((k, v) ∷ base) m h = (
  rw (merge_env-find all m k) (there-or (find k m) (find k all) h.0),
  merged-AreThere all base m h.1,
)

merge_maps_twice : (base m : EnvMap) → merge_maps base (merge_maps base m) ≡ merge_maps base m
merge_maps_twice none m = refl
merge_maps_twice (some []) m = refl
merge_maps_twice (some (e ∷ base)) m = ap some (
    merge_env-there (e ∷ base) (merge_env (e ∷ base) (entries m))
      (merged-AreThere (e ∷ base) (e ∷ base) (entries m) (suffix-AreThere [] (e ∷ base))))

text_or_twice : (own base : String) → text_or (text_or own base) base ≡ text_or own base
text_or_twice own base = ground (arith, eq_iff own "", eq_iff base "")

option_or_twice {ℓ} :
    {A : Type ℓ} (own base : Option A) → option_or (option_or own base) base ≡ option_or own base
option_or_twice none none = refl
option_or_twice none (some x) = refl
option_or_twice (some x) base = refl

steps_twice :
    (b : BaseDefaults) (steps : List Step)
    → map (step_defaults b) (map (step_defaults b) steps) ≡ map (step_defaults b) steps
steps_twice b [] = refl
steps_twice b (s ∷ steps) =
    rw (text_or_twice s.timeout b.timeout, option_or_twice s.retry b.retry, steps_twice b steps)
      refl

-- Applying the defaults a second time changes nothing.
pub apply_base_defaults_twice :
    (d : Dag) (b : Option BaseDefaults)
    → apply_base_defaults (apply_base_defaults d b) b ≡ apply_base_defaults d b
unfolding apply_base_defaults
apply_base_defaults_twice d none = refl
apply_base_defaults_twice d (some b) =
    rw
      (
        merge_maps_twice b.env d.env,
        text_or_twice d.workdir b.workdir,
        option_or_twice d.on_success b.on_success,
        option_or_twice d.on_failure b.on_failure,
        option_or_twice d.on_exit b.on_exit,
        steps_twice b d.steps,
      )
      refl
