-- ===== src/Cache/PlanKey.antt =====
-- When `daggle plan` looks up the key that the engine looks up.
use daggle.Prelude.{
  String, ◌≡◌, ◌≢◌, ◌↔◌, refl, sym, ◌∙◌, List, [], ◌∷◌, Option, All, map-eq-nil, Bool-cases, inl,
  inr,
}
use daggle.Go.Text.{Text}
use daggle.Go.Sort.{
  text_less, insert_text, sort_texts, Reordered, sort_texts-Reordered, Reordered_of_sorted,
}
use daggle.Dag.Model.{Assoc, Dag, Step}
use daggle.Cache.{
  ReadFile, join_parts, output_part, output_parts, texts_of, renv_lock_hash, step_parts,
  step_cache_type, env_vars, engine_parts,
}
use daggle.Cache.Plan.{plan_parts}
use daggle.Cache.Distinct.{HasNoNul, join_parts-step_parts-injective}

insert_text-nonempty : (x : Text) (l : List Text) → insert_text x l ≢ []
unfolding insert_text
insert_text-nonempty x [] h = cc
insert_text-nonempty x (y ∷ l) h = elim (Bool-cases (text_less y x)) [
  | inl less ↦ let e : y ∷ insert_text x l ≡ [] = sym (rw less refl) ∙ h in cc
  | inr other ↦ let e : x ∷ y ∷ l ≡ [] = sym (rw other refl) ∙ h in cc
]

output_parts_empty : (m : Assoc String) → output_parts (texts_of m) ≡ [] → m ≡ []
unfolding sort_texts
output_parts_empty [] h = refl
output_parts_empty ((k, v) ∷ m) h =
    absurd (insert_text-nonempty _ _ (map-eq-nil (output_part (texts_of ((k, v) ∷ m))) _ h))

-- Where no part has a NUL in it, the plan hashes for a step of a workflow the text that the engine
-- hashes for the step of a run exactly when both steps run the same, have the same variables up to
-- their order, no step of the run has given an output yet, and the run has no hash of renv.lock.
pub plan_parts-engine_parts_iff :
    (read read' : ReadFile) (d d' : Dag) (s s' : Step) (outputs : Assoc String)
    (meta : Option String)
    → All HasNoNul (plan_parts read d s)
    → All HasNoNul (engine_parts read' d' s' outputs meta)
    → (join_parts (plan_parts read d s) ≡ join_parts (engine_parts read' d' s' outputs meta)) ↔ (
        (step_cache_type read s d ≡ step_cache_type read' s' d')
        × Reordered (env_vars d s) (env_vars d' s')
        × (outputs ≡ [])
        × (renv_lock_hash meta ≡ []))
unfolding plan_parts engine_parts step_parts
plan_parts-engine_parts_iff read read' d d' s s' outputs meta h k = (
  λ e.
      let (kinds, envs, outs, locks) =
        join_parts-step_parts-injective (step_cache_type read s d) (step_cache_type read' s' d')
          (env_vars d s) (env_vars d' s') [] (texts_of outputs) [] (renv_lock_hash meta) h k e in
      (
        kinds,
        Reordered_of_sorted (env_vars d s) (env_vars d' s') envs,
        output_parts_empty outputs (sym outs ∙ unfold sort_texts in refl),
        sym locks,
      ),
  λ same. rw (same.0, sort_texts-Reordered same.1, same.2, same.3) refl,
)
