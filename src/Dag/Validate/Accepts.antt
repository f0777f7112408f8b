-- ===== src/Dag/Validate/Accepts.antt =====
-- What an accepted list of steps has.
use daggle.Prelude.{
  String, ◌≡◌, refl, ◌≢◌, Bool, true, false, List, [], ◌∷◌, map, arith, not, contains, ◌==◌, eq_iff,
  All, All-map, append-eq-nil, concat-eq-nil_iff, map-eq-nil, Bool-cases, inl, inr, or-false,
}
use daggle.Dag.Model.{Step}
use daggle.Dag.StepTypes.{count_step_types}
use daggle.Dag.TopoSort.Build.{ids, IsDistinct}
use daggle.Dag.TopoSort.Ends.{IsId}
use daggle.Dag.TopoSort.Complete.{AreKnown}
use daggle.Dag.Validate.Errors.{step_error, duplicate_step_id, unknown_dependency}
use daggle.Dag.Validate.Steps.{
  report, step_checks, validate_step, validate_step_type, validate_step_dependencies, check_depends,
  all_ids_of, validate_each, validate_steps,
}

pub report_nil {ℓ} : {E : Type ℓ} (b : Bool) (e : E) → report b e ≡ [] → b ≡ false
report_nil true e h = cc
report_nil false e h = refl

-- The parts of `validate_step` that the order of the steps depends on.
record Checked (all_ids : List String) (s : Step) : Type 0 where
  one_type : validate_step_type s ≡ []
  depends : validate_step_dependencies s all_ids ≡ []

validate_step-Checked :
    (all_ids : List String) (s : Step) → validate_step all_ids s ≡ [] → Checked all_ids s
unfolding validate_step
validate_step-Checked all_ids s h =
    let parts = (concat-eq-nil_iff (step_checks all_ids s)).0 h in
    record { one_type = parts.0; depends = parts.1.1.1.1.1.0 }

-- Every step has an id that no other has, exactly one type, and dependencies that name steps.
pub record AreWellFormed (steps : List Step) : Type 0 where
  pub named : All (λ s. s.id ≢ "") steps
  pub distinct : IsDistinct (ids steps)
  pub typed : All (λ s. count_step_types s ≡ 1) steps
  pub known : AreKnown steps

record Each (all_ids seen : List String) (steps : List Step) : Type 0 where
  named : All (λ s. s.id ≢ "") steps
  unseen : All (λ x. contains seen x ≡ false) (ids steps)
  distinct : IsDistinct (ids steps)
  checked : All (Checked all_ids) steps

unseen_cons :
    (x : String) (seen xs : List String)
    → All (λ y. contains (x ∷ seen) y ≡ false) xs
    → (contains xs x ≡ false) × All (λ y. contains seen y ≡ false) xs
unseen_cons x seen [] h = (refl, tt)
unseen_cons x seen (y ∷ xs) h =
    let (absent, rest) = unseen_cons x seen xs h.1 in
    let (differs, new) = or-false (x == y) (contains seen y) h.0 in
    (ground (arith, eq_iff x y, eq_iff y x, absent), (new, rest))

validate_each-Each :
    (all_ids seen : List String) (steps : List Step)
    → validate_each all_ids seen steps ≡ []
    → Each all_ids seen steps
unfolding validate_each
validate_each-Each all_ids seen [] h = record {
  named = tt;
  unseen = tt;
  distinct = tt;
  checked = tt;
}
validate_each-Each all_ids seen (s ∷ steps) h = elim (Bool-cases (s.id == "")) [
  | inl empty ↦ cc (rw empty at h)
  | inr named ↦
      let (new, h1) =
        append-eq-nil (report (contains seen s.id) (duplicate_step_id s.id)) _ (rw named at h) in
      let (checked, h2) = append-eq-nil (map (step_error s.id) (validate_step all_ids s)) _ h1 in
      let rest = validate_each-Each all_ids (s.id ∷ seen) steps h2 in
      let (absent, unseen) = unseen_cons s.id seen (ids steps) rest.unseen in
      record {
        named = (ground (arith, eq_iff s.id "", named), rest.named);
        unseen = (report_nil _ _ new, unseen);
        distinct = (absent, rest.distinct);
        checked = (validate_step-Checked all_ids s (map-eq-nil _ _ checked), rest.checked);
      }
]

one_type : (s : Step) → validate_step_type s ≡ [] → count_step_types s ≡ 1
unfolding validate_step_type
one_type s h = ground arith

all_ids_of-IsId :
    (steps : List Step) (x : String) → contains (all_ids_of steps) x ≡ true → IsId steps x
unfolding all_ids_of
all_ids_of-IsId [] x h = h
all_ids_of-IsId (s ∷ steps) x h = ground (arith, all_ids_of-IsId steps x)

known_depends :
    (steps : List Step) (deps : List String)
    → check_depends (all_ids_of steps) deps ≡ []
    → All (IsId steps) deps
known_depends steps [] h = tt
known_depends steps (d ∷ deps) h =
    let (here, rest) =
      append-eq-nil (report (not (contains (all_ids_of steps) d)) (unknown_dependency d)) _ h in
    let absent = report_nil (not (contains (all_ids_of steps) d)) (unknown_dependency d) here in
    (all_ids_of-IsId steps d (ground (arith, absent)), known_depends steps deps rest)

-- `validateSteps` reports nothing only for well-formed steps.
pub validate_steps-AreWellFormed :
    (steps : List Step) → validate_steps steps ≡ [] → AreWellFormed steps
unfolding validate_steps validate_step_dependencies
validate_steps-AreWellFormed steps h =
    let each = validate_each-Each (all_ids_of steps) [] steps h in
    record {
      named = each.named;
      distinct = each.distinct;
      typed = All-map steps (λ s c. one_type s c.one_type) each.checked;
      known = All-map steps (λ s c. known_depends steps s.depends c.depends) each.checked;
    }
