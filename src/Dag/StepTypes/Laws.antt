-- ===== src/Dag/StepTypes/Laws.antt =====
-- The registry's three functions agree.
use daggle.Prelude.{
  ◌<◌, String, ◌≡◌, refl, ◌≢◌, Bool, true, List, [], ◌∷◌, arith, ◌==◌, eq_iff, contains, some, not,
  ◌&&◌, nat_eq, and-true, ◌⊎◌, eq_refl, some_injective, Bool-cases, inl, inr,
}
use daggle.Dag.Model.{Step}
use daggle.Dag.StepTypes.{
  StepTypeEntry, step_type_registry, all_step_types, count_set, count_step_types, first_set,
  step_type, find_zero, minimal_step_of_type, names,
}

-- What is to hold of an entry: its minimal step has this type and no other, and it has a name.
abbrev sound : StepTypeEntry → Bool
sound e = step_type e.zero == e.name && nat_eq (count_step_types e.zero) 1 && not (e.name == "")

abbrev all_sound : List StepTypeEntry → Bool
all_sound [] = true
all_sound (e ∷ es) = sound e && all_sound es

registry_sound : all_sound step_type_registry ≡ true
unfolding step_type count_step_types step_type_registry
registry_sound = refl

find_zero_sound :
    (name : String) (s : Step) (es : List StepTypeEntry)
    → all_sound es ≡ true
    → find_zero name es ≡ some s
    → (step_type s ≡ name) × (count_step_types s ≡ 1)
find_zero_sound name s [] h f = cc
find_zero_sound name s (e ∷ es) h f =
    let (here, rest) = and-true (sound e) (all_sound es) h in
    elim (Bool-cases (e.name == name)) [
      | inl same ↦
          let found : e.zero ≡ s = some_injective (rw same at f) in
          ground (arith, eq_iff e.name name, eq_iff (step_type e.zero) e.name, found, here)
      | inr other ↦ find_zero_sound name s es rest (rw other at f)
    ]

-- `MinimalStepOfType` gives a step that has the type it was asked for, and only that one.
pub minimal_step_of_type-step_type :
    (name : String) (s : Step)
    → minimal_step_of_type name ≡ some s
    → (step_type s ≡ name) × (count_step_types s ≡ 1)
unfolding minimal_step_of_type
minimal_step_of_type-step_type name s h = find_zero_sound name s step_type_registry registry_sound h

first_set_cases :
    (s : Step) (es : List StepTypeEntry)
    → all_sound es ≡ true
    → (count_set s es ≡ 0) × (first_set s es ≡ "")
      ⊎ (0 < count_set s es) × (contains (names es) (first_set s es) ≡ true) × (first_set s es ≢ "")
first_set_cases s [] h = inl (refl, refl)
first_set_cases s (e ∷ es) h =
    let (here, rest) = and-true (sound e) (all_sound es) h in
    elim (Bool-cases (e.set s)) [
      | inl yes_ ↦
          let nonempty : e.name ≢ "" = ground (arith, eq_iff e.name "", here) in
          inr (rw yes_ (omega arith), rw (yes_, eq_refl), rw yes_ nonempty)
      | inr no_ ↦ elim (first_set_cases s es rest) [
        | inl (none_set, empty) ↦ inl (rw no_ none_set, rw no_ empty)
        | inr (some_set, listed, nonempty) ↦
            inr (rw no_ some_set, ground (arith, listed, no_), rw no_ nonempty)
      ]
    ]

-- `StepType` is "" exactly for a step with no type, and otherwise one of the registered names.
pub step_type_cases :
    (s : Step)
    → (count_step_types s ≡ 0) × (step_type s ≡ "")
      ⊎ (0 < count_step_types s)
        × (contains all_step_types (step_type s) ≡ true)
        × (step_type s ≢ "")
unfolding step_type count_step_types all_step_types
step_type_cases s = first_set_cases s step_type_registry registry_sound
