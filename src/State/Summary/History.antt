-- ===== src/State/Summary/History.antt =====
-- The state of a step depends on the events of that step alone.
use daggle.Prelude.{
  String, ◌≡◌, refl, ◌≢◌, false, List, [], ◌∷◌, Option, none, some, arith, ◌==◌, eq_iff,
  if◌then◌else◌, Bool-cases, eq_refl, ◌∙◌, subst, ap, inl, inr,
}
use daggle.State.Event.{Event}
use daggle.State.Summary.{StepState, apply_event, Walk, no_walk, state_or_new, walk_event, walk}

-- The events of one step.
abbrev pub events_of : String → List Event → List Event
events_of id [] = []
events_of id (e ∷ es) = let rest = events_of id es in if e.step_id == id then e ∷ rest else rest

-- The events are applied one after another, the first to a new state where there is none.
abbrev pub replay : String → List Event → Option StepState → Option StepState
replay id [] o = o
replay id (e ∷ es) o = replay id es (some (apply_event e (state_or_new id o)))

own-event :
    (id : String) (e : Event) (w : Walk)
    → id ≢ ""
    → e.step_id ≡ id
    → (walk_event e w).steps id ≡ some (apply_event e (state_or_new id (w.steps id)))
unfolding walk_event
own-event id e w h same =
    subst (λ u. (walk_event e w).steps u ≡ some (apply_event e (state_or_new u (w.steps u)))) same
      (ground (arith, eq_iff e.step_id "", eq_refl e.step_id, h, same))

other-event :
    (id : String) (e : Event) (w : Walk)
    → (e.step_id == id) ≡ false
    → (walk_event e w).steps id ≡ w.steps id
unfolding walk_event
other-event id e w b = ground (arith, b)

walk-replay :
    (id : String) (es : List Event) (w : Walk)
    → id ≢ ""
    → (walk es w).steps id ≡ replay id (events_of id es) (w.steps id)
unfolding walk
walk-replay id [] w h = refl
walk-replay id (e ∷ es) w h = elim (Bool-cases (e.step_id == id)) [
  | inl b ↦ rw b (
      walk-replay id es (walk_event e w) h
      ∙ ap (replay id (events_of id es)) (own-event id e w h ((eq_iff e.step_id id).0 b)))
  | inr b ↦ rw b (
      walk-replay id es (walk_event e w) h
      ∙ ap (replay id (events_of id es)) (other-event id e w b))
]

-- The state that `BuildStepSummaries` keeps for a step is what replaying the events of that step
-- alone gives, whatever events of other steps stand between them.
pub walk-events_of :
    (id : String) (es : List Event)
    → id ≢ ""
    → (walk es no_walk).steps id ≡ replay id (events_of id es) none
walk-events_of id es h = walk-replay id es no_walk h
