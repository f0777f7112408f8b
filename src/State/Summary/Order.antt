-- ===== src/State/Summary/Order.antt =====
-- The order of the summaries, and what the whole result is.
use daggle.Prelude.{
  String, ◌≡◌, refl, ◌≢◌, Bool, true, false, ◌||◌, List, [], ◌∷◌, ◌++◌, Option, none, some, arith,
  ◌==◌, eq_iff, if◌then◌else◌, Bool-cases, Option-cases, inl, inr, contains, contains-append, All,
  All-zip, subst, some_injective, eq_refl, append-nil, append_assoc, ◌∙◌, sym, ap,
}
use daggle.State.Event.{Event}
use daggle.State.Summary.{
  StepState, apply_event, state_or_new, Walk, no_walk, walk_event, walk, collect,
  build_step_summaries,
}
use daggle.State.Summary.History.{events_of, replay, walk-events_of}

-- The ids of the events in the order of their first event, without those that were seen.
abbrev pub first_seen : List String → List Event → List String
first_seen seen [] = []
first_seen seen (e ∷ es) =
    let old = first_seen seen es in
    let new = first_seen (seen ++ e.step_id ∷ []) es in
    if e.step_id == "" || contains seen e.step_id then old else e.step_id ∷ new

abbrev is_some {ℓ} : {A : Type ℓ} → Option A → Bool
is_some none = false
is_some (some a) = true

-- A step has a state exactly when its id is in the order.
abbrev IsOrdered : Walk → Type 0
IsOrdered w = (id : String) → contains w.order id ≡ is_some (w.steps id)

walk_event-IsOrdered : (e : Event) (w : Walk) → IsOrdered w → IsOrdered (walk_event e w)
unfolding walk_event
walk_event-IsOrdered e w h id = elim (Option-cases (w.steps e.step_id)) [
  | inl n ↦ ground (
    arith,
    n,
    h id,
    h e.step_id,
    contains-append w.order (e.step_id ∷ []) id,
    eq_iff e.step_id id,
  )
  | inr (s, n) ↦ ground (arith, n, h id, h e.step_id, eq_iff e.step_id id)
]

old-order :
    (e : Event) (w : Walk)
    → (e.step_id == "" || contains w.order e.step_id) ≡ true
    → IsOrdered w
    → (walk_event e w).order ≡ w.order
unfolding walk_event
old-order e w b h = elim (Option-cases (w.steps e.step_id)) [
  | inl n ↦ ground (arith, n, h e.step_id)
  | inr (s, n) ↦ ground (arith, n)
]

new-order :
    (e : Event) (w : Walk)
    → (e.step_id == "" || contains w.order e.step_id) ≡ false
    → IsOrdered w
    → (walk_event e w).order ≡ w.order ++ e.step_id ∷ []
unfolding walk_event
new-order e w b h = elim (Option-cases (w.steps e.step_id)) [
  | inl n ↦ ground (arith, n)
  | inr (s, n) ↦ ground (arith, n, h e.step_id)
]

walk-order :
    (es : List Event) (w : Walk)
    → IsOrdered w
    → (walk es w).order ≡ w.order ++ first_seen w.order es
unfolding walk walk_event
walk-order [] w h = sym (append-nil w.order)
walk-order (e ∷ es) w h =
    let next = walk-order es (walk_event e w) (walk_event-IsOrdered e w h) in
    elim (Bool-cases (e.step_id == "" || contains w.order e.step_id)) [
      | inl b ↦ rw b (rw (old-order e w b h) at next)
      | inr b ↦ rw b ((rw (new-order e w b h) at next) ∙ append_assoc w.order (e.step_id ∷ []) _)
    ]

first_seen-named : (seen : List String) (es : List Event) → All (λ id. id ≢ "") (first_seen seen es)
first_seen-named seen [] = tt
first_seen-named seen (e ∷ es) = elim (Bool-cases (e.step_id == "" || contains seen e.step_id)) [
  | inl b ↦ rw b (first_seen-named seen es)
  | inr b ↦ rw b ((λ h. ground (arith, eq_iff e.step_id "")), first_seen-named _ es)
]

-- The state that is kept for a step is the state of that step.
apply_event-step_id : (e : Event) (s : StepState) → (apply_event e s).step_id ≡ s.step_id
unfolding apply_event
apply_event-step_id e s = ground arith

state_or_new-step_id :
    (id : String) (o : Option StepState)
    → ((s : StepState) → o ≡ some s → s.step_id ≡ id)
    → (state_or_new id o).step_id ≡ id
state_or_new-step_id id none h = refl
state_or_new-step_id id (some s) h = h s refl

replay-step_id :
    (id : String) (es : List Event) (o : Option StepState)
    → ((s : StepState) → o ≡ some s → s.step_id ≡ id)
    → (s : StepState) → replay id es o ≡ some s
    → s.step_id ≡ id
replay-step_id id [] o h s same = h s same
replay-step_id id (e ∷ es) o h s same =
    replay-step_id id es (some (apply_event e (state_or_new id o)))
      (λ t first.
        ap (λ (x : StepState). x.step_id) (sym (some_injective first))
        ∙ apply_event-step_id e (state_or_new id o)
        ∙ state_or_new-step_id id o h)
      s same

-- Each id of a list is in it.
own_ids : (before ids : List String) → All (λ id. contains (before ++ ids) id ≡ true) ids
own_ids before [] = tt
own_ids before (id ∷ ids) = (
  contains-append before (id ∷ ids) id ∙ ground (arith, eq_refl id),
  subst (λ (l : List String). All (λ j. contains l j ≡ true) ids)
      (append_assoc before (id ∷ []) ids) (own_ids (before ++ id ∷ []) ids),
)

walk-IsOrdered : (es : List Event) (w : Walk) → IsOrdered w → IsOrdered (walk es w)
unfolding walk
walk-IsOrdered [] w h = h
walk-IsOrdered (e ∷ es) w h = walk-IsOrdered es (walk_event e w) (walk_event-IsOrdered e w h)

-- The states of the given steps in this order, each of them the one that the step's own events give.
abbrev pub AreStatesOf : List Event → List StepState → List String → Type 0
AreStatesOf es [] [] = Unit
AreStatesOf es [] (id ∷ ids) = ⊥
AreStatesOf es (s ∷ states) [] = ⊥
AreStatesOf es (s ∷ states) (id ∷ ids) =
    (s.step_id ≡ id) × (replay id (events_of id es) none ≡ some s) × AreStatesOf es states ids

abbrev HasState : List Event → (String → Option StepState) → String → Type 0
HasState es steps id =
    (s : StepState) × (steps id ≡ some s) × (replay id (events_of id es) none ≡ some s)

collect-AreStatesOf :
    (es : List Event) (steps : String → Option StepState) (ids : List String)
    → All (HasState es steps) ids
    → AreStatesOf es (collect steps ids) ids
unfolding collect
collect-AreStatesOf es steps [] h = tt
collect-AreStatesOf es steps (id ∷ ids) h =
    let (s, here, own) = h.0 in
    rw here (
      replay-step_id id (events_of id es) none (λ t e. cc) s own,
      own,
      collect-AreStatesOf es steps ids h.1,
    )

has_state :
    (es : List Event) (id : String)
    → id ≢ ""
    → contains (walk es no_walk).order id ≡ true
    → HasState es (walk es no_walk).steps id
has_state es id named listed = elim (Option-cases ((walk es no_walk).steps id)) [
  | inl n ↦
      let none_there = walk-IsOrdered es no_walk (λ j. refl) id in
      absurd (ground (arith, n, none_there, listed))
  | inr (s, n) ↦ (s, n, sym (walk-events_of id es named) ∙ n)
]

-- `BuildStepSummaries` gives one state for each step that an event names, in the order of the steps'
-- first events: the state of that step, as the step's own events give it. Events without a step id
-- count for nothing.
pub build_step_summaries-AreStatesOf :
    (es : List Event) → AreStatesOf es (build_step_summaries es) (first_seen [] es)
unfolding build_step_summaries
build_step_summaries-AreStatesOf es =
    let w = walk es no_walk in
    let same : w.order ≡ first_seen [] es = walk-order es no_walk (λ id. refl) in
    subst (AreStatesOf es (collect w.steps w.order)) same (
      collect-AreStatesOf es w.steps w.order (
        All-zip (HasState es w.steps) w.order (λ id named listed. has_state es id named listed)
          (subst (All (λ id. id ≢ "")) (sym same) (first_seen-named [] es)) (own_ids [] w.order)))
