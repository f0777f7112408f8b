-- ===== src/Engine/Retry/Silent.antt =====
-- The actions of a step that leave its state, as the events give it, unchanged.
use daggle.Prelude.{
  ℕ, String, ◌≡◌, refl, Bool, true, false, List, [], ◌∷◌, ◌++◌, Option, none, some, append_assoc,
  inl, inr, ◌⊎◌, ap, sym, ◌∙◌, ◌&&◌, if◌then◌else◌,
}
use daggle.Dag.Model.{Assoc, Step, Artifact, Hook}
use daggle.State.Event.{Event, ArtifactInfo}
use daggle.State.Summary.{StepState, apply_event}
use daggle.State.Summary.History.{replay}
use daggle.Engine.Action.{
  Result, Action, saved_cache, Outcome, World, event_of, events_in, validation_file, summary_file,
  metadata_file,
}
use daggle.Engine.Step.{
  collect_outputs, write_files, unless_empty, verify_each, settle_artifact, ending, run_hook,
  settle_validations,
}

pub events_in-append : (xs ys : List Action) → events_in (xs ++ ys) ≡ events_in xs ++ events_in ys
events_in-append [] ys = refl
events_in-append (a ∷ xs) ys =
    ap (λ es. event_of a ++ es) (events_in-append xs ys)
    ∙ sym (append_assoc (event_of a) (events_in xs) (events_in ys))

pub replay-append :
    (id : String) (es fs : List Event) (o : Option StepState)
    → replay id (es ++ fs) o ≡ replay id fs (replay id es o)
replay-append id [] fs o = refl
replay-append id (e ∷ es) fs o = replay-append id es fs _

-- The actions leave the state of a step as it is.
pub record IsSilent (trace : List Action) : Type 0 where
  pub keeps : (id : String) (st : StepState) → replay id (events_in trace) (some st) ≡ some st

pub append-IsSilent : (xs ys : List Action) → IsSilent xs → IsSilent ys → IsSilent (xs ++ ys)
append-IsSilent xs ys hx hy = record {
  keeps = λ id st.
      ap (λ es. replay id es (some st)) (events_in-append xs ys)
      ∙ replay-append id (events_in xs) (events_in ys) (some st)
      ∙ ap (replay id (events_in ys)) (hx.keeps id st)
      ∙ hy.keeps id st;
}

nothing-IsSilent : IsSilent []
nothing-IsSilent = record { keeps = λ id st. refl }

pub collect_outputs-IsSilent :
    (id : String) (outputs : Assoc String) → IsSilent (collect_outputs id outputs)
unfolding collect_outputs
collect_outputs-IsSilent id [] = nothing-IsSilent
collect_outputs-IsSilent id ((k, v) ∷ outputs) = record {
  keeps = (collect_outputs-IsSilent id outputs).keeps;
}

unless_empty-IsSilent :
    {A : Type 0} (xs : List A) (a : Action) → IsSilent (a ∷ []) → IsSilent (unless_empty xs a)
unless_empty-IsSilent [] a h = nothing-IsSilent
unless_empty-IsSilent (x ∷ xs) a h = h

pub write_files-IsSilent : (id : String) (r : Result) → IsSilent (write_files id r)
unfolding write_files
write_files-IsSilent id r =
    append-IsSilent _ _
      (append-IsSilent _ _
        (unless_empty-IsSilent r.summaries (summary_file id r.summaries)
          (record { keeps = λ i st. refl }))
        (unless_empty-IsSilent r.metadata (metadata_file id r.metadata)
          (record { keeps = λ i st. refl })))
      (unless_empty-IsSilent r.validations (validation_file id r.validations)
        (record { keeps = λ i st. refl }))

settle_artifact-IsSilent :
    (w : World) (s : Step) (o : ArtifactInfo ⊎ String) (rest : Outcome)
    → IsSilent rest.trace
    → IsSilent (settle_artifact w s o rest).trace
unfolding apply_event
settle_artifact-IsSilent w s (inl info) rest h = record { keeps = h.keeps }
settle_artifact-IsSilent w s (inr message) rest h = nothing-IsSilent

pub verify_each-IsSilent :
    (w : World) (s : Step) (artifacts : List Artifact) → IsSilent (verify_each w s artifacts).trace
unfolding verify_each
verify_each-IsSilent w s [] = nothing-IsSilent
verify_each-IsSilent w s (a ∷ artifacts) =
    settle_artifact-IsSilent w s (w.record_artifact s a) (verify_each w s artifacts)
      (verify_each-IsSilent w s artifacts)

run_hook-IsSilent : (h : Option Hook) (name : String) → IsSilent (run_hook h name)
run_hook-IsSilent none name = nothing-IsSilent
run_hook-IsSilent (some h) name = record { keeps = λ id st. refl }

save-IsSilent :
    (b : Bool) (id : String) (outputs : Assoc String)
    → IsSilent (if b then saved_cache id outputs ∷ [] else [])
save-IsSilent true id outputs = record { keeps = λ i st. refl }
save-IsSilent false id outputs = nothing-IsSilent

-- What `finish_step` adds.
pub ending-IsSilent :
    (w : World) (s : Step) (r : Result) (err : Option String) → IsSilent (ending w s r err)
ending-IsSilent w s r none =
    append-IsSilent _ _ (save-IsSilent (s.cache && w.has_cache) s.id r.outputs)
      (run_hook-IsSilent s.on_success _)
ending-IsSilent w s r (some message) = nothing-IsSilent

-- Whatever follows a success is silent, but a failure of the validations.
pub settle_validations-IsSilent :
    (w : World) (s : Step) (r : Result) (attempt : ℕ) (o : Option String)
    → (settle_validations w s r attempt o).err ≡ none
    → IsSilent (settle_validations w s r attempt o).trace
unfolding settle_validations
settle_validations-IsSilent w s r attempt none e =
    append-IsSilent _ _ (verify_each-IsSilent w s s.artifacts)
      (ending-IsSilent w s r (verify_each w s s.artifacts).err)
settle_validations-IsSilent w s r attempt (some message) e = cc
