-- ===== src/Engine/Retry/Status.antt =====
-- What the log of a step says of it once its attempts have ended.
use daggle.Engine.Retry.Silent.{
  events_in-append, replay-append, IsSilent, append-IsSilent, collect_outputs-IsSilent,
  write_files-IsSilent, verify_each-IsSilent, ending-IsSilent, settle_validations-IsSilent,
}
use daggle.Prelude.{
  ℕ, zero, suc, ◌+◌, ◌≤◌, String, ◌≡◌, refl, List, [], ◌∷◌, ◌++◌, Option, none, some, arith, inl,
  inr, ap, sym, ◌∙◌, subst,
}
use daggle.Dag.Model.{Step}
use daggle.State.Summary.{StepState, new_state, state_or_new, apply_event}
use daggle.State.Summary.History.{replay}
use daggle.Engine.Action.{Result, Action, World, events_in}
use daggle.Engine.Retry.{
  max_attempts, attempt_count, IsTried, run_attempts, attempt_with, started_event,
  execute_with_retries,
}
use daggle.Engine.Retry.Attempts.{retries, succeeded, gave_up, execute_with_retries_cases}
use daggle.Engine.Step.{
  verify_each, completed_event_of, settle_validations, on_step_success, on_step_failure,
  validation_failure,
}

on_step_success-replay :
    (w : World) (s : Step) (r : Result) (attempt : ℕ) (o : Option StepState)
    → (on_step_success w s r attempt).err ≡ none
    → replay s.id (events_in (on_step_success w s r attempt).trace) o
      ≡ some (apply_event (completed_event_of w s r attempt) (state_or_new s.id o))
unfolding on_step_success
on_step_success-replay w s r attempt o e =
    (append-IsSilent _ _
        (append-IsSilent _ _ (collect_outputs-IsSilent s.id r.outputs)
          (write_files-IsSilent s.id r))
        (settle_validations-IsSilent w s r attempt (validation_failure s r) e)).keeps
      s.id (apply_event (completed_event_of w s r attempt) (state_or_new s.id o))

-- The log of a step reads as completed in the given attempt.
abbrev pub ReadsCompleted : Step → ℕ → List Action → Type 0
ReadsCompleted s attempt trace =
    (st : StepState) × (replay s.id (events_in trace) none ≡ some st)
    × (st.status ≡ "completed")
    × (st.attempts ≡ attempt)

succeeded-status :
    (w : World) (s : Step) (run : ℕ → Result) (before : List Action) (attempt : ℕ)
    → (on_step_success w s (run attempt) attempt).err ≡ none
    → ReadsCompleted s attempt (before ++ (succeeded w s run attempt).trace)
unfolding apply_event
succeeded-status w s run before attempt e =
    let trace = (succeeded w s run attempt).trace in
    let start = replay s.id (events_in before) none in
    (
      apply_event (completed_event_of w s (run attempt) attempt)
          (state_or_new s.id (replay s.id (events_in (started_event w s attempt ∷ [])) start)),
      ap (λ es. replay s.id es none) (events_in-append before trace)
          ∙ replay-append s.id (events_in before) (events_in trace) none
          ∙ on_step_success-replay w s (run attempt) attempt _ e,
      refl,
      refl,
    )

-- Without an attempt there is no success.
tried_of_success :
    (w : World) (s : Step) (run : ℕ → Result) (n : ℕ) → (run_attempts w s run n).err ≡ none → 1 ≤ n
tried_of_success w s run zero h = cc
tried_of_success w s run (suc n) h = omega arith

gave_up-err : (w : World) (s : Step) (run : ℕ → Result) (a : ℕ) → ¬ ((gave_up w s run a).err ≡ none)
unfolding on_step_failure
gave_up-err w s run a h = cc

is_tried :
    (w : World) (s : Step) (run : ℕ → Result)
    → w.executor s ≡ some run
    → (execute_with_retries w s).err ≡ none
    → IsTried s
unfolding execute_with_retries attempt_with
is_tried w s run e won =
    tried_of_success w s run (attempt_count (max_attempts s))
      (sym (ap (λ o. (attempt_with w s o).err) e) ∙ won)

-- When the attempts of a step return no error, the step's log reads as completed, in an attempt
-- that is no later than `MaxAttempts`.
pub execute_with_retries-status :
    (w : World) (s : Step) (run : ℕ → Result)
    → w.executor s ≡ some run
    → (execute_with_retries w s).err ≡ none
    → (attempt : ℕ) × (1 ≤ attempt)
      × (attempt ≤ attempt_count (max_attempts s))
      × ReadsCompleted s attempt (execute_with_retries w s).trace
execute_with_retries-status w s run e won =
    let tried = is_tried w s run e won in
    elim (execute_with_retries_cases w s run e tried) [
      | inl (n, below, fails, ok, same) ↦ (
        n + 1,
        omega arith,
        omega (arith, below, tried),
        subst (λ o. ReadsCompleted s (n + 1) o.trace) (sym same)
            (succeeded-status w s run (retries w s run n 1) (n + 1)
              (sym (ap (λ o. o.err) same) ∙ won)),
      )
      | inr (fails, same) ↦
          let lost = ap (λ o. o.err) same in absurd (gave_up-err w s run _ (sym lost ∙ won))
    ]

-- Where the validations are in order, nothing that follows a success reaches the step's state.
valid-IsSilent :
    (w : World) (s : Step) (r : Result) (attempt : ℕ) (o : Option String)
    → o ≡ none
    → IsSilent (settle_validations w s r attempt o).trace
unfolding settle_validations
valid-IsSilent w s r attempt none e =
    append-IsSilent _ _ (verify_each-IsSilent w s s.artifacts)
      (ending-IsSilent w s r (verify_each w s s.artifacts).err)
valid-IsSilent w s r attempt (some message) e = cc

-- When an attempt has succeeded and its validations are in order, the log of the step reads as
-- completed in that attempt also if `onStepSuccess` then returns the error of a missing artifact.
pub on_step_success-unreported :
    (w : World) (s : Step) (r : Result) (attempt : ℕ) (message : String)
    → validation_failure s r ≡ none
    → (on_step_success w s r attempt).err ≡ some message
    → ReadsCompleted s attempt (on_step_success w s r attempt).trace
unfolding on_step_success apply_event
on_step_success-unreported w s r attempt message valid failed = (
  apply_event (completed_event_of w s r attempt) (new_state s.id),
  (append-IsSilent _ _
        (append-IsSilent _ _ (collect_outputs-IsSilent s.id r.outputs)
          (write_files-IsSilent s.id r))
        (valid-IsSilent w s r attempt (validation_failure s r) valid)).keeps
      s.id (apply_event (completed_event_of w s r attempt) (new_state s.id)),
  refl,
  refl,
)
