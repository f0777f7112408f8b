-- ===== src/State/Run/Status.antt =====
-- What the status of a run says about its log.
use daggle.Prelude.{
  String, ◌≡◌, refl, ◌≢◌, ◌↔◌, ◌⊎◌, inr, Bool, true, false, List, [], ◌∷◌, some, if◌then◌else◌,
  arith, ◌==◌, eq_iff, All, differ,
}
use daggle.State.Event.{Event, event_run_completed, event_run_failed, event_step_waiting_approval}
use daggle.State.Run.{is_answer, has_waiting, last_event, run_status}

-- No event approves or rejects a step.
abbrev pub AreUnanswered : List Event → Type 0
AreUnanswered es = All (λ e. is_answer e ≡ false) es

-- A step asks for approval, and no later event answers.
abbrev pub IsAwaiting : List Event → Type 0
IsAwaiting [] = ⊥
IsAwaiting (e ∷ es) = (e.kind ≡ event_step_waiting_approval) × AreUnanswered es ⊎ IsAwaiting es

-- An event that asks does not answer.
asks-answer : (e : Event) → e.kind ≡ event_step_waiting_approval → is_answer e ≡ false
asks-answer e h = rw h refl

has_waiting_lem :
    (w : Bool) (es : List Event)
    → (has_waiting w es ≡ true) ↔ (IsAwaiting es ⊎ (w ≡ true) × AreUnanswered es)
unfolding has_waiting
has_waiting_lem w [] = ((λ h. inr (h, tt)), (λ h. ground arith))
has_waiting_lem w (e ∷ es) = (
  λ h. ground (
    arith,
    has_waiting_lem true es,
    has_waiting_lem false es,
    asks-answer e,
    eq_iff e.kind event_step_waiting_approval,
  ),
  λ h. ground (
    arith,
    has_waiting_lem true es,
    has_waiting_lem false es,
    asks-answer e,
    eq_iff e.kind event_step_waiting_approval,
  ),
)

-- Which of the four answers is given.
waiting-chosen :
    (completed failed waiting : Bool)
    → ◌≡◌ {A = String}
        (if completed
          then "completed"
          else if failed
          then "failed"
          else if waiting
          then "waiting"
          else "running")
        "waiting"
      ↔ (completed ≡ false) × (failed ≡ false) × (waiting ≡ true)
waiting-chosen true failed waiting =
    (λ h. absurd (differ "completed" "waiting" refl h), λ h. cc (h.0))
waiting-chosen false true waiting = (λ h. absurd (differ "failed" "waiting" refl h), λ h. cc (h.1))
waiting-chosen false false true = (λ h. (refl, refl, refl), λ h. refl)
waiting-chosen false false false = (λ h. absurd (differ "running" "waiting" refl h), λ h. cc (h.2))

-- A run that can be read is waiting exactly when its last event does not end it and some step has
-- asked for approval without a later answer.
pub run_status-waiting_iff :
    (e : Event) (es : List Event)
    → (run_status (some (e ∷ es)) ≡ "waiting")
      ↔ ((last_event e es).kind ≢ event_run_completed)
        × ((last_event e es).kind ≢ event_run_failed)
        × IsAwaiting (e ∷ es)
unfolding run_status
run_status-waiting_iff e es =
    let last = (last_event e es).kind in
    let chosen =
      waiting-chosen (last == event_run_completed) (last == event_run_failed)
        (has_waiting false (e ∷ es)) in
    (
      λ h.
          let (c, f, w) = chosen.0 h in
          ground (
            arith,
            w,
            has_waiting_lem false (e ∷ es),
            c,
            f,
            eq_iff last event_run_completed,
            eq_iff last event_run_failed,
          ),
      λ h. chosen.1 (
        ground (arith, eq_iff last event_run_completed),
        ground (arith, eq_iff last event_run_failed),
        ground (arith, h.2, has_waiting_lem false (e ∷ es)),
      ),
    )
