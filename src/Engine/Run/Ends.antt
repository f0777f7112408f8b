-- ===== src/Engine/Run/Ends.antt =====
-- Logs that end with the event of a finished run.
use daggle.Prelude.{String, ◌≡◌, refl, List, [], ◌∷◌, ◌++◌, some}
use daggle.State.Event.{Event, event_run_completed, event_run_failed}
use daggle.State.Run.{last_event, run_status}

-- The log ends with an event of this kind.
abbrev pub Ends : String → List Event → Type 0
Ends kind [] = ⊥
Ends kind (e ∷ []) = e.kind ≡ kind
Ends kind (e ∷ f ∷ es) = Ends kind (f ∷ es)

pub append-Ends : (kind : String) (es fs : List Event) → Ends kind fs → Ends kind (es ++ fs)
append-Ends kind [] fs h = h
append-Ends kind (e ∷ []) [] h = absurd h
append-Ends kind (e ∷ []) (f ∷ fs) h = h
append-Ends kind (e ∷ f ∷ es) fs h = append-Ends kind (f ∷ es) fs h

last-kind :
    (kind : String) (e : Event) (es : List Event)
    → Ends kind (e ∷ es)
    → (last_event e es).kind ≡ kind
last-kind kind e [] h = h
last-kind kind e (f ∷ es) h = last-kind kind f es h

pub run_status-completed :
    (es : List Event) → Ends event_run_completed es → run_status (some es) ≡ "completed"
unfolding run_status
run_status-completed [] h = absurd h
run_status-completed (e ∷ es) h = rw (last-kind event_run_completed e es h) refl

pub run_status-failed :
    (es : List Event) → Ends event_run_failed es → run_status (some es) ≡ "failed"
unfolding run_status
run_status-failed [] h = absurd h
run_status-failed (e ∷ es) h = rw (last-kind event_run_failed e es h) refl
