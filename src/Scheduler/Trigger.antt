-- ===== src/Scheduler/Trigger.antt =====
-- Triggers and active runs (triggerRunWithParams in scheduler/scheduler.go). Each definition is one
-- section under the scheduler's lock; a trigger that cancels an active run gives the lock up, waits
-- for that run or for five seconds, and takes it again. `live` are the goroutines of the runs that
-- have not yet left the map, `waiting` the triggers between their two sections.
pub mod Invariant
use daggle.Prelude.{
  ℕ, suc, String, Bool, true, false, not, ◌≡◌, List, [], ◌∷◌, ◌==◌, if◌then◌else◌, contains, ltb,
  length,
}
use daggle.Prelude.Int.{ℤ, pos, negsuc, pred_ℤ}

-- runEntry, with its key in the map: `cancelled` tells that its context is.
pub record RunEntry : Type 0 where
  pub dag_name : String
  pub cancelled : Bool

pub record State : Type 0 where
  pub running : List RunEntry
  pub running_count : ℤ
  pub live : List String
  pub waiting : List String

-- n++
abbrev pub succ_ℤ : ℤ → ℤ
succ_ℤ (pos n) = pos (suc n)
succ_ℤ (negsuc ℕ.zero) = pos 0
succ_ℤ (negsuc (ℕ.suc n)) = negsuc n

abbrev pub names : List RunEntry → List String
names [] = []
names (r ∷ running) = r.dag_name ∷ names running

-- _, running := s.running[name]
abbrev pub is_running : String → State → Bool
is_running name s = contains (names s.running) name

-- delete(s.running, name)
unfoldable pub delete_run : String → List RunEntry → List RunEntry
delete_run name [] = []
delete_run name (r ∷ running) =
    let rest = delete_run name running in if r.dag_name == name then rest else r ∷ rest

-- old.cancel()
unfoldable pub cancel_run : String → List RunEntry → List RunEntry
cancel_run name [] = []
cancel_run name (r ∷ running) =
    let rest = cancel_run name running in
    (if r.dag_name == name then record r { cancelled = true } else r) ∷ rest

-- One goroutine, or one waiting trigger, of this name is gone.
unfoldable pub remove_one : String → List String → List String
remove_one name [] = []
remove_one name (x ∷ xs) = let rest = remove_one name xs in if x == name then xs else x ∷ rest

-- s.runningCount >= s.maxConcurrent
abbrev pub is_full : ℕ → ℤ → Bool
is_full max (pos n) = not (ltb n max)
is_full max (negsuc n) = false

-- The run is registered and its goroutine started, unless as many runs are active as may be.
unfoldable pub start_run : ℕ → String → State → State
start_run max name s = if is_full max s.running_count then s else record s {
  running = record { dag_name = name; cancelled = false } ∷ s.running;
  running_count = succ_ℤ s.running_count;
  live = name ∷ s.live;
}

-- The first section of a trigger, with the workflow's overlap policy.
unfoldable pub trigger_run : ℕ → String → String → State → State
unfolding start_run cancel_run
trigger_run max overlap name s =
    if is_running name s
    then (if overlap == "cancel"
        then record s { running = cancel_run name s.running; waiting = name ∷ s.waiting }
        else s)
    else start_run max name s

-- The second section: another trigger may have registered the workflow meanwhile.
unfoldable pub resume_trigger : ℕ → String → State → State
unfolding start_run remove_one
resume_trigger max name s =
    let woken : State = record s { waiting = remove_one name s.waiting } in
    if is_running name s then woken else start_run max name woken

-- The deferred section at the end of a run.
unfoldable pub finish_run : String → State → State
unfolding delete_run remove_one
finish_run name s = record s {
  running = delete_run name s.running;
  running_count = pred_ℤ s.running_count;
  live = remove_one name s.live;
}

abbrev pub idle : State
idle = record { running = []; running_count = pos 0; live = []; waiting = [] }

-- What can happen next, in any interleaving.
pub data Transition (max : ℕ) : State → State → Type 0 where
  triggered :
      (overlap name : String) (s : State) → Transition max s (trigger_run max overlap name s)
  resumed :
      (name : String) (s : State)
      → contains s.waiting name ≡ true
      → Transition max s (resume_trigger max name s)
  finished :
      (name : String) (s : State)
      → contains s.live name ≡ true
      → Transition max s (finish_run name s)

pub data Reachable (max : ℕ) : State → Type 0 where
  start : Reachable max idle
  step : {s t : State} → Reachable max s → Transition max s t → Reachable max t
