-- ===== src/State/Summary.antt =====
-- The state of each step, accumulated from the events of a run (state/summary.go).
pub mod Order
pub mod History
use daggle.Prelude.{
  ℕ, String, Bool, true, false, List, [], ◌∷◌, ◌++◌, Option, none, some, ◌==◌, if◌then◌else◌,
}
use daggle.Prelude.Int.{ℤ, pos}
use daggle.Go.Duration.{parse_duration}
use daggle.Dag.TopoSort.{update}
use daggle.State.Event.{
  Event, CacheInfo, event_step_started, event_step_completed, event_step_failed,
  event_step_retrying, event_step_waiting_approval, event_step_approved, event_step_rejected,
  event_step_skipped, event_step_cached,
}

pub record StepState : Type 0 where
  pub step_id : String
  pub status : String
  pub duration : ℤ
  pub attempts : ℕ
  pub error : String
  pub error_detail : String
  pub message : String
  pub cached : Bool
  pub cache_key : String
  pub peak_rss_kb : ℤ
  pub user_cpu_sec : ℕ
  pub sys_cpu_sec : ℕ

-- &StepState{StepID: id}
abbrev pub new_state : String → StepState
new_state id = record {
  step_id = id;
  status = "";
  duration = pos 0;
  attempts = 0;
  error = "";
  error_detail = "";
  message = "";
  cached = false;
  cache_key = "";
  peak_rss_kb = pos 0;
  user_cpu_sec = 0;
  sys_cpu_sec = 0;
}

-- ss.Duration is set where the text of the event is a duration.
abbrev pub duration_or : ℤ → String → ℤ
duration_or d s = elim (parse_duration s) [ none ↦ d | some n ↦ n ]

abbrev pub cache_key_or : String → Option CacheInfo → String
cache_key_or k none = k
cache_key_or k (some c) = c.cache_key

-- The switch on the type of the event.
unfoldable pub apply_event : Event → StepState → StepState
apply_event e s =
    if e.kind == event_step_started
    then record s { status = "running"; attempts = e.attempt }
    else if e.kind == event_step_completed
    then record s {
      status = "completed";
      duration = duration_or s.duration e.duration;
      attempts = e.attempt;
      peak_rss_kb = e.peak_rss_kb;
      user_cpu_sec = e.user_cpu_sec;
      sys_cpu_sec = e.sys_cpu_sec;
    }
    else if e.kind == event_step_failed
    then record s {
      status = "failed";
      duration = duration_or s.duration e.duration;
      attempts = e.attempt;
      error = e.error;
      error_detail = e.error_detail;
    }
    else if e.kind == event_step_retrying
    then record s { status = "retrying" }
    else if e.kind == event_step_waiting_approval
    then record s { status = "waiting"; message = e.message }
    else if e.kind == event_step_approved
    then record s { status = "approved" }
    else if e.kind == event_step_rejected
    then record s { status = "rejected" }
    else if e.kind == event_step_skipped
    then record s { status = "skipped" }
    else if e.kind == event_step_cached
    then record s {
      status = "cached";
      cached = true;
      cache_key = cache_key_or s.cache_key e.cache_info;
    }
    else s

-- `steps` and `order`
pub record Walk : Type 0 where
  pub steps : String → Option StepState
  pub order : List String

abbrev pub no_walk : Walk
no_walk = record { steps = λ _. none; order = [] }

-- ss, ok := steps[e.StepID]: the step's state, a new one where there is none.
abbrev pub state_or_new : String → Option StepState → StepState
state_or_new id none = new_state id
state_or_new id (some s) = s

-- A new id is appended to the order.
abbrev pub order_after : String → Option StepState → List String → List String
order_after id none order = order ++ id ∷ []
order_after id (some s) order = order

-- The body of the loop over the events.
unfoldable pub walk_event : Event → Walk → Walk
walk_event e w = if e.step_id == "" then w else record {
  steps =
      update w.steps e.step_id (some (apply_event e (state_or_new e.step_id (w.steps e.step_id))));
  order = order_after e.step_id (w.steps e.step_id) w.order;
}

unfoldable pub walk : List Event → Walk → Walk
walk [] w = w
walk (e ∷ es) w = walk es (walk_event e w)

-- *steps[id]
abbrev pub add_state : Option StepState → List StepState → List StepState
add_state none rest = rest
add_state (some s) rest = s ∷ rest

unfoldable pub collect : (String → Option StepState) → List String → List StepState
collect steps [] = []
collect steps (id ∷ order) = add_state (steps id) (collect steps order)

unfoldable pub build_step_summaries : List Event → List StepState
unfolding walk collect walk_event apply_event
build_step_summaries es = let w = walk es no_walk in collect w.steps w.order
