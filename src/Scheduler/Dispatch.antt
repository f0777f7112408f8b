-- ===== src/Scheduler/Dispatch.antt =====
-- What a finished run triggers (scheduler/trigger_ondag.go), and the counts of the scheduler's status
-- (Status in scheduler/scheduler.go).
use daggle.Prelude.{String, Bool, ◌&&◌, ◌||◌, List, [], ◌∷◌, ◌==◌, if◌then◌else◌}
use daggle.Go.Map.{get}
use daggle.Dag.Model.{Assoc}
use daggle.Scheduler.Sync.{Listener, or_empty}

pub record CompletionEvent : Type 0 where
  pub event_dag : String
  pub event_status : String

abbrev pub is_wanted : Listener → String → Bool
is_wanted l status =
    l.status == "any" || l.status == status || l.status == "" && status == "completed"

unfoldable pub fired_paths : List Listener → String → List String
fired_paths [] status = []
fired_paths (l ∷ ls) status =
    let rest = fired_paths ls status in if is_wanted l status then l.downstream ∷ rest else rest

-- The files of `triggerRun` for one event.
unfoldable pub dispatch_completion : Assoc (List Listener) → CompletionEvent → List String
unfolding fired_paths
dispatch_completion listeners event =
    fired_paths (or_empty (get listeners event.event_dag)) event.event_status
