-- ===== src/State/Run.antt =====
-- Finding runs and their status (state/run.go). The run directories are a list of entries with
-- their logs; `none` is a log that cannot be read.
pub mod Status
pub mod Latest
use daggle.Prelude.{
  ℕ, String, Bool, true, false, ◌&&◌, ◌||◌, not, List, [], ◌∷◌, map, Option, none, some, ◌==◌,
  if◌then◌else◌, ltb, contains,
}
use daggle.Go.Text.{codes, has_char}
use daggle.State.Event.{
  Event, event_run_completed, event_run_failed, event_step_waiting_approval, event_step_approved,
  event_step_rejected,
}

pub record RunInfo : Type 0 where
  pub id : String
  pub dag_name : String
  pub start_time : ℕ
  pub dir : String

-- What is on disk of a run: `ReadEvents` of its directory.
abbrev pub Logs : Type 0
Logs = String → Option (List Event)

-- The event approves or rejects a step.
abbrev pub is_answer : Event → Bool
is_answer e = e.kind == event_step_approved || e.kind == event_step_rejected

-- hasWaiting
unfoldable pub has_waiting : Bool → List Event → Bool
has_waiting w [] = w
has_waiting w (e ∷ es) =
    let seen = if e.kind == event_step_waiting_approval then true else w in
    has_waiting (if is_answer e then false else seen) es

-- events[len(events)-1], of a list that begins with `e`
abbrev pub last_event : Event → List Event → Event
last_event e [] = e
last_event e (f ∷ es) = last_event f es

unfoldable pub run_status : Option (List Event) → String
unfolding has_waiting
run_status none = "unknown"
run_status (some []) = "unknown"
run_status (some (e ∷ es)) =
    let last = last_event e es in
    if last.kind == event_run_completed
    then "completed"
    else if last.kind == event_run_failed
    then "failed"
    else if has_waiting false (e ∷ es)
    then "waiting"
    else "running"

-- sort.Slice by StartTime, the latest first; Go leaves the order of equal times open, and here
-- they keep their order.
unfoldable pub insert_run : RunInfo → List RunInfo → List RunInfo
insert_run r [] = r ∷ []
insert_run r (q ∷ rs) =
    let rest = insert_run r rs in if ltb r.start_time q.start_time then q ∷ rest else r ∷ q ∷ rs

unfoldable pub sort_runs : List RunInfo → List RunInfo
unfolding insert_run
sort_runs [] = []
sort_runs (r ∷ rs) = insert_run r (sort_runs rs)

-- LatestRun, of the runs that ListRuns returns
abbrev pub latest_run : List RunInfo → Option RunInfo
latest_run [] = none
latest_run (r ∷ rs) = some r

-- LatestRunWithStatus
unfoldable pub latest_run_with_status : Logs → List String → List RunInfo → Option RunInfo
latest_run_with_status logs want [] = none
latest_run_with_status logs want (r ∷ rs) =
    let rest = latest_run_with_status logs want rs in
    if contains want (run_status (logs r.dir)) then some r else rest

-- FindRun: `none` is the error that no such run is found.
abbrev pub run_by_id : String → List RunInfo → Option RunInfo
run_by_id id [] = none
run_by_id id (r ∷ rs) = let rest = run_by_id id rs in if r.id == id then some r else rest

unfoldable pub find_run : String → List RunInfo → Option RunInfo
find_run id runs = if id == "" || id == "latest" then latest_run runs else run_by_id id runs

-- The end of one run, where its log ends with a terminal event.
abbrev pub end_time : Option (List Event) → Option ℕ
end_time none = none
end_time (some []) = none
end_time (some (e ∷ es)) =
    let last = last_event e es in
    if last.kind == event_run_completed || last.kind == event_run_failed
    then some last.timestamp
    else none

-- LastRunEndTime: `none` where no run has ended.
unfoldable pub last_run_end_time : Logs → List RunInfo → Option ℕ
last_run_end_time logs [] = none
last_run_end_time logs (r ∷ rs) =
    let rest = last_run_end_time logs rs in
    elim (end_time (logs r.dir)) [ some t ↦ some t | none ↦ rest ]

-- ValidateDAGName, on a Unix system: the separator is a slash.
unfoldable pub validate_dag_name : String → Bool
validate_dag_name name = not (
    name == ""
    || name == "."
    || name == ".."
    || has_char b'/' (codes name)
    || has_char b'\\' (codes name))
