-- ===== src/Examples/Recording.antt =====
-- Logs of runs, and what is read from them.
use daggle.Prelude.{ℕ, String, ◌≡◌, refl, ◌≢◌, ◌↔◌, false, List, [], ◌∷◌, none, some, differ}
use daggle.State.Event.{
  Event, event, event_run_completed, event_run_failed, event_step_started, event_step_completed,
  event_step_waiting_approval, event_step_approved, event_run_started,
}
use daggle.State.Run.{
  RunInfo, Logs, run_status, last_event, sort_runs, latest_run_with_status, find_run,
  last_run_end_time, validate_dag_name,
}
use daggle.Go.Duration.{parse_duration}
use daggle.State.Run.Status.{IsAwaiting, run_status-waiting_iff}
use daggle.State.Run.Latest.{IsLatestWanted, latest_run_with_status-IsLatestWanted}
use daggle.State.Summary.{new_state, walk, no_walk, build_step_summaries}
use daggle.State.Summary.History.{events_of, replay, walk-events_of}
use daggle.State.Summary.Order.{first_seen, AreStatesOf, build_step_summaries-AreStatesOf}

-- An event of one step.
abbrev on_step : String → String → ℕ → Event
on_step kind id attempt = record (event kind) { step_id = id; attempt = attempt }

-- The step `b` has asked for approval, and `a` has ended.
abbrev open_log : List Event
open_log =
    on_step event_step_started "a" 1
    ∷ on_step event_step_waiting_approval "b" 0
    ∷ on_step event_step_completed "a" 1
    ∷ []

abbrev first_event : Event
first_event = event event_run_started

asked : run_status (some (first_event ∷ open_log)) ≡ "waiting"
unfolding run_status
asked = refl

answered :
    run_status (
      some (
        first_event
        ∷ on_step event_step_waiting_approval "b" 0
        ∷ on_step event_step_approved "b" 0
        ∷ []))
    ≡ "running"
unfolding run_status
answered = refl

run_status-waiting_iff_example :
    (run_status (some (first_event ∷ open_log)) ≡ "waiting")
    ↔ ((last_event first_event open_log).kind ≢ event_run_completed)
      × ((last_event first_event open_log).kind ≢ event_run_failed)
      × IsAwaiting (first_event ∷ open_log)
run_status-waiting_iff_example = run_status-waiting_iff first_event open_log

abbrev run_at : String → ℕ → RunInfo
run_at id at = record { id = id; dag_name = "etl"; start_time = at; dir = id }

abbrev two_runs : List RunInfo
two_runs = run_at "old" 3 ∷ run_at "new" 5 ∷ []

-- Every run has failed.
abbrev failed_logs : Logs
failed_logs dir = some (record (event event_run_failed) { timestamp = 9 } ∷ [])

newest_first : sort_runs two_runs ≡ run_at "new" 5 ∷ run_at "old" 3 ∷ []
unfolding sort_runs
newest_first = refl

newest_failed :
    latest_run_with_status failed_logs ("failed" ∷ []) (sort_runs two_runs) ≡ some (run_at "new" 5)
unfolding latest_run_with_status sort_runs run_status
newest_failed = refl

found : find_run "old" two_runs ≡ some (run_at "old" 3)
unfolding find_run
found = refl

ended_at : last_run_end_time failed_logs two_runs ≡ some 9
unfolding last_run_end_time
ended_at = refl

outside : validate_dag_name "../etc" ≡ false
unfolding validate_dag_name
outside = refl

latest_run_with_status-IsLatestWanted_example :
    IsLatestWanted failed_logs
      ("failed" ∷ [])
      (sort_runs two_runs)
      (latest_run_with_status failed_logs ("failed" ∷ []) (sort_runs two_runs))
latest_run_with_status-IsLatestWanted_example =
    latest_run_with_status-IsLatestWanted failed_logs ("failed" ∷ []) two_runs

two_states :
    build_step_summaries open_log
    ≡ record (new_state "a") { status = "completed"; attempts = 1 }
      ∷ record (new_state "b") { status = "waiting" }
      ∷ []
unfolding build_step_summaries parse_duration
two_states = refl

walk-events_of_example :
    (walk open_log no_walk).steps "a" ≡ replay "a" (events_of "a" open_log) none
walk-events_of_example = walk-events_of "a" open_log (differ "a" "" refl)

build_step_summaries-AreStatesOf_example :
    AreStatesOf open_log (build_step_summaries open_log) (first_seen [] open_log)
build_step_summaries-AreStatesOf_example = build_step_summaries-AreStatesOf open_log
