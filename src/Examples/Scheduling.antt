-- ===== src/Examples/Scheduling.antt =====
-- Triggers of two workflows, and a schedule that fires every sixty seconds.
use daggle.Prelude.{
  ℕ, ◌+◌, ◌<◌, ◌≡◌, refl, true, false, List, [], ◌∷◌, none, some, arith, count, if◌then◌else◌, ◌==◌,
  ◌≤◌,
}
use daggle.Prelude.Int.{pos}
use daggle.Dag.Model.{Trigger, Dag}
use daggle.Scheduler.Deadline.{Clock, Look, check_deadline_of, check_day}
use daggle.Scheduler.Deadline.Daily.{check_day-count}
use daggle.Scheduler.Trigger.{
  State, idle, trigger_run, finish_run, Reachable, start, step, triggered,
}
use daggle.Scheduler.Trigger.Invariant.{IsConsistent, Reachable-IsConsistent}
use daggle.Scheduler.Catchup.{Ticks, missed_ticks, due_ticks}
use daggle.Scheduler.Catchup.Missed.{AreMissed, missed_ticks-all, due_ticks-unending}

-- `etl` is triggered twice, with overlap: skip, and then `report`, where one run may be active.
abbrev etl_active : State
etl_active =
    trigger_run 1 "skip" "report" (trigger_run 1 "skip" "etl" (trigger_run 1 "skip" "etl" idle))

one_run : etl_active.live ≡ "etl" ∷ []
unfolding trigger_run
one_run = refl

run_over : (finish_run "etl" etl_active).running_count ≡ pos 0
unfolding trigger_run finish_run
run_over = refl

etl-Reachable : Reachable 1 etl_active
etl-Reachable =
    step
      (step (step start (triggered "skip" "etl" idle))
        (triggered "skip" "etl" (trigger_run 1 "skip" "etl" idle)))
      (triggered "skip" "report" (trigger_run 1 "skip" "etl" (trigger_run 1 "skip" "etl" idle)))

Reachable-IsConsistent_example : IsConsistent 1 etl_active
Reachable-IsConsistent_example = Reachable-IsConsistent 1 etl_active etl-Reachable

abbrev minutely : ℕ → ℕ
minutely t = t + 60

minutely_later : (t : ℕ) → t < minutely t
minutely_later t = omega arith

missed_three : missed_ticks (some minutely) 100 300 "all" 10 ≡ some (160 ∷ 220 ∷ 280 ∷ [], false)
unfolding missed_ticks
missed_three = refl

truncated_two : missed_ticks (some minutely) 100 300 "all" 2 ≡ some (160 ∷ 220 ∷ [], true)
unfolding missed_ticks
truncated_two = refl

missed_ticks-all_example :
    (r : Ticks) × (missed_ticks (some minutely) 100 300 "all" 2 ≡ some r)
    × AreMissed minutely 300 true 2 0 160 r
missed_ticks-all_example = missed_ticks-all minutely minutely_later 100 300 2 (omega arith)

due_ticks-unending_example : due_ticks (λ t. 0) 1_700_000_000 5 0 ≡ none
due_ticks-unending_example = due_ticks-unending 1_700_000_000 5

-- A workflow that should have run by nine, looked at three times on one day.
abbrev daily_trigger : Trigger
daily_trigger = record {
  schedule = "0 8 * * *";
  watch = none;
  webhook = none;
  on_dag = none;
  condition = none;
  git = none;
  overlap = "";
  catchup = "";
  deadline = "09:00";
  on_deadline = some (record { r_expr = ""; command = "alert.sh"; notify = ""; message = "" });
}

abbrev daily : Dag
daily = record {
  version = "1";
  name = "daily";
  trigger = some daily_trigger;
  env = none;
  params = [];
  steps = [];
  workdir = "";
  max_parallel = pos 0;
  owner = "";
  team = "";
  description = "";
  tags = [];
  exposures = [];
  r_version = "";
  r_version_strict = false;
  source_dir = "";
  on_success = none;
  on_failure = none;
  on_exit = none;
}

abbrev at_nine : Clock
at_nine = record { parse_deadline = λ text. some 540; has_run_today = λ name. false }

abbrev look_at : ℕ → Look
look_at now = record { clock = at_nine; now = now; dags = daily ∷ [] }

abbrev three_looks : List Look
three_looks = look_at 500 ∷ look_at 560 ∷ look_at 620 ∷ []

fired_once : (check_day "2026-01-05" three_looks (λ name. "")).hooks ≡ "daily" ∷ []
unfolding check_day check_deadline_of
fired_once = refl

check_day-count_example :
    count "daily" (check_day "2026-01-05" three_looks (λ name. "")).hooks
    ≤ (if "" == "2026-01-05" then 0 else 1)
check_day-count_example = check_day-count "2026-01-05" "daily" three_looks (λ name. "")
