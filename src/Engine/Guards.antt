-- ===== src/Engine/Guards.antt =====
-- What stands before the attempts of a step (internal/engine/guards.go, cache.go and runStep). A
-- message keeps the step and the kind of failure, and leaves out indices, paths and ages.
use daggle.Prelude.{
  String, Bool, true, false, not, ◌&&◌, List, [], ◌∷◌, ◌++◌, Option, none, some, ◌⊎◌, inl, inr,
  ◌==◌, if◌then◌else◌,
}
use daggle.Prelude.Int.{ℤ}
use daggle.Go.Strings.{text_append}
use daggle.Go.Duration.{parse_duration}
use daggle.Dag.Model.{Step, StepCondition, Precondition, FreshnessCheck}
use daggle.State.Event.{event, event_step_skipped, event_step_cached}
use daggle.Engine.Action.{Outcome, World, CacheHit}
use daggle.Engine.Step.{write_event, collect_outputs, on_step_success}
use daggle.Engine.Retry.{less, attempt_with, execute_with_retries}

-- A guard lets the step run, skips it, or fails it.
pub data Gate : Type 0 where
  pass : Gate
  skip : Gate
  deny : String → Gate

-- evaluateCondition: a condition without a command is met.
abbrev pub evaluate_condition : World → StepCondition → Bool ⊎ String
evaluate_condition w c = if c.r_expr == "" && c.command == "" then inl true else w.condition_met c

-- The text names the step, which Go quotes.
abbrev pub step_message : Step → String → String
step_message s rest = text_append "step \"" (text_append s.id (text_append "\"" rest))

abbrev pub when_gate : Step → Bool ⊎ String → Gate
when_gate s (inl true) = pass
when_gate s (inl false) = skip
when_gate s (inr message) = deny (step_message s (text_append " when condition failed: " message))

unfoldable pub check_when_condition : World → Step → Gate
check_when_condition w s = elim s.when [
  | none ↦ pass
  | some c ↦ when_gate s (evaluate_condition w c)
]

abbrev pub precondition_gate : Step → Bool ⊎ String → Gate → Gate
precondition_gate s (inl true) rest = rest
precondition_gate s (inl false) rest = deny (step_message s " precondition not met")
precondition_gate s (inr message) rest =
    deny (step_message s (text_append " precondition failed: " message))

unfoldable pub check_preconditions : World → Step → List Precondition → Gate
check_preconditions w s [] = pass
check_preconditions w s (p ∷ ps) =
    precondition_gate s (evaluate_condition w (record { r_expr = p.r_expr; command = p.command }))
      (check_preconditions w s ps)

-- A stale source fails the step, or is only logged with `on_stale: warn`.
abbrev pub freshness_gate : Step → FreshnessCheck → Option ℤ → ℤ ⊎ String → Gate → Gate
freshness_gate s f none age rest = deny (step_message s " invalid max_age")
freshness_gate s f (some max) (inr message) rest = deny (step_message s message)
freshness_gate s f (some max) (inl age) rest =
    if less max age && not (f.on_stale == "warn")
    then deny (step_message s " source is stale")
    else rest

unfoldable pub check_freshness : World → Step → List FreshnessCheck → Gate
check_freshness w s [] = pass
check_freshness w s (f ∷ fs) =
    freshness_gate s f (parse_duration f.max_age) (w.source_age s f) (check_freshness w s fs)

-- tryCacheHit
unfoldable pub try_cache_hit : World → Step → Option CacheHit
try_cache_hit w s = if s.cache && w.has_cache then w.cache_lookup s else none

abbrev pub replayed : World → Step → CacheHit → Outcome
replayed w s hit = record {
  trace =
      collect_outputs s.id hit.outputs
      ++ write_event w
          (record (event event_step_cached) { step_id = s.id; cache_info = some hit.info })
        ∷ [];
  err = none;
}

abbrev pub run_uncached : World → Step → Option CacheHit → Outcome
run_uncached w s none = execute_with_retries w s
run_uncached w s (some hit) = replayed w s hit

-- A guard's verdict, and what runs where it lets the step pass.
abbrev pub enter : World → Step → Gate → Outcome → Outcome
enter w s pass go = go
enter w s skip go = record {
  trace = write_event w (record (event event_step_skipped) { step_id = s.id }) ∷ [];
  err = none;
}
enter w s (deny message) go = record { trace = []; err = some message }

unfoldable pub run_step : World → Step → Outcome
unfolding check_when_condition check_preconditions check_freshness try_cache_hit
    execute_with_retries attempt_with on_step_success
run_step w s = enter w s (check_when_condition w s) (
    enter w s (check_preconditions w s s.preconditions)
      (enter w s (check_freshness w s s.freshness) (run_uncached w s (try_cache_hit w s))))
