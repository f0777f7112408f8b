-- ===== src/Engine/Retry.antt =====
-- The attempts of a step and the delays between them (internal/engine/retry.go, dag/dag.go).
pub mod Attempts
pub mod Silent
pub mod Status
use daggle.Prelude.{
  ℕ, zero, suc, ◌+◌, ◌-◌, ◌*◌, ◌^◌, ◌%◌, ◌≤◌, String, Bool, true, false, List, [], ◌∷◌, Option,
  none, some, ◌==◌, if◌then◌else◌, ltb,
}
use daggle.Prelude.Int.{ℤ, pos, negsuc}
use daggle.Go.Strings.{text_append}
use daggle.Go.Duration.{parse_duration}
use daggle.Dag.Model.{Step, Retry}
use daggle.State.Event.{event, event_step_started, event_step_retrying}
use daggle.Engine.Action.{Result, Action, slept, Outcome, World, after}
use daggle.Engine.Step.{write_event, on_step_success, on_step_failure}

-- The int64 that has these 64 low bits.
abbrev pub int64 : ℕ → ℤ
int64 n = let m = n % 2 ^ 64 in if ltb m (2 ^ 63) then pos m else negsuc (2 ^ 64 - suc m)

-- Step.MaxAttempts: `Limit + 1` as an int, which wraps, where the limit is positive.
abbrev pub attempts_for : ℤ → ℤ
attempts_for (pos zero) = pos 1
attempts_for (pos (suc n)) = int64 (suc n + 1)
attempts_for (negsuc n) = pos 1

abbrev pub attempts_of : Option Retry → ℤ
attempts_of none = pos 1
attempts_of (some r) = attempts_for r.limit

unfoldable pub max_attempts : Step → ℤ
max_attempts s = attempts_of s.retry

-- How often `attempt <= maxAttempts` holds, from 1 on.
abbrev pub attempt_count : ℤ → ℕ
attempt_count (pos n) = n
attempt_count (negsuc n) = 0

-- The step is tried at all: `Limit + 1` has not wrapped.
abbrev pub IsTried : Step → Type 0
IsTried s = 1 ≤ attempt_count (max_attempts s)

abbrev pub less : ℤ → ℤ → Bool
less (pos a) (pos b) = ltb a b
less (pos a) (negsuc b) = false
less (negsuc a) (pos b) = true
less (negsuc a) (negsuc b) = ltb b a

-- time.Second
abbrev pub second : ℕ
second = 1_000_000_000

-- 1<<uint(attempt-1), which shifts everything out at 0
abbrev pub power_of : ℕ → ℕ
power_of zero = 0
power_of (suc n) = 2 ^ n

-- The delay before the cap: `power_of attempt` or `attempt` seconds, in an int64.
abbrev pub base_delay : ℕ → Option Retry → ℤ
base_delay attempt none = int64 (attempt * second)
base_delay attempt (some r) =
    if r.backoff == "exponential"
    then int64 (power_of attempt * second)
    else int64 (attempt * second)

-- `delay > max`, where max_delay is a duration
abbrev pub capped : ℤ → Option ℤ → ℤ
capped delay none = delay
capped delay (some max) = if less max delay then max else delay

unfoldable pub retry_delay : ℕ → Option Retry → ℤ
retry_delay attempt none = base_delay attempt none
retry_delay attempt (some r) =
    if r.max_delay == ""
    then base_delay attempt (some r)
    else capped (base_delay attempt (some r)) (parse_duration r.max_delay)

abbrev pub started_event : World → Step → ℕ → Action
started_event w s attempt =
    write_event w (record (event event_step_started) { step_id = s.id; attempt = attempt })

abbrev pub retrying_event : World → Step → ℕ → String → Action
retrying_event w s attempt message =
    write_event w
      (record (event event_step_retrying) { step_id = s.id; error = message; attempt = attempt })

-- if lastResult.Err == nil
abbrev pub settle : Option String → Outcome → (String → Outcome) → Outcome
settle none won lost = won
settle (some message) won lost = lost message

-- The attempts from `attempt` on, with `left` more after it.
unfoldable pub attempt_loop : World → Step → (ℕ → Result) → ℕ → ℕ → Outcome
attempt_loop w s run zero attempt = after (started_event w s attempt ∷ []) (
    settle (run attempt).err (on_step_success w s (run attempt) attempt)
      (λ message. on_step_failure w s (run attempt) message attempt))
attempt_loop w s run (suc left) attempt =
    let rest = attempt_loop w s run left (suc attempt) in
    after (started_event w s attempt ∷ []) (
      settle (run attempt).err (on_step_success w s (run attempt) attempt) (λ message.
        after (retrying_event w s attempt message ∷ slept (retry_delay attempt s.retry) ∷ []) rest))

-- Without an attempt, onStepFailure calls Error of a nil error. The panic, which ends the program, is
-- an error here; what follows it is not modelled.
abbrev pub panicked : Outcome
panicked = record {
  trace = [];
  err = some "runtime error: invalid memory address or nil pointer dereference";
}

-- The loop with its number of attempts.
abbrev pub run_attempts : World → Step → (ℕ → Result) → ℕ → Outcome
run_attempts w s run zero = panicked
run_attempts w s run (suc left) = attempt_loop w s run left 1

-- The executor of the step, which may be nil.
unfoldable pub attempt_with : World → Step → Option (ℕ → Result) → Outcome
unfolding attempt_loop max_attempts
attempt_with w s none = record { trace = []; err = some (text_append "no executor for step " s.id) }
attempt_with w s (some run) = run_attempts w s run (attempt_count (max_attempts s))

unfoldable pub execute_with_retries : World → Step → Outcome
execute_with_retries w s = attempt_with w s (w.executor s)
