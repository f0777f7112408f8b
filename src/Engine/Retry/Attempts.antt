-- ===== src/Engine/Retry/Attempts.antt =====
-- Which attempts are made, and what they leave behind.
use daggle.Prelude.{
  ℕ, zero, suc, ◌+◌, ◌-◌, ◌≤◌, String, ◌≡◌, refl, ◌⊎◌, inl, inr, List, [], ◌∷◌, Option, none, some,
  arith, subst, sym, ap,
}
use daggle.Dag.Model.{Step}
use daggle.Engine.Action.{Result, Action, slept, Outcome, World, after}
use daggle.Engine.Step.{on_step_success, on_step_failure}
use daggle.Engine.Retry.{
  max_attempts, attempt_count, IsTried, run_attempts, retry_delay, started_event, retrying_event,
  settle, attempt_loop, attempt_with, execute_with_retries,
}

abbrev pub message_of : Option String → String
message_of none = ""
message_of (some message) = message

-- The actions of `n` attempts that fail and are tried again, from attempt `a` on.
abbrev pub retries : World → Step → (ℕ → Result) → ℕ → ℕ → List Action
retries w s run zero a = []
retries w s run (suc n) a =
    started_event w s a
    ∷ retrying_event w s a (message_of (run a).err)
    ∷ slept (retry_delay a s.retry)
    ∷ retries w s run n (suc a)

-- The `n` attempts from `a` on fail.
abbrev pub Fail : (ℕ → Result) → ℕ → ℕ → Type 0
Fail run zero a = Unit
Fail run (suc n) a = ((message : String) × ((run a).err ≡ some message)) × Fail run n (suc a)

-- The last attempt, and what follows it.
abbrev pub succeeded : World → Step → (ℕ → Result) → ℕ → Outcome
succeeded w s run a = after (started_event w s a ∷ []) (on_step_success w s (run a) a)

abbrev pub gave_up : World → Step → (ℕ → Result) → ℕ → Outcome
gave_up w s run a =
    after (started_event w s a ∷ []) (on_step_failure w s (run a) (message_of (run a).err) a)

-- Up to `left` attempts fail and are tried again, and the next one succeeds; or the attempt from
-- `a` and `left` more all fail.
abbrev pub FirstSuccess : World → Step → (ℕ → Result) → ℕ → ℕ → Outcome → Type 0
FirstSuccess w s run left a o =
    (n : ℕ) × (n ≤ left)
    × Fail run n a
    × ((run (n + a)).err ≡ none)
    × (o ≡ after (retries w s run n a) (succeeded w s run (n + a)))

abbrev pub NoSuccess : World → Step → (ℕ → Result) → ℕ → ℕ → Outcome → Type 0
NoSuccess w s run left a o =
    Fail run (suc left) a × (o ≡ after (retries w s run left a) (gave_up w s run (left + a)))

module _ (w : World) (s : Step) (run : ℕ → Result) where
  next_success :
      (left a : ℕ) (m : String) (rest : Outcome)
      → (run a).err ≡ some m
      → FirstSuccess w s run left (suc a) rest
      → FirstSuccess w s run (suc left) a (
          after
            (started_event w s a ∷ retrying_event w s a m ∷ slept (retry_delay a s.retry) ∷ [])
            rest)
  next_success left a m rest e (n, below, fails, won, same) =
      let moved : n + suc a ≡ suc n + a = omega arith in
      (
        suc n,
        omega (arith, below),
        ((m, e), fails),
        subst (λ k. (run k).err ≡ none) moved won,
        rw (e, same, moved) refl,
      )

  next_failure :
      (left a : ℕ) (m : String) (rest : Outcome)
      → (run a).err ≡ some m
      → NoSuccess w s run left (suc a) rest
      → NoSuccess w s run (suc left) a (
          after
            (started_event w s a ∷ retrying_event w s a m ∷ slept (retry_delay a s.retry) ∷ [])
            rest)
  next_failure left a m rest e (fails, same) =
      let moved : left + suc a ≡ suc left + a = omega arith in
      (((m, e), fails), rw (e, same, moved) refl)

  first_success :
      (left a : ℕ) → (run a).err ≡ none → FirstSuccess w s run left a (succeeded w s run a)
  first_success left a e =
      let here : a ≡ 0 + a = omega arith in
      (
        0,
        omega arith,
        tt,
        subst (λ k. (run k).err ≡ none) here e,
        subst (λ k. succeeded w s run a ≡ after [] (succeeded w s run k)) here refl,
      )

  only_failure :
      (a : ℕ) (m : String) → (run a).err ≡ some m → NoSuccess w s run 0 a (gave_up w s run a)
  only_failure a m e =
      let here : a ≡ 0 + a = omega arith in
      (((m, e), tt), subst (λ k. gave_up w s run a ≡ after [] (gave_up w s run k)) here refl)

  Settled : ℕ → ℕ → Outcome → Type 0
  Settled left a o = FirstSuccess w s run left a o ⊎ NoSuccess w s run left a o

  -- The rest of an attempt, by its result.
  settled :
      (left a : ℕ) (lost : String → Outcome) (o : Option String)
      → (run a).err ≡ o
      → ((m : String)
          → (run a).err ≡ some m
          → Settled left a (after (started_event w s a ∷ []) (lost m)))
      → Settled left a
          (after (started_event w s a ∷ []) (settle o (on_step_success w s (run a) a) lost))
  unfolding Settled
  settled left a lost none e h = inl (first_success left a e)
  settled left a lost (some m) e h = h m e

  attempt_loop_cases : (left a : ℕ) → Settled left a (attempt_loop w s run left a)
  unfolding attempt_loop Settled
  attempt_loop_cases zero a = settled zero a _ (run a).err refl (λ m e.
      subst
        (λ k.
          Settled zero a
            (after (started_event w s a ∷ []) (on_step_failure w s (run a) (message_of k) a)))
        e (inr (only_failure a m e)))
  attempt_loop_cases (suc left) a = settled (suc left) a _ (run a).err refl (λ m e.
      elim (attempt_loop_cases left (suc a)) [
        | inl r ↦ inl (next_success left a m _ e r)
        | inr r ↦ inr (next_failure left a m _ e r)
      ])

run_attempts_lem :
    (w : World) (s : Step) (run : ℕ → Result) (n : ℕ)
    → 1 ≤ n
    → run_attempts w s run n ≡ attempt_loop w s run (n - 1) 1
run_attempts_lem w s run zero h = absurd (omega arith)
run_attempts_lem w s run (suc n) h =
    let left : n ≡ suc n - 1 = omega arith in ap (λ k. attempt_loop w s run k 1) left

-- A step that has an executor, and whose `MaxAttempts` has not wrapped, is tried until an attempt
-- succeeds or `MaxAttempts` attempts have failed: each failed attempt but the last is followed by a
-- retry event and the delay, the first success by `onStepSuccess`, and the last failure by
-- `onStepFailure`.
pub execute_with_retries_cases :
    (w : World) (s : Step) (run : ℕ → Result)
    → w.executor s ≡ some run
    → IsTried s
    → FirstSuccess w s run (attempt_count (max_attempts s) - 1) 1 (execute_with_retries w s)
      ⊎ NoSuccess w s run (attempt_count (max_attempts s) - 1) 1 (execute_with_retries w s)
unfolding execute_with_retries attempt_with Settled
execute_with_retries_cases w s run e tried =
    let left = attempt_count (max_attempts s) - 1 in
    subst
      (λ o.
        FirstSuccess w s run left 1 (attempt_with w s o)
        ⊎ NoSuccess w s run left 1 (attempt_with w s o))
      (sym e)
      (subst (λ o. FirstSuccess w s run left 1 o ⊎ NoSuccess w s run left 1 o)
        (sym (run_attempts_lem w s run (attempt_count (max_attempts s)) tried))
        (attempt_loop_cases w s run left 1))
