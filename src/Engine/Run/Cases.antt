-- ===== src/Engine/Run/Cases.antt =====
-- Which tiers of a run are executed.
use daggle.Prelude.{
  ℕ, suc, ◌+◌, String, ◌≡◌, refl, ◌⊎◌, inl, inr, Bool, true, false, if◌then◌else◌, List, [], ◌∷◌,
  ◌++◌, Option, none, some, arith, sym, ap, ◌∙◌, append_assoc, subst, length, All, append-eq-nil,
}
use daggle.Dag.Model.{Step}
use daggle.Engine.Action.{Action, Outcome, World, after}
use daggle.Engine.Guards.{run_step}
use daggle.Engine.Retry.{IsTried}
use daggle.Engine.Run.{
  Concurrency, run_tier, run_tiers, settle_tier, tier_errors, step_error, join_errors, failed,
}

-- Every step of the tier ends without an error.
abbrev pub Succeeds : World → List Step → Type 0
Succeeds w tier = All (λ s. (run_step w s).err ≡ none) tier

-- The actions of the tiers, one tier after another.
abbrev pub tiers_trace : World → Concurrency → List (List Step) → List Action
tiers_trace w c [] = []
tiers_trace w c (tier ∷ ts) = (run_tier w c tier).trace ++ tiers_trace w c ts

-- No cancel request was there before any of the tiers, the first of which is the `i`-th.
abbrev pub IsClear : (ℕ → Bool) → ℕ → List (List Step) → Type 0
IsClear cancelled i [] = Unit
IsClear cancelled i (tier ∷ ts) = (cancelled i ≡ false) × IsClear cancelled (suc i) ts

-- All tiers were executed without an error, with no cancel request before any of them.
abbrev pub Finished : World → Concurrency → (ℕ → Bool) → ℕ → List (List Step) → Outcome → Type 0
Finished w c cancelled i ts o =
    IsClear cancelled i ts
    × All (Succeeds w) ts
    × (o ≡ record { trace = tiers_trace w c ts; err = none })

-- The tiers before `tier` were executed without an error, then `tier` with one, and no other, with no
-- cancel request before any of them.
abbrev pub FailedAt : World → Concurrency → (ℕ → Bool) → ℕ → List (List Step) → Outcome → Type 0
FailedAt w c cancelled i ts o =
    (before : List (List Step)) × (tier : List Step) × (rest : List (List Step))
    × (message : String) × (ts ≡ before ++ tier ∷ rest)
    × IsClear cancelled i (before ++ tier ∷ [])
    × All (Succeeds w) before
    × ((run_tier w c tier).err ≡ some message)
    × (o ≡ record {
      trace = tiers_trace w c before ++ ((run_tier w c tier).trace ++ failed w message);
      err = some message;
    })

-- The tiers before `tier` were executed without an error, and no other, since the first cancel request
-- was there before `tier`.
abbrev pub CancelledAt : World → Concurrency → (ℕ → Bool) → ℕ → List (List Step) → Outcome → Type 0
CancelledAt w c cancelled i ts o =
    (before : List (List Step)) × (tier : List Step) × (rest : List (List Step)) × (ts
      ≡ before ++ tier ∷ rest)
    × IsClear cancelled i before
    × All (Succeeds w) before
    × (cancelled (i + length before) ≡ true)
    × (o ≡ record {
      trace = tiers_trace w c before ++ failed w "run cancelled";
      err = some "run cancelled";
    })

abbrev pub Executed : World → Concurrency → (ℕ → Bool) → ℕ → List (List Step) → Outcome → Type 0
Executed w c cancelled i ts o =
    Finished w c cancelled i ts o ⊎ FailedAt w c cancelled i ts o ⊎ CancelledAt w c cancelled i ts o

step_error-none : (s : Step) (err : Option String) → step_error s err ≡ [] → err ≡ none
step_error-none s none h = refl
step_error-none s (some m) h = cc

tier_errors-Succeeds : (w : World) (tier : List Step) → tier_errors w tier ≡ [] → Succeeds w tier
unfolding tier_errors
tier_errors-Succeeds w [] h = tt
tier_errors-Succeeds w (s ∷ tier) h =
    let (here, rest) = append-eq-nil (step_error s (run_step w s).err) (tier_errors w tier) h in
    (step_error-none s (run_step w s).err here, tier_errors-Succeeds w tier rest)

join_errors-none : (c : Concurrency) (xs : List String) → join_errors c xs ≡ none → xs ≡ []
join_errors-none c [] h = refl
join_errors-none c (x ∷ xs) h = cc

-- A tier ends without an error only if each of its steps does.
run_tier-Succeeds :
    (w : World) (c : Concurrency) (tier : List Step)
    → (run_tier w c tier).err ≡ none
    → Succeeds w tier
unfolding run_tier
run_tier-Succeeds w c tier h =
    tier_errors-Succeeds w tier (join_errors-none c (tier_errors w tier) h)

after-append :
    (xs ys zs : List Action) (err : Option String) (o : Outcome)
    → o ≡ record { trace = ys ++ zs; err = err }
    → after xs o ≡ record { trace = (xs ++ ys) ++ zs; err = err }
after-append xs ys zs err o same =
    let put : List Action → Outcome = λ t. record { trace = t; err = err } in
    ap (after xs) same ∙ ap put (sym (append_assoc xs ys zs))

after_tier :
    (w : World) (c : Concurrency) (cancelled : ℕ → Bool) (i : ℕ) (tier : List Step)
    (ts : List (List Step)) (o : Outcome)
    → cancelled i ≡ false
    → (run_tier w c tier).err ≡ none
    → Executed w c cancelled (suc i) ts o
    → Executed w c cancelled i (tier ∷ ts) (after (run_tier w c tier).trace o)
after_tier w c cancelled i tier ts o go ok (inl (clear, done, same)) =
    inl ((go, clear), (run_tier-Succeeds w c tier ok, done), rw same refl)
after_tier w c cancelled i tier ts o go ok
      (inr (inl (before, t, rest, m, split, clear, done, lost, same))) =
    inr (
      inl (
        tier ∷ before,
        t,
        rest,
        m,
        rw split refl,
        (go, clear),
        (run_tier-Succeeds w c tier ok, done),
        lost,
        after-append (run_tier w c tier).trace (tiers_trace w c before) _ _ o same,
      ))
after_tier w c cancelled i tier ts o go ok
      (inr (inr (before, t, rest, split, clear, done, stop, same))) =
    inr (
      inr (
        tier ∷ before,
        t,
        rest,
        rw split refl,
        (go, clear),
        (run_tier-Succeeds w c tier ok, done),
        let moved : suc i + length before ≡ i + suc (length before) = omega arith in
            subst (λ k. cancelled k ≡ true) moved stop,
        after-append (run_tier w c tier).trace (tiers_trace w c before) _ _ o same,
      ))

settled_tier :
    (w : World) (c : Concurrency) (cancelled : ℕ → Bool) (i : ℕ) (tier : List Step)
    (ts : List (List Step)) (o : Outcome) (err : Option String)
    → cancelled i ≡ false
    → (run_tier w c tier).err ≡ err
    → Executed w c cancelled (suc i) ts o
    → Executed w c cancelled i (tier ∷ ts) (settle_tier w (run_tier w c tier).trace err o)
settled_tier w c cancelled i tier ts o none go ok h = after_tier w c cancelled i tier ts o go ok h
settled_tier w c cancelled i tier ts o (some m) go lost h =
    inr (inl ([], tier, ts, m, refl, (go, tt), tt, lost, refl))

-- The check for a cancel request, and what follows it.
checked_tier :
    (w : World) (c : Concurrency) (cancelled : ℕ → Bool) (i : ℕ) (tier : List Step)
    (ts : List (List Step)) (o : Outcome) (b : Bool)
    → cancelled i ≡ b
    → Executed w c cancelled (suc i) ts o
    → Executed w c cancelled i (tier ∷ ts) (
        if b
        then record { trace = failed w "run cancelled"; err = some "run cancelled" }
        else settle_tier w (run_tier w c tier).trace (run_tier w c tier).err o)
checked_tier w c cancelled i tier ts o true stop h =
    let here : i ≡ i + 0 = omega arith in
    inr (inr ([], tier, ts, refl, tt, tt, subst (λ k. cancelled k ≡ true) here stop, refl))
checked_tier w c cancelled i tier ts o false go h =
    settled_tier w c cancelled i tier ts o (run_tier w c tier).err go refl h

-- `Run` executes the tiers in their order: it goes on to a tier only when each step of the tiers
-- before it has ended without an error and no cancel request was there; otherwise it stops, with
-- the event of the failure, and no later tier is executed. The attempts of no step wrap.
pub run_tiers-Executed :
    (w : World) (c : Concurrency) (cancelled : ℕ → Bool) (i : ℕ) (ts : List (List Step))
    → All (All IsTried) ts
    → Executed w c cancelled i ts (run_tiers w c cancelled i ts)
unfolding run_tiers
run_tiers-Executed w c cancelled i [] tried = inl (tt, tt, refl)
run_tiers-Executed w c cancelled i (tier ∷ ts) tried =
    checked_tier w c cancelled i tier ts (run_tiers w c cancelled (suc i) ts) (cancelled i) refl
      (run_tiers-Executed w c cancelled (suc i) ts tried.1)
