-- ===== src/Engine/Run/Dependencies.antt =====
-- Dependencies are respected by a run: the order of the tiers and the loop over them, together.
use daggle.Prelude.{
  ℕ, Bool, String, ◌≡◌, refl, sym, ap, ◌∙◌, append-nil, All-append, ◌⊎◌, inl, inr, true, List, [],
  ◌∷◌, ◌++◌, none, arith, All, All-map, contains, contains-append, ◌==◌, eq_iff, Bool-cases,
  append_assoc,
}
use daggle.Dag.Model.{Step}
use daggle.Dag.TopoSort.{tiers, topo_sort}
use daggle.Dag.TopoSort.Build.{ids, IsDistinct}
use daggle.Dag.TopoSort.Invariant.{In, All-In}
use daggle.Dag.TopoSort.Order.{tier_ids, IsLayered}
use daggle.Dag.TopoSort.Schedule.{topo_sort-IsSchedule}
use daggle.Engine.Action.{Action, Outcome, World}
use daggle.Engine.Guards.{run_step}
use daggle.Engine.Retry.{IsTried}
use daggle.Engine.Run.{Concurrency, run_tier, run_tiers, failed}
use daggle.Engine.Run.Cases.{Succeeds, tiers_trace, run_tiers-Executed}

-- A step with this id stands in the tiers and has ended without an error.
abbrev pub HasSucceeded : World → List (List Step) → String → Type 0
HasSucceeded w [] id = ⊥
HasSucceeded w (tier ∷ ts) id =
    ((x : Step) × In x tier × (x.id ≡ id) × ((run_step w x).err ≡ none)) ⊎ HasSucceeded w ts id

layered-tier :
    (done : List String) (before : List (List Step)) (tier : List Step) (rest : List (List Step))
    → IsLayered done (before ++ tier ∷ rest)
    → All (λ s. All (λ d. contains (done ++ tier_ids before) d ≡ true) s.depends) tier
layered-tier done [] tier rest h =
    All-map tier (λ s k. All-map s.depends (λ d e. ground (arith, e, contains-append done [] d)) k)
      h.0
layered-tier done (t ∷ before) tier rest h =
    rw⁻¹ (append_assoc done (ids t) (tier_ids before))
      (layered-tier (done ++ ids t) before tier rest h.1)

tier-step :
    (w : World) (tier : List Step) (id : String)
    → Succeeds w tier
    → contains (ids tier) id ≡ true
    → (x : Step) × In x tier × (x.id ≡ id) × ((run_step w x).err ≡ none)
tier-step w [] id ok h = absurd (ground (arith, h))
tier-step w (s ∷ tier) id ok h = elim (Bool-cases (s.id == id)) [
  | inl b ↦ (s, inl refl, (eq_iff s.id id).0 b, ok.0)
  | inr b ↦
      let (x, m, same, e) = tier-step w tier id ok.1 (ground (arith, h, b)) in (x, inr m, same, e)
]

tiers-HasSucceeded :
    (w : World) (before : List (List Step)) (id : String)
    → All (Succeeds w) before
    → contains (tier_ids before) id ≡ true
    → HasSucceeded w before id
tiers-HasSucceeded w [] id ok h = ground (arith, h)
tiers-HasSucceeded w (tier ∷ before) id ok h = elim (Bool-cases (contains (ids tier) id)) [
  | inl b ↦ inl (tier-step w tier id ok.0 b)
  | inr b ↦ inr (
      tiers-HasSucceeded w before id ok.1
        (ground (arith, h, b, contains-append (ids tier) (tier_ids before) id)))
]

-- When the tiers before one have succeeded, every dependency of each of its steps is the id of a
-- step of an earlier tier that has ended without an error.
tier-dependencies :
    (w : World) (steps : List Step) (before : List (List Step)) (tier : List Step)
    (rest : List (List Step))
    → IsDistinct (ids steps)
    → topo_sort steps ≡ tiers (before ++ tier ∷ rest)
    → All (Succeeds w) before
    → All (λ s. All (HasSucceeded w before) s.depends) tier
tier-dependencies w steps before tier rest distinct sorted ok =
    let schedule = topo_sort-IsSchedule steps distinct (before ++ tier ∷ rest) sorted in
    All-map tier (λ s k. All-map s.depends (λ d e. tiers-HasSucceeded w before d ok e) k)
      (layered-tier [] before tier rest schedule.layered)

-- Each dependency of each step of the tiers is the id of a step of a tier before it, which has ended
-- without an error; `before` are the tiers before them all.
abbrev pub DependenciesSucceeded : World → List (List Step) → List (List Step) → Type 0
DependenciesSucceeded w before [] = Unit
DependenciesSucceeded w before (tier ∷ ts) =
    All (λ s. All (HasSucceeded w before) s.depends) tier
    × DependenciesSucceeded w (before ++ tier ∷ []) ts

-- All tiers but the last have succeeded.
abbrev AllButLast : World → List (List Step) → Type 0
AllButLast w [] = Unit
AllButLast w (tier ∷ []) = Unit
AllButLast w (tier ∷ next ∷ ts) = Succeeds w tier × AllButLast w (next ∷ ts)

all-AllButLast : (w : World) (ts : List (List Step)) → All (Succeeds w) ts → AllButLast w ts
all-AllButLast w [] h = tt
all-AllButLast w (tier ∷ []) h = tt
all-AllButLast w (tier ∷ next ∷ ts) h = (h.0, all-AllButLast w (next ∷ ts) h.1)

append-AllButLast :
    (w : World) (ts : List (List Step)) (tier : List Step)
    → All (Succeeds w) ts
    → AllButLast w (ts ++ tier ∷ [])
append-AllButLast w [] tier h = tt
append-AllButLast w (t ∷ []) tier h = (h.0, tt)
append-AllButLast w (t ∷ u ∷ ts) tier h = (h.0, append-AllButLast w (u ∷ ts) tier h.1)

executed-DependenciesSucceeded :
    (w : World) (steps : List Step) (before ts rest : List (List Step))
    → IsDistinct (ids steps)
    → topo_sort steps ≡ tiers (before ++ (ts ++ rest))
    → All (Succeeds w) before
    → AllButLast w ts
    → DependenciesSucceeded w before ts
executed-DependenciesSucceeded w steps before [] rest distinct sorted ok h = tt
executed-DependenciesSucceeded w steps before (tier ∷ []) rest distinct sorted ok h =
    (tier-dependencies w steps before tier rest distinct sorted ok, tt)
executed-DependenciesSucceeded w steps before (tier ∷ next ∷ ts) rest distinct sorted ok h = (
  tier-dependencies w steps before tier ((next ∷ ts) ++ rest) distinct sorted ok,
  executed-DependenciesSucceeded w steps (before ++ tier ∷ []) (next ∷ ts) rest distinct
      (sorted ∙ ap tiers (sym (append_assoc before (tier ∷ []) ((next ∷ ts) ++ rest))))
      (All-append (Succeeds w) before (tier ∷ []) ok (h.0, tt)) h.1,
)

-- What a run has executed of its tiers: the first of them, up to some tier, with nothing but the
-- event of a failure behind their actions.
abbrev pub RanAfterDependencies : World → Concurrency → List (List Step) → Outcome → Type 0
RanAfterDependencies w c ts o =
    (executed : List (List Step)) × (rest : List (List Step)) × (end : List Action) × (ts
      ≡ executed ++ rest)
    × (o.trace ≡ tiers_trace w c executed ++ end)
    × ((end ≡ []) ⊎ ((message : String) × (end ≡ failed w message)))
    × DependenciesSucceeded w [] executed

trace_of :
    (w : World) (c : Concurrency) (before : List (List Step)) (tier : List Step) (end : List Action)
    → tiers_trace w c before ++ ((run_tier w c tier).trace ++ end)
      ≡ tiers_trace w c (before ++ tier ∷ []) ++ end
trace_of w c [] tier end = sym (append_assoc (run_tier w c tier).trace [] end)
trace_of w c (t ∷ before) tier end =
    append_assoc (run_tier w c t).trace (tiers_trace w c before) ((run_tier w c tier).trace ++ end)
    ∙ ap (λ (xs : List Action). (run_tier w c t).trace ++ xs) (trace_of w c before tier end)
    ∙ sym (append_assoc (run_tier w c t).trace (tiers_trace w c (before ++ tier ∷ [])) end)

-- The loop of `Run` over the tiers of distinct steps that come from `TopoSort` executes the first
-- ones of them, up to some tier, and of each step of a tier that it executes all dependencies are ids
-- of steps of earlier tiers, which have ended without an error. The attempts of no step wrap.
pub run_tiers-RanAfterDependencies :
    (w : World) (c : Concurrency) (cancelled : ℕ → Bool) (steps : List Step) (ts : List (List Step))
    → IsDistinct (ids steps)
    → All IsTried steps
    → topo_sort steps ≡ tiers ts
    → RanAfterDependencies w c ts (run_tiers w c cancelled 0 ts)
run_tiers-RanAfterDependencies w c cancelled steps ts distinct tried sorted =
    let members = (topo_sort-IsSchedule steps distinct ts sorted).members in
    let all_tried =
      All-map ts (λ tier. All-map tier (λ s m. All-In IsTried s steps m tried)) members in
    elim (run_tiers-Executed w c cancelled 0 ts all_tried) [
      | inl (clear, done, same) ↦ (
        ts,
        [],
        [],
        sym (append-nil ts),
        ap (λ o. o.trace) same ∙ sym (append-nil (tiers_trace w c ts)),
        inl refl,
        executed-DependenciesSucceeded w steps [] ts [] distinct
            (sorted ∙ ap tiers (sym (append-nil ts))) tt (all-AllButLast w ts done),
      )
      | inr (inl (before, tier, rest, m, split, clear, done, lost, same)) ↦
          let split' = split ∙ sym (append_assoc before (tier ∷ []) rest) in
          (
            before ++ tier ∷ [],
            rest,
            failed w m,
            split',
            ap (λ o. o.trace) same ∙ trace_of w c before tier (failed w m),
            inr (m, refl),
            executed-DependenciesSucceeded w steps [] (before ++ tier ∷ []) rest distinct
                (sorted ∙ ap tiers split') tt (append-AllButLast w before tier done),
          )
      | inr (inr (before, tier, rest, split, clear, done, stop, same)) ↦ (
        before,
        tier ∷ rest,
        failed w "run cancelled",
        split,
        ap (λ o. o.trace) same,
        inr ("run cancelled", refl),
        executed-DependenciesSucceeded w steps [] before (tier ∷ rest) distinct
            (sorted ∙ ap tiers split) tt (all-AllButLast w before done),
      )
    ]
