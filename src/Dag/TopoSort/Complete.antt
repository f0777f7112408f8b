-- ===== src/Dag/TopoSort/Complete.antt =====
-- No step is reported as a cycle unless the dependencies have one: a ranking that puts every
-- dependency below its step leaves nothing unscheduled.
use daggle.Prelude.{
  ℕ, zero, suc, ◌<◌, String, ◌≡◌, refl, sym, subst, ◌∙◌, List, [], ◌∷◌, arith, length, contains,
  count, All, contains_of_count_pos, some, inl, inr, true,
}
use daggle.Dag.Model.{Step}
use daggle.Dag.TopoSort.{Progress, finish, topo_sort, tiers}
use daggle.Dag.TopoSort.Build.{ids, IsDistinct}
use daggle.Dag.TopoSort.Ends.{IsId, loop_returns}
use daggle.Dag.TopoSort.Counts.{missing}
use daggle.Dag.TopoSort.Invariant.{In, All-In, named_step}
use daggle.Dag.TopoSort.Totals.{total}
use daggle.Dag.TopoSort.Schedule.{Ended, loop-Ended, placed_at_end, final_total}

-- Every dependency names a step.
abbrev pub AreKnown : List Step → Type 0
AreKnown steps = All (λ s. All (IsId steps) s.depends) steps

-- `rank` puts each dependency below its step, so the dependencies have no cycle.
abbrev pub IsRanked : (String → ℕ) → List Step → Type 0
IsRanked rank steps = All (λ s. All (λ d. rank d < rank s.id) s.depends) steps

total_of_ones :
    (done : List String) (steps : List Step)
    → ((s : Step) → In s steps → count s.id done ≡ 1)
    → total done steps ≡ length steps
total_of_ones done [] h = refl
total_of_ones done (s ∷ steps) h =
    omega (arith, h s (inl refl), total_of_ones done steps (λ u m. h u (inr m)))

deps_done :
    (steps : List Step) (rank : String → ℕ) (k : ℕ) (done deps : List String)
    → All (IsId steps) deps
    → All (λ d. rank d < k) deps
    → ((u : Step) → In u steps → rank u.id < k → count u.id done ≡ 1)
    → missing done deps ≡ 0
deps_done steps rank k done [] known below h = refl
deps_done steps rank k done (d ∷ deps) known below h =
    let (u, m, named) = named_step d steps known.0 in
    let once = h u m (subst (λ x. rank x < k) (sym named) below.0) in
    let here : contains done d ≡ true =
      contains_of_count_pos d done 0 (subst (λ x. count x done ≡ 1) named once) in
    rw here (deps_done steps rank k done deps known.1 below.1 h)

finish_full :
    (steps : List Step) (p : Progress)
    → p.processed ≡ length steps
    → finish steps (some p) ≡ tiers p.tiers
unfolding finish
finish_full steps p h = ground arith

module _ (steps : List Step) (distinct : IsDistinct (ids steps)) (rank : String → ℕ)
    (known : AreKnown steps) (ranked : IsRanked rank steps) where
  all_done :
      {p : Progress} (r : Ended steps distinct p) (k : ℕ) (s : Step)
      → In s steps
      → rank s.id < k
      → count s.id r.final ≡ 1
  all_done r zero s m lt = absurd (omega arith)
  all_done r (suc k) s m lt =
      let ready =
        deps_done steps rank (rank s.id) r.final s.depends
          (All-In (λ u. All (IsId steps) u.depends) s steps m known)
          (All-In (λ u. All (λ d. rank d < rank u.id) u.depends) s steps m ranked)
          (λ u n below. all_done r k u n (omega arith)) in
      placed_at_end steps distinct r s m ∙ (rw ready)

  -- Steps with distinct ids, known dependencies and no cycle are all scheduled.
  pub topo_sort_complete : (ts : List (List Step)) × (topo_sort steps ≡ tiers ts)
  unfolding topo_sort
  topo_sort_complete =
      let (p, looped) = loop_returns steps in
      let r = loop-Ended steps distinct p looped in
      let full =
        sym (final_total steps distinct r)
        ∙ total_of_ones r.final steps (λ s m. all_done r (suc (rank s.id)) s m (omega arith)) in
      (p.tiers, rw looped (finish_full steps p full))
