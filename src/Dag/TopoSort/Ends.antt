-- ===== src/Dag/TopoSort/Ends.antt =====
-- The loop over the tiers ends: a step id that is queued after the seeds has left the steps that
-- wait, and a round that queues nothing is the last. No assumption on the steps is needed.
use daggle.Prelude.{
  ℕ, zero, suc, ◌+◌, ◌≤◌, ◌<◌, String, ◌≡◌, refl, ◌≢◌, true, List, [], ◌∷◌, arith, eq_iff,
  if◌then◌else◌, length, contains, All, some, length-append, Bool-cases, inl, inr, All-map,
  List-cases, eq_refl, ap,
}
use daggle.Prelude.Int.{ℤ, pred_ℤ, is_zero, is_pos}
use daggle.Dag.Model.{Step}
use daggle.Dag.TopoSort.{
  Tables, no_tables, build_tables, update, Frontier, count_down, release, drain, seeds, tier_loop,
  Progress, topo_sort, out_of_fuel, finish, add_tier, no_progress,
}
use daggle.Dag.TopoSort.Build.{ids, build_tables-All}

-- How many steps have a positive in-degree.
abbrev waiting : (String → ℤ) → List Step → ℕ
waiting deg [] = 0
waiting deg (s ∷ steps) = (if is_pos (deg s.id) then 1 else 0) + waiting deg steps

-- Counting `d` down never makes a step wait, and at 0 takes one off.
waiting-pred :
    (deg : String → ℤ) (d : String) (steps : List Step)
    → waiting (update deg d (pred_ℤ (deg d))) steps ≤ waiting deg steps
waiting-pred deg d [] = omega arith
waiting-pred deg d (s ∷ steps) = ground (arith, waiting-pred deg d steps, eq_iff d s.id)

waiting-pred_zero :
    (deg : String → ℤ) (d : String) (steps : List Step)
    → contains (ids steps) d ≡ true
    → is_zero (pred_ℤ (deg d)) ≡ true
    → waiting (update deg d (pred_ℤ (deg d))) steps + 1 ≤ waiting deg steps
waiting-pred_zero deg d [] m z = cc
waiting-pred_zero deg d (s ∷ steps) m z =
    ground
      (arith, waiting-pred_zero deg d steps, waiting-pred deg d steps, eq_iff d s.id, eq_iff s.id d)

abbrev pub IsId : List Step → String → Type 0
IsId steps d = contains (ids steps) d ≡ true

tier_loop_last :
    (fuel : ℕ) (t : Tables) (queue : List String) (deg : String → ℤ) (p : Progress)
    → queue ≡ []
    → tier_loop fuel t queue deg p ≡ some p
unfolding tier_loop
tier_loop_last zero t [] deg p e = refl
tier_loop_last (suc fuel) t [] deg p e = refl
tier_loop_last fuel t (id ∷ queue) deg p e = cc

module _ (steps : List Step) where
  count_down-waiting :
      (d : String) (f : Frontier)
      → IsId steps d
      → waiting (count_down d f).degree steps + length (count_down d f).next
        ≤ waiting f.degree steps + length f.next
  unfolding count_down
  count_down-waiting d f h = elim (Bool-cases (is_zero (pred_ℤ (f.degree d)))) [
    | inl done ↦
        rw done
          (omega (arith, waiting-pred_zero f.degree d steps h done, length-append f.next (d ∷ [])))
    | inr more ↦ rw more (omega (arith, waiting-pred f.degree d steps))
  ]

  release-waiting :
      (ds : List String) (f : Frontier)
      → All (IsId steps) ds
      → waiting (release ds f).degree steps + length (release ds f).next
        ≤ waiting f.degree steps + length f.next
  unfolding release
  release-waiting [] f h = omega arith
  release-waiting (d ∷ ds) f h =
      omega (arith, release-waiting ds (count_down d f) h.1, count_down-waiting d f h.0)

  drain-waiting :
      (dependents : String → List String) (queue : List String) (f : Frontier)
      → ((j : String) → All (IsId steps) (dependents j))
      → waiting (drain dependents queue f).degree steps + length (drain dependents queue f).next
        ≤ waiting f.degree steps + length f.next
  unfolding drain
  drain-waiting dependents [] f h = omega arith
  drain-waiting dependents (id ∷ queue) f h = omega (
    arith,
    drain-waiting dependents queue (release (dependents id) f) h,
    release-waiting (dependents id) f (h id),
  )

  tier_loop_ends :
      (fuel : ℕ) (t : Tables) (queue : List String) (deg : String → ℤ) (p : Progress)
      → ((j : String) → All (IsId steps) (t.dependents j))
      → waiting deg steps < fuel
      → (q : Progress) × (tier_loop fuel t queue deg p ≡ some q)
  unfolding tier_loop
  tier_loop_ends zero t queue deg p h lt = absurd (omega arith)
  tier_loop_ends (suc fuel) t [] deg p h lt = (p, refl)
  tier_loop_ends (suc fuel) t (id ∷ queue) deg p h lt =
      let f = drain t.dependents (id ∷ queue) (record { degree = deg; next = [] }) in
      let fewer = drain-waiting t.dependents (id ∷ queue) (record { degree = deg; next = [] }) h in
      elim (List-cases f.next) [
        | inl last ↦ (
          add_tier t (id ∷ queue) p,
          tier_loop_last fuel t f.next f.degree (add_tier t (id ∷ queue) p) last,
        )
        | inr (x, rest, e) ↦
            tier_loop_ends fuel t f.next f.degree (add_tier t (id ∷ queue) p) h
              (omega (arith, ap length e, fewer))
      ]

waiting-le-length : (deg : String → ℤ) (steps : List Step) → waiting deg steps ≤ length steps
waiting-le-length deg [] = omega arith
waiting-le-length deg (s ∷ steps) = ground (arith, waiting-le-length deg steps)

pub ids-IsId : (steps : List Step) → All (IsId steps) (ids steps)
ids-IsId [] = tt
ids-IsId (s ∷ steps) = (rw eq_refl, All-map (ids steps) (λ x h. ground (arith, h)) (ids-IsId steps))

finish-ne-out_of_fuel : (steps : List Step) (p : Progress) → finish steps (some p) ≢ out_of_fuel
unfolding finish
finish-ne-out_of_fuel steps p = ground arith

pub loop_returns :
    (steps : List Step)
    → let t = build_tables steps no_tables in
      (q : Progress) × (tier_loop
          (suc (length steps))
          t
          (seeds t.in_degree steps)
          t.in_degree
          no_progress
        ≡ some q)
loop_returns steps =
    let t = build_tables steps no_tables in
    tier_loop_ends steps (suc (length steps)) t (seeds t.in_degree steps) t.in_degree no_progress
      (build_tables-All (IsId steps) steps no_tables (ids-IsId steps) (λ j. tt))
      (omega (arith, waiting-le-length t.in_degree steps))

-- The loop of the source ends for every list of steps, also where ids repeat or are unknown: it
-- makes at most one round more than there are steps.
pub topo_sort_ends : (steps : List Step) → topo_sort steps ≢ out_of_fuel
unfolding topo_sort
topo_sort_ends steps = let (q, e) = loop_returns steps in rw e (finish-ne-out_of_fuel steps q)
