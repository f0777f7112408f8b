-- ===== src/Dag/TopoSort/Schedule.antt =====
-- `topo_sort` returns a schedule exactly for the steps that have one.
use daggle.Prelude.{
  suc, ◌≤◌, String, ◌≡◌, refl, sym, ◌∙◌, List, [], arith, length, count, All, append-nil, Option,
  none, some,
}
use daggle.Dag.Model.{Step}
use daggle.Prelude.Int.{ℤ}
use daggle.Dag.TopoSort.Build.{ids, IsDistinct}
use daggle.Dag.TopoSort.Invariant.{In, built, Inv, start-Inv, Inv-Once}
use daggle.Dag.TopoSort.Counts.{settled, missing}
use daggle.Dag.TopoSort.Order.{tier_ids, IsLayered, Sound, tier_loop-Sound}
use daggle.Dag.TopoSort.Totals.{total, total-length, each_once}
use daggle.Dag.TopoSort.{Progress, no_progress, tier_loop, finish, topo_sort, tiers, seeds}

-- The tiers hold each step once and nothing else, and each step behind its dependencies.
pub record IsSchedule (steps : List Step) (ts : List (List Step)) : Type 0 where
  pub layered : IsLayered [] ts
  pub once : (s : Step) → In s steps → count s.id (tier_ids ts) ≡ 1
  pub members : All (All (λ s. In s steps)) ts

finish-tiers :
    (steps : List Step) (o : Option Progress) (ts : List (List Step))
    → finish steps o ≡ tiers ts
    → (p : Progress) × (o ≡ some p) × (p.processed ≡ length steps) × (p.tiers ≡ ts)
unfolding finish
finish-tiers steps none ts e = cc
finish-tiers steps (some p) ts e = (p, refl, ground arith, ground arith)

module _ (steps : List Step) (distinct : IsDistinct (ids steps)) where
  -- What is known when the loop has ended.
  pub record Ended (p : Progress) : Type 0 where
    pub final : List String
    pub last : String → ℤ
    pub inv : Inv steps distinct final [] last
    pub sound : Sound steps distinct final p

  pub loop-Ended :
      (p : Progress)
      → tier_loop
          (suc (length steps))
          (built steps)
          (seeds (built steps).in_degree steps)
          (built steps).in_degree
          no_progress
        ≡ some p
      → Ended p
  loop-Ended p e =
      let (final, last, inv, sound) =
        tier_loop-Sound steps distinct (suc (length steps)) [] _ _ no_progress p
          (start-Inv steps distinct)
          (record { layered = tt; names = refl; size = refl; members = tt }) e in
      record { final = final; last = last; inv = inv; sound = sound }

  pub placed_at_end :
      {p : Progress} (r : Ended p) (s : Step)
      → In s steps
      → count s.id r.final ≡ settled (missing r.final s.depends)
  placed_at_end r s m = rw append-nil at (r.inv.placed s m)

  at_most_once : {p : Progress} (r : Ended p) (s : Step) → In s steps → count s.id r.final ≤ 1
  at_most_once r s m = rw append-nil at (Inv-Once steps distinct r.inv s.id)

  pub final_total : {p : Progress} (r : Ended p) → total r.final steps ≡ p.processed
  final_total r =
      total-length steps r.final distinct (rw append-nil at r.inv.known) ∙ sym r.sound.size

  Ended-IsSchedule :
      (p : Progress) → Ended p → p.processed ≡ length steps → IsSchedule steps p.tiers
  Ended-IsSchedule p r full = record {
    layered = r.sound.layered;
    once = λ s m.
        rw r.sound.names
          (each_once r.final steps s (at_most_once r) (omega (arith, final_total r)) m);
    members = r.sound.members;
  }

  -- The tiers that are returned are a schedule of the steps.
  pub topo_sort-IsSchedule :
      (ts : List (List Step)) → topo_sort steps ≡ tiers ts → IsSchedule steps ts
  unfolding topo_sort
  topo_sort-IsSchedule ts e =
      let (p, looped, full, same) = finish-tiers steps _ ts e in
      rw same at (Ended-IsSchedule p (loop-Ended p looped) full)
