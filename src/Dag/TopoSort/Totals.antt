-- ===== src/Dag/TopoSort/Totals.antt =====
-- Counting argument: as many distinct ids as there are steps are all of the ids.
use daggle.Prelude.{
  ℕ, suc, ◌+◌, ◌≤◌, String, ◌≡◌, refl, ◌∙◌, ap, false, List, [], ◌∷◌, arith, ◌==◌, eq_iff, length,
  contains, count, All, Bool-cases, inl, inr,
}
use daggle.Dag.Model.{Step}
use daggle.Dag.TopoSort.Build.{ids, IsDistinct}
use daggle.Dag.TopoSort.Ends.{IsId}
use daggle.Dag.TopoSort.Invariant.{In}

-- How often the ids of the steps stand in `done`, all together.
abbrev pub total : List String → List Step → ℕ
total done [] = 0
total done (s ∷ steps) = count s.id done + total done steps

total-nil : (steps : List Step) → total [] steps ≡ 0
total-nil [] = refl
total-nil (s ∷ steps) = omega (arith, total-nil steps)

total-cons_absent :
    (x : String) (done : List String) (steps : List Step)
    → contains (ids steps) x ≡ false
    → total (x ∷ done) steps ≡ total done steps
total-cons_absent x done [] h = refl
total-cons_absent x done (s ∷ steps) h =
    ground (arith, total-cons_absent x done steps, eq_iff s.id x, eq_iff x s.id)

total-cons :
    (x : String) (done : List String) (steps : List Step)
    → IsDistinct (ids steps)
    → IsId steps x
    → total (x ∷ done) steps ≡ suc (total done steps)
total-cons x done [] d h = cc
total-cons x done (s ∷ steps) d h = elim (Bool-cases (s.id == x)) [
  | inl same ↦
      let e = (eq_iff s.id x).0 same in
      ground (arith, total-cons_absent x done steps (rw e at d.0), eq_iff x s.id)
  | inr other ↦ ground (arith, total-cons x done steps d.1, eq_iff s.id x, eq_iff x s.id)
]

pub total-length :
    (steps : List Step) (done : List String)
    → IsDistinct (ids steps)
    → All (IsId steps) done
    → total done steps ≡ length done
total-length steps [] d h = total-nil steps
total-length steps (x ∷ done) d h =
    total-cons x done steps d h.0 ∙ ap suc (total-length steps done d h.1)

total-le :
    (done : List String) (steps : List Step)
    → ((s : Step) → In s steps → count s.id done ≤ 1)
    → total done steps ≤ length steps
total-le done [] h = omega arith
total-le done (s ∷ steps) h =
    omega (arith, h s (inl refl), total-le done steps (λ u m. h u (inr m)))

-- With as many ids done as there are steps, each step is done.
pub each_once :
    (done : List String) (steps : List Step) (s : Step)
    → ((u : Step) → In u steps → count u.id done ≤ 1)
    → length steps ≤ total done steps
    → In s steps
    → count s.id done ≡ 1
each_once done [] s h le m = elim m [ ]
each_once done (x ∷ steps) s h le (inl e) =
    let rest = total-le done steps (λ u m. h u (inr m)) in
    let one = h x (inl refl) in rw e (omega arith)
each_once done (x ∷ steps) s h le (inr m) =
    each_once done steps s (λ u k. h u (inr k)) (omega (arith, h x (inl refl))) m
