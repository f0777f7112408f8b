-- ===== src/Dag/TopoSort.antt =====
-- Kahn's algorithm (dag/toposort.go). The three maps are functions with Go's zero value on a
-- missing key. `in_degree` holds integers, since an id that stands twice in a list of steps is
-- counted down below zero.
pub mod Build
pub mod Ends
pub mod Counts
pub mod Invariant
pub mod Order
pub mod Totals
pub mod Schedule
pub mod Complete
pub mod Acyclic
use daggle.Prelude.{
  ℕ, zero, suc, ◌+◌, ◌-◌, String, List, [], ◌∷◌, ◌++◌, map, Option, none, some, ◌==◌, if◌then◌else◌,
  length, nat_eq,
}
use daggle.Prelude.Int.{ℤ, pos, pred_ℤ, is_zero}
use daggle.Dag.Model.{Step, zero_step}

-- m[k] = v
abbrev pub update {ℓ} : {A : Type ℓ} → (String → A) → String → A → String → A
update m k v j = if k == j then v else m j

-- `stepMap`, `inDegree` and `dependents`
pub record Tables : Type 0 where
  pub step_map : String → Step
  pub in_degree : String → ℤ
  pub dependents : String → List String

abbrev pub no_tables : Tables
no_tables = record { step_map = λ _. zero_step; in_degree = λ _. pos 0; dependents = λ _. [] }

-- for _, dep := range s.Depends { dependents[dep] = append(dependents[dep], s.ID) }
unfoldable pub add_dependents : String → List String → (String → List String) → String → List String
add_dependents id [] m = m
add_dependents id (dep ∷ deps) m = add_dependents id deps (update m dep (m dep ++ id ∷ []))

-- the first loop over the steps
unfoldable pub build_tables : List Step → Tables → Tables
build_tables [] t = t
build_tables (s ∷ steps) t = build_tables steps (record {
  step_map = update t.step_map s.id s;
  in_degree = update t.in_degree s.id (pos (length s.depends));
  dependents = add_dependents s.id s.depends t.dependents;
})

-- the steps that have no dependencies
unfoldable pub seeds : (String → ℤ) → List Step → List String
seeds deg [] = []
seeds deg (s ∷ steps) =
    let rest = seeds deg steps in if is_zero (deg s.id) then s.id ∷ rest else rest

-- `inDegree` and `nextQueue`
pub record Frontier : Type 0 where
  pub degree : String → ℤ
  pub next : List String

-- inDegree[depID]--, and depID is queued when it reaches 0
unfoldable pub count_down : String → Frontier → Frontier
count_down d f =
    let n = pred_ℤ (f.degree d) in
    record { degree = update f.degree d n; next = if is_zero n then f.next ++ d ∷ [] else f.next }

-- for _, depID := range dependents[id]
unfoldable pub release : List String → Frontier → Frontier
unfolding count_down
release [] f = f
release (d ∷ ds) f = release ds (count_down d f)

-- for _, id := range queue
unfoldable pub drain : (String → List String) → List String → Frontier → Frontier
drain dependents [] f = f
drain dependents (id ∷ queue) f = drain dependents queue (release (dependents id) f)

-- for _, id := range queue { tier = append(tier, stepMap[id]) }
abbrev pub tier_of : (String → Step) → List String → List Step
tier_of step_map queue = map step_map queue

pub record Progress : Type 0 where
  pub tiers : List (List Step)
  pub processed : ℕ

abbrev pub no_progress : Progress
no_progress = record { tiers = []; processed = 0 }

-- All items in the current queue form one tier.
abbrev pub add_tier : Tables → List String → Progress → Progress
add_tier t queue p = record {
  tiers = p.tiers ++ tier_of t.step_map queue ∷ [];
  processed = p.processed + length queue;
}

-- `for len(queue) > 0`: `none` means that the fuel ran out.
unfoldable pub tier_loop : ℕ → Tables → List String → (String → ℤ) → Progress → Option Progress
tier_loop fuel t [] deg p = some p
tier_loop zero t (id ∷ queue) deg p = none
tier_loop (suc fuel) t (id ∷ queue) deg p =
    let f = drain t.dependents (id ∷ queue) (record { degree = deg; next = [] }) in
    tier_loop fuel t f.next f.degree (add_tier t (id ∷ queue) p)

pub data Sorted : Type 0 where
  tiers : List (List Step) → Sorted
  -- "cycle detected in DAG: %d steps could not be scheduled"
  cycle : ℕ → Sorted
  out_of_fuel : Sorted

unfoldable pub finish : List Step → Option Progress → Sorted
finish steps none = out_of_fuel
finish steps (some p) =
    if nat_eq p.processed (length steps) then tiers p.tiers else cycle (length steps - p.processed)

-- One round for each step that waits, and one more for the seeds.
unfoldable pub topo_sort : List Step → Sorted
unfolding build_tables add_dependents seeds release drain tier_loop finish
topo_sort steps =
    let t = build_tables steps no_tables in
    finish steps
      (tier_loop (suc (length steps)) t (seeds t.in_degree steps) t.in_degree no_progress)
