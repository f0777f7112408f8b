-- ===== src/Dag/Validate/Runnable.antt =====
-- What an accepted workflow promises to the engine: an order in which its steps can run.
use daggle.Prelude.{
  ℕ, String, ◌≡◌, refl, ◌≢◌, List, [], ◌↔◌, append-eq-nil, concat-eq-nil_iff, Option,
}
use daggle.Dag.Model.{Dag, Step}
use daggle.Dag.TopoSort.{Sorted, topo_sort, tiers, cycle, out_of_fuel}
use daggle.Dag.TopoSort.Ends.{topo_sort_ends}
use daggle.Dag.TopoSort.Schedule.{IsSchedule, topo_sort-IsSchedule}
use daggle.Dag.TopoSort.Complete.{IsRanked}
use daggle.Dag.TopoSort.Acyclic.{topo_sort_iff_acyclic}
use daggle.Dag.Validate.{
  validate_with_channels, field_errors, field_checks, validate_cycles, sort_error,
}
use daggle.Dag.Validate.Accepts.{AreWellFormed, validate_steps-AreWellFormed}

sort_error_nil :
    (r : Sorted) → r ≢ out_of_fuel → sort_error r ≡ [] → (ts : List (List Step)) × (r ≡ tiers ts)
sort_error_nil (tiers ts) ne h = (ts, refl)
sort_error_nil (cycle n) ne h = cc
sort_error_nil out_of_fuel ne h = cc

module _ (d : Dag) (channels : Option (List String)) where
  field_errors-AreWellFormed : field_errors d channels ≡ [] → AreWellFormed d.steps
  unfolding field_errors
  field_errors-AreWellFormed h =
      let parts = (concat-eq-nil_iff (field_checks d channels)).0 h in
      validate_steps-AreWellFormed d.steps parts.1.1.1.0

  accepted :
      validate_with_channels d channels ≡ []
      → (field_errors d channels ≡ []) × ((ts : List (List Step)) × (topo_sort d.steps ≡ tiers ts))
  unfolding validate_with_channels
  accepted h =
      let (fields, cycles) =
        append-eq-nil (field_errors d channels) (validate_cycles d.steps (field_errors d channels))
          h in
      (fields, sort_error_nil (topo_sort d.steps) (topo_sort_ends d.steps) (rw fields at cycles))

  -- A workflow that is accepted is sorted into tiers that hold each step once and nothing else,
  -- each step behind all of its dependencies.
  pub validate_schedules :
      validate_with_channels d channels ≡ []
      → (ts : List (List Step)) × (topo_sort d.steps ≡ tiers ts) × IsSchedule d.steps ts
  validate_schedules h =
      let (fields, (ts, sorted)) = accepted h in
      let distinct = (field_errors-AreWellFormed fields).distinct in
      (ts, sorted, topo_sort-IsSchedule d.steps distinct ts sorted)

  -- Where no field is reported, the workflow is rejected exactly when its steps have a cycle: it
  -- is accepted if and only if some ranking puts every dependency below its step.
  pub validate_iff_acyclic :
      field_errors d channels ≡ []
      → (validate_with_channels d channels ≡ []) ↔ ((rank : String → ℕ) × IsRanked rank d.steps)
  unfolding validate_with_channels
  validate_iff_acyclic fields =
      let formed = field_errors-AreWellFormed fields in
      let sorts = topo_sort_iff_acyclic d.steps formed.distinct in
      (
        λ h. (sorts.0 (accepted h).1).1,
        λ (rank, ranked).
            let (ts, sorted) = sorts.1 (formed.known, (rank, ranked)) in rw fields (rw sorted),
      )
