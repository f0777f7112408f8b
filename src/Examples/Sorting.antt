-- ===== src/Examples/Sorting.antt =====
-- dag/toposort.go and dag/step_types.go on small workflows.
use daggle.Prelude.{ℕ, String, ◌≡◌, refl, ◌≢◌, ◌↔◌, List, [], ◌∷◌, arith, if◌then◌else◌, ◌==◌, some}
use daggle.Dag.Model.{Step, zero_step}
use daggle.Dag.StepTypes.{minimal_step_of_type, step_type_registry}
use daggle.Dag.TopoSort.{topo_sort, tiers, cycle, out_of_fuel}
use daggle.Dag.TopoSort.Build.{ids, IsDistinct}
use daggle.Dag.TopoSort.Ends.{topo_sort_ends}
use daggle.Dag.TopoSort.Schedule.{IsSchedule, topo_sort-IsSchedule}
use daggle.Dag.TopoSort.Complete.{AreKnown, IsRanked, topo_sort_complete}
use daggle.Dag.TopoSort.Acyclic.{topo_sort_iff_acyclic}

abbrev extract : Step
extract = record zero_step { id = "extract"; command = "echo 1" }

abbrev clean : Step
clean = record zero_step { id = "clean"; command = "echo 2"; depends = "extract" ∷ [] }

abbrev report : Step
report = record zero_step { id = "report"; r_expr = "1+1"; depends = "clean" ∷ "extract" ∷ [] }

abbrev pipeline : List Step
pipeline = report ∷ clean ∷ extract ∷ []

abbrev three_tiers : List (List Step)
three_tiers = (extract ∷ []) ∷ (clean ∷ []) ∷ (report ∷ []) ∷ []

pipeline_sorts : topo_sort pipeline ≡ tiers three_tiers
unfolding topo_sort zero_step
pipeline_sorts = refl

abbrev loop_step : Step
loop_step = record zero_step { id = "extract"; depends = "report" ∷ [] }

loop_found : topo_sort (report ∷ clean ∷ loop_step ∷ []) ≡ cycle 3
unfolding topo_sort zero_step
loop_found = refl

pipeline-IsDistinct : IsDistinct (ids pipeline)
pipeline-IsDistinct = (refl, (refl, (refl, tt)))

abbrev rank : String → ℕ
rank s = if s == "extract" then 0 else if s == "clean" then 1 else 2

pipeline-AreKnown : AreKnown pipeline
unfolding zero_step
pipeline-AreKnown = ((refl, (refl, tt)), ((refl, tt), (tt, tt)))

pipeline-IsRanked : IsRanked rank pipeline
unfolding zero_step
pipeline-IsRanked = omega arith

topo_sort_ends_example : topo_sort pipeline ≢ out_of_fuel
topo_sort_ends_example = topo_sort_ends pipeline

topo_sort-IsSchedule_example : IsSchedule pipeline three_tiers
topo_sort-IsSchedule_example =
    topo_sort-IsSchedule pipeline pipeline-IsDistinct three_tiers pipeline_sorts

topo_sort_complete_example : (ts : List (List Step)) × (topo_sort pipeline ≡ tiers ts)
topo_sort_complete_example =
    topo_sort_complete pipeline pipeline-IsDistinct rank pipeline-AreKnown pipeline-IsRanked

topo_sort_iff_acyclic_example :
    ((ts : List (List Step)) × (topo_sort pipeline ≡ tiers ts))
    ↔ (AreKnown pipeline × ((rank : String → ℕ) × IsRanked rank pipeline))
topo_sort_iff_acyclic_example = topo_sort_iff_acyclic pipeline pipeline-IsDistinct

abbrev docker_step : Step
docker_step = record zero_step {
  docker = some (record {
    image = "alpine";
    command = "echo";
    entrypoint = "";
    volumes = [];
    env = [];
    workdir = "";
    network = "";
    user = "";
    pull = "";
  });
}

docker_minimal : minimal_step_of_type "docker" ≡ some docker_step
unfolding minimal_step_of_type step_type_registry
docker_minimal = refl
