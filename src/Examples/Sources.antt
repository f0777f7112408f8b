-- ===== src/Examples/Sources.antt =====
-- Two registered projects, and a source that shares a workflow name with another.
use daggle.Prelude.{◌≡◌, refl, true, false, List, [], ◌∷◌, none, some}
use daggle.Go.Map.{get}
use daggle.State.Projects.{
  Project, DagSource, Yaml, Files, FileState, content, ok, load_projects, collect_dag_names,
  unregister_project,
}
use daggle.State.Projects.Registry.{unregister, run_call}

abbrev plain : Yaml
plain = record {
  Bytes = List Project;
  marshal = λ ps. ps;
  unmarshal = λ ps. some ps;
  unmarshal_marshal = λ ps. refl;
}

abbrev etl : Project
etl = record { name = "etl"; path = "/home/a/etl" }

abbrev site : Project
site = record { name = "site"; path = "/home/a/site" }

abbrev files : Files
files = record {
  abs = λ path. some path;
  cwd = none;
  is_dir = λ path. true;
  read_dir = λ dir. some (
      record { entry_name = "daily.yaml"; entry_is_dir = false }
      ∷ record { entry_name = "base.yaml"; entry_is_dir = false }
      ∷ []);
  config_dir = "/home/a/.config/daggle";
}

abbrev two_projects : FileState (List Project)
two_projects = content (etl ∷ site ∷ [])

two_loaded : load_projects plain two_projects ≡ ok (etl ∷ site ∷ [])
unfolding load_projects
two_loaded = refl

abbrev one_project : FileState (List Project)
one_project = content (site ∷ [])

etl_gone : run_call plain files true (unregister "/home/a/etl") two_projects ≡ ok one_project
unfolding run_call unregister_project
etl_gone = refl

abbrev two_sources : List DagSource
two_sources =
    record { source_name = "global"; dir = "/home/a/.config/daggle/dags" }
    ∷ record { source_name = "etl"; dir = "/home/a/etl/.daggle" }
    ∷ []

first_wins : get (collect_dag_names files two_sources) "daily" ≡ some "global"
unfolding collect_dag_names
first_wins = refl
