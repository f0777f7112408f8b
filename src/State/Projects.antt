-- ===== src/State/Projects.antt =====
-- The registry of project directories and the sources of workflows (state/projects.go). `Yaml` is the
-- third-party encoder; `Files` is what the functions read of the file system.
pub mod Registry
pub mod Names
use daggle.Prelude.{
  String, ◌≡◌, Bool, true, false, not, ◌&&◌, ◌||◌, List, [], ◌∷◌, ◌++◌, Option, none, some, ◌==◌,
  if◌then◌else◌,
}
use daggle.Go.Map.{get, put}
use daggle.Go.Strings.{text_append, has_suffix}
use daggle.Dag.Model.{Assoc}

pub record Project : Type 0 where
  pub name : String
  pub path : String

pub record DagSource : Type 0 where
  pub source_name : String
  pub dir : String

-- yaml.Marshal and yaml.Unmarshal of a `projectsFile`
pub record Yaml : Type 1 where
  pub Bytes : Type 0
  pub marshal : List Project → Bytes
  pub unmarshal : Bytes → Option (List Project)
  pub unmarshal_marshal : (ps : List Project) → unmarshal (marshal ps) ≡ some ps

pub data Failure : Type 0 where
  unreadable malformed unwritable bad_path not_found : Failure
  same_name same_path : Project → Failure

pub data Result {ℓ} (A : Type ℓ) : Type ℓ where
  ok : A → Result A
  err : Failure → Result A

infixl 5 ◌>>=◌
abbrev pub ◌>>=◌ {ℓ κ} : {A : Type ℓ} {B : Type κ} → Result A → (A → Result B) → Result B
ok a >>= f = f a
err e >>= f = err e

pub data FileState (B : Type 0) : Type 0 where
  missing denied : FileState B
  content : B → FileState B

pub record DirEntry : Type 0 where
  pub entry_name : String
  pub entry_is_dir : Bool

-- `abs` is `filepath.Abs`, `cwd` the working directory with its base name.
pub record Files : Type 0 where
  pub abs : String → Option String
  pub cwd : Option (String × String)
  pub is_dir : String → Bool
  pub read_dir : String → Option (List DirEntry)
  pub config_dir : String

abbrev pub duplicate_of : String → String → Project → Result (Unit {0}) → Result (Unit {0})
duplicate_of name path p rest =
    if p.name == name then err (same_name p) else if p.path == path then err (same_path p) else rest

-- The first project with the name or the path.
unfoldable pub check_duplicates : String → String → List Project → Result (Unit {0})
check_duplicates name path [] = ok tt
check_duplicates name path (p ∷ projects) =
    duplicate_of name path p (check_duplicates name path projects)

-- filepath.Abs gives "" with its error, which is not looked at.
abbrev pub abs_or_empty : Option String → String
abs_or_empty none = ""
abs_or_empty (some path) = path

abbrev pub is_meant : String → String → Project → Bool
is_meant name_or_path path p = p.name == name_or_path || p.path == name_or_path || p.path == path

unfoldable pub remaining_of : String → String → List Project → List Project
remaining_of name_or_path path [] = []
remaining_of name_or_path path (p ∷ projects) =
    let rest = remaining_of name_or_path path projects in
    if is_meant name_or_path path p then rest else p ∷ rest

unfoldable pub is_found : String → String → List Project → Bool
is_found name_or_path path [] = false
is_found name_or_path path (p ∷ projects) =
    is_meant name_or_path path p || is_found name_or_path path projects

abbrev pub or_bad_path : Option String → Result String
or_bad_path none = err bad_path
or_bad_path (some path) = ok path

module _ (y : Yaml) where
  open y use {Bytes, marshal, unmarshal}

  unfoldable pub load_projects : FileState Bytes → Result (List Project)
  load_projects missing = ok []
  load_projects denied = err unreadable
  load_projects (content b) = elim (unmarshal b) [ none ↦ err malformed | some ps ↦ ok ps ]

  unfoldable pub save_projects : Bool → List Project → Result (FileState Bytes)
  save_projects writable projects =
      if writable then ok (content (marshal projects)) else err unwritable

  unfoldable pub register_project :
      Files → Bool → String → String → FileState Bytes → Result (FileState Bytes)
  unfolding load_projects save_projects check_duplicates
  register_project w writable name path file = do
    projects ← load_projects file
    abs_path ← or_bad_path (w.abs path)
    _ ← check_duplicates name abs_path projects
    save_projects writable (projects ++ record { name = name; path = abs_path } ∷ [])

  unfoldable pub unregister_project :
      Files → Bool → String → FileState Bytes → Result (FileState Bytes)
  unfolding load_projects save_projects remaining_of is_found
  unregister_project w writable name_or_path file = do
    projects ← load_projects file
    if is_found name_or_path (abs_or_empty (w.abs name_or_path)) projects
        then save_projects writable
            (remaining_of name_or_path (abs_or_empty (w.abs name_or_path)) projects)
        else err not_found

-- filepath.Join of a clean path and a name
abbrev pub join_path : String → String → String
join_path dir name = text_append dir (text_append "/" name)

unfoldable pub source_contains : List DagSource → String → Bool
source_contains [] dir = false
source_contains (s ∷ sources) dir = s.dir == dir || source_contains sources dir

abbrev pub project_sources : List Project → List DagSource
project_sources [] = []
project_sources (p ∷ projects) =
    record { source_name = p.name; dir = join_path p.path ".daggle" } ∷ project_sources projects

abbrev pub local_source : Files → List DagSource → Option (String × String) → List DagSource
local_source w sources none = sources
local_source w sources (some (cwd, base)) =
    let dir = join_path cwd ".daggle" in
    if w.is_dir dir && not (source_contains sources dir)
    then sources ++ record { source_name = base; dir = dir } ∷ []
    else sources

abbrev pub or_none : Result (List Project) → List Project
or_none (ok projects) = projects
or_none (err e) = []

-- The projects are none where the registry cannot be read.
unfoldable pub build_dag_sources : Files → Result (List Project) → List DagSource
unfolding source_contains
build_dag_sources w projects =
    local_source w
      (record { source_name = "global"; dir = join_path w.config_dir "dags" }
        ∷ project_sources (or_none projects))
      w.cwd

-- Whether a directory entry is taken for a workflow: not a base.yaml.
abbrev pub is_dag_file : DirEntry → Bool
is_dag_file e =
    not e.entry_is_dir
    && (has_suffix e.entry_name ".yaml" || has_suffix e.entry_name ".yml")
    && not (e.entry_name == "base.yaml" || e.entry_name == "base.yml")

abbrev pub dag_files : List DirEntry → List String
dag_files [] = []
dag_files (e ∷ entries) =
    let rest = dag_files entries in if is_dag_file e then e.entry_name ∷ rest else rest

abbrev pub files_of : Option (List DirEntry) → List String
files_of none = []
files_of (some entries) = dag_files entries

-- The walk stops at the first error of `fn`.
unfoldable pub walk_files :
    {S E : Type 0}
    → (S → DagSource → String → S × Option E)
    → DagSource
    → List String
    → S
    → S × Option E
walk_files fn src [] s = (s, none)
walk_files fn src (name ∷ names) s =
    let after = fn s src (join_path src.dir name) in
    let rest = walk_files fn src names after.0 in elim after.1 [ some e ↦ after | none ↦ rest ]

unfoldable pub walk_dag_files :
    {S E : Type 0}
    → Files
    → List DagSource
    → (S → DagSource → String → S × Option E)
    → S
    → S × Option E
unfolding walk_files
walk_dag_files w [] fn s = (s, none)
walk_dag_files w (src ∷ sources) fn s =
    let after = walk_files fn src (files_of (w.read_dir src.dir)) s in
    let rest = walk_dag_files w sources fn after.0 in elim after.1 [ some e ↦ after | none ↦ rest ]

-- strings.TrimSuffix
abbrev pub trim_suffix : String → String → String
trim_suffix String.[] t = ""
trim_suffix (String.◌∷◌ c s) t =
    let rest = trim_suffix s t in if String.◌∷◌ c s == t then "" else String.◌∷◌ c rest

-- The name of a file without its directory.
unfoldable pub stem : String → String
stem name = trim_suffix (trim_suffix name ".yaml") ".yml"

-- names[dagName] is set once.
abbrev pub noted : String → String → Assoc String → Option String → Assoc String
noted source name names none = put names name source
noted source name names (some first) = names

abbrev pub note_name : String → String → Assoc String → Assoc String
note_name source name names = noted source name names (get names name)

unfoldable pub collect_files : String → List String → Assoc String → Assoc String
unfolding stem
collect_files source [] names = names
collect_files source (file ∷ files) names =
    collect_files source files (note_name source (stem file) names)

unfoldable pub collect_from : Files → List DagSource → Assoc String → Assoc String
unfolding collect_files
collect_from w [] names = names
collect_from w (src ∷ sources) names =
    collect_from w sources (collect_files src.source_name (files_of (w.read_dir src.dir)) names)

unfoldable pub collect_dag_names : Files → List DagSource → Assoc String
unfolding collect_from
collect_dag_names w sources = collect_from w sources []
