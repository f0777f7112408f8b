-- ===== src/State/Projects/Names.antt =====
-- To which source a workflow name belongs (CollectDAGNames in state/projects.go).
use daggle.Prelude.{
  String, ◌≡◌, refl, sym, ap, ◌∙◌, inl, inr, Bool, true, false, ◌||◌, List, [], ◌∷◌, Option, none,
  some, ◌==◌, eq_iff, if◌then◌else◌, Bool-cases,
}
use daggle.Go.Map.{get, get-put}
use daggle.Dag.Model.{Assoc}
use daggle.State.Projects.{
  DagSource, Files, files_of, stem, noted, note_name, collect_files, collect_from,
  collect_dag_names,
}

-- Whether some file is the workflow of this name.
unfoldable pub has_stem : List String → String → Bool
has_stem [] n = false
has_stem (file ∷ files) n = stem file == n || has_stem files n

-- The first source with a file of the workflow.
unfoldable pub first_source : Files → List DagSource → String → Option String
first_source w [] n = none
first_source w (src ∷ sources) n =
    let rest = first_source w sources n in
    if has_stem (files_of (w.read_dir src.dir)) n then some src.source_name else rest

abbrev or_else : Option String → Option String → Option String
or_else none b = b
or_else (some a) b = some a

or_else-none : (o : Option String) → or_else o none ≡ o
or_else-none none = refl
or_else-none (some a) = refl

merged :
    (o : Option String) (source : String) (b c : Bool)
    → or_else (or_else o (if b then some source else none)) (if c then some source else none)
      ≡ or_else o (if b || c then some source else none)
merged none source true c = refl
merged none source false c = refl
merged (some a) source b c = refl

chosen :
    (o : Option String) (source : String) (b : Bool) (rest : Option String)
    → or_else (or_else o (if b then some source else none)) rest
      ≡ or_else o (if b then some source else rest)
chosen none source true rest = refl
chosen none source false rest = refl
chosen (some a) source b rest = refl

get-noted :
    (source name n : String) (names : Assoc String) (o : Option String)
    → get names name ≡ o
    → get (noted source name names o) n
      ≡ or_else (get names n) (if name == n then some source else none)
get-noted source name n names none e = elim (Bool-cases (name == n)) [
  | inl same ↦
      let absent : get names n ≡ none = ap (get names) (sym ((eq_iff name n).0 same)) ∙ e in
      get-put names name n source ∙ (rw (same, absent) refl)
  | inr other ↦ get-put names name n source ∙ (rw other (sym (or_else-none (get names n))))
]
get-noted source name n names (some v) e = elim (Bool-cases (name == n)) [
  | inl same ↦
      let there : get names n ≡ some v = ap (get names) (sym ((eq_iff name n).0 same)) ∙ e in
      rw (same, there) refl
  | inr other ↦ rw other (sym (or_else-none (get names n)))
]

get-collect_files :
    (source : String) (files : List String) (names : Assoc String) (n : String)
    → get (collect_files source files names) n
      ≡ or_else (get names n) (if has_stem files n then some source else none)
unfolding collect_files has_stem
get-collect_files source [] names n = sym (or_else-none (get names n))
get-collect_files source (file ∷ files) names n =
    get-collect_files source files (note_name source (stem file) names) n
    ∙ ap (λ o. or_else o (if has_stem files n then some source else none))
        (get-noted source (stem file) n names (get names (stem file)) refl)
    ∙ merged (get names n) source (stem file == n) (has_stem files n)

get-collect_from :
    (w : Files) (sources : List DagSource) (names : Assoc String) (n : String)
    → get (collect_from w sources names) n ≡ or_else (get names n) (first_source w sources n)
unfolding collect_from first_source
get-collect_from w [] names n = sym (or_else-none (get names n))
get-collect_from w (src ∷ sources) names n =
    let files = files_of (w.read_dir src.dir) in
    get-collect_from w sources (collect_files src.source_name files names) n
    ∙ ap (λ o. or_else o (first_source w sources n))
        (get-collect_files src.source_name files names n)
    ∙ chosen (get names n) src.source_name (has_stem files n) (first_source w sources n)

-- `CollectDAGNames` gives a workflow name the first of the sources, in their order, that has a file of
-- this name other than a base.yaml, and no source exactly where none has one.
pub collect_dag_names-first :
    (w : Files) (sources : List DagSource) (n : String)
    → get (collect_dag_names w sources) n ≡ first_source w sources n
unfolding collect_dag_names
collect_dag_names-first w sources n = get-collect_from w sources [] n
