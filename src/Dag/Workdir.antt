-- ===== src/Dag/Workdir.antt =====
-- Where a step runs (DAG.ResolveWorkdir in dag/dag.go).
use daggle.Prelude.{String, not, ◌==◌, if◌then◌else◌}
use daggle.Go.Text.{codes, is_abs}
use daggle.Go.Strings.{text_append}
use daggle.Dag.Model.{Dag, Step}

-- filepath.Join of two clean paths, of which the first may be empty
abbrev pub join_paths : String → String → String
join_paths dir path = if dir == "" then path else text_append dir (text_append "/" path)

unfoldable pub resolve_workdir : Dag → Step → String
resolve_workdir d s =
    let base = if not (d.workdir == "") then d.workdir else d.source_dir in
    if not (s.workdir == "")
    then if is_abs (codes s.workdir)
      then s.workdir
      else if not (base == "")
      then join_paths base s.workdir
      else s.workdir
    else base
