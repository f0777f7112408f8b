-- ===== src/Examples/Diffing.antt =====
-- The diff of two versions of a small file.
use daggle.Prelude.{String, ◌≡◌, List, [], ◌∷◌}
use daggle.State.Diff.{edit_script, in_old, in_new, lines}
use daggle.State.Diff.Script.{edit_script-lines}

abbrev before : List String
before = "name: etl" ∷ "steps:" ∷ "- id: a" ∷ []

abbrev now : List String
now = "name: etl" ∷ "owner: me" ∷ "steps:" ∷ []

edit_script-lines_example :
    (lines in_old (edit_script before now) ≡ before) × (lines in_new (edit_script before now) ≡ now)
edit_script-lines_example = edit_script-lines before now
