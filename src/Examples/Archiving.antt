-- ===== src/Examples/Archiving.antt =====
-- The archive of a run with two files, and what is reported once a file has changed.
use daggle.Prelude.{◌%◌, ◌≡◌, ◌↔◌, refl, true, false, List, [], ◌∷◌, some, arith, All, length}
use daggle.Go.Text.{Text, codes}
use daggle.Go.Hex.{hex_encode}
use daggle.Archive.{
  Sha, Source, Found, Entry, Expected, Report, ok, create, verify, report_ok, verify_entries,
  regular_paths, strip_crlf,
}
use daggle.Archive.Manifest.{IsDigest}
use daggle.Archive.Verdict.{Matches, has_entry, verify_entries-ok_iff}
use daggle.Archive.Files.{IsFile}
use daggle.Archive.Sound.{verify-create}

-- Thirty-two bytes that depend on the length of the text.
abbrev by_length : Sha
by_length text =
    (length text % 256)
    ∷ 0
    ∷ 0
    ∷ 0
    ∷ 0
    ∷ 0
    ∷ 0
    ∷ 0
    ∷ 0
    ∷ 0
    ∷ 0
    ∷ 0
    ∷ 0
    ∷ 0
    ∷ 0
    ∷ 0
    ∷ 0
    ∷ 0
    ∷ 0
    ∷ 0
    ∷ 0
    ∷ 0
    ∷ 0
    ∷ 0
    ∷ 0
    ∷ 0
    ∷ 0
    ∷ 0
    ∷ 0
    ∷ 0
    ∷ 0
    ∷ 0
    ∷ []

by_length-IsDigest : IsDigest by_length
by_length-IsDigest text = (refl, omega arith)

abbrev walked : List Found
walked =
    record { rel = codes "."; is_regular = false }
    ∷ record { rel = codes "events.jsonl"; is_regular = true }
    ∷ record { rel = codes "a.log"; is_regular = true }
    ∷ []

abbrev run_dir : Source
run_dir = record {
  exists = true;
  is_dir = true;
  walk = some walked;
  read_file = λ path. some (codes "hello");
}

run_files : All (IsFile run_dir) (regular_paths walked)
unfolding strip_crlf
run_files = (
  ((codes "hello", refl), (refl, refl, omega arith)),
  (((codes "hello", refl), (refl, refl, omega arith)), tt),
)

verify-create_example :
    (entries : List Entry) × (report : Report) × (create by_length run_dir ≡ ok entries)
    × (verify by_length entries ≡ ok report)
    × (report_ok report ≡ true)
    × (report.count_files ≡ length (regular_paths walked))
verify-create_example =
    verify-create by_length run_dir walked by_length-IsDigest refl refl refl run_files

abbrev expected : Expected
expected = (codes "a.log", hex_encode (by_length (codes "hello"))) ∷ []

abbrev changed : List Entry
changed = record { name = codes "a.log"; is_reg = true; body = codes "hi" } ∷ []

-- A changed file is a mismatch.
found_out : (verify_entries by_length expected changed).all_mismatched ≡ codes "a.log" ∷ []
unfolding verify_entries hex_encode
found_out = refl

verify_entries-ok_iff_example : (report_ok (verify_entries by_length expected changed) ≡ true) ↔ (
    All (Matches by_length expected) changed
    × All (λ (kv : Text × Text). has_entry changed kv.0 ≡ true) expected)
verify_entries-ok_iff_example = verify_entries-ok_iff by_length expected changed
