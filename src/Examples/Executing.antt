-- ===== src/Examples/Executing.antt =====
-- What small processes print, and what is read from it.
use daggle.Prelude.{◌≡◌, ◌↔◌, ◌≤◌, length, refl, List, [], ◌∷◌, ◌++◌, none, some, map, true, false}
use daggle.Go.Text.{Text, codes, has_char}
use daggle.Go.Bytes.{is_blank}
use daggle.Executor.Drain.{
  read_slice, add_chunk, assemble_line, drain_from, drain_lines, stdout_max_line_bytes,
}
use daggle.Executor.Drain.Lines.{lines_of, emit, drain_lines-lines_of}
use daggle.Executor.Markers.{
  Collected, output_marker, summary_marker, meta_marker, validation_marker, handle_line,
  handle_lines,
}
use daggle.Executor.Markers.Printed.{is_name, print_output, output_marker-print_output_iff}
use daggle.Executor.Markers.Collect.{value_in, plain_lines, last_marked, handle_lines_lem}
use daggle.Executor.Detail.{extract_error_detail, extract_pattern_error, truncate_detail}
use daggle.Executor.Detail.Bound.{extract_error_detail-length}
use daggle.Executor.Detail.Blank.{extract_error_detail-empty_iff}

-- A buffer of three bytes, and lines of at most four.
short_reads :
    drain_from 20 3 4 ([], 0) (codes "ab" ++ (13 ∷ 10 ∷ codes "abcdefg" ++ (10 ∷ codes "x")))
    ≡ some (
        codes "ab" ∷ codes "abcd [daggle: line too long, 4 further bytes dropped]" ∷ codes "x" ∷ [])
unfolding drain_from read_slice add_chunk assemble_line
short_reads = refl

abbrev printed : Text
printed = codes "working" ++ (10 ∷ codes "::daggle-output name=rows::12")

drain_lines-lines_of_example :
    drain_lines printed ≡ some (map (emit stdout_max_line_bytes) (lines_of printed))
drain_lines-lines_of_example = drain_lines-lines_of printed

output_marker-print_output_iff_example :
    (output_marker (codes "::daggle-output name=rows::12") ≡ some (codes "rows", codes "12")) ↔ (
      (is_name (codes "rows") ≡ true)
      × (has_char 10 (codes "12") ≡ false)
      × (codes "::daggle-output name=rows::12" ≡ print_output (codes "rows") (codes "12")))
output_marker-print_output_iff_example =
    output_marker-print_output_iff (codes "::daggle-output name=rows::12") (codes "rows")
      (codes "12")

no_name : output_marker (codes "::daggle-output name=9::x") ≡ none
unfolding output_marker
no_name = refl

other_markers :
    (summary_marker (codes "::daggle-summary format=markdown::# Done")
      ≡ some (codes "markdown", codes "# Done"))
    × (meta_marker (codes "::daggle-meta type=numeric name=rows::12")
        ≡ some (record { kind = codes "numeric"; name = codes "rows"; value = codes "12" }))
    × (validation_marker (codes "::daggle-validation status=warn name=nulls::3 rows")
        ≡ some (record { kind = codes "warn"; name = codes "nulls"; value = codes "3 rows" }))
unfolding summary_marker meta_marker validation_marker
other_markers = (refl, refl, refl)

abbrev nothing : Collected
nothing = record {
  outputs = [];
  summaries = [];
  metadata = [];
  validations = [];
  logged = [];
  shown = [];
}

abbrev two_rows : List Text
two_rows =
    codes "::daggle-output name=rows::1"
    ∷ codes "working"
    ∷ codes "::daggle-output name=rows:: 2 "
    ∷ []

handle_lines_lem_example :
    ((handle_lines nothing two_rows).logged ≡ [] ++ two_rows)
    × ((handle_lines nothing two_rows).shown ≡ [] ++ plain_lines two_rows)
    × (value_in (handle_lines nothing two_rows).outputs (codes "rows")
        ≡ last_marked (codes "rows") none two_rows)
handle_lines_lem_example = handle_lines_lem nothing two_rows (codes "rows")

last_row : value_in (handle_lines nothing two_rows).outputs (codes "rows") ≡ some (codes "2")
unfolding handle_lines handle_line output_marker summary_marker meta_marker validation_marker
last_row = refl

abbrev r_output : Text
r_output =
    codes "Loading" ++ (10 ∷ codes "Error in f()" ++ (10 ∷ codes "Execution halted" ++ (10 ∷ [])))

r_detail : extract_error_detail 50 (some r_output) ≡ codes "Error in f()"
unfolding extract_error_detail extract_pattern_error truncate_detail
r_detail = refl

extract_error_detail-empty_iff_example :
    (extract_error_detail 50 (some (32 ∷ 10 ∷ [])) ≡ []) ↔ (is_blank (32 ∷ 10 ∷ []) ≡ true)
extract_error_detail-empty_iff_example = extract_error_detail-empty_iff 50 (32 ∷ 10 ∷ [])

-- U+3000, U+2003 and a newline are spaces, U+200B is none.
wide_blank : is_blank (0xE3 ∷ 0x80 ∷ 0x80 ∷ 0xE2 ∷ 0x80 ∷ 0x83 ∷ 10 ∷ []) ≡ true
wide_blank = refl

no_blank : is_blank (0xE2 ∷ 0x80 ∷ 0x8B ∷ []) ≡ false
no_blank = refl

wide_detail : extract_error_detail 50 (some (0xE3 ∷ 0x80 ∷ 0x80 ∷ [])) ≡ []
unfolding extract_error_detail
wide_detail = refl

extract_error_detail-length_example : length (extract_error_detail 50 (some r_output)) ≤ 500
extract_error_detail-length_example = extract_error_detail-length 50 (some r_output)
