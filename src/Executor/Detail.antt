-- ===== src/Executor/Detail.antt =====
-- The error detail of a step, from what it wrote to standard error (extractErrorDetail in
-- internal/executor/process.go). A text is the list of its bytes.
pub mod Bound
pub mod Trimmed
pub mod Blank
use daggle.Prelude.{
  ℕ, zero, suc, ◌-◌, Bool, true, false, ◌||◌, ◌&&◌, not, List, [], ◌∷◌, ◌++◌, Option, none, some,
  leb, ltb, if◌then◌else◌, length,
}
use daggle.Go.Text.{Text, codes, has_prefix, is_empty, split, text_eq, to_lower}
use daggle.Go.Bytes.{trim_bytes, first_bytes}

abbrev pub newline : ℕ
newline = 10

abbrev pub error_detail_max_len : ℕ
error_detail_max_len = 500

unfoldable pub truncate_detail : Text → Text
truncate_detail s =
    if ltb error_detail_max_len (length s)
    then first_bytes (error_detail_max_len - 3) s ++ codes "..."
    else s

-- strings.Join(lines, "\n")
abbrev pub join_lines : List Text → Text
join_lines [] = []
join_lines (l ∷ []) = l
join_lines (l ∷ m ∷ ls) = l ++ (newline ∷ join_lines (m ∷ ls))

abbrev pub backwards : List Text → List Text
backwards [] = []
backwards (l ∷ ls) = backwards ls ++ l ∷ []

-- The loop of extractLastLines, from the last line on: at most `n` lines that are not blank.
abbrev pub last_lines : ℕ → List Text → List Text
last_lines n [] = []
last_lines zero (l ∷ ls) = []
last_lines (suc n) (l ∷ ls) =
    let skipped = last_lines (suc n) ls in
    let taken = trim_bytes l ∷ last_lines n ls in if is_empty (trim_bytes l) then skipped else taken

unfoldable pub extract_last_lines : List Text → ℕ → Text
unfolding truncate_detail
extract_last_lines lines n =
    truncate_detail (join_lines (backwards (last_lines n (backwards lines))))

-- The loop that looks for the last line with the pattern among the last `context` ones: it goes over
-- the lines from the last one on, `seen` being those behind it, and gives the lines from there on.
abbrev pub error_start : (Text → Bool) → ℕ → List Text → List Text → Option (List Text)
error_start matches context seen [] = none
error_start matches zero seen (l ∷ ls) = none
error_start matches (suc context) seen (l ∷ ls) =
    let earlier = error_start matches context (l ∷ seen) ls in
    if matches (trim_bytes l) then some (l ∷ seen) else earlier

-- The lines that are neither blank nor `skip`, which is none where it is "".
abbrev pub error_lines : Text → List Text → List Text
error_lines skip [] = []
error_lines skip (l ∷ ls) =
    let line = trim_bytes l in
    let rest = error_lines skip ls in
    if not (is_empty skip) && text_eq line skip
    then rest
    else if is_empty line
    then rest
    else line ∷ rest

abbrev pub detail_from : Text → Option (List Text) → Text
detail_from skip none = []
detail_from skip (some from) = truncate_detail (join_lines (error_lines skip from))

-- `context` is ErrorContextLines; a negative one acts as 0.
unfoldable pub extract_pattern_error : ℕ → List Text → (Text → Bool) → Text → Text
unfolding truncate_detail
extract_pattern_error context lines matches skip =
    detail_from skip (error_start matches context [] (backwards lines))

-- `^Error[ :]`
abbrev pub is_r_error : Text → Bool
is_r_error s = has_prefix s (codes "Error ") || has_prefix s (codes "Error:")

-- `(?i)^ERROR:`
abbrev pub is_quarto_error : Text → Bool
is_quarto_error s = has_prefix (to_lower s) (codes "error:")

abbrev pub or_else : Text → Text → Text
or_else detail other = if is_empty detail then other else detail

abbrev pub detail_of : ℕ → List Text → Text
detail_of context lines =
    or_else (extract_pattern_error context lines is_r_error (codes "Execution halted")) (
      or_else (extract_pattern_error context lines is_quarto_error []) (extract_last_lines lines 5))

abbrev pub content_detail : ℕ → Text → Text
content_detail context content =
    if is_empty content then [] else detail_of context (split newline content)

-- The file as os.ReadFile gives it: `none` where there is no path or it cannot be read.
unfoldable pub extract_error_detail : ℕ → Option Text → Text
unfolding extract_pattern_error extract_last_lines truncate_detail
extract_error_detail context none = []
extract_error_detail context (some text) = content_detail context (trim_bytes text)
