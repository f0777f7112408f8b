-- ===== src/Executor/Markers.antt =====
-- The markers that a step prints: the regular expressions and `handleLine` of
-- internal/executor/process.go. A text is the list of its bytes.
pub mod Printed
pub mod Collect
use daggle.Prelude.{
  ℕ, Bool, true, false, ◌&&◌, ◌||◌, List, [], ◌∷◌, ◌++◌, Option, none, some, nat_eq, if◌then◌else◌,
}
use daggle.Go.Text.{Text, codes, is_digit, is_letter, has_char, text_eq}
use daggle.Go.Bytes.{trim_bytes}

abbrev pub newline : ℕ
newline = 10

abbrev pub is_name_start : ℕ → Bool
is_name_start c = is_letter c || nat_eq c b'_'

abbrev pub is_name_char : ℕ → Bool
is_name_char c = is_name_start c || is_digit c

-- What follows a literal part of an expression.
abbrev pub strip_prefix : Text → Text → Option Text
strip_prefix [] s = some s
strip_prefix (p ∷ ps) [] = none
strip_prefix (p ∷ ps) (c ∷ s) = let rest = strip_prefix ps s in if nat_eq p c then rest else none

-- A greedy class with a star. What follows it in the expressions begins with a character that the
-- class does not have, so that no shorter match is tried.
abbrev pub add_front : ℕ → Text × Text → Text × Text
add_front c (s, rest) = (c ∷ s, rest)

abbrev pub span : (ℕ → Bool) → Text → Text × Text
span p [] = ([], [])
span p (c ∷ s) = let rest = span p s in if p c then add_front c rest else ([], c ∷ s)

-- `::(.*)$` behind a group
abbrev pub with_value : Text → Option Text → Option (Text × Text)
with_value name none = none
with_value name (some value) = if has_char newline value then none else some (name, value)

abbrev pub value_after : Text × Text → Option (Text × Text)
value_after (name, rest) = with_value name (strip_prefix (codes "::") rest)

-- `([a-zA-Z_][a-zA-Z0-9_]*)::(.*)$`
abbrev pub name_value : Text → Option (Text × Text)
name_value [] = none
name_value (c ∷ s) =
    if is_name_start c then value_after (add_front c (span is_name_char s)) else none

abbrev pub after_prefix {ℓ} : {A : Type ℓ} → (Text → Option A) → Option Text → Option A
after_prefix f none = none
after_prefix f (some rest) = f rest

-- OutputMarkerRe
unfoldable pub output_marker : Text → Option (Text × Text)
output_marker line = after_prefix name_value (strip_prefix (codes "::daggle-output name=") line)

-- `([a-zA-Z]+)`
abbrev pub letters : Text → Option (Text × Text)
letters [] = none
letters (c ∷ s) = if is_letter c then some (add_front c (span is_letter s)) else none

abbrev pub format_value : Text → Option (Text × Text)
format_value s = elim (letters s) [ none ↦ none | some found ↦ value_after found ]

-- summaryMarkerRe
unfoldable pub summary_marker : Text → Option (Text × Text)
summary_marker line =
    after_prefix format_value (strip_prefix (codes "::daggle-summary format=") line)

pub record Entry : Type 0 where
  pub kind : Text
  pub name : Text
  pub value : Text

abbrev pub entry_of : Text → Option (Text × Text) → Option Entry
entry_of kind none = none
entry_of kind (some (name, value)) = some (record { kind = kind; name = name; value = value })

abbrev pub named_entry : Text × Text → Option Entry
named_entry (kind, rest) =
    entry_of kind (after_prefix name_value (strip_prefix (codes " name=") rest))

abbrev pub typed_entry : Text → Option Entry
typed_entry s = elim (letters s) [ none ↦ none | some found ↦ named_entry found ]

-- metaMarkerRe
unfoldable pub meta_marker : Text → Option Entry
meta_marker line = after_prefix typed_entry (strip_prefix (codes "::daggle-meta type=") line)

-- The first of the literals that the text begins with.
abbrev pub one_of : List Text → Text → Option (Text × Text)
one_of [] s = none
one_of (w ∷ ws) s =
    let rest = one_of ws s in elim (strip_prefix w s) [ none ↦ rest | some after ↦ some (w, after) ]

abbrev pub status_entry : Text → Option Entry
status_entry s = elim (one_of (codes "pass" ∷ codes "warn" ∷ codes "fail" ∷ []) s) [
  | none ↦ none
  | some found ↦ named_entry found
]

-- validationMarkerRe
unfoldable pub validation_marker : Text → Option Entry
validation_marker line =
    after_prefix status_entry (strip_prefix (codes "::daggle-validation status=") line)

-- What has been collected from the lines: the four kinds of markers, and what was written to the log
-- file and to the terminal.
pub record Collected : Type 0 where
  pub outputs : List (Text × Text)
  pub summaries : List (Text × Text)
  pub metadata : List Entry
  pub validations : List Entry
  pub logged : List Text
  pub shown : List Text

-- outputs[k] = v
abbrev pub set_value : List (Text × Text) → Text → Text → List (Text × Text)
set_value [] k v = (k, v) ∷ []
set_value ((j, w) ∷ m) k v =
    let rest = set_value m k v in if text_eq j k then (k, v) ∷ m else (j, w) ∷ rest

abbrev pub log_line : Collected → Text → Collected
log_line c line = record c { logged = c.logged ++ line ∷ [] }

abbrev pub plain_line : Collected → Text → Collected
plain_line c line = record (log_line c line) { shown = c.shown ++ line ∷ [] }

abbrev pub validation_line : Collected → Text → Option Entry → Collected
validation_line c line none = plain_line c line
validation_line c line (some e) = record (log_line c line) { validations = c.validations ++ e ∷ [] }

abbrev pub meta_line : Collected → Text → Option Entry → Collected
meta_line c line none = validation_line c line (validation_marker line)
meta_line c line (some e) = record (log_line c line) { metadata = c.metadata ++ e ∷ [] }

abbrev pub summary_line : Collected → Text → Option (Text × Text) → Collected
summary_line c line none = meta_line c line (meta_marker line)
summary_line c line (some s) = record (log_line c line) { summaries = c.summaries ++ s ∷ [] }

abbrev pub output_line : Collected → Text → Option (Text × Text) → Collected
output_line c line none = summary_line c line (summary_marker line)
output_line c line (some (k, v)) = record (log_line c line) {
  outputs = set_value c.outputs k (trim_bytes v);
}

-- handleLine
unfoldable pub handle_line : Collected → Text → Collected
unfolding output_marker summary_marker meta_marker validation_marker
handle_line c line = output_line c line (output_marker line)

unfoldable pub handle_lines : Collected → List Text → Collected
unfolding handle_line
handle_lines c [] = c
handle_lines c (line ∷ lines) = handle_lines (handle_line c line) lines
