-- ===== src/Executor/Markers/Collect.antt =====
-- What all the lines of a step leave: the log, the terminal and the outputs.
use daggle.Prelude.{
  ◌≡◌, refl, sym, ap, ◌∙◌, Bool, true, false, ◌&&◌, List, [], ◌∷◌, ◌++◌, Option, none, some,
  append_assoc, append-nil, if◌then◌else◌, arith,
}
use daggle.Go.Text.{Text, text_eq}
use daggle.Go.TextLaws.{text_eq_iff}
use daggle.Go.Bytes.{trim_bytes}
use daggle.Executor.Markers.{
  Entry, Collected, output_marker, summary_marker, meta_marker, validation_marker, set_value,
  validation_line, meta_line, summary_line, output_line, handle_line, handle_lines,
}

abbrev is_none {ℓ} : {A : Type ℓ} → Option A → Bool
is_none none = true
is_none (some a) = false

-- A line that is no marker of any kind.
unfoldable pub is_plain : Text → Bool
unfolding output_marker summary_marker meta_marker validation_marker
is_plain line =
    is_none (output_marker line)
    && (is_none (summary_marker line)
        && (is_none (meta_marker line) && is_none (validation_marker line)))

abbrev when {ℓ} : {A : Type ℓ} → Bool → A → List A
when b x = if b then x ∷ [] else []

unfoldable pub plain_lines : List Text → List Text
unfolding is_plain
plain_lines [] = []
plain_lines (line ∷ lines) = when (is_plain line) line ++ plain_lines lines

abbrev pub value_in : List (Text × Text) → Text → Option Text
value_in [] k = none
value_in ((j, v) ∷ m) k = let rest = value_in m k in if text_eq j k then some v else rest

-- The value of an output after a line, given the value before it.
abbrev marked : Text → Option Text → Option (Text × Text) → Option Text
marked k before none = before
marked k before (some (j, v)) = if text_eq j k then some (trim_bytes v) else before

-- The value of the last marker of an output.
unfoldable pub last_marked : Text → Option Text → List Text → Option Text
unfolding output_marker
last_marked k before [] = before
last_marked k before (line ∷ lines) = last_marked k (marked k before (output_marker line)) lines

value_in-set_value :
    (m : List (Text × Text)) (k j v : Text)
    → value_in (set_value m k v) j ≡ (if text_eq k j then some v else value_in m j)
value_in-set_value [] k j v = refl
value_in-set_value ((i, w) ∷ m) k j v =
    ground (arith, text_eq_iff k j, text_eq_iff i k, text_eq_iff i j, value_in-set_value m k j v)

-- One line more, which is shown where `plain`.
abbrev Handles : Collected → Collected → Text → Bool → Type 0
Handles c c' line plain =
    (c'.logged ≡ c.logged ++ line ∷ []) × (c'.shown ≡ c.shown ++ when plain line)

validation_line-Handles :
    (c : Collected) (line : Text) (o : Option Entry)
    → Handles c (validation_line c line o) line (is_none o)
validation_line-Handles c line none = (refl, refl)
validation_line-Handles c line (some e) = (refl, sym (append-nil c.shown))

meta_line-Handles :
    (c : Collected) (line : Text) (o : Option Entry)
    → Handles c (meta_line c line o) line (is_none o && is_none (validation_marker line))
meta_line-Handles c line none = validation_line-Handles c line (validation_marker line)
meta_line-Handles c line (some e) = (refl, sym (append-nil c.shown))

summary_line-Handles :
    (c : Collected) (line : Text) (o : Option (Text × Text))
    → Handles c
        (summary_line c line o)
        line
        (is_none o && (is_none (meta_marker line) && is_none (validation_marker line)))
summary_line-Handles c line none = meta_line-Handles c line (meta_marker line)
summary_line-Handles c line (some s) = (refl, sym (append-nil c.shown))

output_line-Handles :
    (c : Collected) (line : Text) (o : Option (Text × Text))
    → Handles c (output_line c line o) line (
        is_none o
        && (is_none (summary_marker line)
            && (is_none (meta_marker line) && is_none (validation_marker line))))
output_line-Handles c line none = summary_line-Handles c line (summary_marker line)
output_line-Handles c line (some (k, v)) = (refl, sym (append-nil c.shown))

handle_line-Handles :
    (c : Collected) (line : Text) → Handles c (handle_line c line) line (is_plain line)
unfolding handle_line is_plain
handle_line-Handles c line = output_line-Handles c line (output_marker line)

-- The other three kinds of lines leave the outputs.
validation_line-outputs :
    (c : Collected) (line : Text) (o : Option Entry)
    → (validation_line c line o).outputs ≡ c.outputs
validation_line-outputs c line none = refl
validation_line-outputs c line (some e) = refl

meta_line-outputs :
    (c : Collected) (line : Text) (o : Option Entry) → (meta_line c line o).outputs ≡ c.outputs
meta_line-outputs c line none = validation_line-outputs c line (validation_marker line)
meta_line-outputs c line (some e) = refl

summary_line-outputs :
    (c : Collected) (line : Text) (o : Option (Text × Text))
    → (summary_line c line o).outputs ≡ c.outputs
summary_line-outputs c line none = meta_line-outputs c line (meta_marker line)
summary_line-outputs c line (some s) = refl

output_line-value_in :
    (c : Collected) (line k : Text) (o : Option (Text × Text))
    → value_in (output_line c line o).outputs k ≡ marked k (value_in c.outputs k) o
output_line-value_in c line k none =
    ap (λ (m : List (Text × Text)). value_in m k)
      (summary_line-outputs c line (summary_marker line))
output_line-value_in c line k (some (j, v)) = value_in-set_value c.outputs j k (trim_bytes v)

-- Every line stands in the log, in order; the terminal shows those that are no markers; and an output
-- has the trimmed value of its last marker, or what it had before where there is none.
pub handle_lines_lem :
    (c : Collected) (lines : List Text) (k : Text)
    → ((handle_lines c lines).logged ≡ c.logged ++ lines)
      × ((handle_lines c lines).shown ≡ c.shown ++ plain_lines lines)
      × (value_in (handle_lines c lines).outputs k ≡ last_marked k (value_in c.outputs k) lines)
unfolding handle_lines plain_lines last_marked
handle_lines_lem c [] k = (sym (append-nil c.logged), sym (append-nil c.shown), refl)
handle_lines_lem c (line ∷ lines) k =
    let here = handle_line-Handles c line in
    let (logged, shown, value) = handle_lines_lem (handle_line c line) lines k in
    (
      logged ∙ ap (λ (l : List Text). l ++ lines) here.0 ∙ append_assoc c.logged (line ∷ []) lines,
      shown
          ∙ ap (λ (l : List Text). l ++ plain_lines lines) here.1
          ∙ append_assoc c.shown (when (is_plain line) line) (plain_lines lines),
      value
          ∙ ap (λ (o : Option Text). last_marked k o lines)
              (unfold handle_line in output_line-value_in c line k (output_marker line)),
    )
