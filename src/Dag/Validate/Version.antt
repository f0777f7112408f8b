-- ===== src/Dag/Validate/Version.antt =====
-- Version constraints and the deadline's clock time.
use daggle.Prelude.{
  ℕ, zero, suc, ◌+◌, ◌-◌, ◌*◌, ◌%◌, ◌^◌, Bool, true, false, ◌&&◌, ◌||◌, List, [], ◌∷◌, Option, none,
  some, ltb, nat_eq, if◌then◌else◌, length, ◌≡◌, refl,
}
use daggle.Prelude.Int.{ℤ, pos, negsuc}
use daggle.Go.Text.{Text, codes, is_digit, is_empty, has_prefix, drop, trim_space, split, scan_int}
use daggle.Dag.Validate.Errors.{
  VersionError, DeadlineError, bad_operator, bad_part_count, not_numeric, cannot_parse,
  hour_out_of_range, minute_out_of_range,
}

abbrev all_digits : Text → Bool
all_digits [] = true
all_digits (c ∷ s) = is_digit c && all_digits s

abbrev all_numeric : List Text → Bool
all_numeric [] = true
all_numeric (p ∷ ps) = all_digits p && all_numeric ps

-- `none` is the nil error.
unfoldable pub validate_version_string : Text → Option VersionError
validate_version_string v =
    let parts = split b'.' (trim_space v) in
    if ltb (length parts) 2 || ltb 3 (length parts)
    then some bad_part_count
    else if all_numeric parts
    then none
    else some not_numeric

abbrev pub at_least : Text
at_least = codes ">="

abbrev pub exactly : Text
exactly = codes "=="

unfoldable pub validate_r_version_constraint : Text → Option VersionError
unfolding validate_version_string
validate_r_version_constraint text =
    let constraint = trim_space text in
    if has_prefix constraint at_least
    then validate_version_string (drop 2 constraint)
    else if has_prefix constraint exactly
    then validate_version_string (drop 2 constraint)
    else some bad_operator

-- va = va*10 + int(c-'0') over the digits of a part; `int` wraps at 2 ^ 64.
abbrev pub part_value : ℕ → Text → ℕ
part_value v [] = v
part_value v (c ∷ s) = part_value (if is_digit c then (v * 10 + (c - b'0')) % 2 ^ 64 else v) s

-- A 64-bit pattern as a number that grows with the `int` it stands for.
unfoldable pub int_key : ℕ → ℕ
int_key a = (a + 2 ^ 63) % 2 ^ 64

-- a < b, of two `int`s
abbrev pub int_less : ℕ → ℕ → Bool
int_less a b = ltb (int_key a) (int_key b)

pub data Order : Type 0 where
  less equal greater : Order

-- The first part of each list, 0 where there is none, and the other parts.
abbrev pub head_value : List Text → ℕ
head_value [] = 0
head_value (p ∷ ps) = part_value 0 p

abbrev pub others : List Text → List Text
others [] = []
others (p ∷ ps) = ps

-- for i := 0; i < 3; i++
unfoldable pub compare_parts : ℕ → List Text → List Text → Order
compare_parts zero pa pb = equal
compare_parts (suc rounds) pa pb =
    let rest = compare_parts rounds (others pa) (others pb) in
    if int_less (head_value pa) (head_value pb)
    then less
    else if int_less (head_value pb) (head_value pa)
    then greater
    else rest

unfoldable pub compare_versions : Text → Text → Order
unfolding compare_parts int_key
compare_versions a b = compare_parts 3 (split b'.' a) (split b'.' b)

pub data Check : Type 0 where
  passed unknown_operator not_satisfied : Check

abbrev pub is_less : Order → Bool
is_less less = true
is_less equal = false
is_less greater = false

abbrev pub is_equal : Order → Bool
is_equal less = false
is_equal equal = true
is_equal greater = false

unfoldable pub check_r_version : Text → Text → Check
unfolding compare_versions
check_r_version text actual =
    let constraint = trim_space text in
    let required = trim_space (drop 2 constraint) in
    if is_empty constraint || is_empty actual
    then passed
    else if has_prefix constraint at_least
    then (if is_less (compare_versions actual required) then not_satisfied else passed)
    else if has_prefix constraint exactly
    then (if is_equal (compare_versions actual required) then passed else not_satisfied)
    else unknown_operator

-- `deadlineRe`: ^\d{2}:\d{2}$
abbrev pub deadline_matches : Text → Bool
deadline_matches (a ∷ b ∷ c ∷ d ∷ e ∷ []) =
    is_digit a && is_digit b && nat_eq c b':' && is_digit d && is_digit e
deadline_matches _ = false

abbrev pub out_of_range : ℤ → ℕ → Bool
out_of_range (pos n) top = ltb top n
out_of_range (negsuc n) top = true

abbrev pub second_int : Text → Option ℤ
second_int [] = none
second_int (c ∷ s) =
    if nat_eq c b':' then elim (scan_int s) [ none ↦ none | some (m, r) ↦ some m ] else none

-- fmt.Sscanf(s, "%d:%d", &h, &m)
unfoldable pub scan_time : Text → Option (ℤ × ℤ)
scan_time s = elim (scan_int s) [
  | none ↦ none
  | some (h, r) ↦ elim (second_int r) [ none ↦ none | some m ↦ some (h, m) ]
]

abbrev pub judge_time : Option (ℤ × ℤ) → Option DeadlineError
judge_time none = some cannot_parse
judge_time (some (h, m)) =
    if out_of_range h 23
    then some hour_out_of_range
    else if out_of_range m 59
    then some minute_out_of_range
    else none

unfoldable pub validate_deadline_time : Text → Option DeadlineError
validate_deadline_time s = judge_time (scan_time s)

four_one : validate_r_version_constraint (codes ">= 4.1.0") ≡ none
unfolding validate_r_version_constraint
four_one = refl

too_old : check_r_version (codes ">=4.2") (codes "4.1.3") ≡ not_satisfied
unfolding check_r_version
too_old = refl

late : validate_deadline_time (codes "24:00") ≡ some hour_out_of_range
unfolding validate_deadline_time scan_time scan_int
late = refl
