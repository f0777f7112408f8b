-- ===== src/Executor/Detail/Bound.antt =====
-- The error detail is short.
use daggle.Prelude.{
  ℕ, zero, suc, ◌≤◌, Bool, List, [], ◌∷◌, Option, none, some, ltb, length, length-append,
  Bool-cases, inl, inr, arith,
}
use daggle.Go.Text.{Text, codes, split}
use daggle.Go.Bytes.{trim_bytes, first_bytes}
use daggle.Executor.Detail.{
  newline, error_detail_max_len, truncate_detail, extract_last_lines, extract_pattern_error,
  error_start, backwards, join_lines, last_lines, error_lines, detail_from, is_r_error,
  is_quarto_error, or_else, content_detail, extract_error_detail,
}

length-first_bytes : (n : ℕ) (s : Text) → length (first_bytes n s) ≤ n
length-first_bytes zero s = omega arith
length-first_bytes (suc n) [] = omega arith
length-first_bytes (suc n) (c ∷ s) = omega (arith, length-first_bytes n s)

pub truncate_detail-length : (s : Text) → length (truncate_detail s) ≤ error_detail_max_len
unfolding truncate_detail
truncate_detail-length s = elim (Bool-cases (ltb error_detail_max_len (length s))) [
  | inl long ↦
      rw long
        (omega (arith, length-append (first_bytes 497 s) (codes "..."), length-first_bytes 497 s))
  | inr short ↦ rw short (ground (arith, short))
]

extract_last_lines-length :
    (lines : List Text) (n : ℕ) → length (extract_last_lines lines n) ≤ error_detail_max_len
unfolding extract_last_lines
extract_last_lines-length lines n =
    truncate_detail-length (join_lines (backwards (last_lines n (backwards lines))))

or_else-length :
    (s t : Text)
    → length s ≤ error_detail_max_len
    → length t ≤ error_detail_max_len
    → length (or_else s t) ≤ error_detail_max_len
or_else-length [] t h k = k
or_else-length (c ∷ s) t h k = h

detail_from-length :
    (skip : Text) (o : Option (List Text)) → length (detail_from skip o) ≤ error_detail_max_len
detail_from-length skip none = omega arith
detail_from-length skip (some from) = truncate_detail-length (join_lines (error_lines skip from))

extract_pattern_error-length :
    (context : ℕ) (lines : List Text) (matches : Text → Bool) (skip : Text)
    → length (extract_pattern_error context lines matches skip) ≤ error_detail_max_len
unfolding extract_pattern_error
extract_pattern_error-length context lines matches skip =
    detail_from-length skip (error_start matches context [] (backwards lines))

content_detail-length :
    (context : ℕ) (content : Text) → length (content_detail context content) ≤ error_detail_max_len
content_detail-length context [] = omega arith
content_detail-length context (c ∷ s) =
    let lines = split newline (c ∷ s) in
    or_else-length _ _
      (extract_pattern_error-length context lines is_r_error (codes "Execution halted"))
      (or_else-length _ _ (extract_pattern_error-length context lines is_quarto_error [])
        (extract_last_lines-length lines 5))

-- The detail has at most 500 bytes, whatever the file holds and however many lines are searched.
pub extract_error_detail-length :
    (context : ℕ) (file : Option Text) → length (extract_error_detail context file) ≤ 500
unfolding extract_error_detail
extract_error_detail-length context none = omega arith
extract_error_detail-length context (some text) = content_detail-length context (trim_bytes text)
