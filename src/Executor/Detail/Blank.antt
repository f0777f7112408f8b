-- ===== src/Executor/Detail/Blank.antt =====
-- When the error detail of a step is empty.
use daggle.Prelude.{
  ℕ, suc, ◌≡◌, ◌↔◌, refl, sym, ap, ◌∙◌, Bool, true, false, not, ◌||◌, List, [], ◌∷◌, ◌++◌, some,
  ltb, length, Bool-cases, inl, inr, arith,
}
use daggle.Go.Text.{Text, codes, is_empty, split}
use daggle.Go.Bytes.{is_blank, trim_start, trim_end, trim_bytes, first_bytes}
use daggle.Executor.Detail.Trimmed.{
  leading, blank_of_trim_start, trim_start_blank, trim_start_fresh, fresh_stays, trim_end_fresh,
  fresh_end, fresh_first,
}
use daggle.Executor.Detail.{
  newline, error_detail_max_len, truncate_detail, join_lines, backwards, last_lines,
  extract_last_lines, or_else, detail_of, extract_pattern_error, is_r_error, is_quarto_error,
  content_detail, extract_error_detail,
}

full_append : (s t : Text) (c : ℕ) → is_empty (s ++ (c ∷ t)) ≡ false
full_append [] t c = refl
full_append (d ∷ s) t c = refl

truncate_detail-full : (s : Text) → is_empty s ≡ false → is_empty (truncate_detail s) ≡ false
unfolding truncate_detail
truncate_detail-full s h = elim (Bool-cases (ltb error_detail_max_len (length s))) [
  | inl long ↦ rw long (full_append (first_bytes 497 s) (codes "..") b'.')
  | inr short ↦ rw short h
]

-- Some line is not empty.
abbrev any_full : List Text → Bool
any_full [] = false
any_full (l ∷ ls) = not (is_empty l) || any_full ls

any_full-append : (xs ys : List Text) → any_full (xs ++ ys) ≡ (any_full xs || any_full ys)
any_full-append [] ys = refl
any_full-append (x ∷ xs) ys = ground (arith, any_full-append xs ys)

any_full-backwards : (ls : List Text) → any_full (backwards ls) ≡ any_full ls
any_full-backwards [] = refl
any_full-backwards (l ∷ ls) =
    any_full-append (backwards ls) (l ∷ []) ∙ ground (arith, any_full-backwards ls)

join_lines-full : (ls : List Text) → any_full ls ≡ true → is_empty (join_lines ls) ≡ false
join_lines-full [] h = cc
join_lines-full (l ∷ []) h = ground (arith, h)
join_lines-full (l ∷ m ∷ ls) h = full_append l (join_lines (m ∷ ls)) newline

last_lines-full :
    (n : ℕ) (xs : List Text) (l : Text)
    → is_empty (trim_bytes l) ≡ false
    → any_full (last_lines (suc n) (xs ++ l ∷ [])) ≡ true
last_lines-full n [] l h = rw (h, h) refl
last_lines-full n (x ∷ xs) l h = elim (Bool-cases (is_empty (trim_bytes x))) [
  | inl blank ↦ rw blank (last_lines-full n xs l h)
  | inr full ↦ rw (full, full) refl
]

or_else-full : (s t : Text) → is_empty t ≡ false → is_empty (or_else s t) ≡ false
or_else-full [] t h = h
or_else-full (c ∷ s) t h = refl

first_full : (c : ℕ) (p : Text) → leading (c ∷ p) ≡ false → is_empty (trim_bytes (c ∷ p)) ≡ false
first_full c p h =
    ap (λ (s : Text). is_empty (trim_end s)) (fresh_stays (c ∷ p) h)
    ∙ ap is_empty (trim_end_fresh c p h)

extract_last_lines-full :
    (l : Text) (ls : List Text)
    → is_empty (trim_bytes l) ≡ false
    → is_empty (extract_last_lines (l ∷ ls) 5) ≡ false
unfolding extract_last_lines
extract_last_lines-full l ls h =
    let found = last_lines 5 (backwards ls ++ l ∷ []) in
    truncate_detail-full (join_lines (backwards found)) (
      join_lines-full (backwards found)
        (any_full-backwards found ∙ last_lines-full 4 (backwards ls) l h))

detail_of-full :
    (context : ℕ) (lines : List Text)
    → is_empty (extract_last_lines lines 5) ≡ false
    → is_empty (detail_of context lines) ≡ false
detail_of-full context lines h =
    let r = extract_pattern_error context lines is_r_error (codes "Execution halted") in
    let quarto = extract_pattern_error context lines is_quarto_error [] in
    or_else-full r (or_else quarto (extract_last_lines lines 5))
      (or_else-full quarto (extract_last_lines lines 5) h)

content_detail-full :
    (context c : ℕ) (s : Text)
    → leading (c ∷ s) ≡ false
    → is_empty (content_detail context (c ∷ s)) ≡ false
content_detail-full context c s h =
    let (p, ls, same, fresh) = fresh_first c s h in
    let full = extract_last_lines-full (c ∷ p) ls (first_full c p fresh) in
    detail_of-full context (split newline (c ∷ s))
      (ap (λ (l : List Text). is_empty (extract_last_lines l 5)) same ∙ full)

trimmed_full :
    (context : ℕ) (t : Text) → leading t ≡ false → content_detail context (trim_end t) ≡ [] → t ≡ []
trimmed_full context [] h e = refl
trimmed_full context (c ∷ t) h e =
    let full = content_detail-full context c (trim_end t) (fresh_end c t h) in
    let none : is_empty (content_detail context (c ∷ trim_end t)) ≡ true =
      ap (λ (s : Text). is_empty (content_detail context s)) (sym (trim_end_fresh c t h))
      ∙ ap is_empty e in
    cc

-- For a file that can be read, the detail is empty exactly where it holds nothing but spaces.
pub extract_error_detail-empty_iff :
    (context : ℕ) (text : Text)
    → (extract_error_detail context (some text) ≡ []) ↔ (is_blank text ≡ true)
unfolding extract_error_detail
extract_error_detail-empty_iff context text = (
  λ e. blank_of_trim_start text (trimmed_full context (trim_start text) (trim_start_fresh text) e),
  λ h. ap (λ (s : Text). content_detail context (trim_end s)) (trim_start_blank text h),
)
