-- ===== src/Executor/Drain/Lines.antt =====
-- The loop over the chunks of a pipe beside the lines of the whole text.
use daggle.Prelude.{
  ℕ, zero, suc, ◌-◌, ◌<◌, ◌≡◌, refl, sym, ap, ◌∙◌, true, false, List, [], ◌∷◌, ◌++◌, map, some,
  append_assoc, append-nil, ltb, nat_eq, if◌then◌else◌, length, arith,
}
use daggle.Go.Text.{Text, has_char, add_char}
use daggle.Go.TextLaws.{has_char-append}
use daggle.Executor.Drain.Slices.{
  IsCut, add_chunk-take_bytes, read_slice-IsCut, read_slice-chunk, zero_minus, minus_zero,
}
use daggle.Executor.Drain.{
  newline, Why, full, found, ended, read_slice, take_bytes, assemble_line, last_line, after_slice,
  drain_from, stdout_max_line_bytes, drain_lines,
}

-- The lines of a text, each with the newline that ends it; only the last one may have none.
unfoldable pub lines_of : Text → List Text
lines_of [] = []
lines_of (c ∷ s) =
    let rest = lines_of s in if nat_eq c newline then (c ∷ []) ∷ rest else add_char c rest

-- A line of which at most `max` bytes are kept.
abbrev pub emit : ℕ → Text → Text
emit max line = assemble_line (take_bytes max line) (length line - max)

lines_of-line :
    (p rest : Text)
    → has_char newline p ≡ false
    → lines_of (p ++ (newline ∷ rest)) ≡ (p ++ newline ∷ []) ∷ lines_of rest
unfolding lines_of
lines_of-line [] rest h = refl
lines_of-line (c ∷ p) rest h =
    let other : nat_eq c newline ≡ false = ground (arith, h) in
    let ih = lines_of-line p rest (ground (arith, h)) in rw (other, ih) refl

lines_of-last :
    (c : ℕ) (p : Text) → has_char newline (c ∷ p) ≡ false → lines_of (c ∷ p) ≡ (c ∷ p) ∷ []
unfolding lines_of
lines_of-last c [] h = rw (let other : nat_eq c newline ≡ false = ground (arith, h) in other) refl
lines_of-last c (d ∷ p) h =
    let other : nat_eq c newline ≡ false = ground (arith, h) in
    let ih = lines_of-last d p (ground (arith, h)) in rw other (ap (add_char c) ih)

last_line-emit :
    (max : ℕ) (p : Text)
    → has_char newline p ≡ false
    → last_line (take_bytes max p, length p - max) ≡ map (emit max) (lines_of p)
last_line-emit zero [] h = unfold lines_of in refl
last_line-emit (suc max) [] h = unfold lines_of in rw (zero_minus (suc max)) refl
last_line-emit zero (c ∷ p) h =
    let dropped : ltb 0 (suc (length p)) ≡ true = ground arith in
    rw (lines_of-last c p h, minus_zero (suc (length p)), dropped) refl
last_line-emit (suc max) (c ∷ p) h = rw (lines_of-last c p h) refl

take_nil : (n : ℕ) → take_bytes n [] ≡ []
take_nil zero = refl
take_nil (suc n) = refl

-- What the loop gives from a line of which `acc` has been read.
abbrev Drains : ℕ → ℕ → ℕ → Text → Text → Type 0
Drains fuel size max acc input =
    drain_from fuel size max (take_bytes max acc, length acc - max) input
    ≡ some (map (emit max) (lines_of (acc ++ input)))

plain_append :
    (acc chunk : Text)
    → has_char newline acc ≡ false
    → has_char newline chunk ≡ false
    → has_char newline (acc ++ chunk) ≡ false
plain_append acc chunk h k = has_char-append newline acc chunk ∙ (rw (h, k) refl)

-- A chunk that ends a line.
lines_of-chunk :
    (acc chunk rest line : Text)
    → has_char newline acc ≡ false
    → has_char newline line ≡ false
    → chunk ≡ line ++ newline ∷ []
    → lines_of (acc ++ (chunk ++ rest)) ≡ (acc ++ chunk) ∷ lines_of rest
lines_of-chunk acc chunk rest line h k same =
    ap (λ (t : Text). lines_of (acc ++ (t ++ rest))) same
    ∙ ap (λ (t : Text). lines_of (acc ++ t)) (append_assoc line (newline ∷ []) rest)
    ∙ ap lines_of (sym (append_assoc acc line (newline ∷ rest)))
    ∙ lines_of-line (acc ++ line) rest (plain_append acc line h k)
    ∙ ap (λ (t : Text). t ∷ lines_of rest)
        (append_assoc acc line (newline ∷ []) ∙ ap (λ (t : Text). acc ++ t) (sym same))

after_slice-Drains :
    (fuel size max : ℕ) (acc chunk rest : Text) (why : Why)
    → has_char newline acc ≡ false
    → IsCut (chunk ++ rest) (record { chunk = chunk; why = why; rest = rest })
    → ((acc' : Text) → has_char newline acc' ≡ false → Drains fuel size max acc' rest)
    → after_slice why
        (take_bytes max (acc ++ chunk), length (acc ++ chunk) - max)
        (drain_from fuel size max (take_bytes max (acc ++ chunk), length (acc ++ chunk) - max) rest)
        (drain_from fuel size max ([], 0) rest)
      ≡ some (map (emit max) (lines_of (acc ++ (chunk ++ rest))))
after_slice-Drains fuel size max acc chunk rest full h k ih =
    ih (acc ++ chunk) (plain_append acc chunk h k.1)
    ∙ ap (λ (t : Text). some (map (emit max) (lines_of t))) (append_assoc acc chunk rest)
after_slice-Drains fuel size max acc chunk rest found h k ih =
    let (line, same, plain) = k.1 in
    let new_line : drain_from fuel size max ([], 0) rest ≡ some (map (emit max) (lines_of rest)) =
      (rw (take_nil max, zero_minus max) refl) ∙ ih [] refl in
    rw (new_line, lines_of-chunk acc chunk rest line h plain same) refl
after_slice-Drains fuel size max acc chunk rest ended h k ih =
    rw (k.1.1, append-nil chunk)
      (ap some (last_line-emit max (acc ++ chunk) (plain_append acc chunk h k.1.0)))

drain_from-Drains :
    (fuel size max : ℕ) (acc input : Text)
    → has_char newline acc ≡ false
    → length input < fuel
    → Drains fuel (suc size) max acc input
unfolding drain_from
drain_from-Drains zero size max acc input h enough = absurd (omega arith)
drain_from-Drains (suc fuel) size max acc [] h enough =
    unfold read_slice in
    rw (add_chunk-take_bytes max acc [], append-nil acc) (ap some (last_line-emit max acc h))
drain_from-Drains (suc fuel) size max acc (c ∷ input) h enough =
    let s = read_slice (suc size) (c ∷ input) in
    let cut = read_slice-IsCut (suc size) (c ∷ input) in
    ap
      (λ (st : Text × ℕ).
        after_slice s.why st (drain_from fuel (suc size) max st s.rest)
          (drain_from fuel (suc size) max ([], 0) s.rest))
      (add_chunk-take_bytes max acc s.chunk)
    ∙ after_slice-Drains fuel (suc size) max acc s.chunk s.rest s.why h (refl, cut.1)
        (λ acc' plain.
          drain_from-Drains fuel size max acc' s.rest plain
            (omega (arith, read_slice-chunk size c input, enough)))
    ∙ ap (λ (t : Text). some (map (emit max) (lines_of (acc ++ t)))) (sym cut.0)

-- The loop ends, and handles every line of what the process has written, in order, of which it keeps
-- at most 1 MiB.
pub drain_lines-lines_of :
    (input : Text) → drain_lines input ≡ some (map (emit stdout_max_line_bytes) (lines_of input))
unfolding drain_lines
drain_lines-lines_of input =
    drain_from-Drains (suc (length input)) 65_535 stdout_max_line_bytes [] input refl (omega arith)
