-- ===== src/Executor/Drain/Slices.antt =====
-- One read of the loop: what ReadSlice returns, and a line of which a chunk more has been read.
use daggle.Prelude.{
  ℕ, zero, suc, ◌+◌, ◌-◌, ◌<◌, ◌≡◌, refl, ap, ◌∙◌, Bool, true, false, [], ◌∷◌, ◌++◌, inl, inr, leb,
  nat_eq, if◌then◌else◌, Bool-cases, length, length-append, arith,
}
use daggle.Go.Text.{Text, has_char}
use daggle.Executor.Drain.{
  newline, Why, full, found, ended, Slice, slice_cons, read_slice, take_bytes, add_chunk,
}

take_all : (n : ℕ) (s : Text) → leb (length s) n ≡ true → take_bytes n s ≡ s
take_all zero [] h = refl
take_all zero (c ∷ s) h = ground (arith, h)
take_all (suc n) [] h = refl
take_all (suc n) (c ∷ s) h = ap (λ t. c ∷ t) (take_all n s (ground (arith, h)))

zero_plus : (n : ℕ) → 0 + n ≡ n
zero_plus n = omega arith

suc_minus : (a b : ℕ) → suc a - suc b ≡ a - b
suc_minus a b = omega arith

pub minus_zero : (n : ℕ) → n - 0 ≡ n
minus_zero n = omega arith

pub zero_minus : (n : ℕ) → 0 - n ≡ 0
zero_minus n = omega arith

add_chunk-cons :
    (max : ℕ) (c dropped : ℕ) (line chunk : Text)
    → add_chunk (suc max) (c ∷ line, dropped) chunk
      ≡ (c ∷ (add_chunk max (line, dropped) chunk).0, (add_chunk max (line, dropped) chunk).1)
unfolding add_chunk
add_chunk-cons max c dropped line chunk =
    elim (Bool-cases (leb (length chunk) (max - length line))) [
      | inl fits ↦ rw (suc_minus max (length line), fits) refl
      | inr more ↦ rw (suc_minus max (length line), more) refl
    ]

-- The first chunk of a line, and a chunk of which nothing is kept.
add_chunk-first :
    (max : ℕ) (chunk : Text)
    → add_chunk max ([], 0) chunk ≡ (take_bytes max chunk, length chunk - max)
unfolding add_chunk
add_chunk-first max chunk = elim (Bool-cases (leb (length chunk) max)) [
  | inl fits ↦
      let none_over : length chunk - max ≡ 0 = ground (arith, fits) in
      rw (minus_zero max, fits, take_all max chunk fits, none_over) refl
  | inr more ↦ rw (minus_zero max, more, zero_plus (length chunk - max)) refl
]

add_chunk-none :
    (dropped : ℕ) (chunk : Text) → add_chunk 0 ([], dropped) chunk ≡ ([], dropped + length chunk)
unfolding add_chunk
add_chunk-none dropped [] = ground arith
add_chunk-none dropped (c ∷ chunk) = ground arith

pub add_chunk-take_bytes :
    (max : ℕ) (acc chunk : Text)
    → add_chunk max (take_bytes max acc, length acc - max) chunk
      ≡ (take_bytes max (acc ++ chunk), length (acc ++ chunk) - max)
add_chunk-take_bytes zero acc chunk =
    add_chunk-none (length acc - 0) chunk
    ∙ ap (λ n. ([], n)) (omega (arith, length-append acc chunk))
add_chunk-take_bytes (suc max) [] chunk =
    rw (zero_minus (suc max)) (add_chunk-first (suc max) chunk)
add_chunk-take_bytes (suc max) (c ∷ acc) chunk =
    rw
      (
        suc_minus (length acc) max,
        suc_minus (length (acc ++ chunk)) max,
        add_chunk-cons max c (length acc - max) (take_bytes max acc) chunk,
        add_chunk-take_bytes max acc chunk,
      )
      refl

-- What ReadSlice returns, by the reason why.
abbrev pub IsCut : Text → Slice → Type 0
IsCut input s = (input ≡ s.chunk ++ s.rest) × elim s.why [
  | full ↦ (has_char newline s.chunk ≡ false)
  | found ↦ (line : Text) × (s.chunk ≡ line ++ newline ∷ []) × (has_char newline line ≡ false)
  | ended ↦ (has_char newline s.chunk ≡ false) × (s.rest ≡ [])
]

slice_cons-IsCut :
    (c : ℕ) (input chunk rest : Text) (why : Why)
    → nat_eq c newline ≡ false
    → IsCut input (record { chunk = chunk; why = why; rest = rest })
    → IsCut (c ∷ input) (record { chunk = c ∷ chunk; why = why; rest = rest })
slice_cons-IsCut c input chunk rest full h k = (ap (λ t. c ∷ t) k.0, ground (arith, h, k.1))
slice_cons-IsCut c input chunk rest found h k =
    let (line, same, plain) = k.1 in
    (ap (λ t. c ∷ t) k.0, (c ∷ line, ap (λ t. c ∷ t) same, ground (arith, h, plain)))
slice_cons-IsCut c input chunk rest ended h k =
    (ap (λ t. c ∷ t) k.0, (ground (arith, h, k.1.0), k.1.1))

eq_of_nat_eq : (a b : ℕ) → nat_eq a b ≡ true → a ≡ b
eq_of_nat_eq a b h = ground (arith, h)

choose_slice-IsCut :
    (c : ℕ) (input : Text) (s : Slice) (b : Bool)
    → nat_eq c newline ≡ b
    → IsCut input s
    → IsCut
        (c ∷ input)
        (if b then record { chunk = c ∷ []; why = found; rest = input } else slice_cons c s)
choose_slice-IsCut c input s true h k =
    (refl, ([], ap (λ (d : ℕ). d ∷ []) (eq_of_nat_eq c newline h), refl))
choose_slice-IsCut c input s false h k = slice_cons-IsCut c input s.chunk s.rest s.why h k

pub read_slice-IsCut : (size : ℕ) (input : Text) → IsCut input (read_slice size input)
unfolding read_slice
read_slice-IsCut zero input = (refl, refl)
read_slice-IsCut (suc size) [] = (refl, (refl, refl))
read_slice-IsCut (suc size) (c ∷ input) =
    choose_slice-IsCut c input (read_slice size input) (nat_eq c newline) refl
      (read_slice-IsCut size input)

-- A read makes progress.
pub read_slice-chunk :
    (size : ℕ) (c : ℕ) (input : Text)
    → length (read_slice (suc size) (c ∷ input)).rest < suc (length input)
unfolding read_slice
read_slice-chunk size c input =
    let s = read_slice-IsCut size input in
    let parts : length input
        ≡ length (read_slice size input).chunk + length (read_slice size input).rest =
      ap length s.0 ∙ length-append (read_slice size input).chunk (read_slice size input).rest in
    elim (Bool-cases (nat_eq c newline)) [
      | inl last ↦ rw last (omega arith)
      | inr other ↦ rw other (omega (arith, parts))
    ]
