-- ===== src/Executor/Detail/Trimmed.antt =====
-- Texts that are trimmed, and the first line of one.
use daggle.Prelude.{
  ℕ, ◌≡◌, refl, ap, sym, ◌∙◌, ◌++◌, Bool, true, false, ◌&&◌, ◌||◌, List, [], ◌∷◌, nat_eq,
  Bool-cases, ◌⊎◌, inl, inr, arith,
}
use daggle.Go.Text.{Text, split}
use daggle.Go.Bytes.{is_ascii_space, is_wide_space, is_long_space, is_blank, trim_start, trim_end}
use daggle.Executor.Detail.{newline}

-- A text that begins with a space.
abbrev pub leading : Text → Bool
leading [] = false
leading (c ∷ []) = is_ascii_space c
leading (c ∷ d ∷ []) = is_ascii_space c || is_wide_space c d
leading (c ∷ d ∷ e ∷ s) = is_ascii_space c || (is_wide_space c d || is_long_space c d e)

-- The kinds of spaces exclude each other.
wide-narrow : (c d : ℕ) → is_ascii_space c ≡ true → is_wide_space c d ≡ false
wide-narrow c d h = ground (arith, h)

long-narrow : (c d e : ℕ) → is_ascii_space c ≡ true → is_long_space c d e ≡ false
long-narrow c d e h = ground (arith, h)

long-wide : (c d e : ℕ) → is_wide_space c d ≡ true → is_long_space c d e ≡ false
long-wide c d e h = ground (arith, h)

-- A blank text has a first space and a blank rest.
blank_cases :
    (a x w y l z : Bool)
    → (a ≡ true → w ≡ false)
    → (a ≡ true → l ≡ false)
    → (w ≡ true → l ≡ false)
    → (a && x || (w && y || l && z)) ≡ true
    → ((a ≡ true) × (x ≡ true))
      ⊎ (((a ≡ false) × (w ≡ true) × (y ≡ true))
          ⊎ ((a ≡ false) × (w ≡ false) × (l ≡ true) × (z ≡ true)))
blank_cases true x w y l z aw al wl h = inl (refl, ground (arith, h, aw refl, al refl))
blank_cases false x true y l z aw al wl h = inr (inl (refl, refl, ground (arith, h, wl refl)))
blank_cases false x false y true z aw al wl h = inr (inr (refl, refl, refl, h))
blank_cases false x false y false z aw al wl h = cc

pub trim_start_blank : (s : Text) → is_blank s ≡ true → trim_start s ≡ []
trim_start_blank [] h = refl
trim_start_blank (c ∷ []) h = rw h refl
trim_start_blank (c ∷ d ∷ []) h = elim (Bool-cases (is_ascii_space c)) [
  | inl a ↦ rw a (trim_start_blank (d ∷ []) (ground (arith, h, a, wide-narrow c d)))
  | inr a ↦ let w : is_wide_space c d ≡ true = ground (arith, h, a) in rw (a, w) refl
]
trim_start_blank (c ∷ d ∷ e ∷ s) h =
    elim (blank_cases (is_ascii_space c) (is_blank (d ∷ e ∷ s)) (is_wide_space c d)
      (is_blank (e ∷ s)) (is_long_space c d e) (is_blank s) (wide-narrow c d) (long-narrow c d e)
      (long-wide c d e) h) [
        | inl (a, rest) ↦ rw a (trim_start_blank (d ∷ e ∷ s) rest)
        | inr (inl (a, w, rest)) ↦ rw (a, w) (trim_start_blank (e ∷ s) rest)
        | inr (inr (a, w, l, rest)) ↦ rw (a, w, l) (trim_start_blank s rest)
      ]

-- What the start of a text is: the kind of its first space, if it has one.
pub blank_of_trim_start : (s : Text) → trim_start s ≡ [] → is_blank s ≡ true
blank_of_trim_start [] h = refl
blank_of_trim_start (c ∷ []) h = elim (Bool-cases (is_ascii_space c)) [
  | inl a ↦ a
  | inr a ↦ cc (rw a at h)
]
blank_of_trim_start (c ∷ d ∷ []) h = elim (Bool-cases (is_ascii_space c)) [
  | inl a ↦ rw (a, blank_of_trim_start (d ∷ []) (rw a at h)) refl
  | inr a ↦ elim (Bool-cases (is_wide_space c d)) [
    | inl w ↦ rw (a, w) refl
    | inr w ↦ cc (rw (a, w) at h)
  ]
]
blank_of_trim_start (c ∷ d ∷ e ∷ s) h = elim (Bool-cases (is_ascii_space c)) [
  | inl a ↦ rw (a, blank_of_trim_start (d ∷ e ∷ s) (rw a at h)) refl
  | inr a ↦ elim (Bool-cases (is_wide_space c d)) [
    | inl w ↦ rw (a, w, blank_of_trim_start (e ∷ s) (rw (a, w) at h)) refl
    | inr w ↦ elim (Bool-cases (is_long_space c d e)) [
      | inl l ↦ rw (a, w, l, blank_of_trim_start s (rw (a, w, l) at h)) refl
      | inr l ↦ cc (rw (a, w, l) at h)
    ]
  ]
]

pub trim_start_fresh : (s : Text) → leading (trim_start s) ≡ false
trim_start_fresh [] = refl
trim_start_fresh (c ∷ []) = elim (Bool-cases (is_ascii_space c)) [
  | inl a ↦ rw a refl
  | inr a ↦ rw a a
]
trim_start_fresh (c ∷ d ∷ []) = elim (Bool-cases (is_ascii_space c)) [
  | inl a ↦ rw a (trim_start_fresh (d ∷ []))
  | inr a ↦ elim (Bool-cases (is_wide_space c d)) [
    | inl w ↦ rw (a, w) refl
    | inr w ↦ rw (a, w) (rw a w)
  ]
]
trim_start_fresh (c ∷ d ∷ e ∷ s) = elim (Bool-cases (is_ascii_space c)) [
  | inl a ↦ rw a (trim_start_fresh (d ∷ e ∷ s))
  | inr a ↦ elim (Bool-cases (is_wide_space c d)) [
    | inl w ↦ rw (a, w) (trim_start_fresh (e ∷ s))
    | inr w ↦ elim (Bool-cases (is_long_space c d e)) [
      | inl l ↦ rw (a, w, l) (trim_start_fresh s)
      | inr l ↦ rw (a, w, l) (rw (a, w) l)
    ]
  ]
]

-- No kind of space stands at the start of a text that begins with none.
no_space : (a w l : Bool) → (a || (w || l)) ≡ false → (a ≡ false) × (w ≡ false) × (l ≡ false)
no_space a w l h = (ground arith, ground arith, ground arith)

pub fresh_stays : (s : Text) → leading s ≡ false → trim_start s ≡ s
fresh_stays [] h = refl
fresh_stays (c ∷ []) h = rw h refl
fresh_stays (c ∷ d ∷ []) h =
    let (a, w, _) = no_space (is_ascii_space c) (is_wide_space c d) false (ground (arith, h)) in
    rw (a, w) refl
fresh_stays (c ∷ d ∷ e ∷ s) h =
    let (a, w, l) = no_space (is_ascii_space c) (is_wide_space c d) (is_long_space c d e) h in
    rw (a, w, l) refl

fresh_nonblank : (c : ℕ) (s : Text) → leading (c ∷ s) ≡ false → is_blank (c ∷ s) ≡ false
fresh_nonblank c [] h = h
fresh_nonblank c (d ∷ []) h =
    let (a, w, _) = no_space (is_ascii_space c) (is_wide_space c d) false (ground (arith, h)) in
    rw (a, w) refl
fresh_nonblank c (d ∷ e ∷ s) h =
    let (a, w, l) = no_space (is_ascii_space c) (is_wide_space c d) (is_long_space c d e) h in
    rw (a, w, l) refl

pub trim_end_fresh :
    (c : ℕ) (s : Text) → leading (c ∷ s) ≡ false → trim_end (c ∷ s) ≡ c ∷ trim_end s
trim_end_fresh c s h = rw (fresh_nonblank c s h) refl

-- A first part of a text that does not begin with a space does not begin with one.
leading_prefix : (p r : Text) → leading (p ++ r) ≡ false → leading p ≡ false
leading_prefix [] r h = refl
leading_prefix (c ∷ []) [] h = h
leading_prefix (c ∷ []) (d ∷ []) h = ground (arith, h)
leading_prefix (c ∷ []) (d ∷ e ∷ r) h = ground (arith, h)
leading_prefix (c ∷ d ∷ []) [] h = h
leading_prefix (c ∷ d ∷ []) (e ∷ r) h = ground (arith, h)
leading_prefix (c ∷ d ∷ e ∷ p) r h = h

trim_end-prefix : (s : Text) → (r : Text) × (s ≡ trim_end s ++ r)
trim_end-prefix [] = ([], refl)
trim_end-prefix (c ∷ s) = elim (Bool-cases (is_blank (c ∷ s))) [
  | inl blank ↦ (c ∷ s, rw blank refl)
  | inr full ↦ let (r, same) = trim_end-prefix s in (r, rw full (ap (λ (t : Text). c ∷ t) same))
]

pub fresh_end : (c : ℕ) (s : Text) → leading (c ∷ s) ≡ false → leading (c ∷ trim_end s) ≡ false
fresh_end c s h =
    let (r, same) = trim_end-prefix s in
    leading_prefix (c ∷ trim_end s) r (ap (λ (t : Text). leading (c ∷ t)) (sym same) ∙ h)

split-prefix :
    (s : Text)
    → (p : Text) × (ls : List Text) × (r : Text) × (split newline s ≡ p ∷ ls) × (s ≡ p ++ r)
split-prefix [] = ([], [], [], refl, refl)
split-prefix (c ∷ s) = elim (Bool-cases (nat_eq c newline)) [
  | inl last ↦ ([], split newline s, c ∷ s, rw last refl, refl)
  | inr other ↦
      let (p, ls, r, lines, same) = split-prefix s in
      (c ∷ p, ls, r, rw (other, lines) refl, ap (λ (t : Text). c ∷ t) same)
]

not_newline : (c : ℕ) → is_ascii_space c ≡ false → nat_eq c newline ≡ false
not_newline c h = ground (arith, h)

-- The first line of such a text begins as the text does.
pub fresh_first :
    (c : ℕ) (s : Text)
    → leading (c ∷ s) ≡ false
    → (p : Text) × (ls : List Text) × (split newline (c ∷ s) ≡ (c ∷ p) ∷ ls)
      × (leading (c ∷ p) ≡ false)
fresh_first c s h =
    let other = not_newline c (leading_prefix (c ∷ []) s h) in
    let (p, ls, r, lines, same) = split-prefix s in
    (
      p,
      ls,
      rw (other, lines) refl,
      leading_prefix (c ∷ p) r (ap (λ (t : Text). leading (c ∷ t)) (sym same) ∙ h),
    )
