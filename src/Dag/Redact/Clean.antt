-- ===== src/Dag/Redact/Clean.antt =====
-- No secret is left in a redacted text.
use daggle.Prelude.{
  ℕ, zero, suc, ◌-◌, String, ◌≡◌, refl, inl, inr, Bool, true, false, ◌||◌, List, [], ◌∷◌, none,
  some, ◌==◌, eq_iff, length, arith, nat_eq, and-true, subst, sym, Bool-cases, contains,
  contains-append,
}
use daggle.Go.Text.{Text, codes, is_empty, has_prefix, has_char}
use daggle.Dag.Model.{Assoc, EnvVar, EnvMap}
use daggle.Dag.Redact.{star, replace_from, redact, secrets_in, new_redactor}

-- The text `q` stands somewhere in a text.
abbrev pub occurs : Text → Text → Bool
occurs q [] = has_prefix [] q
occurs q (c ∷ s) = has_prefix (c ∷ s) q || occurs q s

-- A text with a star in front does not begin with a text that has none.
star-has_prefix :
    (q s : Text) → is_empty q ≡ false → has_char star q ≡ false → has_prefix (star ∷ s) q ≡ false
star-has_prefix [] s e h = absurd (ground arith)
star-has_prefix (c ∷ q) s e h = ground (arith, h)

star-occurs :
    (q s : Text)
    → is_empty q ≡ false
    → has_char star q ≡ false
    → occurs q s ≡ false
    → occurs q (star ∷ s) ≡ false
star-occurs q s e h n = ground (arith, n, star-has_prefix q s e h)

-- What a redacted text begins with, the text began with.
replace_from-has_prefix :
    (old q s : Text)
    → has_char star q ≡ false
    → has_prefix (replace_from old 0 s) q ≡ true
    → has_prefix s q ≡ true
unfolding replace_from
replace_from-has_prefix old [] s h p = refl
replace_from-has_prefix old (x ∷ q) [] h p = p
replace_from-has_prefix old (x ∷ q) (c ∷ s) h p = elim (Bool-cases (has_prefix (c ∷ s) old)) [
  | inl b ↦ absurd (
      ground (
        arith,
        rw b at p,
        star-has_prefix (x ∷ q) (star ∷ star ∷ replace_from old (length old - 1) s) refl h,
      ))
  | inr b ↦
      let (here, rest) = and-true (nat_eq c x) (has_prefix (replace_from old 0 s) q) (rw b at p) in
      ground (arith, here, replace_from-has_prefix old q s (ground (arith, h)) rest)
]

-- A text that did not occur does not occur afterwards.
replace_from-occurs :
    (old q : Text) (skip : ℕ) (s : Text)
    → is_empty q ≡ false
    → has_char star q ≡ false
    → occurs q s ≡ false
    → occurs q (replace_from old skip s) ≡ false
unfolding replace_from
replace_from-occurs old q skip [] e h n = n
replace_from-occurs old q (suc skip) (c ∷ s) e h n =
    replace_from-occurs old q skip s e h (ground (arith, n))
replace_from-occurs old q zero (c ∷ s) e h n = elim (Bool-cases (has_prefix (c ∷ s) old)) [
  | inl b ↦ rw b (
      star-occurs q _ e h (
        star-occurs q _ e h (
          star-occurs q _ e h
            (replace_from-occurs old q (length old - 1) s e h (ground (arith, n))))))
  | inr b ↦
      let rest = replace_from-occurs old q 0 s e h (ground (arith, n)) in
      elim (Bool-cases (has_prefix (replace_from old 0 (c ∷ s)) q)) [
        | inl p ↦
            let before = replace_from-has_prefix old q (c ∷ s) h p in
            absurd (ground (arith, n, before))
        | inr p ↦
            let here : has_prefix (c ∷ replace_from old 0 s) q ≡ false = rw b at p in
            rw b (ground (arith, here, rest))
      ]
]

-- The text that is replaced does not occur afterwards.
replace_from-gone :
    (old : Text) (skip : ℕ) (s : Text)
    → is_empty old ≡ false
    → has_char star old ≡ false
    → occurs old (replace_from old skip s) ≡ false
unfolding replace_from
replace_from-gone [] skip [] e h = absurd (ground (arith, e))
replace_from-gone (x ∷ old) skip [] e h = refl
replace_from-gone old (suc skip) (c ∷ s) e h = replace_from-gone old skip s e h
replace_from-gone old zero (c ∷ s) e h = elim (Bool-cases (has_prefix (c ∷ s) old)) [
  | inl b ↦ rw b (
      star-occurs old _ e h (
        star-occurs old _ e h
          (star-occurs old _ e h (replace_from-gone old (length old - 1) s e h))))
  | inr b ↦
      let rest = replace_from-gone old 0 s e h in
      elim (Bool-cases (has_prefix (replace_from old 0 (c ∷ s)) old)) [
        | inl p ↦
            let before = replace_from-has_prefix old old (c ∷ s) h p in
            absurd (ground (arith, b, before))
        | inr p ↦
            let here : has_prefix (c ∷ replace_from old 0 s) old ≡ false = rw b at p in
            rw b (ground (arith, here, rest))
      ]
]

redact-occurs :
    (secrets : List String) (q s : Text)
    → is_empty q ≡ false
    → has_char star q ≡ false
    → occurs q s ≡ false
    → occurs q (redact secrets s) ≡ false
unfolding redact
redact-occurs [] q s e h n = n
redact-occurs (x ∷ secrets) q s e h n =
    redact-occurs secrets q (replace_from (codes x) 0 s) e h
      (replace_from-occurs (codes x) q 0 s e h n)

redact-clean :
    (secrets : List String) (secret : String) (s : Text)
    → contains secrets secret ≡ true
    → is_empty (codes secret) ≡ false
    → has_char star (codes secret) ≡ false
    → occurs (codes secret) (redact secrets s) ≡ false
unfolding redact
redact-clean [] secret s m e h = absurd (ground (arith, m))
redact-clean (x ∷ secrets) secret s m e h = elim (Bool-cases (x == secret)) [
  | inl b ↦ redact-occurs secrets (codes secret) (replace_from (codes x) 0 s) e h (
      subst (λ y. occurs (codes secret) (replace_from (codes y) 0 s) ≡ false)
        (sym ((eq_iff x secret).0 b)) (replace_from-gone (codes secret) 0 s e h))
  | inr b ↦ redact-clean secrets secret (replace_from (codes x) 0 s) (ground (arith, m, b)) e h
]

-- The secrets of a redactor are not empty.
secrets_in-empty : (m : Assoc EnvVar) → contains (secrets_in m) "" ≡ false
secrets_in-empty [] = refl
secrets_in-empty ((k, v) ∷ m) = ground (arith, secrets_in-empty m, eq_iff v.value "")

new_redactor-empty : (maps : List EnvMap) → contains (new_redactor maps) "" ≡ false
unfolding new_redactor
new_redactor-empty [] = refl
new_redactor-empty (none ∷ maps) = new_redactor-empty maps
new_redactor-empty (some m ∷ maps) = ground (
  arith,
  contains-append (secrets_in m) (new_redactor maps) "",
  secrets_in-empty m,
  new_redactor-empty maps,
)

codes-empty : (s : String) → is_empty (codes s) ≡ true → s ≡ ""
codes-empty String.[] h = refl
codes-empty (String.◌∷◌ c s) h = absurd (ground (arith, h))

-- In a text that a redactor has masked, none of its secrets occurs, whatever else the redactor
-- replaces, if the secret contains no star.
pub redact-occurs_secret :
    (maps : List EnvMap) (secret : String) (s : Text)
    → contains (new_redactor maps) secret ≡ true
    → has_char star (codes secret) ≡ false
    → occurs (codes secret) (redact (new_redactor maps) s) ≡ false
redact-occurs_secret maps secret s m h = elim (Bool-cases (is_empty (codes secret))) [
  | inl e ↦ absurd (
      ground (
        arith,
        new_redactor-empty maps,
        subst (λ y. contains (new_redactor maps) y ≡ true) (codes-empty secret e) m,
      ))
  | inr e ↦ redact-clean (new_redactor maps) secret s m e h
]
