-- ===== src/Go/TextLaws.antt =====
-- Texts that are compared, and their prefixes.
use daggle.Prelude.{ℕ, ◌≡◌, refl, ◌↔◌, true, ◌||◌, [], ◌∷◌, ◌++◌, length, arith}
use daggle.Go.Text.{Text, text_eq, has_char, has_prefix, drop}

pub text_eq_iff : (s t : Text) → (text_eq s t ≡ true) ↔ (s ≡ t)
text_eq_iff [] [] = (λ h. refl, λ h. refl)
text_eq_iff [] (d ∷ t) = (λ h. cc, λ h. cc)
text_eq_iff (c ∷ s) [] = (λ h. cc, λ h. cc)
text_eq_iff (c ∷ s) (d ∷ t) =
    let ih = text_eq_iff s t in (λ h. ground (arith, ih.0), λ h. ground (arith, ih.1))

pub has_prefix-append : (p s : Text) → has_prefix (p ++ s) p ≡ true
has_prefix-append [] [] = refl
has_prefix-append [] (c ∷ s) = refl
has_prefix-append (c ∷ p) s = ground (arith, has_prefix-append p s)

pub prefix-drop : (s p : Text) → has_prefix s p ≡ true → s ≡ p ++ drop (length p) s
prefix-drop s [] h = refl
prefix-drop [] (d ∷ p) h = cc
prefix-drop (c ∷ s) (d ∷ p) h = ground (arith, prefix-drop s p)

pub has_char-append : (c : ℕ) (p s : Text) → has_char c (p ++ s) ≡ (has_char c p || has_char c s)
has_char-append c [] s = refl
has_char-append c (d ∷ p) s = ground (arith, has_char-append c p s)
