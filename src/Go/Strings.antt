-- ===== src/Go/Strings.antt =====
-- `strings`, on native texts: what the program calls to build new texts.
use Prim.Native.Char.{Char, code}
use Prim.Native.String.{compare}
use Prim.Native.Nat.{Ordering}
use daggle.Prelude.{
  ℕ, zero, suc, String, Bool, true, false, List, [], ◌∷◌, Option, none, some, ◌≡◌, refl,
  if◌then◌else◌, nat_eq, ◌==◌, ◌||◌,
}

-- a + b
abbrev pub text_append : String → String → String
text_append String.[] t = t
text_append (String.◌∷◌ c s) t = String.◌∷◌ c (text_append s t)

-- strings.Join
abbrev pub join : String → List String → String
join sep [] = ""
join sep (x ∷ []) = x
join sep (x ∷ y ∷ xs) = text_append x (text_append sep (join sep (y ∷ xs)))

-- a < b
abbrev pub text_less : String → String → Bool
text_less a b = elim (compare a b) [ Ordering.lt ↦ true | _ ↦ false ]

-- The character that stands in the second text where `x` stands in the first.
abbrev partner : String → String → Char → Char
partner String.[] ds x = x
partner (String.◌∷◌ c cs) String.[] x = x
partner (String.◌∷◌ c cs) (String.◌∷◌ d ds) x =
    let rest = partner cs ds x in if nat_eq (code c) (code x) then d else rest

abbrev pub map_text : (Char → Char) → String → String
map_text f String.[] = ""
map_text f (String.◌∷◌ c s) = String.◌∷◌ (f c) (map_text f s)

-- strings.ToUpper, on ASCII
unfoldable pub to_upper : String → String
to_upper s = map_text (partner "abcdefghijklmnopqrstuvwxyz" "ABCDEFGHIJKLMNOPQRSTUVWXYZ") s

-- The text behind a prefix.
abbrev pub cut_prefix : String → String → Option String
cut_prefix String.[] s = some s
cut_prefix (String.◌∷◌ p ps) String.[] = none
cut_prefix (String.◌∷◌ p ps) (String.◌∷◌ c s) =
    let rest = cut_prefix ps s in if nat_eq (code p) (code c) then rest else none

-- A replacement: the old text, the new one.
pub record Pair : Type 0 where
  pub old : String
  pub new : String

-- The first pair, in the order of the arguments, whose old text begins here.
abbrev pub match_here : List Pair → String → Option (String × String)
match_here [] s = none
match_here (p ∷ pairs) s =
    let rest = match_here pairs s in
    elim (cut_prefix p.old s) [ some tail ↦ some (p.new, tail) | none ↦ rest ]

-- One step of `strings.NewReplacer(pairs...).Replace(s)`; the old texts are not empty, so that the
-- length of the text is enough fuel.
abbrev pub replace_next : Char → String → (String → String) → Option (String × String) → String
replace_next c s continue none = String.◌∷◌ c (continue s)
replace_next c s continue (some (new, tail)) = text_append new (continue tail)

abbrev pub size : String → ℕ
size String.[] = 0
size (String.◌∷◌ c s) = suc (size s)

unfoldable pub replace_loop : ℕ → List Pair → String → String
replace_loop fuel pairs String.[] = ""
replace_loop zero pairs (String.◌∷◌ c s) = ""
replace_loop (suc fuel) pairs (String.◌∷◌ c s) =
    replace_next c s (replace_loop fuel pairs) (match_here pairs (String.◌∷◌ c s))

unfoldable pub replace : List Pair → String → String
unfolding replace_loop
replace pairs s = replace_loop (size s) pairs s

replaced :
    replace
      (record { old = "{{ .a }}"; new = "1" } ∷ record { old = "b"; new = "22" } ∷ [])
      "x{{ .a }}b"
    ≡ "x122"
unfolding replace
replaced = refl

-- strings.HasSuffix
abbrev pub has_suffix : String → String → Bool
has_suffix String.[] t = t == ""
has_suffix (String.◌∷◌ c s) t = String.◌∷◌ c s == t || has_suffix s t
