-- ===== src/Go/Text.antt =====
-- `strings`, `path/filepath` and `fmt.Sscanf`, as far as the program calls them. A text is the list
-- of its code points here; for the ASCII tests below this is the same as its bytes.
use Prim.Native.Char.{code}
use daggle.Prelude.{
  ℕ, zero, suc, ◌+◌, ◌-◌, ◌*◌, String, Bool, true, false, ◌&&◌, ◌||◌, not, List, [], ◌∷◌, Option,
  none, some, leb, nat_eq, if◌then◌else◌,
}
use daggle.Prelude.Int.{ℤ, pos, negsuc}

abbrev pub Text : Type 0
Text = List ℕ

abbrev pub codes : String → Text
codes String.[] = []
codes (String.◌∷◌ c s) = code c ∷ codes s

abbrev pub is_empty : Text → Bool
is_empty [] = true
is_empty (c ∷ s) = false

abbrev pub text_eq : Text → Text → Bool
text_eq [] [] = true
text_eq [] (d ∷ t) = false
text_eq (c ∷ s) [] = false
text_eq (c ∷ s) (d ∷ t) = nat_eq c d && text_eq s t

abbrev pub is_digit : ℕ → Bool
is_digit c = leb b'0' c && leb c b'9'

abbrev pub is_letter : ℕ → Bool
is_letter c = leb b'a' c && leb c b'z' || leb b'A' c && leb c b'Z'

-- unicode.IsSpace
abbrev pub is_space : ℕ → Bool
is_space c =
    leb 9 c && leb c 13
    || nat_eq c 32
    || nat_eq c 0x85
    || nat_eq c 0xA0
    || nat_eq c 0x1680
    || leb 0x2000 c && leb c 0x200A
    || nat_eq c 0x2028
    || nat_eq c 0x2029
    || nat_eq c 0x202F
    || nat_eq c 0x205F
    || nat_eq c 0x3000

-- strings.Contains(s, string(c))
abbrev pub has_char : ℕ → Text → Bool
has_char c [] = false
has_char c (d ∷ s) = nat_eq d c || has_char c s

-- strings.HasPrefix
abbrev pub has_prefix : Text → Text → Bool
has_prefix s [] = true
has_prefix [] (p ∷ ps) = false
has_prefix (c ∷ s) (p ∷ ps) = nat_eq c p && has_prefix s ps

abbrev pub drop : ℕ → Text → Text
drop zero s = s
drop (suc n) [] = []
drop (suc n) (c ∷ s) = drop n s

abbrev pub trim_left : Text → Text
trim_left [] = []
trim_left (c ∷ s) = let rest = trim_left s in if is_space c then rest else c ∷ s

abbrev pub trim_right : Text → Text
trim_right [] = []
trim_right (c ∷ s) = let rest = trim_right s in if is_empty rest && is_space c then [] else c ∷ rest

-- strings.TrimSpace
abbrev pub trim_space : Text → Text
trim_space s = trim_right (trim_left s)

-- strings.Split(s, string(c)): at least one part
abbrev pub add_char : ℕ → List Text → List Text
add_char c [] = (c ∷ []) ∷ []
add_char c (p ∷ ps) = (c ∷ p) ∷ ps

abbrev pub split : ℕ → Text → List Text
split sep [] = [] ∷ []
split sep (c ∷ s) = let rest = split sep s in if nat_eq c sep then [] ∷ rest else add_char c rest

abbrev pub to_lower : Text → Text
to_lower [] = []
to_lower (c ∷ s) = (if leb b'A' c && leb c b'Z' then c + 32 else c) ∷ to_lower s

-- filepath.Ext: from the last dot of the last path element; `none` while no dot is seen.
abbrev pub ext_from : Text → Option Text
ext_from [] = none
ext_from (c ∷ s) =
    let rest = ext_from s in
    elim rest [
      | some e ↦ some e
      | none ↦ if nat_eq c b'.' && not (has_char b'/' s) then some (c ∷ s) else none
    ]

abbrev pub ext : Text → Text
ext s = elim (ext_from s) [ none ↦ [] | some e ↦ e ]

-- filepath.IsAbs on Unix
abbrev pub is_abs : Text → Bool
is_abs s = has_prefix s (b'/' ∷ [])

-- The value of a run of digits from `v`, and what follows it.
abbrev pub digits_from : ℕ → Text → ℕ × Text
digits_from v [] = (v, [])
digits_from v (c ∷ s) =
    let rest = digits_from (v * 10 + (c - b'0')) s in if is_digit c then rest else (v, c ∷ s)

-- One `%d` of `fmt.Sscanf`: blanks, a sign, and at least one digit.
abbrev pub natural : Text → Option (ℕ × Text)
natural [] = none
natural (c ∷ s) = if is_digit c then some (digits_from 0 (c ∷ s)) else none

abbrev pub negate : ℕ → ℤ
negate zero = pos 0
negate (suc n) = negsuc n

abbrev pub scan_signed : Text → Option (ℤ × Text)
scan_signed [] = none
scan_signed (c ∷ s) =
    if nat_eq c b'-'
    then elim (natural s) [ none ↦ none | some (n, r) ↦ some (negate n, r) ]
    else elim (natural (if nat_eq c b'+' then s else c ∷ s)) [
      | none ↦ none
      | some (n, r) ↦ some (pos n, r)
    ]

unfoldable pub scan_int : Text → Option (ℤ × Text)
scan_int s = scan_signed (trim_left s)
