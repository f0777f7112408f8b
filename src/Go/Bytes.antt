-- ===== src/Go/Bytes.antt =====
-- Texts as the list of their bytes in UTF-8, where a length counts.
use daggle.Prelude.{ℕ, zero, suc, Bool, true, ◌&&◌, ◌||◌, [], ◌∷◌, leb, nat_eq, if◌then◌else◌}
use daggle.Go.Text.{Text}

abbrev pub is_ascii_space : ℕ → Bool
is_ascii_space c = leb 9 c && leb c 13 || nat_eq c 32

-- unicode.IsSpace beyond ASCII: U+0085 and U+00A0
abbrev pub is_wide_space : ℕ → ℕ → Bool
is_wide_space c d = nat_eq c 0xC2 && (nat_eq d 0x85 || nat_eq d 0xA0)

-- U+2000 to U+200A, U+2028, U+2029, U+202F and U+205F, behind their first byte
abbrev pub is_general_space : ℕ → ℕ → Bool
is_general_space d e =
    nat_eq d 0x80 && (leb 0x80 e && leb e 0x8A || nat_eq e 0xA8 || nat_eq e 0xA9 || nat_eq e 0xAF)
    || nat_eq d 0x81 && nat_eq e 0x9F

-- These, U+1680 and U+3000
abbrev pub is_long_space : ℕ → ℕ → ℕ → Bool
is_long_space c d e =
    nat_eq c 0xE1 && (nat_eq d 0x9A && nat_eq e 0x80)
    || nat_eq c 0xE2 && is_general_space d e
    || nat_eq c 0xE3 && (nat_eq d 0x80 && nat_eq e 0x80)

abbrev pub is_blank : Text → Bool
is_blank [] = true
is_blank (c ∷ []) = is_ascii_space c
is_blank (c ∷ d ∷ []) = is_ascii_space c && is_ascii_space d || is_wide_space c d
is_blank (c ∷ d ∷ e ∷ s) =
    is_ascii_space c && is_blank (d ∷ e ∷ s)
    || (is_wide_space c d && is_blank (e ∷ s) || is_long_space c d e && is_blank s)

abbrev pub trim_start : Text → Text
trim_start [] = []
trim_start (c ∷ []) = if is_ascii_space c then [] else c ∷ []
trim_start (c ∷ d ∷ []) =
    let narrow = trim_start (d ∷ []) in
    if is_ascii_space c then narrow else if is_wide_space c d then [] else c ∷ d ∷ []
trim_start (c ∷ d ∷ e ∷ s) =
    let narrow = trim_start (d ∷ e ∷ s) in
    let wide = trim_start (e ∷ s) in
    let long = trim_start s in
    if is_ascii_space c
    then narrow
    else if is_wide_space c d
    then wide
    else if is_long_space c d e
    then long
    else c ∷ d ∷ e ∷ s

abbrev pub trim_end : Text → Text
trim_end [] = []
trim_end (c ∷ s) = let rest = trim_end s in if is_blank (c ∷ s) then [] else c ∷ rest

-- strings.TrimSpace
abbrev pub trim_bytes : Text → Text
trim_bytes s = trim_end (trim_start s)

-- s[:n]
abbrev pub first_bytes : ℕ → Text → Text
first_bytes zero s = []
first_bytes (suc n) [] = []
first_bytes (suc n) (c ∷ s) = c ∷ first_bytes n s
