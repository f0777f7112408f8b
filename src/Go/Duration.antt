-- ===== src/Go/Duration.antt =====
-- time.ParseDuration, to nanoseconds in an int64. The fraction of a unit is computed exactly here;
-- Go computes it in floating point, which may differ by a nanosecond.
use daggle.Prelude.{
  ℕ, zero, suc, ◌+◌, ◌-◌, ◌*◌, ◌/◌, ◌^◌, String, Bool, true, false, ◌||◌, not, [], ◌∷◌, Option,
  none, some, leb, ltb, nat_eq, if◌then◌else◌, length,
}
use daggle.Prelude.Int.{ℤ, pos, negsuc}
use daggle.Prelude.{◌≡◌, refl}
use daggle.Go.Text.{Text, codes, is_empty, is_digit, digits_from, text_eq, negate}

infixl 5 ◌>>=◌ ◌>>◌
abbrev ◌>>=◌ : {A B : Type 0} → Option A → (A → Option B) → Option B
none >>= f = none
some a >>= f = f a

abbrev ◌>>◌ : {B : Type 0} → Option (Unit {0}) → Option B → Option B
m >> k = m >>= λ _. k

abbrev guard : Bool → Option (Unit {0})
guard true = some tt
guard false = none

-- 1 << 63
abbrev two63 : ℕ
two63 = 2 ^ 63

-- `unitMap`
unit_of : Text → Option ℕ
unit_of u =
    if text_eq u (codes "ns")
    then some 1
    else if text_eq u (codes "us") || text_eq u (codes "µs") || text_eq u (codes "μs")
    then some 1000
    else if text_eq u (codes "ms")
    then some 1_000_000
    else if text_eq u (codes "s")
    then some 1_000_000_000
    else if text_eq u (codes "m")
    then some 60_000_000_000
    else if text_eq u (codes "h")
    then some 3_600_000_000_000
    else none

-- The characters up to a dot or a digit, and the rest.
span_unit : Text → Text × Text
span_unit [] = ([], [])
span_unit (c ∷ s) =
    let (u, rest) = span_unit s in
    if nat_eq c b'.' || is_digit c then ([], c ∷ s) else (c ∷ u, rest)

-- A fraction behind a dot: its digits as a number, 10 to their count, and the rest.
fraction : Text → ℕ × ℕ × Text
fraction [] = (0, 1, [])
fraction (c ∷ s) =
    if nat_eq c b'.'
    then (let (f, rest) = digits_from 0 s in (f, 10 ^ (length s - length rest), rest))
    else (0, 1, c ∷ s)

-- One number with its unit: its nanoseconds, and the rest.
component : Text → Option (ℕ × Text)
unfolding unit_of span_unit fraction
component s = do
  let (v, s1) = digits_from 0 s
  let pre = ltb (length s1) (length s)
  guard (leb v two63)
  let (f, scale, s2) = fraction s1
  let post = ltb (length s2 + 1) (length s1)
  guard (pre || post)
  let (u, s3) = span_unit s2
  guard (not (is_empty u))
  unit ← unit_of u
  guard (leb v (two63 / unit))
  let ns = v * unit + f * unit / scale
  guard (leb ns two63)
  some (ns, s3)

-- Each component takes at least one character, so the length of the text is enough fuel.
components : ℕ → ℕ → Text → Option ℕ
unfolding component
components fuel d [] = some d
components zero d (c ∷ s) = none
components (suc fuel) d (c ∷ s) = do
  (ns, rest) ← component (c ∷ s)
  guard (leb (d + ns) two63)
  components fuel (d + ns) rest

unsigned : Text → Option ℕ
unfolding components
unsigned s =
    if text_eq s (codes "0") then some 0 else if is_empty s then none else components (length s) 0 s

parse_text : Text → Option ℤ
unfolding unsigned
parse_text [] = none
parse_text (c ∷ s) =
    if nat_eq c b'-'
    then (do d ← unsigned s; some (negate d))
    else (do d ← unsigned (if nat_eq c b'+' then s else c ∷ s); guard (ltb d two63); some (pos d))

-- time.ParseDuration: `none` is an error.
unfoldable pub parse_duration : String → Option ℤ
unfolding parse_text
parse_duration s = parse_text (codes s)

ninety_minutes : parse_duration "1h30m" ≡ some (pos 5_400_000_000_000)
unfolding parse_duration
ninety_minutes = refl

half_second : parse_duration "-1.5s" ≡ some (negsuc 1_499_999_999)
unfolding parse_duration
half_second = refl

no_unit : parse_duration "10" ≡ none
unfolding parse_duration
no_unit = refl
