-- ===== src/Executor/Markers/Printed.antt =====
-- Which lines are output markers.
use daggle.Prelude.{
  ℕ, ◌≡◌, ◌↔◌, refl, sym, ap, ◌∙◌, subst, Bool, true, false, ◌&&◌, [], ◌∷◌, ◌++◌, Option, none,
  some, if◌then◌else◌, arith,
}
use daggle.Go.Text.{Text, codes, has_char}
use daggle.Executor.Markers.{
  newline, is_name_start, is_name_char, strip_prefix, add_front, span, with_value, value_after,
  name_value, after_prefix, output_marker,
}

abbrev pub all_chars : (ℕ → Bool) → Text → Bool
all_chars p [] = true
all_chars p (c ∷ s) = p c && all_chars p s

abbrev pub is_name : Text → Bool
is_name [] = false
is_name (c ∷ s) = is_name_start c && all_chars is_name_char s

-- The marker that sets an output.
abbrev pub print_output : Text → Text → Text
print_output k v = codes "::daggle-output name=" ++ (k ++ (codes "::" ++ v))

strip_prefix-append : (p s : Text) → strip_prefix p (p ++ s) ≡ some s
strip_prefix-append [] s = refl
strip_prefix-append (c ∷ p) s = ground (arith, strip_prefix-append p s)

strip_prefix-some : (p s r : Text) → strip_prefix p s ≡ some r → s ≡ p ++ r
strip_prefix-some [] s r h = cc
strip_prefix-some (c ∷ p) [] r h = cc
strip_prefix-some (c ∷ p) (d ∷ s) r h = ground (arith, h, strip_prefix-some p s r)

span-append :
    (p : ℕ → Bool) (k rest : Text) (c : ℕ)
    → all_chars p k ≡ true
    → p c ≡ false
    → span p (k ++ (c ∷ rest)) ≡ (k, c ∷ rest)
span-append p [] rest c h stop = rw stop refl
span-append p (d ∷ k) rest c h stop =
    let here : p d ≡ true = ground (arith, h) in
    rw (here, span-append p k rest c (ground (arith, h)) stop) refl

-- A text is what `span` cuts it into, and the first part has the class.
abbrev AreParts : (ℕ → Bool) → Text → Text × Text → Type 0
AreParts p s cut = (cut.0 ++ cut.1 ≡ s) × (all_chars p cut.0 ≡ true)

span_step :
    (p : ℕ → Bool) (c : ℕ) (s : Text) (b : Bool)
    → p c ≡ b
    → AreParts p s (span p s)
    → AreParts p (c ∷ s) (if b then add_front c (span p s) else ([], c ∷ s))
span_step p c s true h k = (ap (λ (t : Text). c ∷ t) k.0, rw (h, k.1) refl)
span_step p c s false h k = (refl, refl)

span-AreParts : (p : ℕ → Bool) (s : Text) → AreParts p s (span p s)
span-AreParts p [] = (refl, refl)
span-AreParts p (c ∷ s) = span_step p c s (p c) refl (span-AreParts p s)

after_prefix-some :
    {A : Type 0} (f : Text → Option A) (o : Option Text) (x : A)
    → after_prefix f o ≡ some x
    → (rest : Text) × (o ≡ some rest) × (f rest ≡ some x)
after_prefix-some f none x h = cc
after_prefix-some f (some rest) x h = (rest, refl, h)

value_kept :
    (b : Bool) (name value k v : Text)
    → has_char newline value ≡ b
    → if◌then◌else◌ {A = Option (Text × Text)} b none (some (name, value)) ≡ some (k, v)
    → (name ≡ k) × (value ≡ v) × (has_char newline v ≡ false)
value_kept true name value k v h e = cc
value_kept false name value k v h e =
    let same : value ≡ v = cc in (cc, same, subst (λ t. has_char newline t ≡ false) same h)

with_value-some :
    (name : Text) (o : Option Text) (k v : Text)
    → with_value name o ≡ some (k, v)
    → (name ≡ k) × (o ≡ some v) × (has_char newline v ≡ false)
with_value-some name none k v h = cc
with_value-some name (some value) k v h =
    let kept = value_kept (has_char newline value) name value k v refl h in
    (kept.0, ap some kept.1, kept.2)

name_value_kept :
    (b : Bool) (c : ℕ) (s k v : Text)
    → is_name_start c ≡ b
    → (if b then value_after (add_front c (span is_name_char s)) else none) ≡ some (k, v)
    → (is_name k ≡ true) × (has_char newline v ≡ false) × (c ∷ s ≡ k ++ (codes "::" ++ v))
name_value_kept false c s k v h e = cc
name_value_kept true c s k v h e =
    let cut = span is_name_char s in
    let parts = span-AreParts is_name_char s in
    let (same, after, plain) =
      with_value-some (c ∷ cut.0) (strip_prefix (codes "::") cut.1) k v e in
    let rest = strip_prefix-some (codes "::") cut.1 v after in
    (
      subst (λ t. is_name t ≡ true) same (rw (h, parts.1) refl),
      plain,
      ap (λ (t : Text). c ∷ t) (sym parts.0)
          ∙ ap (λ (t : Text). c ∷ (cut.0 ++ t)) rest
          ∙ ap (λ (t : Text). t ++ (codes "::" ++ v)) same,
    )

name_value-some :
    (s k v : Text)
    → name_value s ≡ some (k, v)
    → (is_name k ≡ true) × (has_char newline v ≡ false) × (s ≡ k ++ (codes "::" ++ v))
name_value-some [] k v e = cc
name_value-some (c ∷ s) k v e = name_value_kept (is_name_start c) c s k v refl e

name_value-append :
    (k v : Text)
    → is_name k ≡ true
    → has_char newline v ≡ false
    → name_value (k ++ (codes "::" ++ v)) ≡ some (k, v)
name_value-append [] v h plain = cc
name_value-append (c ∷ k) v h plain =
    let start : is_name_start c ≡ true = ground (arith, h) in
    let chars : all_chars is_name_char k ≡ true = ground (arith, h) in
    rw (start, span-append is_name_char k (b':' ∷ v) b':' chars refl, plain) refl

-- A line is a marker of the output `k` with the value `v` exactly when it is printed as the marker of
-- a name and a value without a newline.
pub output_marker-print_output_iff :
    (line k v : Text)
    → (output_marker line ≡ some (k, v))
      ↔ ((is_name k ≡ true) × (has_char newline v ≡ false) × (line ≡ print_output k v))
unfolding output_marker
output_marker-print_output_iff line k v = (
  λ h.
      let intro = codes "::daggle-output name=" in
      let (rest, stripped, found) =
        after_prefix-some name_value (strip_prefix intro line) (k, v) h in
      let (name, plain, same) = name_value-some rest k v found in
      (
        name,
        plain,
        strip_prefix-some intro line rest stripped ∙ ap (λ (t : Text). intro ++ t) same,
      ),
  λ h.
      ap (λ (t : Text). after_prefix name_value (strip_prefix (codes "::daggle-output name=") t))
        h.2
      ∙ ap (after_prefix name_value)
          (strip_prefix-append (codes "::daggle-output name=") (k ++ (codes "::" ++ v)))
      ∙ name_value-append k v h.0 h.1,
)
