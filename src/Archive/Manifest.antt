-- ===== src/Archive/Manifest.antt =====
-- The manifest of an archive: reading back the lines that `buildManifest` writes.
use daggle.Prelude.{
  ℕ, suc, ◌+◌, ◌*◌, ◌/◌, ◌%◌, ◌<◌, ◌≡◌, refl, sym, ap, ◌∙◌, Bool, true, false, not, ◌||◌, List, [],
  ◌∷◌, ◌++◌, map, ltb, nat_eq, if◌then◌else◌, length, length-append, arith, All,
}
use daggle.Go.Text.{Text, is_empty, has_char, drop}
use daggle.Go.TextLaws.{has_char-append}
use daggle.Go.Hex.{hex_encode, hex_digit, hex_decode-encode}
use daggle.Archive.{
  Sha, FileHash, Expected, ok, newline, build_manifest, scan_lines, strip_crlf, take, set,
  has_blanks, max_line, parse_line, parse_lines, parse_fields, parse_manifest, ◌>>=◌,
}

-- SHA-256 gives 32 bytes.
abbrev pub IsDigest : Sha → Type 0
IsDigest sha = (text : Text) → (length (sha text) ≡ 32) × All (λ b. b < 256) (sha text)

-- A path that one line of the manifest holds: no newline in it, no carriage return at its end, and
-- no longer than the scanner's buffer.
abbrev pub IsPlain : Text → Type 0
IsPlain path =
    (has_char newline path ≡ false) × (strip_crlf path ≡ path) × (length path + 66 < max_line)

pub scan_lines-cons :
    (line rest : Text)
    → has_char newline line ≡ false
    → scan_lines (line ++ (newline ∷ rest)) ≡ line ∷ scan_lines rest
unfolding scan_lines
scan_lines-cons [] rest h = refl
scan_lines-cons (c ∷ line) rest h =
    let ih = scan_lines-cons line rest (ground (arith, h)) in
    let other : nat_eq c newline ≡ false = ground (arith, h) in rw (other, ih) refl

append_full : (p s : Text) → is_empty s ≡ false → is_empty (p ++ s) ≡ false
append_full [] s h = h
append_full (c ∷ p) s h = refl

strip_crlf-append :
    (p s : Text) → is_empty s ≡ false → strip_crlf s ≡ s → strip_crlf (p ++ s) ≡ p ++ s
unfolding strip_crlf
strip_crlf-append [] s full h = h
strip_crlf-append (c ∷ p) s full h = rw (strip_crlf-append p s full h, append_full p s full) refl

zero_plus : (k : ℕ) → 0 + k ≡ k
zero_plus k = omega arith

suc_plus : (n k : ℕ) → suc n + k ≡ suc (n + k)
suc_plus n k = omega arith

drop-append : (p s : Text) (k : ℕ) → drop (length p + k) (p ++ s) ≡ drop k s
drop-append [] s k = rw (zero_plus k) refl
drop-append (c ∷ p) s k = rw (suc_plus (length p) k) (drop-append p s k)

take-append : (p s : Text) → take (length p) (p ++ s) ≡ p
take-append [] s = refl
take-append (c ∷ p) s = ap (λ t. c ∷ t) (take-append p s)

length-hex_encode : (bs : List ℕ) → length (hex_encode bs) ≡ 2 * length bs
unfolding hex_encode
length-hex_encode [] = refl
length-hex_encode (b ∷ bs) = omega (arith, length-hex_encode bs)

digit_plain : (n : ℕ) → n < 16 → nat_eq (hex_digit n) newline ≡ false
digit_plain n h = ground arith

hex_encode-plain : (bs : List ℕ) → All (λ b. b < 256) bs → has_char newline (hex_encode bs) ≡ false
unfolding hex_encode
hex_encode-plain [] h = refl
hex_encode-plain (b ∷ bs) h =
    rw (digit_plain (b / 16) (omega arith), digit_plain (b % 16) (omega arith))
      (hex_encode-plain bs h.1)

nonempty : (s : Text) → 0 < length s → is_empty s ≡ false
nonempty [] h = absurd (omega arith)
nonempty (c ∷ s) h = refl

test_passes :
    {A : Type 0} (a b : Bool) (x y : A) → a ≡ false → b ≡ true → (if a || not b then x else y) ≡ y
test_passes a b x y h k = rw (h, k) refl

parse_line-fields :
    (line : Text) (m : Expected)
    → ltb (length line) 66 ≡ false
    → has_blanks (drop 64 line) ≡ true
    → parse_line line m ≡ parse_fields (take 64 line) (drop 66 line) m
unfolding parse_line
parse_line-fields line m long blanks = test_passes _ _ _ _ long blanks

parse_lines-cons :
    (raw line : Text) (lines : List Text) (m : Expected)
    → strip_crlf raw ≡ line
    → ltb (length raw) max_line ≡ true
    → is_empty line ≡ false
    → parse_lines (raw ∷ lines) m ≡ (parse_line line m >>= parse_lines lines)
unfolding parse_lines
parse_lines-cons raw line lines m same short full = rw (same, short, full) refl

-- The line of one file.
module _ (sha : Sha) (digest : IsDigest sha) (path text : Text) (plain : IsPlain path) where
  abbrev sum_of : Text
  sum_of = hex_encode (sha text)

  abbrev tail : Text
  tail = b' ' ∷ b' ' ∷ path

  abbrev line_of : Text
  line_of = sum_of ++ tail

  sum-length : length sum_of ≡ 64
  sum-length = length-hex_encode (sha text) ∙ omega (arith, (digest text).0)

  line-plain : has_char newline line_of ≡ false
  line-plain =
      has_char-append newline sum_of tail
      ∙ (rw (hex_encode-plain (sha text) (digest text).1, plain.0) refl)

  tail_strip : strip_crlf tail ≡ tail
  unfolding strip_crlf
  tail_strip = ground (arith, plain.1)

  line-strip : strip_crlf line_of ≡ line_of
  line-strip = strip_crlf-append sum_of tail refl tail_strip

  line-length : length line_of ≡ length path + 66
  line-length = length-append sum_of tail ∙ omega (arith, sum-length)

  line-drop : (k : ℕ) → drop (64 + k) line_of ≡ drop k tail
  line-drop k = ap (λ n. drop (n + k) line_of) (sym sum-length) ∙ drop-append sum_of tail k

  line-take : take 64 line_of ≡ sum_of
  line-take = ap (λ n. take n line_of) (sym sum-length) ∙ take-append sum_of tail

  parse_fields-sum : (m : Expected) → parse_fields sum_of path m ≡ ok (set m path sum_of)
  unfolding parse_fields
  parse_fields-sum m = rw (hex_decode-encode (sha text) (digest text).1, parse_fields) refl

  long_enough : ltb (length line_of) 66 ≡ false
  long_enough = ground (arith, line-length)

  blanks : has_blanks (drop 64 line_of) ≡ true
  blanks = ap has_blanks (line-drop 0)

  parse_line-line : (m : Expected) → parse_line line_of m ≡ ok (set m path sum_of)
  parse_line-line m =
      parse_line-fields line_of m long_enough blanks
      ∙ ap (λ (s : Text). parse_fields s (drop 66 line_of) m) line-take
      ∙ ap (λ (p : Text). parse_fields sum_of p m) (line-drop 2)
      ∙ parse_fields-sum m

  parse_lines-line :
      (lines : List Text) (m : Expected)
      → parse_lines (line_of ∷ lines) m ≡ parse_lines lines (set m path sum_of)
  parse_lines-line lines m =
      parse_lines-cons line_of line_of lines m line-strip (ground (arith, line-length, plain.2))
        (nonempty line_of (omega (arith, line-length)))
      ∙ ap (λ r. r >>= parse_lines lines) (parse_line-line m)

-- The files of an archive with their contents, the manifest of them, and the map it is read as.
unfoldable pub put_all : Sha → List (Text × Text) → Expected → Expected
put_all sha [] m = m
put_all sha ((path, text) ∷ files) m = put_all sha files (set m path (hex_encode (sha text)))

abbrev pub hash_of : Sha → Text × Text → FileHash
hash_of sha (path, text) = record { rel = path; sum = hex_encode (sha text) }

read_lines :
    (sha : Sha) (files : List (Text × Text)) (m : Expected)
    → IsDigest sha
    → All (λ f. IsPlain f.0) files
    → parse_lines (scan_lines (build_manifest (map (hash_of sha) files))) m
      ≡ ok (put_all sha files m)
unfolding build_manifest put_all
read_lines sha [] m digest plain = unfold scan_lines parse_lines in refl
read_lines sha ((path, text) ∷ files) m digest plain =
    ap (λ lines. parse_lines lines m)
      (scan_lines-cons (line_of sha digest path text plain.0)
        (build_manifest (map (hash_of sha) files)) (line-plain sha digest path text plain.0))
    ∙ parse_lines-line sha digest path text plain.0 _ m
    ∙ read_lines sha files (set m path (hex_encode (sha text))) digest plain.1

-- Reading back the manifest of files with plain paths gives the map of their hashes.
pub parse_manifest-build :
    (sha : Sha) (files : List (Text × Text))
    → IsDigest sha
    → All (λ f. IsPlain f.0) files
    → parse_manifest (build_manifest (map (hash_of sha) files)) ≡ ok (put_all sha files [])
unfolding parse_manifest
parse_manifest-build sha files digest plain = read_lines sha files [] digest plain
