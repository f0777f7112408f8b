-- ===== src/Archive.antt =====
-- The archives of runs (internal/archive/archive.go, verify.go). A text is the list of its bytes here.
-- A tar archive is the list of its entries; writing it out with gzip and reading it back is the
-- standard library's. `Sha` is SHA-256, to bytes.
pub mod Manifest
pub mod Verdict
pub mod Files
pub mod Sound
use daggle.Prelude.{
  ℕ, suc, ◌+◌, ◌^◌, Bool, true, false, not, ◌&&◌, ◌||◌, List, [], ◌∷◌, ◌++◌, map, Option, none,
  some, ltb, nat_eq, if◌then◌else◌, length,
}
use daggle.Go.Text.{Text, codes, text_eq, is_empty, drop, add_char}
use daggle.Go.Sort.{sort_texts}
use daggle.Go.Hex.{hex_encode, hex_decode}

abbrev pub Sha : Type 0
Sha = Text → List ℕ

abbrev pub manifest_name : Text
manifest_name = codes ".manifest.sha256"

pub data Failure : Type 0 where
  no_source not_directory unreadable no_entries wrong_first malformed_line bad_hash long_line :
      Failure

pub data Result {ℓ} (A : Type ℓ) : Type ℓ where
  ok : A → Result A
  err : Failure → Result A

infixl 5 ◌>>=◌
abbrev pub ◌>>=◌ {ℓ κ} : {A : Type ℓ} {B : Type κ} → Result A → (A → Result B) → Result B
ok a >>= f = f a
err e >>= f = err e

-- A path below the source directory, as `filepath.Walk` meets it.
pub record Found : Type 0 where
  pub rel : Text
  pub is_regular : Bool

-- What `Create` meets: the kind of the source, the walk, and the content of a file.
pub record Source : Type 0 where
  pub exists : Bool
  pub is_dir : Bool
  pub walk : Option (List Found)
  pub read_file : Text → Option Text

pub record FileHash : Type 0 where
  pub rel : Text
  pub sum : Text

pub record Entry : Type 0 where
  pub name : Text
  pub is_reg : Bool
  pub body : Text

abbrev pub regular_paths : List Found → List Text
regular_paths [] = []
regular_paths (f ∷ fs) = let rest = regular_paths fs in if f.is_regular then f.rel ∷ rest else rest

unfoldable pub collect_files : Source → Result (List Text)
unfolding sort_texts
collect_files src = elim src.walk [
  | none ↦ err unreadable
  | some found ↦ ok (sort_texts (regular_paths found))
]

abbrev pub or_unreadable : Option Text → Result Text
or_unreadable none = err unreadable
or_unreadable (some text) = ok text

unfoldable pub hash_files : Sha → Source → List Text → Result (List FileHash)
hash_files sha src [] = ok []
hash_files sha src (rel ∷ files) = do
  text ← or_unreadable (src.read_file rel)
  rest ← hash_files sha src files
  ok (record { rel = rel; sum = hex_encode (sha text) } ∷ rest)

abbrev pub newline : ℕ
newline = 10

abbrev pub manifest_line : FileHash → Text
manifest_line h = h.sum ++ (b' ' ∷ b' ' ∷ h.rel)

unfoldable pub build_manifest : List FileHash → Text
build_manifest [] = []
build_manifest (h ∷ hashes) = manifest_line h ++ (newline ∷ build_manifest hashes)

unfoldable pub add_files : Source → List Text → Result (List Entry)
add_files src [] = ok []
add_files src (rel ∷ files) = do
  text ← or_unreadable (src.read_file rel)
  rest ← add_files src files
  ok (record { name = rel; is_reg = true; body = text } ∷ rest)

-- The entries of the archive. A file has the same content when it is hashed and when it is added.
unfoldable pub create : Sha → Source → Result (List Entry)
unfolding collect_files hash_files build_manifest add_files
create sha src =
    if not src.exists then err no_source else if not src.is_dir then err not_directory else do
      files ← collect_files src
      hashes ← hash_files sha src files
      entries ← add_files src files
      ok (record { name = manifest_name; is_reg = true; body = build_manifest hashes } ∷ entries)

-- bufio.Scanner over lines
unfoldable pub scan_lines : Text → List Text
scan_lines [] = []
scan_lines (c ∷ s) =
    let rest = scan_lines s in if nat_eq c newline then [] ∷ rest else add_char c rest

-- stripCRLF, of a line from which the scanner has dropped one carriage return
unfoldable pub strip_crlf : Text → Text
strip_crlf [] = []
strip_crlf (c ∷ s) =
    let rest = strip_crlf s in
    if is_empty rest && (nat_eq c 13 || nat_eq c newline) then [] else c ∷ rest

abbrev pub take : ℕ → Text → Text
take ℕ.zero s = []
take (ℕ.suc n) [] = []
take (ℕ.suc n) (c ∷ s) = c ∷ take n s

-- map[string]string with the manifest's paths
abbrev pub Expected : Type 0
Expected = List (Text × Text)

abbrev pub find : Expected → Text → Option Text
find [] path = none
find ((p, sum) ∷ m) path = let rest = find m path in if text_eq p path then some sum else rest

abbrev pub set : Expected → Text → Text → Expected
set [] path sum = (path, sum) ∷ []
set ((p, old) ∷ m) path sum =
    let rest = set m path sum in if text_eq p path then (p, sum) ∷ m else (p, old) ∷ rest

abbrev pub has_blanks : Text → Bool
has_blanks (b ∷ c ∷ rest) = nat_eq b b' ' && nat_eq c b' '
has_blanks (b ∷ []) = false
has_blanks [] = false

-- The scanner's buffer holds a line and its end.
abbrev pub max_line : ℕ
max_line = 2 ^ 20

-- A hash that is hexadecimal is noted for its path.
unfoldable pub parse_fields : Text → Text → Expected → Result Expected
parse_fields sum path m = elim (hex_decode sum) [
  | none ↦ err bad_hash
  | some _ ↦ ok (set m path sum)
]

unfoldable pub parse_line : Text → Expected → Result Expected
parse_line line m =
    if ltb (length line) 66 || not (has_blanks (drop 64 line))
    then err malformed_line
    else parse_fields (take 64 line) (drop 66 line) m

unfoldable pub parse_lines : List Text → Expected → Result Expected
unfolding strip_crlf
parse_lines [] m = ok m
parse_lines (raw ∷ lines) m =
    let line = strip_crlf raw in
    let rest = parse_lines lines m in
    let next = parse_line line m >>= parse_lines lines in
    if not (ltb (length raw) max_line) then err long_line else if is_empty line then rest else next

unfoldable pub parse_manifest : Text → Result Expected
unfolding scan_lines parse_lines parse_line parse_fields
parse_manifest text = parse_lines (scan_lines text) []

-- The variables of the loop over the entries.
pub record Tally : Type 0 where
  pub files : ℕ
  pub mismatched : List Text
  pub extra : List Text
  pub seen : List Text

pub record Report : Type 0 where
  pub count_files : ℕ
  pub all_mismatched : List Text
  pub all_missing : List Text
  pub all_extra : List Text

abbrev pub tally_hash : Entry → Text → Option Text → Tally → Tally
tally_hash e got none t = record t { extra = t.extra ++ e.name ∷ [] }
tally_hash e got (some want) t = record t {
  seen = e.name ∷ t.seen;
  files = suc t.files;
  mismatched = if text_eq got want then t.mismatched else t.mismatched ++ e.name ∷ [];
}

unfoldable pub tally_entry : Sha → Expected → Entry → Tally → Tally
tally_entry sha m e t =
    if e.is_reg then tally_hash e (hex_encode (sha e.body)) (find m e.name) t else t

unfoldable pub tally_entries : Sha → Expected → List Entry → Tally → Tally
unfolding tally_entry
tally_entries sha m [] t = t
tally_entries sha m (e ∷ entries) t = tally_entries sha m entries (tally_entry sha m e t)

abbrev pub has_text : List Text → Text → Bool
has_text [] x = false
has_text (y ∷ ys) x = text_eq y x || has_text ys x

unfoldable pub missing_of : List Text → Expected → List Text
missing_of seen [] = []
missing_of seen ((path, sum) ∷ m) =
    let rest = missing_of seen m in if has_text seen path then rest else path ∷ rest

unfoldable pub verify_entries : Sha → Expected → List Entry → Report
unfolding tally_entries missing_of sort_texts
verify_entries sha m entries =
    let t =
      tally_entries sha m entries (record { files = 0; mismatched = []; extra = []; seen = [] }) in
    record {
      count_files = t.files;
      all_mismatched = sort_texts t.mismatched;
      all_missing = sort_texts (missing_of t.seen m);
      all_extra = sort_texts t.extra;
    }

unfoldable pub verify : Sha → List Entry → Result Report
unfolding parse_manifest verify_entries
verify sha [] = err no_entries
verify sha (first ∷ entries) =
    if not (text_eq first.name manifest_name)
    then err wrong_first
    else do m ← parse_manifest first.body; ok (verify_entries sha m entries)

abbrev pub no_texts : List Text → Bool
no_texts [] = true
no_texts (x ∷ xs) = false

unfoldable pub report_ok : Report → Bool
report_ok r = no_texts r.all_mismatched && no_texts r.all_missing && no_texts r.all_extra
