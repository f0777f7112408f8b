-- ===== src/Archive/Files.antt =====
-- The files that `Create` reads, and the map that their manifest is read as.
use daggle.Prelude.{
  suc, ◌≡◌, refl, sym, ap, ◌∙◌, inl, inr, true, false, ◌&&◌, List, [], ◌∷◌, map, some,
  if◌then◌else◌, length, arith, Bool-cases, All,
}
use daggle.Go.Text.{Text, text_eq}
use daggle.Go.TextLaws.{text_eq_iff}
use daggle.Go.Hex.{hex_encode}
use daggle.Go.Sort.{insert_text, sort_texts, text_less}
use daggle.Archive.{Sha, Source, Entry, Expected, ok, find, set, hash_files, add_files}
use daggle.Archive.Manifest.{IsPlain, put_all, hash_of}

-- Sorting keeps what holds of all texts, and their number.
insert_text-All :
    (P : Text → Type 0) (x : Text) (xs : List Text) → P x → All P xs → All P (insert_text x xs)
unfolding insert_text
insert_text-All P x [] h k = (h, tt)
insert_text-All P x (y ∷ ys) h k = elim (Bool-cases (text_less y x)) [
  | inl e ↦ rw e (k.0, insert_text-All P x ys h k.1)
  | inr e ↦ rw e (h, k)
]

pub sort_texts-All : (P : Text → Type 0) (xs : List Text) → All P xs → All P (sort_texts xs)
unfolding sort_texts
sort_texts-All P [] k = tt
sort_texts-All P (x ∷ xs) k = insert_text-All P x (sort_texts xs) k.0 (sort_texts-All P xs k.1)

insert_text-length : (x : Text) (xs : List Text) → length (insert_text x xs) ≡ suc (length xs)
unfolding insert_text
insert_text-length x [] = refl
insert_text-length x (y ∷ ys) = ground (arith, insert_text-length x ys)

pub sort_texts-length : (xs : List Text) → length (sort_texts xs) ≡ length xs
unfolding sort_texts
sort_texts-length [] = refl
sort_texts-length (x ∷ xs) = insert_text-length x (sort_texts xs) ∙ ap suc (sort_texts-length xs)

abbrev pub Files : Type 0
Files = List (Text × Text)

abbrev pub entry_of : Text × Text → Entry
entry_of (path, text) = record { name = path; is_reg = true; body = text }

-- A file that can be read, and whose path a line of the manifest holds.
abbrev pub IsFile : Source → Text → Type 0
IsFile src path = ((text : Text) × (src.read_file path ≡ some text)) × IsPlain path

abbrev pub IsContent : Source → Text × Text → Type 0
IsContent src f = src.read_file f.0 ≡ some f.1

-- What `Create` reads of such files.
unfoldable pub files_read :
    (sha : Sha) (src : Source) (paths : List Text)
    → All (IsFile src) paths
    → (fs : Files) × (hash_files sha src paths ≡ ok (map (hash_of sha) fs))
      × (add_files src paths ≡ ok (map entry_of fs))
      × All (IsContent src) fs
      × All (λ f. IsPlain f.0) fs
      × (length fs ≡ length paths)
unfolding hash_files add_files
files_read sha src [] h = ([], refl, refl, tt, tt, refl)
files_read sha src (path ∷ paths) (((text, e), plain), more) =
    let (fs, hashed, added, contents, plains, n) = files_read sha src paths more in
    (
      (path, text) ∷ fs,
      rw (e, hashed) refl,
      rw (e, added) refl,
      (e, contents),
      (plain, plains),
      ap suc n,
    )

same_tests : (r p q : Text) → text_eq r p ≡ true → text_eq r q ≡ text_eq p q
same_tests r p q h = ap (λ t. text_eq t q) ((text_eq_iff r p).0 h)

-- Two different texts do not both equal a third.
apart : (r p q : Text) → text_eq r p ≡ false → (text_eq r q && text_eq p q) ≡ false
apart r p q h = elim (Bool-cases (text_eq r q)) [
  | inr e ↦ rw e refl
  | inl e ↦ rw e (elim (Bool-cases (text_eq p q)) [
    | inr d ↦ d
    | inl d ↦ cc (sym h ∙ (text_eq_iff r p).1 ((text_eq_iff r q).0 e ∙ sym ((text_eq_iff p q).0 d)))
  ])
]

-- The map that the manifest is read as.
pub find-set :
    (m : Expected) (p s q : Text) → find (set m p s) q ≡ (if text_eq p q then some s else find m q)
find-set [] p s q = refl
find-set ((r, old) ∷ m) p s q = elim (Bool-cases (text_eq r p)) [
  | inl same ↦ rw same (ground (arith, same_tests r p q same))
  | inr other ↦ rw other (ground (arith, find-set m p s q, apart r p q other))
]

abbrev pub Has : Expected → Text → Type 0
Has m q = (s : Text) × (find m q ≡ some s)

set-Has : (m : Expected) (p s q : Text) → Has m q → Has (set m p s) q
set-Has m p s q (t, e) = elim (Bool-cases (text_eq p q)) [
  | inl same ↦ (s, find-set m p s q ∙ (rw same refl))
  | inr other ↦ (t, find-set m p s q ∙ (rw other e))
]

set_self-Has : (m : Expected) (p s : Text) → Has (set m p s) p
set_self-Has m p s = (s, find-set m p s p ∙ (rw ((text_eq_iff p p).1 refl) refl))

put_all-Has :
    (sha : Sha) (fs : Files) (m : Expected) (q : Text) → Has m q → Has (put_all sha fs m) q
unfolding put_all
put_all-Has sha [] m q h = h
put_all-Has sha ((p, t) ∷ fs) m q h =
    put_all-Has sha fs (set m p (hex_encode (sha t))) q (set-Has m p (hex_encode (sha t)) q h)

pub all_found : (sha : Sha) (fs : Files) (m : Expected) → All (λ f. Has (put_all sha fs m) f.0) fs
unfolding put_all
all_found sha [] m = tt
all_found sha ((p, t) ∷ fs) m =
    let next = set m p (hex_encode (sha t)) in
    (put_all-Has sha fs next p (set_self-Has m p (hex_encode (sha t))), all_found sha fs next)
