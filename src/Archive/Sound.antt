-- ===== src/Archive/Sound.antt =====
-- `Verify` of what `Create` has written.
use daggle.Prelude.{
  suc, ◌≡◌, refl, sym, ap, ◌∙◌, inl, inr, true, List, [], ◌∷◌, map, some, length, arith, Bool-cases,
  All, some_injective,
}
use daggle.Go.Text.{Text, text_eq}
use daggle.Go.TextLaws.{text_eq_iff}
use daggle.Go.Hex.{hex_encode}
use daggle.Go.Sort.{sort_texts}
use daggle.Archive.{
  Sha, Source, Found, Entry, Expected, Report, ok, find, set, regular_paths, collect_files,
  build_manifest, create, verify, verify_entries, report_ok, manifest_name,
}
use daggle.Archive.Manifest.{IsDigest, put_all, hash_of, parse_manifest-build}
use daggle.Archive.Verdict.{
  Matches, has_entry, regular_count, verify_entries-ok_iff, verify_entries-files,
}
use daggle.Archive.Files.{
  sort_texts-All, sort_texts-length, Files, entry_of, IsFile, IsContent, files_read, find-set, Has,
  all_found,
}

-- Every hash of the map is that of the file.
abbrev IsRight : Sha → Source → Expected → Type 0
IsRight sha src m =
    (q s : Text)
    → find m q ≡ some s
    → (t : Text) × (src.read_file q ≡ some t) × (s ≡ hex_encode (sha t))

set-IsRight :
    (sha : Sha) (src : Source) (m : Expected) (p t : Text)
    → src.read_file p ≡ some t
    → IsRight sha src m
    → IsRight sha src (set m p (hex_encode (sha t)))
set-IsRight sha src m p t content right q s h =
    let h' = sym (find-set m p (hex_encode (sha t)) q) ∙ h in
    elim (Bool-cases (text_eq p q)) [
      | inl same ↦ (
        t,
        ap src.read_file (sym ((text_eq_iff p q).0 same)) ∙ content,
        sym (some_injective (rw same at h')),
      )
      | inr other ↦ right q s (rw other at h')
    ]

put_all-IsRight :
    (sha : Sha) (src : Source) (fs : Files) (m : Expected)
    → All (IsContent src) fs
    → IsRight sha src m
    → IsRight sha src (put_all sha fs m)
unfolding put_all
put_all-IsRight sha src [] m contents right = right
put_all-IsRight sha src ((p, t) ∷ fs) m contents right =
    put_all-IsRight sha src fs (set m p (hex_encode (sha t))) contents.1
      (set-IsRight sha src m p t contents.0 right)

entries_match :
    (sha : Sha) (src : Source) (m : Expected) (fs : Files)
    → IsRight sha src m
    → All (IsContent src) fs
    → All (λ f. Has m f.0) fs
    → All (Matches sha m) (map entry_of fs)
entries_match sha src m [] right contents has = tt
entries_match sha src m ((p, t) ∷ fs) right contents has =
    let (s, e) = has.0 in
    let (t', read, s_eq) = right p s e in
    let same : t' ≡ t = some_injective (sym read ∙ contents.0) in
    (
      λ on. e ∙ ap some s_eq ∙ ap (λ (x : Text). some (hex_encode (sha x))) same,
      entries_match sha src m fs right contents.1 has.1,
    )

abbrev IsEntry : List Entry → Text × Text → Type 0
IsEntry entries f = has_entry entries f.0 ≡ true

set-IsEntry :
    (entries : List Entry) (m : Expected) (p s : Text)
    → has_entry entries p ≡ true
    → All (IsEntry entries) m
    → All (IsEntry entries) (set m p s)
set-IsEntry entries [] p s h k = (h, tt)
set-IsEntry entries ((r, old) ∷ m) p s h k = elim (Bool-cases (text_eq r p)) [
  | inl same ↦ rw same (k.0, k.1)
  | inr other ↦ rw other (k.0, set-IsEntry entries m p s h k.1)
]

put_all-IsEntry :
    (sha : Sha) (entries : List Entry) (fs : Files) (m : Expected)
    → All (IsEntry entries) fs
    → All (IsEntry entries) m
    → All (IsEntry entries) (put_all sha fs m)
unfolding put_all
put_all-IsEntry sha entries [] m h k = k
put_all-IsEntry sha entries ((p, t) ∷ fs) m h k =
    put_all-IsEntry sha entries fs (set m p (hex_encode (sha t))) h.1
      (set-IsEntry entries m p (hex_encode (sha t)) h.0 k)

more_entries :
    (e : Entry) (entries : List Entry) (fs : Files)
    → All (IsEntry entries) fs
    → All (IsEntry (e ∷ entries)) fs
more_entries e entries [] h = tt
more_entries e entries (f ∷ fs) h = (ground (arith, h.0), more_entries e entries fs h.1)

own_entries : (fs : Files) → All (IsEntry (map entry_of fs)) fs
own_entries [] = tt
own_entries ((p, t) ∷ fs) = (
  rw ((text_eq_iff p p).1 refl) refl,
  more_entries (entry_of (p, t)) (map entry_of fs) fs (own_entries fs),
)

regular_count-entries : (fs : Files) → regular_count (map entry_of fs) ≡ length fs
regular_count-entries [] = refl
regular_count-entries (f ∷ fs) = ap suc (regular_count-entries fs)

-- For SHA-256 as any function to 32 bytes and a directory that can be walked, whose regular files can
-- be read and have paths that fit in a line of the manifest: `Create` makes an archive, and `Verify`
-- of that archive reports no mismatched, missing or extra file and as many files as there are
-- regular files.
pub verify-create :
    (sha : Sha) (src : Source) (found : List Found)
    → IsDigest sha
    → src.exists ≡ true
    → src.is_dir ≡ true
    → src.walk ≡ some found
    → All (IsFile src) (regular_paths found)
    → (entries : List Entry) × (report : Report) × (create sha src ≡ ok entries)
      × (verify sha entries ≡ ok report)
      × (report_ok report ≡ true)
      × (report.count_files ≡ length (regular_paths found))
unfolding create verify collect_files files_read
verify-create sha src found digest exists is_dir walked files =
    let paths = sort_texts (regular_paths found) in
    let (fs, hashed, added, contents, plains, n) =
      files_read sha src paths (sort_texts-All (IsFile src) (regular_paths found) files) in
    let m = put_all sha fs [] in
    let entries = map entry_of fs in
    let manifest = build_manifest (map (hash_of sha) fs) in
    let matches =
      entries_match sha src m fs (put_all-IsRight sha src fs [] contents (λ q s h. cc)) contents
        (all_found sha fs []) in
    (
      record { name = manifest_name; is_reg = true; body = manifest } ∷ entries,
      verify_entries sha m entries,
      rw (exists, is_dir, walked, create, hashed, added) refl,
      rw (parse_manifest-build sha fs digest plains) refl,
      (verify_entries-ok_iff sha m entries).1
          (matches, put_all-IsEntry sha entries fs [] (own_entries fs) tt),
      verify_entries-files sha m entries matches
          ∙ regular_count-entries fs
          ∙ n
          ∙ sort_texts-length (regular_paths found),
    )
