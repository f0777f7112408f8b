-- ===== src/Archive/Verdict.antt =====
-- What it means that `Verify` finds nothing to report (internal/archive/verify.go).
use daggle.Prelude.{
  ℕ, suc, ◌+◌, ◌≡◌, ◌≢◌, refl, sym, ap, ◌∙◌, ◌↔◌, inl, inr, Bool, true, false, ◌&&◌, ◌||◌, List, [],
  ◌∷◌, ◌++◌, Option, none, some, if◌then◌else◌, arith, Bool-cases, All, and-true, some_injective,
}
use daggle.Go.Text.{Text, text_eq}
use daggle.Go.TextLaws.{text_eq_iff}
use daggle.Go.Hex.{hex_encode}
use daggle.Go.Sort.{insert_text, sort_texts, text_less}
use daggle.Archive.{
  Sha, Entry, Expected, Tally, find, tally_hash, tally_entry, tally_entries, has_text, missing_of,
  verify_entries, no_texts, report_ok,
}

-- A regular entry has the hash that the manifest gives for its name.
abbrev pub Matches : Sha → Expected → Entry → Type 0
Matches sha m e = e.is_reg ≡ true → find m e.name ≡ some (hex_encode (sha e.body))

abbrev pub has_entry : List Entry → Text → Bool
has_entry [] path = false
has_entry (e ∷ entries) path = e.is_reg && text_eq e.name path || has_entry entries path

abbrev pub regular_count : List Entry → ℕ
regular_count [] = 0
regular_count (e ∷ entries) =
    let rest = regular_count entries in if e.is_reg then suc rest else rest

insert_text-ne : (x : Text) (xs : List Text) → insert_text x xs ≢ []
unfolding insert_text
insert_text-ne x [] h = cc
insert_text-ne x (y ∷ ys) h = elim (Bool-cases (text_less y x)) [
  | inl e ↦ cc (rw e at h)
  | inr e ↦ cc (rw e at h)
]

inserted : (xs : List Text) → xs ≢ [] → no_texts xs ≡ false
inserted [] h = absurd (h refl)
inserted (x ∷ xs) h = refl

no_texts-sort : (xs : List Text) → no_texts (sort_texts xs) ≡ no_texts xs
unfolding sort_texts
no_texts-sort [] = refl
no_texts-sort (x ∷ xs) = inserted (insert_text x (sort_texts xs)) (insert_text-ne x (sort_texts xs))

-- No mismatch and nothing extra so far.
abbrev IsClean : Tally → Type 0
IsClean t = (no_texts t.mismatched ≡ true) × (no_texts t.extra ≡ true)

no_texts-append : (xs : List Text) (x : Text) → no_texts (xs ++ x ∷ []) ≡ false
no_texts-append [] x = refl
no_texts-append (y ∷ ys) x = refl

hash-IsClean :
    (e : Entry) (got : Text) (o : Option Text) (t : Tally)
    → (IsClean (tally_hash e got o t)) ↔ (IsClean t × (o ≡ some got))
hash-IsClean e got none t =
    (λ (c, d). cc (sym d ∙ no_texts-append t.extra e.name), λ ((c, d), k). cc)
hash-IsClean e got (some want) t = elim (Bool-cases (text_eq got want)) [
  | inl same ↦ (
    λ (c, d). (((rw same at c), d), ap some (sym ((text_eq_iff got want).0 same))),
    λ ((c, d), k). ((rw same c), d),
  )
  | inr other ↦ (
    λ (c, d). cc (sym (rw other at c) ∙ no_texts-append t.mismatched e.name),
    λ ((c, d), k). cc (sym other ∙ (text_eq_iff got want).1 (sym (some_injective k))),
  )
]

entry-IsClean :
    (sha : Sha) (m : Expected) (e : Entry) (t : Tally)
    → IsClean (tally_entry sha m e t) ↔ (IsClean t × Matches sha m e)
unfolding tally_entry
entry-IsClean sha m e t =
    let hashed = hash-IsClean e (hex_encode (sha e.body)) (find m e.name) t in
    elim (Bool-cases e.is_reg) [
      | inl on ↦ (
        λ c. let both = hashed.0 (rw on at c) in (both.0, λ _. both.1),
        λ (c, k). rw on (hashed.1 (c, k on)),
      )
      | inr off ↦ (λ c. ((rw off at c), λ on. cc), λ (c, k). rw off c)
    ]

entries-IsClean :
    (sha : Sha) (m : Expected) (entries : List Entry) (t : Tally)
    → IsClean (tally_entries sha m entries t) ↔ (IsClean t × All (Matches sha m) entries)
unfolding tally_entries
entries-IsClean sha m [] t = (λ c. (c, tt), λ (c, k). c)
entries-IsClean sha m (e ∷ entries) t =
    let first = entry-IsClean sha m e t in
    let rest = entries-IsClean sha m entries (tally_entry sha m e t) in
    (
      λ c.
          let (here, more) = rest.0 c in
          let (before, this) = first.0 here in (before, (this, more)),
      λ (c, k). rest.1 (first.1 (c, k.0), k.1),
    )

-- The names seen, and the number of files, when every entry matches.
entry_seen :
    (sha : Sha) (m : Expected) (e : Entry) (t : Tally) (path : Text)
    → Matches sha m e
    → (has_text (tally_entry sha m e t).seen path
        ≡ (e.is_reg && text_eq e.name path || has_text t.seen path))
      × ((tally_entry sha m e t).files ≡ (if e.is_reg then suc t.files else t.files))
unfolding tally_entry
entry_seen sha m e t path k = elim (Bool-cases e.is_reg) [
  | inl on ↦ rw (on, k on) (refl, refl)
  | inr off ↦ rw off (refl, refl)
]

entries_seen :
    (sha : Sha) (m : Expected) (entries : List Entry) (t : Tally) (path : Text)
    → All (Matches sha m) entries
    → (has_text (tally_entries sha m entries t).seen path
        ≡ (has_entry entries path || has_text t.seen path))
      × ((tally_entries sha m entries t).files ≡ regular_count entries + t.files)
unfolding tally_entries
entries_seen sha m [] t path k = (refl, omega arith)
entries_seen sha m (e ∷ entries) t path k =
    let (seen, files) = entry_seen sha m e t path k.0 in
    let (seen', files') = entries_seen sha m entries (tally_entry sha m e t) path k.1 in
    (seen' ∙ ground (arith, seen), files' ∙ ground (arith, files))

missing_iff :
    (seen : List Text) (m : Expected)
    → (no_texts (missing_of seen m) ≡ true) ↔ All (λ kv. has_text seen kv.0 ≡ true) m
unfolding missing_of
missing_iff seen [] = (λ h. tt, λ h. refl)
missing_iff seen ((path, sum) ∷ m) = elim (Bool-cases (has_text seen path)) [
  | inl there ↦ (
    λ h. (there, (missing_iff seen m).0 (rw there at h)),
    λ h. rw there ((missing_iff seen m).1 h.1),
  )
  | inr gone ↦ (λ h. cc (rw gone at h), λ h. cc (sym gone ∙ h.0))
]

or_false_right : (b : Bool) → (b || false) ≡ b
or_false_right b = ground arith

All-subst {ℓ} :
    {A : Type ℓ} (P Q : A → Type 0) (xs : List A) → ((x : A) → P x → Q x) → All P xs → All Q xs
All-subst P Q [] f h = tt
All-subst P Q (x ∷ xs) f h = (f x h.0, All-subst P Q xs f h.1)

abbrev no_tally : Tally
no_tally = record { files = 0; mismatched = []; extra = []; seen = [] }

-- The report on entries behind a manifest is clean exactly when every regular entry has the hash
-- that the manifest gives for its name, and every path of the manifest is the name of a regular
-- entry.
pub verify_entries-ok_iff :
    (sha : Sha) (m : Expected) (entries : List Entry)
    → (report_ok (verify_entries sha m entries) ≡ true)
      ↔ (All (Matches sha m) entries × All (λ kv. has_entry entries kv.0 ≡ true) m)
unfolding verify_entries report_ok
verify_entries-ok_iff sha m entries =
    let t = tally_entries sha m entries no_tally in
    let clean = entries-IsClean sha m entries no_tally in
    let missing = missing_iff t.seen m in
    let seen = λ (k : All (Matches sha m) entries) (path : Text).
      (entries_seen sha m entries no_tally path k).0 ∙ or_false_right (has_entry entries path) in
    (
      λ h.
          let (both, e) =
            and-true
              (no_texts (sort_texts t.mismatched) && no_texts (sort_texts (missing_of t.seen m)))
              (no_texts (sort_texts t.extra)) h in
          let (c, d) =
            and-true (no_texts (sort_texts t.mismatched))
              (no_texts (sort_texts (missing_of t.seen m))) both in
          let k =
            (clean.0 (sym (no_texts-sort t.mismatched) ∙ c, sym (no_texts-sort t.extra) ∙ e)).1 in
          (
            k,
            All-subst _ _ m (λ kv s. sym (seen k kv.0) ∙ s)
                (missing.0 (sym (no_texts-sort (missing_of t.seen m)) ∙ d)),
          ),
      λ (k, there).
          let (c, e) = clean.1 ((refl, refl), k) in
          rw
            (
              no_texts-sort t.mismatched ∙ c,
              no_texts-sort (missing_of t.seen m)
                  ∙ missing.1 (All-subst _ _ m (λ kv s. seen k kv.0 ∙ s) there),
              no_texts-sort t.extra ∙ e,
            )
            refl,
    )

-- The number of files of a clean report.
pub verify_entries-files :
    (sha : Sha) (m : Expected) (entries : List Entry)
    → All (Matches sha m) entries
    → (verify_entries sha m entries).count_files ≡ regular_count entries
unfolding verify_entries
verify_entries-files sha m entries k = (entries_seen sha m entries no_tally [] k).1 ∙ omega arith
