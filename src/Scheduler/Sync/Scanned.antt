-- ===== src/Scheduler/Sync/Scanned.antt =====
-- What holds between the files of the first scan of a scheduler.
use daggle.Prelude.{
  ℕ, String, ◌≡◌, refl, sym, ap, ◌∙◌, subst, inl, inr, Bool, true, false, ◌||◌, List, [], ◌∷◌,
  Option, none, some, ◌==◌, eq_iff, if◌then◌else◌, arith, Bool-cases, Option-cases, contains,
}
use daggle.Go.Map.{get, keys, get-put, contains-keys}
use daggle.Dag.Model.{Assoc, Trigger, Dag}
use daggle.Scheduler.Sync.{
  Disk, Scan, Registry, Stat, CacheEntry, DagEntry, has_trigger, cached_name, mtime_of, remember,
  is_unchanged, see, sync_file, sync_changed, sync_parsed, register,
}
use daggle.Scheduler.Sync.File.{register-keys, register-cache}

-- The name of the workflow in a file that can be read and parsed and has a trigger.
abbrev triggered_name : Option Dag → Option String
triggered_name none = none
triggered_name (some d) = elim d.trigger [
  | none ↦ none
  | some t ↦ if has_trigger t then some d.name else none
]

unfoldable pub triggered_by : Disk → String → Option String
triggered_by w path = elim (w.hash_file path) [
  | none ↦ none
  | some hash ↦ triggered_name (w.parse path)
]

abbrev pub is_name : Option String → String → Bool
is_name none n = false
is_name (some m) n = m == n

-- Whether some of the files has a workflow of this name with a trigger.
unfoldable pub is_triggered : Disk → List String → String → Bool
is_triggered w [] n = false
is_triggered w (path ∷ paths) n = is_name (triggered_by w path) n || is_triggered w paths n

-- The names found so far, with those of one more file.
abbrev pub Names : Type 0
Names = String → Bool

abbrev pub add_name : Option String → Names → Names
add_name o names n = is_name o n || names n

abbrev Knows : Names → Option String → Type 0
Knows names none = Unit
Knows names (some m) = names m ≡ true

-- What holds between the files of a first scan, `names` being the names found.
pub record IsScanned (w : Disk) (names : Names) (scan : Scan) : Type 0 where
  pub noticed : (n : String) → names n ≡ true → contains scan.seen n ≡ true
  pub held : (n : String) → contains (keys scan.registry.registered) n ≡ names n
  pub known :
      (path : String) (c : CacheEntry)
      → get scan.registry.sync_cache path ≡ some c
      → Knows names (triggered_by w path)

Knows-add : (names : Names) (o p : Option String) → Knows names p → Knows (add_name o names) p
Knows-add names o none h = tt
Knows-add names o (some m) h = ground (arith, h)

Knows-self : (names : Names) (o : Option String) → Knows (add_name o names) o
Knows-self names none = tt
Knows-self names (some m) = ground (arith, eq_iff m m)

add_known :
    (names : Names) (o : Option String) (n : String) → Knows names o → add_name o names n ≡ names n
add_known names none n h = refl
add_known names (some m) n h = elim (Bool-cases (m == n)) [
  | inl same ↦ rw same (sym (ap names (sym ((eq_iff m n).0 same)) ∙ h))
  | inr other ↦ rw other refl
]

contains-see :
    (name : String) (seen : List String) (n : String)
    → contains seen n ≡ true
    → contains (see name seen) n ≡ true
contains-see name seen n h = ground arith

-- The cache entry that a file writes.
known_remember :
    (w : Disk) (names : Names) (r : Registry) (path : String) (mtime : Option ℕ) (name : String)
    → ((q : String) (c : CacheEntry) → get r.sync_cache q ≡ some c → Knows names (triggered_by w q))
    → Knows names (triggered_by w path)
    → (q : String) (c : CacheEntry) → get (remember path mtime name r).sync_cache q ≡ some c
    → Knows names (triggered_by w q)
known_remember w names r path none name old new q c h = old q c h
known_remember w names r path (some t) name old new q c h =
    let e = get-put r.sync_cache path q (record { mtime = t; dag_name = name }) in
    elim (Bool-cases (path == q)) [
      | inl same ↦ subst (λ p. Knows names (triggered_by w p)) ((eq_iff path q).0 same) new
      | inr other ↦ old q c (sym (e ∙ (rw other refl)) ∙ h)
    ]

module _ (w : Disk) (names : Names) (path : String) (scan : Scan)
    (old : IsScanned w names scan) where
  abbrev o : Option String
  o = triggered_by w path

  abbrev after : Names
  after = add_name o names

  -- A file that is not cached: what it adds to the names seen and the registered names.
  next :
      (scan' : Scan) (mtime : Option ℕ) (name : String)
      → ((n : String) → after n ≡ true → contains scan'.seen n ≡ true)
      → ((n : String) → contains (keys scan'.registry.registered) n ≡ after n)
      → scan'.registry.sync_cache ≡ (remember path mtime name scan.registry).sync_cache
      → IsScanned w after scan'
  next scan' mtime name seen held cache = record {
    noticed = seen;
    held = held;
    known = λ q c e.
        known_remember w after scan.registry path mtime name
          (λ p d h. Knows-add names o (triggered_by w p) (old.known p d h)) (Knows-self names o) q c
          (ap (λ m. get m q) (sym cache) ∙ e);
  }

  -- A file with no trigger, or that cannot be parsed, only marks the cache.
  idle_next :
      (mtime : Option ℕ) (name : String)
      → o ≡ none
      → IsScanned w after (record scan { registry = remember path mtime name scan.registry })
  idle_next none name e =
      next scan none name (λ n h. old.noticed n (sym (ap (λ x. add_name x names n) e) ∙ h))
        (λ n. old.held n ∙ sym (ap (λ x. add_name x names n) e)) refl
  idle_next (some t) name e =
      next (record scan { registry = remember path (some t) name scan.registry }) (some t) name
        (λ n h. old.noticed n (sym (ap (λ x. add_name x names n) e) ∙ h))
        (λ n. old.held n ∙ sym (ap (λ x. add_name x names n) e)) refl

  cached_next :
      (name : String)
      → Knows names o
      → IsScanned w after (record scan { seen = see name scan.seen })
  cached_next name k = record {
    noticed =
        λ n h. contains-see name scan.seen n (old.noticed n (sym (add_known names o n k) ∙ h));
    held = λ n. old.held n ∙ sym (add_known names o n k);
    known = λ q c e. Knows-add names o (triggered_by w q) (old.known q c e);
  }

remember-registered :
    (path : String) (t : Option ℕ) (name : String) (r : Registry)
    → (remember path t name r).registered ≡ r.registered
remember-registered path none name r = refl
remember-registered path (some t) name r = refl

noted_seen :
    (names : Names) (name : String) (seen : List String)
    → ((n : String) → names n ≡ true → contains seen n ≡ true)
    → (n : String) → add_name (some name) names n ≡ true
    → contains (name ∷ seen) n ≡ true
noted_seen names name seen h n e = ground (arith, h n)

present :
    (e : Option DagEntry) (hash : String)
    → is_unchanged e hash ≡ true
    → elim e [ none ↦ false | some v ↦ true ] ≡ true
present none hash h = h
present (some e) hash h = refl

registered_of_unchanged :
    (m : Assoc DagEntry) (name hash : String)
    → is_unchanged (get m name) hash ≡ true
    → contains (keys m) name ≡ true
registered_of_unchanged m name hash h = rw (contains-keys m name) (present (get m name) hash h)

known_of_hit :
    (w : Disk) (names : Names) (scan : Scan) (path : String)
    → IsScanned w names scan
    → (c : Option CacheEntry) (st : Stat) (name : String) → get scan.registry.sync_cache path ≡ c
    → cached_name c st ≡ some name
    → Knows names (triggered_by w path)
known_of_hit w names scan path old none st name e hit = cc
known_of_hit w names scan path old (some c) st name e hit = old.known path c e

register-seen :
    (w : Disk) (now : ℕ) (path hash : String) (d : Dag) (t : Trigger) (scan : Scan)
    → (register w now path hash d t scan).seen ≡ scan.seen
unfolding register
register-seen w now path hash d t scan = refl

module _ (w : Disk) (now : ℕ) (names : Names) (path : String) (scan : Scan)
    (old : IsScanned w names scan) where
  parsed_next :
      (mtime : Option ℕ) (hash : String) (d : Dag) (trigger : Option Trigger)
      → triggered_by w path
        ≡ elim trigger [ none ↦ none | some t ↦ if has_trigger t then some d.name else none ]
      → IsScanned w
          (add_name (triggered_by w path) names)
          (sync_parsed w now path mtime hash d trigger scan)
  unfolding sync_parsed
  parsed_next mtime hash d none e = idle_next w names path scan old mtime d.name e
  parsed_next mtime hash d (some t) e = elim (Bool-cases (has_trigger t)) [
    | inr off ↦ rw off (idle_next w names path scan old mtime d.name (e ∙ (rw off refl)))
    | inl on ↦
        let e' : triggered_by w path ≡ some d.name = e ∙ (rw on refl) in
        let noted : Scan = record scan {
          registry = remember path mtime d.name scan.registry;
          seen = d.name ∷ scan.seen;
        } in
        let kept =
          ap (λ (m : Assoc DagEntry). keys m)
            (remember-registered path mtime d.name scan.registry) in
        let seen = λ (n : String) (h : add_name (triggered_by w path) names n ≡ true).
          noted_seen names d.name scan.seen old.noticed n
            (sym (ap (λ o. add_name o names n) e') ∙ h) in
        elim (Bool-cases (is_unchanged (get scan.registry.registered d.name) hash)) [
          | inl same ↦
              rw (on, same)
                (next w names path scan old noted mtime d.name seen
                  (λ n.
                    ap (λ (ks : List String). contains ks n) kept
                    ∙ old.held n
                    ∙ sym (
                        ap (λ o. add_name o names n) e'
                        ∙ add_known names (some d.name) n (
                            sym (old.held d.name)
                            ∙ registered_of_unchanged scan.registry.registered d.name hash same)))
                  refl)
          | inr new ↦
              rw (on, new)
                (next w names path scan old (register w now path hash d t noted) mtime d.name
                  (λ n h.
                    ap (λ (l : List String). contains l n) (register-seen w now path hash d t noted)
                    ∙ seen n h)
                  (λ n.
                    register-keys w now path hash d t noted n
                    ∙ ap (λ (ks : List String). d.name == n || contains ks n) kept
                    ∙ ap (λ b. d.name == n || b) (old.held n)
                    ∙ sym (ap (λ o. add_name o names n) e'))
                  (register-cache w now path hash d t noted))
        ]
  ]

  changed_next :
      (mtime : Option ℕ)
      → IsScanned w (add_name (triggered_by w path) names) (sync_changed w now path mtime scan)
  unfolding sync_changed triggered_by
  changed_next mtime = elim (Option-cases (w.hash_file path)) [
    | inl no_hash ↦ rw (no_hash, sync_changed, triggered_by) old
    | inr (hash, h) ↦ elim (Option-cases (w.parse path)) [
      | inl bad ↦
          rw (h, sync_changed, bad)
            (idle_next w names path scan old mtime "" (rw (h, triggered_by, bad) refl))
      | inr (d, p) ↦
          rw (h, sync_changed, p)
            (parsed_next mtime hash d d.trigger (rw (h, triggered_by, p) refl))
    ]
  ]

  pub file_next : IsScanned w (add_name (triggered_by w path) names) (sync_file w now path scan)
  unfolding sync_file
  file_next = elim (Option-cases (cached_name (get scan.registry.sync_cache path) (w.stat path))) [
    | inl miss ↦ rw (miss, sync_file) (changed_next (mtime_of (w.stat path)))
    | inr (name, hit) ↦
        rw (hit, sync_file)
          (cached_next w names path scan old name (
            known_of_hit w names scan path old (get scan.registry.sync_cache path) (w.stat path)
              name refl hit))
  ]
