-- ===== src/Scheduler/Sync/File.antt =====
-- One file of a scan: what it changes of the mtime cache, the names seen and the registered names.
use daggle.Prelude.{
  ℕ, String, ◌≡◌, refl, sym, ap, ◌∙◌, ◌⊎◌, inl, inr, not, ◌&&◌, ◌||◌, List, [], ◌∷◌, ◌++◌, Option,
  none, some, ◌==◌, contains, arith, Bool-cases, Option-cases,
}
use daggle.Go.Map.{get, put, delete, keys, get-delete, keys-put, contains-keys}
use daggle.Dag.Model.{Trigger, Dag}
use daggle.Scheduler.Sync.{
  Disk, Source, Scan, Registry, Stat, found, absent, unknown, DagEntry, has_trigger, cached_name,
  mtime_of, sync_file, sync_changed, sync_parsed, register, start_catchup, sync_files, sync_sources,
  paths_of, tear_down, cron_of, remember, is_unchanged,
}

-- All paths that a scan looks at.
unfoldable pub all_paths : Disk → List Source → List String
all_paths w [] = []
all_paths w (src ∷ sources) = paths_of (w.read_dir src.dir) src.dir ++ all_paths w sources

pub sync_files-append :
    (w : Disk) (now : ℕ) (ps qs : List String) (scan : Scan)
    → sync_files w now (ps ++ qs) scan ≡ sync_files w now qs (sync_files w now ps scan)
unfolding sync_files
sync_files-append w now [] qs scan = refl
sync_files-append w now (p ∷ ps) qs scan = sync_files-append w now ps qs (sync_file w now p scan)

pub sync_sources-eq :
    (w : Disk) (now : ℕ) (sources : List Source) (scan : Scan)
    → sync_sources w now sources scan ≡ sync_files w now (all_paths w sources) scan
unfolding sync_sources all_paths
sync_sources-eq w now [] scan = unfold sync_files in refl
sync_sources-eq w now (src ∷ sources) scan =
    sync_sources-eq w now sources (sync_files w now (paths_of (w.read_dir src.dir) src.dir) scan)
    ∙ sym
        (sync_files-append w now (paths_of (w.read_dir src.dir) src.dir) (all_paths w sources) scan)

-- A registration leaves the cache, and adds one name.
start_catchup-keeps :
    (d : Dag) (path mode : String) (r : Registry)
    → ((start_catchup d path mode r).sync_cache ≡ r.sync_cache)
      × ((start_catchup d path mode r).registered ≡ r.registered)
unfolding start_catchup
start_catchup-keeps d path mode r =
    elim (Bool-cases ((mode == "once" || mode == "all") && not (contains r.catchup_done d.name))) [
      | inl e ↦ (rw e, rw e)
      | inr e ↦ (rw e, rw e)
    ]

tear_down-cache :
    (e : Option DagEntry) (name : String) (r : Registry)
    → (tear_down e name r).sync_cache ≡ r.sync_cache
tear_down-cache none name r = refl
tear_down-cache (some e) name r = refl

tear_down-keys :
    (e : Option DagEntry) (name n : String) (r : Registry)
    → (name == n || contains (keys (tear_down e name r).registered) n)
      ≡ (name == n || contains (keys r.registered) n)
tear_down-keys none name n r = refl
tear_down-keys (some e) name n r =
    rw
      (
        contains-keys (delete r.registered name) n,
        contains-keys r.registered n,
        get-delete r.registered name n,
      )
      (ground arith)

pub register-cache :
    (w : Disk) (now : ℕ) (path hash : String) (d : Dag) (t : Trigger) (scan : Scan)
    → (register w now path hash d t scan).registry.sync_cache ≡ scan.registry.sync_cache
unfolding register
register-cache w now path hash d t scan =
    let e = get scan.registry.registered d.name in
    elim (Option-cases (cron_of w now t path)) [
      | inl none_eq ↦ rw (none_eq, register) (tear_down-cache e d.name scan.registry)
      | inr (c, some_eq) ↦
          rw (some_eq, register)
            ((start_catchup-keeps d path t.catchup (tear_down e d.name scan.registry)).0
              ∙ tear_down-cache e d.name scan.registry)
    ]

pub register-keys :
    (w : Disk) (now : ℕ) (path hash : String) (d : Dag) (t : Trigger) (scan : Scan) (n : String)
    → contains (keys (register w now path hash d t scan).registry.registered) n
      ≡ (d.name == n || contains (keys scan.registry.registered) n)
unfolding register
register-keys w now path hash d t scan n =
    let e = get scan.registry.registered d.name in
    let down = tear_down e d.name scan.registry in
    elim (Option-cases (cron_of w now t path)) [
      | inl none_eq ↦
          rw none_eq (keys-put down.registered d.name n _ ∙ tear_down-keys e d.name n scan.registry)
      | inr (c, some_eq) ↦ rw some_eq (
          keys-put _ d.name n _
          ∙ ap (λ m. d.name == n || contains (keys m) n)
              (start_catchup-keeps d path t.catchup down).1
          ∙ tear_down-keys e d.name n scan.registry)
    ]

-- The cache after a file: as before, or with this file's time written to it.
abbrev pub CacheStep : Disk → String → Scan → Scan → Type 0
CacheStep w path scan scan' =
    (scan'.registry.sync_cache ≡ scan.registry.sync_cache)
    ⊎ ((t : ℕ) × (name : String) × (w.stat path ≡ found t)
        × (scan'.registry.sync_cache
            ≡ put scan.registry.sync_cache path (record { mtime = t; dag_name = name })))

remember_step :
    (w : Disk) (path name : String) (st : Stat) (r : Registry)
    → w.stat path ≡ st
    → ((remember path (mtime_of st) name r).sync_cache ≡ r.sync_cache)
      ⊎ ((t : ℕ) × (m : String) × (w.stat path ≡ found t)
          × ((remember path (mtime_of st) name r).sync_cache
              ≡ put r.sync_cache path (record { mtime = t; dag_name = m })))
remember_step w path name (found t) r h = inr (t, name, h, refl)
remember_step w path name absent r h = inl refl
remember_step w path name unknown r h = inl refl

sync_parsed-CacheStep :
    (w : Disk) (now : ℕ) (path hash : String) (d : Dag) (trigger : Option Trigger) (scan : Scan)
    → CacheStep w path scan (sync_parsed w now path (mtime_of (w.stat path)) hash d trigger scan)
unfolding sync_parsed
sync_parsed-CacheStep w now path hash d none scan =
    remember_step w path d.name (w.stat path) scan.registry refl
sync_parsed-CacheStep w now path hash d (some t) scan =
    let step = remember_step w path d.name (w.stat path) scan.registry refl in
    elim (Bool-cases (has_trigger t)) [
      | inr off ↦ rw off step
      | inl on ↦ elim (Bool-cases (is_unchanged (get scan.registry.registered d.name) hash)) [
        | inl same ↦ rw (on, same) step
        | inr new ↦ rw (on, new, register-cache w now path hash d t _) step
      ]
    ]

sync_changed-CacheStep :
    (w : Disk) (now : ℕ) (path : String) (scan : Scan)
    → CacheStep w path scan (sync_changed w now path (mtime_of (w.stat path)) scan)
unfolding sync_changed
sync_changed-CacheStep w now path scan = elim (Option-cases (w.hash_file path)) [
  | inl no_hash ↦ rw (no_hash, sync_changed) (inl refl)
  | inr (hash, h) ↦ elim (Option-cases (w.parse path)) [
    | inl bad ↦ rw (h, sync_changed, bad) (remember_step w path "" (w.stat path) scan.registry refl)
    | inr (d, p) ↦ rw (h, sync_changed, p) (sync_parsed-CacheStep w now path hash d d.trigger scan)
  ]
]

pub sync_file-CacheStep :
    (w : Disk) (now : ℕ) (path : String) (scan : Scan)
    → CacheStep w path scan (sync_file w now path scan)
unfolding sync_file
sync_file-CacheStep w now path scan =
    elim (Option-cases (cached_name (get scan.registry.sync_cache path) (w.stat path))) [
      | inl miss ↦ rw (miss, sync_file) (sync_changed-CacheStep w now path scan)
      | inr (name, hit) ↦ rw (hit, sync_file) (inl refl)
    ]

-- No file changes the sources.
remember-sources :
    (path : String) (t : Option ℕ) (name : String) (r : Registry)
    → (remember path t name r).sources ≡ r.sources
remember-sources path none name r = refl
remember-sources path (some t) name r = refl

tear_down-sources :
    (e : Option DagEntry) (name : String) (r : Registry) → (tear_down e name r).sources ≡ r.sources
tear_down-sources none name r = refl
tear_down-sources (some e) name r = refl

start_catchup-sources :
    (d : Dag) (path mode : String) (r : Registry)
    → (start_catchup d path mode r).sources ≡ r.sources
unfolding start_catchup
start_catchup-sources d path mode r = ground arith

register-sources :
    (w : Disk) (now : ℕ) (path hash : String) (d : Dag) (t : Trigger) (scan : Scan)
    → (register w now path hash d t scan).registry.sources ≡ scan.registry.sources
unfolding register
register-sources w now path hash d t scan =
    let e = get scan.registry.registered d.name in
    elim (Option-cases (cron_of w now t path)) [
      | inl none_eq ↦ rw (none_eq, register) (tear_down-sources e d.name scan.registry)
      | inr (c, some_eq) ↦
          rw (some_eq, register)
            (start_catchup-sources d path t.catchup (tear_down e d.name scan.registry)
              ∙ tear_down-sources e d.name scan.registry)
    ]

sync_parsed-sources :
    (w : Disk) (now : ℕ) (path : String) (mtime : Option ℕ) (hash : String) (d : Dag)
    (trigger : Option Trigger) (scan : Scan)
    → (sync_parsed w now path mtime hash d trigger scan).registry.sources ≡ scan.registry.sources
unfolding sync_parsed
sync_parsed-sources w now path mtime hash d none scan =
    remember-sources path mtime d.name scan.registry
sync_parsed-sources w now path mtime hash d (some t) scan =
    let kept = remember-sources path mtime d.name scan.registry in
    elim (Bool-cases (has_trigger t)) [
      | inr off ↦ rw off kept
      | inl on ↦ elim (Bool-cases (is_unchanged (get scan.registry.registered d.name) hash)) [
        | inl same ↦ rw (on, same) kept
        | inr new ↦ rw (on, new, register-sources w now path hash d t _) kept
      ]
    ]

sync_changed-sources :
    (w : Disk) (now : ℕ) (path : String) (mtime : Option ℕ) (scan : Scan)
    → (sync_changed w now path mtime scan).registry.sources ≡ scan.registry.sources
unfolding sync_changed
sync_changed-sources w now path mtime scan = elim (Option-cases (w.hash_file path)) [
  | inl no_hash ↦ rw (no_hash, sync_changed) refl
  | inr (hash, h) ↦ elim (Option-cases (w.parse path)) [
    | inl bad ↦ rw (h, sync_changed, bad) (remember-sources path mtime "" scan.registry)
    | inr (d, p) ↦
        rw (h, sync_changed, p) (sync_parsed-sources w now path mtime hash d d.trigger scan)
  ]
]

pub sync_file-sources :
    (w : Disk) (now : ℕ) (path : String) (scan : Scan)
    → (sync_file w now path scan).registry.sources ≡ scan.registry.sources
unfolding sync_file
sync_file-sources w now path scan =
    elim (Option-cases (cached_name (get scan.registry.sync_cache path) (w.stat path))) [
      | inl miss ↦
          rw (miss, sync_file) (sync_changed-sources w now path (mtime_of (w.stat path)) scan)
      | inr (name, hit) ↦ rw (hit, sync_file) refl
    ]

pub sync_files-sources :
    (w : Disk) (now : ℕ) (ps : List String) (scan : Scan)
    → (sync_files w now ps scan).registry.sources ≡ scan.registry.sources
unfolding sync_files
sync_files-sources w now [] scan = refl
sync_files-sources w now (p ∷ ps) scan =
    sync_files-sources w now ps (sync_file w now p scan) ∙ sync_file-sources w now p scan
