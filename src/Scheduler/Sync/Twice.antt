-- ===== src/Scheduler/Sync/Twice.antt =====
-- Two scans of a disk that does not change between them.
use daggle.Prelude.{
  ℕ, String, ◌≡◌, subst, refl, sym, ap, ◌∙◌, inl, inr, false, List, [], ◌∷◌, Option, none, some,
  ◌==◌, eq_iff, arith, Bool-cases, Option-cases, All, All-map,
}
use daggle.Go.Map.{get, put, get-put}
use daggle.Dag.Model.{Assoc, Dag}
use daggle.Scheduler.Sync.{
  Disk, Scan, Registry, Stat, found, absent, unknown, CacheEntry, cached_name, mtime_of, sync_file,
  sync_changed, sync_parsed, sync_files, prune_cache, prune_unregistered_dags, sync_webhook_server,
  sync_dags, empty_scan, has_trigger, is_unchanged, see,
}
use daggle.Scheduler.Sync.File.{
  all_paths, sync_sources-eq, sync_file-CacheStep, register-cache, sync_files-sources,
}

-- The file has a modification time, and its content can be read.
abbrev pub IsReadable : Disk → String → Type 0
IsReadable w path =
    ((t : ℕ) × (w.stat path ≡ found t)) × ((hash : String) × (w.hash_file path ≡ some hash))

-- The cache knows the file at the time that it has on disk.
abbrev pub IsCached : Disk → Assoc CacheEntry → String → Type 0
IsCached w cache path = (c : CacheEntry) × (get cache path ≡ some c) × (w.stat path ≡ found c.mtime)

IsCached-put :
    (w : Disk) (cache : Assoc CacheEntry) (path q name : String) (t : ℕ)
    → w.stat path ≡ found t
    → IsCached w cache q
    → IsCached w (put cache path (record { mtime = t; dag_name = name })) q
IsCached-put w cache path q name t st (c, e, h) = elim (Bool-cases (path == q)) [
  | inl same ↦ (
    record { mtime = t; dag_name = name },
    get-put cache path q _ ∙ (rw same refl),
    ap w.stat (sym ((eq_iff path q).0 same)) ∙ st,
  )
  | inr other ↦ (c, get-put cache path q _ ∙ (rw other e), h)
]

-- What the cache knows it keeps.
sync_file-keeps :
    (w : Disk) (now : ℕ) (path q : String) (scan : Scan)
    → IsCached w scan.registry.sync_cache q
    → IsCached w (sync_file w now path scan).registry.sync_cache q
sync_file-keeps w now path q scan h = elim (sync_file-CacheStep w now path scan) [
  | inl same ↦ rw same h
  | inr (t, name, st, e) ↦ rw e (IsCached-put w scan.registry.sync_cache path q name t st h)
]

put_self :
    (w : Disk) (cache : Assoc CacheEntry) (path name : String) (t : ℕ)
    → w.stat path ≡ found t
    → IsCached w (put cache path (record { mtime = t; dag_name = name })) path
put_self w cache path name t st = (
  record { mtime = t; dag_name = name },
  get-put cache path path _ ∙ (rw ((eq_iff path path).1 refl) refl),
  st,
)

parsed-IsCached :
    (w : Disk) (now : ℕ) (path hash : String) (t : ℕ) (d : Dag) (scan : Scan)
    → w.stat path ≡ found t
    → IsCached w (sync_parsed w now path (some t) hash d d.trigger scan).registry.sync_cache path
unfolding sync_parsed
parsed-IsCached w now path hash t d scan st =
    let kept = put_self w scan.registry.sync_cache path d.name t st in
    elim (Option-cases d.trigger) [
      | inl off ↦ rw (off, sync_parsed) kept
      | inr (tr, on) ↦ elim (Bool-cases (has_trigger tr)) [
        | inr idle ↦ rw (on, sync_parsed, idle) kept
        | inl live ↦ elim (Bool-cases (is_unchanged (get scan.registry.registered d.name) hash)) [
          | inl same ↦ rw (on, sync_parsed, live, same) kept
          | inr new ↦ rw (on, sync_parsed, live, new, register-cache w now path hash d tr _) kept
        ]
      ]
    ]

hit-IsCached :
    (w : Disk) (cache : Assoc CacheEntry) (path name : String) (c : Option CacheEntry) (st : Stat)
    → get cache path ≡ c
    → w.stat path ≡ st
    → cached_name c st ≡ some name
    → IsCached w cache path
hit-IsCached w cache path name none st e h k = cc
hit-IsCached w cache path name (some c) absent e h k = cc
hit-IsCached w cache path name (some c) unknown e h k = cc
hit-IsCached w cache path name (some c) (found t) e h k = (c, e, h ∙ ap found (ground arith))

changed-IsCached :
    (w : Disk) (now : ℕ) (path : String) (t : ℕ) (scan : Scan)
    → w.stat path ≡ found t
    → ((hash : String) × (w.hash_file path ≡ some hash))
    → IsCached w (sync_changed w now path (some t) scan).registry.sync_cache path
unfolding sync_changed
changed-IsCached w now path t scan st (hash, h) = elim (Option-cases (w.parse path)) [
  | inl bad ↦ rw (h, sync_changed, bad) (put_self w scan.registry.sync_cache path "" t st)
  | inr (d, p) ↦ rw (h, sync_changed, p) (parsed-IsCached w now path hash t d scan st)
]

-- A readable file is in the cache after its turn.
sync_file-caches :
    (w : Disk) (now : ℕ) (path : String) (scan : Scan)
    → IsReadable w path
    → IsCached w (sync_file w now path scan).registry.sync_cache path
unfolding sync_file
sync_file-caches w now path scan ((t, st), content) =
    let cache = scan.registry.sync_cache in
    elim (Option-cases (cached_name (get cache path) (w.stat path))) [
      | inr (name, hit) ↦
          rw (hit, sync_file)
            (hit-IsCached w cache path name (get cache path) (w.stat path) refl refl hit)
      | inl miss ↦
          rw (miss, sync_file)
            (subst (λ m. IsCached w (sync_changed w now path m scan).registry.sync_cache path)
              (sym (ap mtime_of st)) (changed-IsCached w now path t scan st content))
    ]

sync_files-keeps :
    (w : Disk) (now : ℕ) (ps : List String) (q : String) (scan : Scan)
    → IsCached w scan.registry.sync_cache q
    → IsCached w (sync_files w now ps scan).registry.sync_cache q
unfolding sync_files
sync_files-keeps w now [] q scan h = h
sync_files-keeps w now (p ∷ ps) q scan h =
    sync_files-keeps w now ps q (sync_file w now p scan) (sync_file-keeps w now p q scan h)

sync_files-caches :
    (w : Disk) (now : ℕ) (ps : List String) (scan : Scan)
    → All (IsReadable w) ps
    → All (IsCached w (sync_files w now ps scan).registry.sync_cache) ps
unfolding sync_files
sync_files-caches w now [] scan h = tt
sync_files-caches w now (p ∷ ps) scan h = (
  sync_files-keeps w now ps p (sync_file w now p scan) (sync_file-caches w now p scan h.0),
  sync_files-caches w now ps (sync_file w now p scan) h.1,
)

same_time : (c : CacheEntry) → cached_name (some c) (found c.mtime) ≡ some c.dag_name
same_time c = ground arith

-- Where the cache knows every file, a scan notes the names and does nothing else.
sync_file-cached :
    (w : Disk) (now : ℕ) (path : String) (scan : Scan)
    → IsCached w scan.registry.sync_cache path
    → (seen : List String) × (sync_file w now path scan ≡ record scan { seen = seen })
unfolding sync_file
sync_file-cached w now path scan (c, e, st) =
    let hit : cached_name (get scan.registry.sync_cache path) (w.stat path) ≡ some c.dag_name =
      ap (λ o. cached_name o (w.stat path)) e ∙ ap (cached_name (some c)) st ∙ same_time c in
    (see c.dag_name scan.seen, rw (hit, sync_file) refl)

sync_files-cached :
    (w : Disk) (now : ℕ) (ps : List String) (scan : Scan)
    → All (IsCached w scan.registry.sync_cache) ps
    → (seen : List String) × (sync_files w now ps scan ≡ record scan { seen = seen })
unfolding sync_files
sync_files-cached w now [] scan h = (scan.seen, refl)
sync_files-cached w now (p ∷ ps) scan h =
    let (seen, e) = sync_file-cached w now p scan h.0 in
    let (seen', e') = sync_files-cached w now ps (record scan { seen = seen }) h.1 in
    (seen', ap (sync_files w now ps) e ∙ e')

prune_cache-get :
    (w : Disk) (m : Assoc CacheEntry) (path : String) (t : ℕ)
    → w.stat path ≡ found t
    → get (prune_cache w m) path ≡ get m path
unfolding prune_cache
prune_cache-get w [] path t h = refl
prune_cache-get w ((q, c) ∷ m) path t h =
    ground (arith, eq_iff q path, prune_cache-get w m path t h)

-- The scan of `syncDAGs`, before the pruning.
abbrev scanned : Disk → ℕ → Registry → Scan
scanned w now r = sync_files w now (all_paths w r.sources) (empty_scan r)

abbrev pruned : Disk → ℕ → Registry → Registry
pruned w now r = prune_unregistered_dags w (scanned w now r)

server-keeps :
    (w : Disk) (r : Registry)
    → ((sync_webhook_server w r).sync_cache ≡ r.sync_cache)
      × ((sync_webhook_server w r).sources ≡ r.sources)
      × ((sync_webhook_server w r).listeners ≡ r.listeners)
      × ((sync_webhook_server w r).webhooks ≡ r.webhooks)
unfolding sync_webhook_server
server-keeps w r = ground arith

server-closed :
    (w : Disk) (r : Registry) → r.webhooks ≡ [] → (sync_webhook_server w r).server_open ≡ false
unfolding sync_webhook_server
server-closed w r h = ground arith

-- A scan of cached files collects no listeners and no webhooks.
cached_scan :
    (w : Disk) (now : ℕ) (r : Registry)
    → All (IsCached w r.sync_cache) (all_paths w r.sources)
    → ((sync_dags w now r).listeners ≡ [])
      × ((sync_dags w now r).webhooks ≡ [])
      × ((sync_dags w now r).server_open ≡ false)
unfolding sync_dags prune_unregistered_dags
cached_scan w now r h =
    let (seen, e) = sync_files-cached w now (all_paths w r.sources) (empty_scan r) h in
    let e' = sync_sources-eq w now r.sources (empty_scan r) ∙ e in
    let p = prune_unregistered_dags w (record (empty_scan r) { seen = seen }) in
    let keeps = server-keeps w p in rw e' (keeps.2, keeps.3, server-closed w p refl)

scanned-IsCached :
    (w : Disk) (now : ℕ) (r : Registry)
    → All (IsReadable w) (all_paths w r.sources)
    → All (IsCached w (sync_dags w now r).sync_cache) (all_paths w (sync_dags w now r).sources)
unfolding sync_dags prune_unregistered_dags
scanned-IsCached w now r h =
    let scan = sync_files w now (all_paths w r.sources) (empty_scan r) in
    let cached = sync_files-caches w now (all_paths w r.sources) (empty_scan r) h in
    let p = prune_unregistered_dags w scan in
    let keeps = server-keeps w p in
    rw
      (
        sync_sources-eq w now r.sources (empty_scan r),
        keeps.0,
        keeps.1,
        sync_files-sources w now (all_paths w r.sources) (empty_scan r),
      )
      (All-map (all_paths w r.sources)
        (λ path c. (c.0, prune_cache-get w scan.registry.sync_cache path c.0.mtime c.2 ∙ c.1, c.2))
        cached)

-- From any state of the scheduler, two scans of files that can all be read and have not changed
-- between the scans end with no on_dag listener, no webhook and no webhook server, whatever
-- triggers the workflows in the files have.
pub sync_dags_twice :
    (w : Disk) (now later : ℕ) (r : Registry)
    → All (IsReadable w) (all_paths w r.sources)
    → ((sync_dags w later (sync_dags w now r)).listeners ≡ [])
      × ((sync_dags w later (sync_dags w now r)).webhooks ≡ [])
      × ((sync_dags w later (sync_dags w now r)).server_open ≡ false)
sync_dags_twice w now later r h =
    cached_scan w later (sync_dags w now r) (scanned-IsCached w now r h)
