-- ===== src/Scheduler/Sync/Registered.antt =====
-- Which workflows the first scan of a scheduler registers.
use daggle.Prelude.{
  ℕ, String, ◌≡◌, refl, sym, ap, ◌∙◌, Bool, true, false, ◌&&◌, ◌||◌, List, [], ◌∷◌, some, eq_iff,
  arith, contains,
}
use daggle.Go.Map.{get, keys}
use daggle.Dag.Model.{Assoc}
use daggle.Scheduler.Sync.{
  Disk, Scan, Registry, CacheEntry, DagEntry, sync_file, sync_files, sync_dags, prune_registered,
  prune_unregistered_dags, sync_webhook_server, empty_scan,
}
use daggle.Scheduler.Sync.File.{all_paths, sync_sources-eq}
use daggle.Scheduler.Sync.Scanned.{
  triggered_by, is_name, is_triggered, Names, add_name, IsScanned, file_next,
}

or_swap : (a b c : Bool) → (a || (b || c)) ≡ ((b || a) || c)
or_swap a b c = ground arith

or_false_right : (a : Bool) → (a || false) ≡ a
or_false_right a = ground arith

no_entry : (q : String) (c : CacheEntry) → get {V = CacheEntry} [] q ≡ some c → ⊥
no_entry q c e = cc e

-- The names of all files.
add_names : Disk → List String → Names → Names
add_names w [] names = names
add_names w (path ∷ paths) names = add_names w paths (add_name (triggered_by w path) names)

add_names-eq :
    (w : Disk) (paths : List String) (names : Names) (n : String)
    → add_names w paths names n ≡ (is_triggered w paths n || names n)
unfolding add_names is_triggered
add_names-eq w [] names n = refl
add_names-eq w (path ∷ paths) names n =
    add_names-eq w paths (add_name (triggered_by w path) names) n
    ∙ or_swap (is_triggered w paths n) (is_name (triggered_by w path) n) (names n)

files_next :
    (w : Disk) (now : ℕ) (paths : List String) (names : Names) (scan : Scan)
    → IsScanned w names scan
    → IsScanned w (add_names w paths names) (sync_files w now paths scan)
unfolding add_names sync_files
files_next w now [] names scan old = old
files_next w now (path ∷ paths) names scan old =
    files_next w now paths (add_name (triggered_by w path) names) (sync_file w now path scan)
      (file_next w now names path scan old)

-- A scan prunes no name that it has seen.
prune_keys :
    (seen : List String) (m : Assoc DagEntry) (n : String)
    → contains (keys (prune_registered seen m)) n ≡ (contains (keys m) n && contains seen n)
unfolding prune_registered
prune_keys seen [] n = refl
prune_keys seen ((name, e) ∷ m) n = ground (arith, eq_iff name n, prune_keys seen m n)

server-registered : (w : Disk) (r : Registry) → (sync_webhook_server w r).registered ≡ r.registered
unfolding sync_webhook_server
server-registered w r = ground arith

seen_of_named : (a b c : Bool) → a ≡ b → (b ≡ true → c ≡ true) → (a && c) ≡ b
seen_of_named a true c e h = rw (e, h refl) refl
seen_of_named a false c e h = rw e refl

-- The first scan of a scheduler, with nothing registered and an empty cache, registers a workflow
-- name exactly when some file that can be read and parsed has a workflow of that name with a
-- trigger, whatever files fail or share a name.
pub sync_dags-registered_iff :
    (w : Disk) (now : ℕ) (r : Registry) (n : String)
    → r.registered ≡ []
    → r.sync_cache ≡ []
    → contains (keys (sync_dags w now r).registered) n ≡ is_triggered w (all_paths w r.sources) n
unfolding sync_dags prune_unregistered_dags is_triggered
sync_dags-registered_iff w now r n no_dags no_cache =
    let paths = all_paths w r.sources in
    let start : IsScanned w (λ m. false) (empty_scan r) = record {
      noticed = λ m h. cc;
      held = λ m. ap (λ (ds : Assoc DagEntry). contains (keys ds) m) no_dags;
      known = λ q c e. absurd (no_entry q c (ap (λ m. get m q) (sym no_cache) ∙ e));
    } in
    let scan = sync_files w now paths (empty_scan r) in
    let done = files_next w now paths (λ m. false) (empty_scan r) start in
    rw
      (
        sync_sources-eq w now r.sources (empty_scan r),
        server-registered w (prune_unregistered_dags w scan),
      )
      (prune_keys scan.seen scan.registry.registered n
        ∙ seen_of_named _ _ _ (done.held n) (done.noticed n)
        ∙ add_names-eq w paths (λ m. false) n
        ∙ or_false_right (is_triggered w paths n))
