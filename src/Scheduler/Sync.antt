-- ===== src/Scheduler/Sync.antt =====
-- The registration of the workflows found on disk (scheduler/sync.go, cron_executor.go, catchup.go,
-- scheduler.go). A scan walks the directories of all sources; what it reads of the disk is `Disk`,
-- which does not change within one scan. A cancel function is the name of the trigger it stops.
pub mod Model
pub mod File
pub mod Twice
pub mod Scanned
pub mod Registered
unfoldable pub use daggle.Scheduler.Sync.Model.*
use daggle.Prelude.{
  ℕ, String, Bool, true, false, not, ◌&&◌, ◌||◌, List, [], ◌∷◌, ◌++◌, Option, none, some, ◌==◌,
  if◌then◌else◌, nat_eq, contains,
}
use daggle.Go.Map.{get, put, delete}
use daggle.Go.Strings.{text_append, has_suffix}
use daggle.Dag.Model.{Assoc, Trigger, OnDagTrigger, WebhookTrigger, Dag}

unfoldable pub new_cron_entry :
    Disk → String → String → Option (Assoc String) → ℕ → Option CronEntry
new_cron_entry w expr path params now = elim (w.parse_cron expr) [
  | none ↦ none
  | some next ↦
      some
        (record { schedule = next; expr = expr; dag_path = path; params = params; next = next now })
]

abbrev pub has_trigger : Trigger → Bool
has_trigger t =
    not (t.schedule == "")
    || elim t.watch [ none ↦ false | some _ ↦ true ]
    || elim t.webhook [ none ↦ false | some _ ↦ true ]
    || elim t.on_dag [ none ↦ false | some _ ↦ true ]
    || elim t.condition [ none ↦ false | some _ ↦ true ]
    || elim t.git [ none ↦ false | some _ ↦ true ]

-- What a scan has collected so far.
pub record Scan : Type 0 where
  pub registry : Registry
  pub seen : List String
  pub new_listeners : Assoc (List Listener)
  pub new_webhooks : Assoc WebhookEntry

abbrev pub remember : String → Option ℕ → String → Registry → Registry
remember path none name r = r
remember path (some t) name r = record r {
  sync_cache = put r.sync_cache path (record { mtime = t; dag_name = name });
}

abbrev pub see : String → List String → List String
see name seen = if name == "" then seen else name ∷ seen

-- existing.teardown(); delete(s.registered, d.Name)
abbrev pub tear_down : Option DagEntry → String → Registry → Registry
tear_down none name r = r
tear_down (some e) name r = record r {
  registered = delete r.registered name;
  stopped = r.stopped ++ e.cancel_fns;
}

-- catchupOnce, and `go s.runCatchup`
unfoldable pub start_catchup : Dag → String → String → Registry → Registry
start_catchup d path mode r =
    if (mode == "once" || mode == "all") && not (contains r.catchup_done d.name)
    then record r {
      catchup_done = d.name ∷ r.catchup_done;
      catchups =
          record { catchup_dag = d.name; catchup_path = path; catchup_mode = mode } ∷ r.catchups;
    }
    else r

unfoldable pub cron_of : Disk → ℕ → Trigger → String → Option CronEntry
unfolding new_cron_entry
cron_of w now t path = if t.schedule == "" then none else new_cron_entry w t.schedule path none now

unfoldable pub cancel_fns_of : Disk → Dag → Trigger → List String
cancel_fns_of w d t =
    elim t.watch [ none ↦ [] | some _ ↦ if w.can_watch d then "watch" ∷ [] else [] ]
    ++ elim t.condition [ none ↦ [] | some _ ↦ "condition" ∷ [] ]
    ++ elim t.git [ none ↦ [] | some _ ↦ "git" ∷ [] ]

abbrev pub or_empty : Option (List Listener) → List Listener
or_empty none = []
or_empty (some ls) = ls

unfoldable pub add_listener :
    Option OnDagTrigger → String → Assoc (List Listener) → Assoc (List Listener)
add_listener none path ls = ls
add_listener (some o) path ls = put ls o.name (
    or_empty (get ls o.name)
    ++ record { downstream = path; status = if o.status == "" then "completed" else o.status } ∷ [])

unfoldable pub add_webhook :
    Option WebhookTrigger → Dag → String → Assoc WebhookEntry → Assoc WebhookEntry
add_webhook none d path hooks = hooks
add_webhook (some h) d path hooks =
    put hooks d.name (record { webhook_path = path; secret = h.secret })

-- The triggers of a workflow that is new or has changed.
unfoldable pub register : Disk → ℕ → String → String → Dag → Trigger → Scan → Scan
unfolding start_catchup cron_of cancel_fns_of add_listener add_webhook
register w now path hash d t scan =
    let cron = cron_of w now t path in
    let r = tear_down (get scan.registry.registered d.name) d.name scan.registry in
    let r' : Registry = elim cron [ none ↦ r | some _ ↦ start_catchup d path t.catchup r ] in
    record scan {
      registry = record r' {
        registered =
            put r'.registered d.name
              (record { cron = cron; hash = hash; cancel_fns = cancel_fns_of w d t });
      };
      new_listeners = add_listener t.on_dag path scan.new_listeners;
      new_webhooks = add_webhook t.webhook d path scan.new_webhooks;
    }

-- existing, exists := s.registered[d.Name]; exists && existing.hash == hash
abbrev pub is_unchanged : Option DagEntry → String → Bool
is_unchanged none hash = false
is_unchanged (some e) hash = e.hash == hash

unfoldable pub sync_parsed :
    Disk → ℕ → String → Option ℕ → String → Dag → Option Trigger → Scan → Scan
unfolding register
sync_parsed w now path mtime hash d none scan = record scan {
  registry = remember path mtime d.name scan.registry;
}
sync_parsed w now path mtime hash d (some t) scan =
    let kept : Scan = record scan { registry = remember path mtime d.name scan.registry } in
    let noted : Scan = record kept { seen = d.name ∷ scan.seen } in
    if not (has_trigger t)
    then kept
    else if is_unchanged (get scan.registry.registered d.name) hash
    then noted
    else register w now path hash d t noted

-- The part behind the mtime cache. A file that cannot be hashed is tried again at the next scan.
unfoldable pub sync_changed : Disk → ℕ → String → Option ℕ → Scan → Scan
unfolding sync_parsed
sync_changed w now path mtime scan = elim (w.hash_file path) [
  | none ↦ scan
  | some hash ↦ elim (w.parse path) [
    | none ↦ record scan { registry = remember path mtime "" scan.registry }
    | some d ↦ sync_parsed w now path mtime hash d d.trigger scan
  ]
]

-- cached, ok := s.syncCache[path]; ok && cached.mtime.Equal(info.ModTime())
abbrev pub cached_name : Option CacheEntry → Stat → Option String
cached_name none st = none
cached_name (some c) (found t) = if nat_eq c.mtime t then some c.dag_name else none
cached_name (some c) absent = none
cached_name (some c) unknown = none

abbrev pub mtime_of : Stat → Option ℕ
mtime_of (found t) = some t
mtime_of absent = none
mtime_of unknown = none

unfoldable pub sync_file : Disk → ℕ → String → Scan → Scan
unfolding sync_changed
sync_file w now path scan = elim (cached_name (get scan.registry.sync_cache path) (w.stat path)) [
  | some name ↦ record scan { seen = see name scan.seen }
  | none ↦ sync_changed w now path (mtime_of (w.stat path)) scan
]

-- filepath.Join of a clean directory and a name
abbrev pub join_path : String → String → String
join_path dir name = text_append dir (text_append "/" name)

-- The paths of a directory that a scan looks at.
unfoldable pub dag_paths : String → List DirEntry → List String
dag_paths dir [] = []
dag_paths dir (e ∷ entries) =
    let rest = dag_paths dir entries in
    if not e.is_dir && (has_suffix e.entry_name ".yaml" || has_suffix e.entry_name ".yml")
    then join_path dir e.entry_name ∷ rest
    else rest

unfoldable pub sync_files : Disk → ℕ → List String → Scan → Scan
sync_files w now [] scan = scan
sync_files w now (path ∷ paths) scan = sync_files w now paths (sync_file w now path scan)

-- A directory that is missing or cannot be read is passed over.
unfoldable pub paths_of : Listing → String → List String
unfolding dag_paths
paths_of no_dir dir = []
paths_of unreadable dir = []
paths_of (listing entries) dir = dag_paths dir entries

unfoldable pub sync_sources : Disk → ℕ → List Source → Scan → Scan
unfolding sync_files paths_of
sync_sources w now [] scan = scan
sync_sources w now (src ∷ sources) scan =
    sync_sources w now sources (sync_files w now (paths_of (w.read_dir src.dir) src.dir) scan)

-- The registered workflows that were not seen are torn down.
unfoldable pub prune_registered : List String → Assoc DagEntry → Assoc DagEntry
prune_registered seen [] = []
prune_registered seen ((name, e) ∷ m) =
    let rest = prune_registered seen m in if contains seen name then (name, e) ∷ rest else rest

unfoldable pub pruned_fns : List String → Assoc DagEntry → List String
pruned_fns seen [] = []
pruned_fns seen ((name, e) ∷ m) =
    let rest = pruned_fns seen m in if contains seen name then rest else e.cancel_fns ++ rest

unfoldable pub prune_cache : Disk → Assoc CacheEntry → Assoc CacheEntry
prune_cache w [] = []
prune_cache w ((path, c) ∷ m) =
    let rest = prune_cache w m in
    elim (w.stat path) [ absent ↦ rest | found t ↦ (path, c) ∷ rest | unknown ↦ (path, c) ∷ rest ]

unfoldable pub prune_unregistered_dags : Disk → Scan → Registry
unfolding prune_registered pruned_fns prune_cache
prune_unregistered_dags w scan = record scan.registry {
  registered = prune_registered scan.seen scan.registry.registered;
  stopped = scan.registry.stopped ++ pruned_fns scan.seen scan.registry.registered;
  sync_cache = prune_cache w scan.registry.sync_cache;
  listeners = scan.new_listeners;
  webhooks = scan.new_webhooks;
}

abbrev pub needs_server : Assoc WebhookEntry → Bool
needs_server [] = false
needs_server (h ∷ hooks) = true

unfoldable pub sync_webhook_server : Disk → Registry → Registry
sync_webhook_server w r =
    if needs_server r.webhooks && not r.server_open
    then record r { server_open = w.can_serve }
    else if not (needs_server r.webhooks) && r.server_open
    then record r { server_open = false }
    else r

abbrev pub empty_scan : Registry → Scan
empty_scan r = record { registry = r; seen = []; new_listeners = []; new_webhooks = [] }

unfoldable pub sync_dags : Disk → ℕ → Registry → Registry
unfolding sync_sources prune_unregistered_dags sync_webhook_server
sync_dags w now r =
    sync_webhook_server w (prune_unregistered_dags w (sync_sources w now r.sources (empty_scan r)))
