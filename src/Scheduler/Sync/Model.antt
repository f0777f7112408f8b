-- ===== src/Scheduler/Sync/Model.antt =====
-- What a scan of the scheduler keeps and what it reads (scheduler/sync.go, scheduler.go,
-- trigger_ondag.go, webhook.go).
use daggle.Prelude.{ℕ, String, Bool, List, Option}
use daggle.Dag.Model.{Assoc, Dag}

pub record Source : Type 0 where
  pub name : String
  pub dir : String

-- A schedule is its `Next`; a time is its distance from Go's zero time. `none` are nil parameters.
pub record CronEntry : Type 0 where
  pub schedule : ℕ → ℕ
  pub expr : String
  pub dag_path : String
  pub params : Option (Assoc String)
  pub next : ℕ

pub record DagEntry : Type 0 where
  pub cron : Option CronEntry
  pub hash : String
  pub cancel_fns : List String

pub record Listener : Type 0 where
  pub downstream : String
  pub status : String

pub record WebhookEntry : Type 0 where
  pub webhook_path : String
  pub secret : String

pub record CacheEntry : Type 0 where
  pub mtime : ℕ
  pub dag_name : String

-- A goroutine that `runCatchup` runs in.
pub record CatchupCall : Type 0 where
  pub catchup_dag : String
  pub catchup_path : String
  pub catchup_mode : String

-- The fields of `Scheduler` that a scan reads and writes, with what it has started and stopped.
pub record Registry : Type 0 where
  pub sources : List Source
  pub registered : Assoc DagEntry
  pub listeners : Assoc (List Listener)
  pub webhooks : Assoc WebhookEntry
  pub server_open : Bool
  pub catchup_done : List String
  pub sync_cache : Assoc CacheEntry
  pub catchups : List CatchupCall
  pub stopped : List String

pub data Stat : Type 0 where
  found : ℕ → Stat
  absent unknown : Stat

pub record DirEntry : Type 0 where
  pub entry_name : String
  pub is_dir : Bool

pub data Listing : Type 0 where
  no_dir unreadable : Listing
  listing : List DirEntry → Listing

-- `parse` is `ParseFile`, `can_watch` whether the file watcher of a workflow starts, `can_serve`
-- whether the webhook server does.
pub record Disk : Type 0 where
  pub read_dir : String → Listing
  pub stat : String → Stat
  pub hash_file : String → Option String
  pub parse : String → Option Dag
  pub parse_cron : String → Option (ℕ → ℕ)
  pub can_watch : Dag → Bool
  pub can_serve : Bool
