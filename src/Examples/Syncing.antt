-- ===== src/Examples/Syncing.antt =====
-- A scheduler that scans one directory, with a workflow that waits for another one.
use daggle.Prelude.{
  ◌≡◌, ◌↔◌, ◌⊎◌, refl, true, false, [], ◌∷◌, none, some, ◌==◌, if◌then◌else◌, contains, All,
}
use daggle.Prelude.Int.{pos}
use daggle.Go.Map.{get, keys}
use daggle.Go.Text.{Text, codes}
use daggle.Go.Bytes.{first_bytes}
use daggle.Go.Hex.{hex_decode}
use daggle.Dag.Model.{Trigger, Dag}
use daggle.Scheduler.Sync.{
  Disk, Registry, found, absent, listing, no_dir, WebhookEntry, sync_dags, sync_file, paths_of,
}
use daggle.Scheduler.Sync.File.{all_paths}
use daggle.Scheduler.Sync.Twice.{IsReadable, sync_dags_twice}
use daggle.Scheduler.Sync.Scanned.{is_triggered, triggered_by}
use daggle.Scheduler.Sync.Registered.{sync_dags-registered_iff}
use daggle.Scheduler.Dispatch.{dispatch_completion}
use daggle.Scheduler.Webhook.{
  Mac, IsSigned, handle_webhook, accepted, forbidden, handle_webhook-accepted_iff,
}

abbrev after_etl : Trigger
after_etl = record {
  schedule = "";
  watch = none;
  webhook = none;
  on_dag = some (record { name = "etl"; status = ""; pass_outputs = false });
  condition = none;
  git = none;
  overlap = "";
  catchup = "";
  deadline = "";
  on_deadline = none;
}

abbrev report : Dag
report = record {
  version = "1";
  name = "report";
  trigger = some after_etl;
  env = none;
  params = [];
  steps = [];
  workdir = "";
  max_parallel = pos 0;
  owner = "";
  team = "";
  description = "";
  tags = [];
  exposures = [];
  r_version = "";
  r_version_strict = false;
  source_dir = "";
  on_success = none;
  on_failure = none;
  on_exit = none;
}

abbrev disk : Disk
disk = record {
  read_dir = λ dir.
      if dir == "/dags"
      then listing (
          record { entry_name = "report.yaml"; is_dir = false }
          ∷ record { entry_name = "notes.md"; is_dir = false }
          ∷ [])
      else no_dir;
  stat = λ path. if path == "/dags/report.yaml" then found 100 else absent;
  hash_file = λ path. some "abc";
  parse = λ path. some report;
  parse_cron = λ expr. none;
  can_watch = λ d. true;
  can_serve = true;
}

abbrev fresh : Registry
fresh = record {
  sources = record { name = "global"; dir = "/dags" } ∷ [];
  registered = [];
  listeners = [];
  webhooks = [];
  server_open = false;
  catchup_done = [];
  sync_cache = [];
  catchups = [];
  stopped = [];
}

-- After the first scan a completed run of `etl` triggers the report.
fires_first :
    dispatch_completion
      (sync_dags disk 0 fresh).listeners
      (record { event_dag = "etl"; event_status = "completed" })
    ≡ "/dags/report.yaml" ∷ []
unfolding sync_dags sync_file dispatch_completion
fires_first = refl

-- After the second scan it triggers nothing, although the report is still registered.
silent_second :
    dispatch_completion
      (sync_dags disk 30 (sync_dags disk 0 fresh)).listeners
      (record { event_dag = "etl"; event_status = "completed" })
    ≡ []
unfolding sync_dags sync_file dispatch_completion
silent_second = refl

still_registered : keys (sync_dags disk 30 (sync_dags disk 0 fresh)).registered ≡ "report" ∷ []
unfolding sync_dags sync_file
still_registered = refl

readable : All (IsReadable disk) (all_paths disk fresh.sources)
unfolding all_paths paths_of
readable = (((100, refl), ("abc", refl)), tt)

sync_dags_twice_example :
    ((sync_dags disk 30 (sync_dags disk 0 fresh)).listeners ≡ [])
    × ((sync_dags disk 30 (sync_dags disk 0 fresh)).webhooks ≡ [])
    × ((sync_dags disk 30 (sync_dags disk 0 fresh)).server_open ≡ false)
sync_dags_twice_example = sync_dags_twice disk 0 30 fresh readable

sync_dags-registered_iff_example :
    contains (keys (sync_dags disk 0 fresh).registered) "report"
    ≡ is_triggered disk (all_paths disk fresh.sources) "report"
sync_dags-registered_iff_example = sync_dags-registered_iff disk 0 fresh "report" refl refl

report_triggered : is_triggered disk (all_paths disk fresh.sources) "report" ≡ true
unfolding is_triggered triggered_by all_paths paths_of
report_triggered = refl

-- A webhook with a secret; the code of a body is the body itself here.
abbrev echo : Mac
echo secret body = body

abbrev hook : WebhookEntry
hook = record { webhook_path = "/dags/etl.yaml"; secret = "s3cret" }

signed :
    handle_webhook echo (("etl", hook) ∷ []) "etl" (some (codes "hi")) (codes "sha256=6869")
    ≡ accepted "/dags/etl.yaml"
unfolding handle_webhook hex_decode
signed = refl

unsigned :
    handle_webhook echo (("etl", hook) ∷ []) "etl" (some (codes "hi")) (codes "6869") ≡ forbidden
unfolding handle_webhook
unsigned = refl

handle_webhook-accepted_iff_example :
    (handle_webhook echo (("etl", hook) ∷ []) "etl" (some (codes "hi")) (codes "sha256=6869")
      ≡ accepted "/dags/etl.yaml")
    ↔ ((e : WebhookEntry) × (get (("etl", hook) ∷ []) "etl" ≡ some e)
        × (e.webhook_path ≡ "/dags/etl.yaml")
        × (b : Text) × (some (codes "hi") ≡ some b)
        × ((e.secret ≡ "")
            ⊎ IsSigned echo (first_bytes 1_048_576 b) (codes "sha256=6869") (codes e.secret)))
handle_webhook-accepted_iff_example =
    handle_webhook-accepted_iff echo (("etl", hook) ∷ []) "etl" "/dags/etl.yaml" (some (codes "hi"))
      (codes "sha256=6869")
