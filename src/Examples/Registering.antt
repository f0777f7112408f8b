-- ===== src/Examples/Registering.antt =====
-- Runtime schedules of two workflows, one of which has no file any more.
use daggle.Prelude.{
  ◌+◌, String, ◌≡◌, ◌↔◌, refl, true, false, [], ◌∷◌, none, some, ◌==◌, eq_iff, arith, Bool-cases,
  inl, inr, ap, subst, ◌∙◌, some_injective,
}
use daggle.Go.Map.{get}
use daggle.Scheduler.Sync.{Disk, no_dir, absent, CronEntry}
use daggle.State.Schedules.{
  ScheduleEntry, Store, Yaml, ok, FileState, content, or_nil, load_schedules,
  update_schedule_enabled,
}
use daggle.State.Schedules.Entries.{AreDistinct, find_entry}
use daggle.State.Schedules.Refines.{
  IsRegistry, view, remove, run_request, spec_step, Refines, run_request-Refines,
}
use daggle.Scheduler.RuntimeSchedules.{
  World, Schedules, RuntimeSchedule, deadlocked, done, load_runtime_schedules,
  set_runtime_schedule_enabled, is_yaml_schedule_id, remove_runtime_schedule,
}
use daggle.Scheduler.RuntimeSchedules.Deadlock.{set_runtime_schedule_enabled-deadlocked_iff}
use daggle.Scheduler.RuntimeSchedules.Agreement.{Agrees}
use daggle.Scheduler.RuntimeSchedules.Preserved.{remove_call, run_call, run_call-Agrees}

abbrev plain : Yaml
plain = record {
  Bytes = Store;
  marshal = λ s. s;
  unmarshal = λ s. some s;
  unmarshal_marshal = λ s. refl;
}

abbrev nightly : ScheduleEntry
nightly = record { id = "sch_1"; cron = "0 3 * * *"; enabled = false; params = [] }

abbrev weekly : ScheduleEntry
weekly = record { id = "sch_2"; cron = "0 3 * * 0"; enabled = true; params = [] }

abbrev stored : Store
stored = ("etl", nightly ∷ []) ∷ ("old", weekly ∷ []) ∷ []

abbrev file : FileState Store
file = content stored

stored-distinct : (d : String) → AreDistinct (or_nil (get stored d))
unfolding find_entry
stored-distinct d = ground arith

stored-IsRegistry : IsRegistry stored
stored-IsRegistry = record { is_map = (refl, (refl, tt)); distinct = stored-distinct }

stored-loads : load_schedules plain file ≡ ok stored
unfolding load_schedules
stored-loads = refl

run_request-Refines_example :
    Refines plain
      (run_request plain (remove "etl" "sch_1") file)
      (spec_step (remove "etl" "sch_1") (view stored))
run_request-Refines_example =
    run_request-Refines plain stored file (remove "etl" "sch_1") stored-IsRegistry stored-loads tt

-- The workflow `etl` has a file; `old` has none any more.
abbrev no_disk : Disk
no_disk = record {
  read_dir = λ dir. no_dir;
  stat = λ path. absent;
  hash_file = λ path. none;
  parse = λ path. none;
  parse_cron = λ expr. some (λ t. t + 60);
  can_watch = λ d. false;
  can_serve = false;
}

abbrev world : World
world = record {
  disk = no_disk;
  sources = record { name = "global"; dir = "/dags" } ∷ [];
  is_file = λ path. path == "/dags/etl.yaml";
  writable = true;
  now = 100;
  new_id = "3";
}

abbrev started : Schedules Store
started = load_runtime_schedules plain world (record { runtime = []; file = file })

-- The schedule of `old` is in the file and not in the map.
not_loaded : get started.runtime "sch_2" ≡ none
unfolding load_runtime_schedules
not_loaded = refl

-- Disabling it never returns.
old_deadlocks : set_runtime_schedule_enabled plain world "old" "sch_2" false started ≡ deadlocked
unfolding load_runtime_schedules set_runtime_schedule_enabled
old_deadlocks = refl

set_runtime_schedule_enabled-deadlocked_iff_example :
    (set_runtime_schedule_enabled plain world "old" "sch_2" false started ≡ deadlocked) ↔ (
      (is_yaml_schedule_id "sch_2" ≡ false)
      × (get started.runtime "sch_2" ≡ none)
      × (u : ScheduleEntry) × (f : FileState Store) × (update_schedule_enabled plain true "old"
            "sch_2" false started.file
          ≡ ok (u, f)))
set_runtime_schedule_enabled-deadlocked_iff_example =
    set_runtime_schedule_enabled-deadlocked_iff plain world "old" "sch_2" false started

abbrev etl_schedule : RuntimeSchedule
etl_schedule = record {
  dag_name = "etl";
  entry = nightly;
  dag_path = "/dags/etl.yaml";
  cron = none;
}

abbrev running : Schedules Store
running = record { runtime = ("sch_1", etl_schedule) ∷ []; file = file }

running_unique :
    (d d' i : String) (e e' : ScheduleEntry)
    → view stored d i ≡ some e
    → view stored d' i ≡ some e'
    → d ≡ d'
unfolding view find_entry
running_unique d d' i e e' h h' = ground (
  arith,
  eq_iff "etl" d,
  eq_iff "etl" d',
  eq_iff "old" d,
  eq_iff "old" d',
  eq_iff "sch_1" i,
  eq_iff "sch_2" i,
  eq_iff "sch_1" "sch_2",
)

running-known :
    (id : String) (rs : RuntimeSchedule)
    → get running.runtime id ≡ some rs
    → view stored rs.dag_name id ≡ some rs.entry
unfolding view find_entry
running-known id rs h = elim (Bool-cases ("sch_1" == id)) [
  | inl same ↦
      let at : etl_schedule ≡ rs = some_injective (rw same at h) in
      subst (λ (r : RuntimeSchedule). view stored r.dag_name id ≡ some r.entry) at
        (subst (λ i. view stored "etl" i ≡ some nightly) ((eq_iff "sch_1" id).0 same) refl)
  | inr other ↦ cc (rw other at h)
]

running-firing :
    (id : String) (rs : RuntimeSchedule) (c : CronEntry)
    → get running.runtime id ≡ some rs
    → rs.cron ≡ some c
    → rs.entry.enabled ≡ true
running-firing id rs c h k = elim (Bool-cases ("sch_1" == id)) [
  | inl same ↦ cc (ap (λ (r : RuntimeSchedule). r.cron) (some_injective (rw same at h)) ∙ k)
  | inr other ↦ cc (rw other at h)
]

running-Agrees : Agrees plain running
running-Agrees = record {
  store = stored;
  loaded = stored-loads;
  registry = stored-IsRegistry;
  unique = running_unique;
  known = running-known;
  firing = running-firing;
}

abbrev without_etl : Schedules Store
without_etl = record { runtime = []; file = content (("old", weekly ∷ []) ∷ []) }

removes_etl : run_call plain world (remove_call "etl" "sch_1") running ≡ done none without_etl
unfolding run_call remove_runtime_schedule
removes_etl = refl

run_call-Agrees_example : Agrees plain without_etl
run_call-Agrees_example =
    run_call-Agrees plain world (remove_call "etl" "sch_1") running without_etl none running-Agrees
      refl tt removes_etl
