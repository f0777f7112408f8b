-- ===== src/Scheduler/RuntimeSchedules.antt =====
-- The schedules added at run time (scheduler/runtime_schedules.go): the scheduler's map and the
-- registry file behind it. Calls come one after another; the mutex of the scheduler is modelled where
-- a function takes it while its caller may hold it: it is not reentrant, so that the call never ends.
pub mod Model
pub mod Deadlock
pub mod Agreement
pub mod Entries
pub mod Enabled
pub mod Added
pub mod Preserved
unfoldable pub use daggle.Scheduler.RuntimeSchedules.Model.*
use daggle.Prelude.{
  ℕ, String, ◌≡◌, Bool, true, false, not, ◌&&◌, List, [], ◌∷◌, ◌++◌, Option, none, some, ◌==◌,
  if◌then◌else◌, ltb,
}
use daggle.Go.Map.{get, put, delete}
use daggle.Go.Strings.{text_append, cut_prefix, size, text_less}
use daggle.Dag.Model.{Assoc}
use daggle.Scheduler.Sync.{Source, CronEntry, DagEntry, Disk, new_cron_entry}
use daggle.State.Schedules.{
  ScheduleEntry, Store, Yaml, Failure, Result, ok, err, FileState, load_schedules, add_schedule,
  remove_schedule, update_schedule_enabled,
}

-- len(id) > 5 && id[:5] == "yaml-"
abbrev pub has_yaml_prefix : Option String → Bool
has_yaml_prefix none = false
has_yaml_prefix (some rest) = not (rest == "")

unfoldable pub is_yaml_schedule_id : String → Bool
is_yaml_schedule_id id = has_yaml_prefix (cut_prefix "yaml-" id)

-- The first file with the workflow's name in a source, or "".
unfoldable pub first_path : World → String → List Source → String
first_path w dag_name [] = ""
first_path w dag_name (src ∷ sources) =
    let base = text_append src.dir (text_append "/" dag_name) in
    let rest = first_path w dag_name sources in
    if w.is_file (text_append base ".yaml")
    then text_append base ".yaml"
    else if w.is_file (text_append base ".yml")
    then text_append base ".yml"
    else rest

-- `none` is a call that never ends: the lock is held by the caller.
unfoldable pub dag_path_for : World → Bool → String → Option String
unfolding first_path
dag_path_for w held dag_name = if held then none else some (first_path w dag_name w.sources)

abbrev pub next_of : Option CronEntry → ℕ
next_of none = 0
next_of (some c) = c.next

abbrev pub entry_view : ScheduleEntry → ℕ → ScheduleView
entry_view e next = record {
  view_id = e.id;
  view_cron = e.cron;
  source = "runtime";
  view_enabled = e.enabled;
  next_run = next;
  view_params = e.params;
}

unfoldable pub cron_for : World → ScheduleEntry → String → Option CronEntry
unfolding new_cron_entry
cron_for w e path =
    if e.enabled then new_cron_entry w.disk e.cron path (some e.params) w.now else none

-- loadRuntimeSchedules, for the schedules of one workflow and for all
unfoldable pub load_entries :
    World → String → String → List ScheduleEntry → Assoc RuntimeSchedule → Assoc RuntimeSchedule
unfolding cron_for
load_entries w name path [] m = m
load_entries w name path (e ∷ entries) m =
    load_entries w name path entries (
      put m e.id (record { dag_name = name; entry = e; dag_path = path; cron = cron_for w e path }))

unfoldable pub load_all : World → Store → Assoc RuntimeSchedule → Assoc RuntimeSchedule
unfolding load_entries first_path
load_all w [] m = m
load_all w ((name, entries) ∷ all) m =
    let path = first_path w name w.sources in
    load_all w all (if path == "" then m else load_entries w name path entries m)

abbrev pub view_of : RuntimeSchedule → ScheduleView
view_of rs = entry_view rs.entry (if rs.entry.enabled then next_of rs.cron else 0)

unfoldable pub views_of : String → Assoc RuntimeSchedule → List ScheduleView
views_of name [] = []
views_of name ((id, rs) ∷ m) =
    let rest = views_of name m in if rs.dag_name == name then view_of rs ∷ rest else rest

abbrev pub yaml_view : String → Option DagEntry → List ScheduleView
yaml_view name none = []
yaml_view name (some e) = elim e.cron [
  | none ↦ []
  | some c ↦
      record {
        view_id = text_append "yaml-" name;
        view_cron = c.expr;
        source = "yaml";
        view_enabled = true;
        next_run = c.next;
        view_params = [];
      }
      ∷ []
]

-- sort.Slice by id
unfoldable pub insert_view : ScheduleView → List ScheduleView → List ScheduleView
insert_view v [] = v ∷ []
insert_view v (u ∷ views) =
    let rest = insert_view v views in
    if text_less u.view_id v.view_id then u ∷ rest else v ∷ u ∷ views

unfoldable pub sort_views : List ScheduleView → List ScheduleView
unfolding insert_view
sort_views [] = []
sort_views (v ∷ views) = insert_view v (sort_views views)

unfoldable pub list_schedules : String → Assoc DagEntry → Assoc RuntimeSchedule → List ScheduleView
unfolding views_of sort_views
list_schedules name registered runtime =
    sort_views (yaml_view name (get registered name) ++ views_of name runtime)

abbrev pub owned_by : String → Option RuntimeSchedule → Bool
owned_by name none = false
owned_by name (some rs) = rs.dag_name == name

module _ (y : Yaml) where
  open y use {Bytes}

  unfoldable pub load_runtime_schedules : World → Schedules Bytes → Schedules Bytes
  unfolding load_schedules load_all
  load_runtime_schedules w s = elim (load_schedules y s.file) [
    | err e ↦ s
    | ok all ↦ record s { runtime = load_all w all s.runtime }
  ]

  -- AddRuntimeSchedule, once the entry is stored
  unfoldable pub register_entry :
      World → String → String → ScheduleEntry → FileState Bytes → Schedules Bytes → Outcome Bytes
  unfolding cron_for remove_schedule
  register_entry w name path e file' s =
      let kept : Schedules Bytes = record s { file = file' } in
      elim (cron_for w e path) [
        | none ↦
            if e.enabled
            then failed bad_register (elim (remove_schedule y w.writable name e.id file') [
              | err f ↦ kept
              | ok file'' ↦ record s { file = file'' }
            ])
            else done (some (entry_view e 0)) (record kept {
              runtime =
                  put s.runtime e.id
                    (record { dag_name = name; entry = e; dag_path = path; cron = none });
            })
        | some c ↦ done (some (entry_view e c.next)) (record kept {
          runtime =
              put s.runtime e.id
                (record { dag_name = name; entry = e; dag_path = path; cron = some c });
        })
      ]

  unfoldable pub add_runtime_schedule :
      World → String → String → Assoc String → Bool → Schedules Bytes → Outcome Bytes
  unfolding dag_path_for add_schedule register_entry
  add_runtime_schedule w name expr params enabled s = elim (dag_path_for w false name) [
    | none ↦ deadlocked
    | some path ↦ if path == "" then failed not_registered s else elim (w.disk.parse_cron expr) [
      | none ↦ failed invalid_cron s
      | some next ↦
          let e : ScheduleEntry = record {
            id = text_append "sch_" w.new_id;
            cron = expr;
            enabled = enabled;
            params = params;
          } in
          elim (add_schedule y w.writable name e s.file) [
            | err f ↦ failed (storage f) s
            | ok file' ↦ register_entry w name path e file' s
          ]
    ]
  ]

  unfoldable pub remove_runtime_schedule : World → String → String → Schedules Bytes → Outcome Bytes
  unfolding is_yaml_schedule_id remove_schedule
  remove_runtime_schedule w name id s =
      let s' : Schedules Bytes = record s {
        runtime = if owned_by name (get s.runtime id) then delete s.runtime id else s.runtime;
      } in
      if is_yaml_schedule_id id
      then failed yaml_schedule s
      else elim (remove_schedule y w.writable name id s.file) [
        | err f ↦ failed (storage f) s'
        | ok file' ↦ done none (record s' { file = file' })
      ]

  -- The transition of an entry in the map.
  unfoldable pub apply_enabled :
      World → String → Bool → ScheduleEntry → RuntimeSchedule → Schedules Bytes → Outcome Bytes
  unfolding new_cron_entry
  apply_enabled w id false updated rs s =
      done (some (entry_view updated 0))
        (record s { runtime = put s.runtime id (record rs { entry = updated; cron = none }) })
  apply_enabled w id true updated rs s = elim rs.cron [
    | some c ↦
        done (some (entry_view updated c.next))
          (record s { runtime = put s.runtime id (record rs { entry = updated }) })
    | none ↦ elim (new_cron_entry w.disk updated.cron rs.dag_path (some updated.params) w.now) [
      | none ↦ failed bad_register s
      | some c ↦
          done (some (entry_view updated c.next))
            (record s { runtime = put s.runtime id (record rs { entry = updated; cron = some c }) })
    ]
  ]

  -- An entry that is in the file and not in the map is built again: its path is looked up with the
  -- lock held.
  unfoldable pub rebuild :
      World → String → String → Bool → ScheduleEntry → Schedules Bytes → Outcome Bytes
  unfolding dag_path_for apply_enabled
  rebuild w name id enabled updated s = elim (dag_path_for w true name) [
    | none ↦ deadlocked
    | some path ↦
        let rs : RuntimeSchedule = record {
          dag_name = name;
          entry = updated;
          dag_path = path;
          cron = none;
        } in
        if path == ""
        then done (some (entry_view updated 0)) s
        else apply_enabled w id enabled updated rs (record s { runtime = put s.runtime id rs })
  ]

  unfoldable pub set_runtime_schedule_enabled :
      World → String → String → Bool → Schedules Bytes → Outcome Bytes
  unfolding is_yaml_schedule_id update_schedule_enabled apply_enabled rebuild
  set_runtime_schedule_enabled w name id enabled s =
      if is_yaml_schedule_id id
      then failed yaml_schedule s
      else elim (update_schedule_enabled y w.writable name id enabled s.file) [
        | err f ↦ failed (storage f) s
        | ok (updated, file') ↦
            let s' : Schedules Bytes = record s { file = file' } in
            elim (get s.runtime id) [
              | none ↦ rebuild w name id enabled updated s'
              | some rs ↦ apply_enabled w id enabled updated rs s'
            ]
      ]
