-- ===== src/Scheduler/RuntimeSchedules/Preserved.antt =====
-- Every call that succeeds keeps the map of runtime schedules in agreement with the registry file
-- (scheduler/runtime_schedules.go).
use daggle.Prelude.{
  String, ◌≡◌, sym, ap, subst, ◌∙◌, inl, inr, Bool, true, Option, none, if◌then◌else◌, Bool-cases,
}
use daggle.Go.Map.{get, delete}
use daggle.Go.Strings.{text_append}
use daggle.Dag.Model.{Assoc}
use daggle.State.Schedules.{Store, Yaml, ok, FileState, remove_schedule}
use daggle.State.Schedules.Refines.{Spec, view, remove, spec_step, run_request, run_request-Refines}
use daggle.Scheduler.RuntimeSchedules.{
  World, Schedules, ScheduleView, Outcome, done, is_yaml_schedule_id, add_runtime_schedule,
  owned_by, remove_runtime_schedule, set_runtime_schedule_enabled,
}
use daggle.Scheduler.RuntimeSchedules.Agreement.{
  Agrees, refined, assign_other, spec-remove, same_owner,
}
use daggle.Scheduler.RuntimeSchedules.Entries.{done_injective, kept_entry, Result-cases}
use daggle.Scheduler.RuntimeSchedules.Enabled.{set_runtime_schedule_enabled-Agrees}
use daggle.Scheduler.RuntimeSchedules.Added.{add_runtime_schedule-Agrees}

module _ (y : Yaml) (w : World) (writable : w.writable ≡ true) (st : Schedules y.Bytes)
    (a : Agrees y st) where
  removed-Agrees :
      (name id : String) (file : FileState y.Bytes)
      → remove_schedule y true name id st.file ≡ ok file
      → Agrees y (record {
        runtime = if owned_by name (get st.runtime id) then delete st.runtime id else st.runtime;
        file = file;
      })
  unfolding run_request
  removed-Agrees name id file e =
      let (σ, s, stepped, l, reg, v) =
        refined y (remove_schedule y true name id st.file)
          (spec_step (remove name id) (view a.store)) file
          (run_request-Refines y a.store st.file (remove name id) a.registry a.loaded tt) e in
      let (was, τ) = spec-remove (view a.store) σ name id stepped in
      let v' = λ (d j : String). v d j ∙ ap (λ (f : Spec). f d j) (sym τ) in
      record {
        store = s;
        loaded = l;
        registry = reg;
        unique = λ d d' i x x' h h'.
            let (o, p) = same_owner a.store s name id none was v' d i x h in
            let (o', p') = same_owner a.store s name id none was v' d' i x' h' in
            a.unique d d' i o o' p p';
        known = λ j rs h.
            let (there, other) = kept_entry st.runtime name id j rs h in
            v' rs.dag_name j
            ∙ assign_other (view a.store) name id none rs.dag_name j other
            ∙ a.known j rs there;
        firing = λ j rs c h k. a.firing j rs c (kept_entry st.runtime name id j rs h).0 k;
      }

  -- Removing a schedule keeps the agreement.
  pub remove_runtime_schedule-Agrees :
      (name id : String) (v : Option ScheduleView) (st' : Schedules y.Bytes)
      → remove_runtime_schedule y w name id st ≡ done v st'
      → Agrees y st'
  unfolding remove_runtime_schedule
  remove_runtime_schedule-Agrees name id v st' h = elim (Bool-cases (is_yaml_schedule_id id)) [
    | inl yaml ↦ cc (rw (remove_runtime_schedule, yaml) at h)
    | inr runtime ↦ elim (Result-cases (remove_schedule y w.writable name id st.file)) [
      | inr (f, e) ↦ cc (rw (remove_runtime_schedule, runtime, e) at h)
      | inl (file, e) ↦
          subst (Agrees y) (done_injective (rw (remove_runtime_schedule, runtime, e) at h)) (
            removed-Agrees name id file
              (sym (ap (λ b. remove_schedule y b name id st.file) writable) ∙ e))
    ]
  ]

-- The calls of the API.
pub data Call : Type 0 where
  add_call : String → String → Assoc String → Bool → Call
  remove_call : String → String → Call
  enable_call : String → String → Bool → Call

unfoldable pub run_call : (y : Yaml) → World → Call → Schedules y.Bytes → Outcome y.Bytes
run_call y w (add_call name expr params b) st = add_runtime_schedule y w name expr params b st
run_call y w (remove_call name id) st = remove_runtime_schedule y w name id st
run_call y w (enable_call name id b) st = set_runtime_schedule_enabled y w name id b st

-- A generated id belongs to no stored schedule.
abbrev pub IsNew : World → Call → Store → Type 0
IsNew w (add_call name expr params b) s =
    (d : String) → view s d (text_append "sch_" w.new_id) ≡ none
IsNew w (remove_call name id) s = Unit
IsNew w (enable_call name id b) s = Unit

-- While the registry file can be written and generated ids are new, every call that adds, removes,
-- enables or disables a runtime schedule and returns without an error leaves the scheduler's map
-- and the file in agreement, if they were: each schedule of the map is in the file under its
-- workflow with the same content, no id belongs to two workflows, and a schedule with an entry that
-- fires is enabled.
pub run_call-Agrees :
    (y : Yaml) (w : World) (c : Call) (st st' : Schedules y.Bytes) (v : Option ScheduleView)
    (a : Agrees y st)
    → w.writable ≡ true
    → IsNew w c a.store
    → run_call y w c st ≡ done v st'
    → Agrees y st'
unfolding run_call
run_call-Agrees y w (add_call name expr params b) st st' v a writable fresh h =
    add_runtime_schedule-Agrees y w writable st a name expr params b v st' fresh h
run_call-Agrees y w (remove_call name id) st st' v a writable fresh h =
    remove_runtime_schedule-Agrees y w writable st a name id v st' h
run_call-Agrees y w (enable_call name id b) st st' v a writable fresh h =
    set_runtime_schedule_enabled-Agrees y w writable st a name id b v st' h
