-- ===== src/Scheduler/RuntimeSchedules/Enabled.antt =====
-- Enabling and disabling a runtime schedule (SetRuntimeScheduleEnabled in
-- scheduler/runtime_schedules.go).
use daggle.Prelude.{
  String, ◌≡◌, refl, sym, ap, subst, ◌∙◌, inl, inr, Bool, true, false, Option, none, some, ◌==◌,
  Bool-cases, Option-cases, some_injective,
}
use daggle.Go.Map.{get, put}
use daggle.Scheduler.Sync.{CronEntry, new_cron_entry}
use daggle.State.Schedules.{ScheduleEntry, Yaml, ok, FileState, update_schedule_enabled}
use daggle.State.Schedules.Refines.{Spec, view, enable, spec_step, run_request, run_request-Refines}
use daggle.Scheduler.RuntimeSchedules.{
  World, Schedules, RuntimeSchedule, ScheduleView, done, is_yaml_schedule_id, dag_path_for,
  apply_enabled, rebuild, set_runtime_schedule_enabled,
}
use daggle.State.Schedules.Refines.{update_schedule_enabled-entry}
use daggle.Scheduler.RuntimeSchedules.Agreement.{
  Agrees, refined, assign_other, assign_here, spec-enable, same_owner,
}
use daggle.Scheduler.RuntimeSchedules.Entries.{
  done_injective, enabled_file, Result-cases, put_entry, not_both,
}

module _ (y : Yaml) (w : World) (writable : w.writable ≡ true) (st : Schedules y.Bytes)
    (a : Agrees y st) where
  -- The entry of the map takes over what the file says.
  enabled-Agrees :
      (name id : String) (b : Bool) (u : ScheduleEntry) (file : FileState y.Bytes)
      (rs : RuntimeSchedule) (cron : Option CronEntry)
      → update_schedule_enabled y true name id b st.file ≡ ok (u, file)
      → get st.runtime id ≡ some rs
      → ((c : CronEntry) → cron ≡ some c → b ≡ true)
      → Agrees y (record {
        runtime = put st.runtime id (record rs { entry = u; cron = cron });
        file = file;
      })
  unfolding run_request
  enabled-Agrees name id b u file rs cron e here fires =
      let (σ, s, stepped, l, reg, v) =
        refined y (run_request y (enable name id b) st.file)
          (spec_step (enable name id b) (view a.store)) file
          (run_request-Refines y a.store st.file (enable name id b) a.registry a.loaded tt)
          (enabled_file y st.file name id b u file e) in
      let (e₀, was, τ) = spec-enable (view a.store) σ name id b stepped in
      let (e₁, was', u_eq) =
        update_schedule_enabled-entry y a.store st.file file name id b u a.registry a.loaded e in
      let same_entry : e₀ ≡ e₁ = some_injective (sym was ∙ was') in
      let new = record e₀ { enabled = b } in
      let u_new : new ≡ u =
        ap (λ (x : ScheduleEntry). record x { enabled = b }) same_entry ∙ sym u_eq in
      let v' = λ (d j : String). v d j ∙ ap (λ (f : Spec). f d j) (sym τ) in
      let owner : name ≡ rs.dag_name =
        a.unique name rs.dag_name id e₀ rs.entry was (a.known id rs here) in
      let at_id : view s rs.dag_name id ≡ some u =
        subst (λ d. view s d id ≡ some u) owner
          (v' name id ∙ assign_here (view a.store) name id (some new) ∙ ap some u_new) in
      record {
        store = s;
        loaded = l;
        registry = reg;
        unique = λ d d' i x x' h h'.
            let (o, p) = same_owner a.store s name id (some new) (e₀, was) v' d i x h in
            let (o', p') = same_owner a.store s name id (some new) (e₀, was) v' d' i x' h' in
            a.unique d d' i o o' p p';
        known = λ j r h.
            elim (put_entry st.runtime id j (record rs { entry = u; cron = cron }) r h) [
              | inl (same, r_eq) ↦
                  subst (λ q. view s q.dag_name j ≡ some q.entry) r_eq
                    (subst (λ i. view s rs.dag_name i ≡ some u) same at_id)
              | inr (other, there) ↦
                  v' r.dag_name j
                  ∙ assign_other (view a.store) name id (some new) r.dag_name j
                      (not_both (name == r.dag_name) (id == j) other)
                  ∙ a.known j r there
            ];
        firing = λ j r c h k.
            elim (put_entry st.runtime id j (record rs { entry = u; cron = cron }) r h) [
              | inl (same, r_eq) ↦
                  subst (λ q. q.entry.enabled ≡ true) r_eq
                    (ap (λ x. x.enabled) (sym u_new) ∙ fires c (ap (λ q. q.cron) r_eq ∙ k))
              | inr (other, there) ↦ a.firing j r c there k
            ];
      }

  -- Enabling or disabling a schedule keeps the agreement.
  apply_enabled-Agrees :
      (name id : String) (b : Bool) (u : ScheduleEntry) (file : FileState y.Bytes)
      (rs : RuntimeSchedule) (v : Option ScheduleView) (st' : Schedules y.Bytes)
      → update_schedule_enabled y true name id b st.file ≡ ok (u, file)
      → get st.runtime id ≡ some rs
      → apply_enabled y w id b u rs (record st { file = file }) ≡ done v st'
      → Agrees y st'
  unfolding apply_enabled
  apply_enabled-Agrees name id false u file rs v st' e here h =
      subst (Agrees y) (done_injective h)
        (enabled-Agrees name id false u file rs none e here (λ c k. cc))
  apply_enabled-Agrees name id true u file rs v st' e here h = elim (Option-cases rs.cron) [
    | inr (c, active) ↦
        subst (Agrees y) (done_injective (rw (apply_enabled, active) at h))
          (enabled-Agrees name id true u file rs rs.cron e here (λ c' k. refl))
    | inl idle ↦
        elim (Option-cases (new_cron_entry w.disk u.cron rs.dag_path (some u.params) w.now)) [
          | inl bad ↦ cc (rw (apply_enabled, idle, bad) at h)
          | inr (c, good) ↦
              subst (Agrees y) (done_injective (rw (apply_enabled, idle, good) at h))
                (enabled-Agrees name id true u file rs (some c) e here (λ c' k. refl))
        ]
  ]

  pub set_runtime_schedule_enabled-Agrees :
      (name id : String) (b : Bool) (v : Option ScheduleView) (st' : Schedules y.Bytes)
      → set_runtime_schedule_enabled y w name id b st ≡ done v st'
      → Agrees y st'
  unfolding set_runtime_schedule_enabled rebuild dag_path_for
  set_runtime_schedule_enabled-Agrees name id b v st' h =
      elim (Bool-cases (is_yaml_schedule_id id)) [
        | inl yaml ↦ cc (rw (set_runtime_schedule_enabled, yaml) at h)
        | inr runtime ↦
            elim (Result-cases (update_schedule_enabled y w.writable name id b st.file)) [
              | inr (f, e) ↦ cc (rw (set_runtime_schedule_enabled, runtime, e) at h)
              | inl ((u, file), e) ↦ elim (Option-cases (get st.runtime id)) [
                | inl gone ↦ cc (rw (set_runtime_schedule_enabled, runtime, e, gone) at h)
                | inr (rs, here) ↦
                    apply_enabled-Agrees name id b u file rs v st'
                      (sym (ap (λ can. update_schedule_enabled y can name id b st.file) writable)
                        ∙ e)
                      here (rw (set_runtime_schedule_enabled, runtime, e, here) at h)
              ]
            ]
      ]
