-- ===== src/Scheduler/RuntimeSchedules/Added.antt =====
-- Adding a runtime schedule (AddRuntimeSchedule in scheduler/runtime_schedules.go).
use daggle.Prelude.{
  String, ◌≡◌, sym, ap, subst, ◌∙◌, inl, inr, Bool, true, Option, none, some, ◌==◌, Bool-cases,
  Option-cases, some_injective,
}
use daggle.Go.Map.{put}
use daggle.Go.Strings.{text_append}
use daggle.Dag.Model.{Assoc}
use daggle.Scheduler.Sync.{CronEntry}
use daggle.State.Schedules.{ScheduleEntry, Yaml, ok, FileState, add_schedule}
use daggle.State.Schedules.Refines.{Spec, view, add, spec_step, run_request, run_request-Refines}
use daggle.Scheduler.RuntimeSchedules.{
  World, Schedules, RuntimeSchedule, ScheduleView, done, first_path, dag_path_for, cron_for,
  register_entry, add_runtime_schedule,
}
use daggle.Scheduler.RuntimeSchedules.Agreement.{
  Agrees, refined, assigned, assign_other, assign_here,
}
use daggle.Scheduler.RuntimeSchedules.Entries.{done_injective, Result-cases, put_entry, not_both}

module _ (y : Yaml) (w : World) (writable : w.writable ≡ true) (st : Schedules y.Bytes)
    (a : Agrees y st) where
  -- A new id, of no workflow, with its entry and a cron entry that fires only if it is enabled.
  added-Agrees :
      (name path : String) (e : ScheduleEntry) (file : FileState y.Bytes) (cron : Option CronEntry)
      → ((d : String) → view a.store d e.id ≡ none)
      → add_schedule y true name e st.file ≡ ok file
      → ((c : CronEntry) → cron ≡ some c → e.enabled ≡ true)
      → Agrees y (record {
        runtime =
            put st.runtime e.id
              (record { dag_name = name; entry = e; dag_path = path; cron = cron });
        file = file;
      })
  unfolding run_request spec_step
  added-Agrees name path e file cron fresh h fires =
      let (σ, s, stepped, l, reg, v) =
        refined y (add_schedule y true name e st.file) (spec_step (add name e) (view a.store)) file
          (run_request-Refines y a.store st.file (add name e) a.registry a.loaded (fresh name)) h in
      let τ = some_injective stepped in
      let v' = λ (d j : String). v d j ∙ ap (λ (f : Spec). f d j) (sym τ) in
      let new : RuntimeSchedule = record {
        dag_name = name;
        entry = e;
        dag_path = path;
        cron = cron;
      } in
      let owner = λ (d i : String) (x : ScheduleEntry) (p : view s d i ≡ some x).
        assigned (view a.store) name e.id (some e) d i x (sym (v' d i) ∙ p) in
      record {
        store = s;
        loaded = l;
        registry = reg;
        unique = λ d d' i x x' p p'. elim (owner d i x p) [
          | inl (same_d, same_i, _) ↦ elim (owner d' i x' p') [
            | inl (same_d', _, _) ↦ sym same_d ∙ same_d'
            | inr old ↦ cc (sym (subst (λ j. view a.store d' j ≡ none) same_i (fresh d')) ∙ old)
          ]
          | inr old ↦ elim (owner d' i x' p') [
            | inl (_, same_i, _) ↦
                cc (sym (subst (λ j. view a.store d j ≡ none) same_i (fresh d)) ∙ old)
            | inr old' ↦ a.unique d d' i x x' old old'
          ]
        ];
        known = λ j r p. elim (put_entry st.runtime e.id j new r p) [
          | inl (same, r_eq) ↦
              subst (λ q. view s q.dag_name j ≡ some q.entry) r_eq
                (subst (λ i. view s name i ≡ some e) same
                  (v' name e.id ∙ assign_here (view a.store) name e.id (some e)))
          | inr (other, there) ↦
              v' r.dag_name j
              ∙ assign_other (view a.store) name e.id (some e) r.dag_name j
                  (not_both (name == r.dag_name) (e.id == j) other)
              ∙ a.known j r there
        ];
        firing = λ j r c p k. elim (put_entry st.runtime e.id j new r p) [
          | inl (same, r_eq) ↦
              subst (λ q. q.entry.enabled ≡ true) r_eq (fires c (ap (λ q. q.cron) r_eq ∙ k))
          | inr (other, there) ↦ a.firing j r c there k
        ];
      }

  cron_for-enabled :
      (e : ScheduleEntry) (path : String) (c : CronEntry)
      → cron_for w e path ≡ some c
      → e.enabled ≡ true
  unfolding cron_for
  cron_for-enabled e path c h = elim (Bool-cases e.enabled) [
    | inl on ↦ on
    | inr off ↦ cc (rw (cron_for, off) at h)
  ]

  registered-Agrees :
      (name path : String) (e : ScheduleEntry) (file : FileState y.Bytes) (v : Option ScheduleView)
      (st' : Schedules y.Bytes)
      → ((d : String) → view a.store d e.id ≡ none)
      → add_schedule y true name e st.file ≡ ok file
      → register_entry y w name path e file st ≡ done v st'
      → Agrees y st'
  unfolding register_entry
  registered-Agrees name path e file v st' fresh h r = elim (Option-cases (cron_for w e path)) [
    | inr (c, on) ↦
        subst (Agrees y) (done_injective (rw (register_entry, on) at r))
          (added-Agrees name path e file (some c) fresh h (λ c' k. cron_for-enabled e path c on))
    | inl off ↦ elim (Bool-cases e.enabled) [
      | inl on ↦ cc (rw (register_entry, off, on) at r)
      | inr idle ↦
          subst (Agrees y) (done_injective (rw (register_entry, off, idle) at r))
            (rw idle at (added-Agrees name path e file none fresh h (λ c' k. cc)))
    ]
  ]

  pub add_runtime_schedule-Agrees :
      (name expr : String) (params : Assoc String) (b : Bool) (v : Option ScheduleView)
      (st' : Schedules y.Bytes)
      → ((d : String) → view a.store d (text_append "sch_" w.new_id) ≡ none)
      → add_runtime_schedule y w name expr params b st ≡ done v st'
      → Agrees y st'
  unfolding add_runtime_schedule dag_path_for
  add_runtime_schedule-Agrees name expr params b v st' fresh h =
      let path = first_path w name w.sources in
      let e : ScheduleEntry = record {
        id = text_append "sch_" w.new_id;
        cron = expr;
        enabled = b;
        params = params;
      } in
      elim (Bool-cases (path == "")) [
        | inl lost ↦ cc (rw (add_runtime_schedule, lost) at h)
        | inr found ↦ elim (Option-cases (w.disk.parse_cron expr)) [
          | inl bad ↦ cc (rw (add_runtime_schedule, found, bad) at h)
          | inr (next, good) ↦ elim (Result-cases (add_schedule y w.writable name e st.file)) [
            | inr (f, no_add) ↦ cc (rw (add_runtime_schedule, found, good, no_add) at h)
            | inl (file, added) ↦
                registered-Agrees name path e file v st' fresh
                  (sym (ap (λ can. add_schedule y can name e st.file) writable) ∙ added)
                  (rw (add_runtime_schedule, found, good, added) at h)
          ]
        ]
      ]
