-- ===== src/Scheduler/RuntimeSchedules/Deadlock.antt =====
-- When SetRuntimeScheduleEnabled (scheduler/runtime_schedules.go) waits for the lock that it holds.
use daggle.Prelude.{
  String, ◌≡◌, refl, ◌↔◌, ◌⊎◌, inl, inr, Bool, true, false, none, some, Bool-cases, Option-cases,
}
use daggle.Go.Map.{get}
use daggle.Scheduler.Sync.{new_cron_entry}
use daggle.State.Schedules.{
  ScheduleEntry, Yaml, Failure, Result, ok, err, FileState, update_schedule_enabled,
}
use daggle.Scheduler.RuntimeSchedules.{
  World, Schedules, RuntimeSchedule, deadlocked, is_yaml_schedule_id, dag_path_for, apply_enabled,
  rebuild, set_runtime_schedule_enabled,
}

Result-cases {ℓ} :
    {A : Type ℓ} (r : Result A) → ((a : A) × (r ≡ ok a)) ⊎ ((f : Failure) × (r ≡ err f))
Result-cases (ok a) = inl (a, refl)
Result-cases (err f) = inr (f, refl)

module _ (y : Yaml) (w : World) where
  rebuild-deadlocked :
      (name id : String) (b : Bool) (u : ScheduleEntry) (s : Schedules y.Bytes)
      → rebuild y w name id b u s ≡ deadlocked
  unfolding rebuild dag_path_for
  rebuild-deadlocked name id b u s = refl

  apply_enabled-ends :
      (id : String) (b : Bool) (u : ScheduleEntry) (rs : RuntimeSchedule) (s : Schedules y.Bytes)
      → apply_enabled y w id b u rs s ≡ deadlocked
      → ⊥
  unfolding apply_enabled
  apply_enabled-ends id false u rs s h = cc h
  apply_enabled-ends id true u rs s h = elim (Option-cases rs.cron) [
    | inr (c, e) ↦ cc (rw (apply_enabled, e) at h)
    | inl e ↦ elim (Option-cases (new_cron_entry w.disk u.cron rs.dag_path (some u.params) w.now)) [
      | inl bad ↦ cc (rw (apply_enabled, e, bad) at h)
      | inr (c, good) ↦ cc (rw (apply_enabled, e, good) at h)
    ]
  ]

  -- Enabling or disabling a schedule deadlocks exactly when the id is not that of a YAML schedule, the
  -- registry file is updated, and the scheduler's map does not have the id: the rest of the call
  -- then looks the workflow's path up with the lock held.
  pub set_runtime_schedule_enabled-deadlocked_iff :
      (name id : String) (b : Bool) (s : Schedules y.Bytes)
      → (set_runtime_schedule_enabled y w name id b s ≡ deadlocked) ↔ (
          (is_yaml_schedule_id id ≡ false)
          × (get s.runtime id ≡ none)
          × (u : ScheduleEntry) × (file : FileState y.Bytes) × (update_schedule_enabled y w.writable
                name id b s.file
              ≡ ok (u, file)))
  unfolding set_runtime_schedule_enabled
  set_runtime_schedule_enabled-deadlocked_iff name id b s = (
    λ h. elim (Bool-cases (is_yaml_schedule_id id)) [
      | inl yaml ↦ cc (rw (set_runtime_schedule_enabled, yaml) at h)
      | inr runtime ↦ elim (Result-cases (update_schedule_enabled y w.writable name id b s.file)) [
        | inr (f, e) ↦ cc (rw (set_runtime_schedule_enabled, runtime, e) at h)
        | inl (found, e) ↦ elim (Option-cases (get s.runtime id)) [
          | inl gone ↦ (runtime, gone, found.0, found.1, e)
          | inr (rs, known) ↦ absurd (
              apply_enabled-ends id b found.0 rs (record s { file = found.1 })
                (rw (set_runtime_schedule_enabled, runtime, e, known) at h))
        ]
      ]
    ],
    λ (runtime, gone, u, file, e).
        rw (set_runtime_schedule_enabled, runtime, e, gone)
          (rebuild-deadlocked name id b u (record s { file = file })),
  )
