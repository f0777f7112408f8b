-- ===== src/Scheduler/RuntimeSchedules/Entries.antt =====
-- The map of runtime schedules with one entry written or removed, and the results of the file.
use daggle.Prelude.{
  String, ◌≡◌, refl, sym, ap, ◌∙◌, ◌⊎◌, inl, inr, Bool, true, false, ◌&&◌, Option, none, some, ◌==◌,
  eq_iff, if◌then◌else◌, arith, Bool-cases, some_injective, and-true,
}
use daggle.Go.Map.{get, put, delete, get-put, get-delete}
use daggle.Dag.Model.{Assoc}
use daggle.State.Schedules.{
  ScheduleEntry, Yaml, Failure, Result, ok, err, FileState, update_schedule_enabled,
}
use daggle.State.Schedules.Refines.{enable, run_request}
use daggle.Scheduler.RuntimeSchedules.{Schedules, RuntimeSchedule, ScheduleView, done, owned_by}

pub done_injective :
    {B : Type 0} {v v' : Option ScheduleView} {s t : Schedules B} → done v s ≡ done v' t → s ≡ t
done_injective h = cc

owned_here :
    (o : Option RuntimeSchedule) (name : String) (rs : RuntimeSchedule)
    → o ≡ some rs
    → name ≡ rs.dag_name
    → owned_by name o ≡ true
owned_here none name rs h e = cc
owned_here (some r) name rs h e =
    (eq_iff r.dag_name name).1 (ap (λ x. x.dag_name) (some_injective h) ∙ sym e)

-- What is left of the map is not the schedule that was removed.
pub kept_entry :
    (m : Assoc RuntimeSchedule) (name id j : String) (rs : RuntimeSchedule)
    → get (if owned_by name (get m id) then delete m id else m) j ≡ some rs
    → (get m j ≡ some rs) × ((name == rs.dag_name && id == j) ≡ false)
kept_entry m name id j rs h = elim (Bool-cases (owned_by name (get m id))) [
  | inl owned ↦
      let h' : get (delete m id) j ≡ some rs = rw owned at h in
      let h'' : (if id == j then none else get m j) ≡ some rs = sym (get-delete m id j) ∙ h' in
      elim (Bool-cases (id == j)) [
        | inl same ↦ cc (rw same at h'')
        | inr other ↦ (rw other at h'', ground (arith, other))
      ]
  | inr foreign ↦
      let h' : get m j ≡ some rs = rw foreign at h in
      (
        h',
        elim (Bool-cases (name == rs.dag_name && id == j)) [
          | inr other ↦ other
          | inl both ↦
              let parts = and-true (name == rs.dag_name) (id == j) both in
              cc (
                sym foreign
                ∙ owned_here (get m id) name rs (ap (get m) ((eq_iff id j).0 parts.1) ∙ h')
                    ((eq_iff name rs.dag_name).0 parts.0))
        ],
      )
]

pub Result-cases {ℓ} :
    {A : Type ℓ} (r : Result A) → ((a : A) × (r ≡ ok a)) ⊎ ((f : Failure) × (r ≡ err f))
Result-cases (ok a) = inl (a, refl)
Result-cases (err f) = inr (f, refl)

pub enabled_file :
    (y : Yaml) (st : FileState y.Bytes) (name id : String) (b : Bool) (u : ScheduleEntry)
    (file : FileState y.Bytes)
    → update_schedule_enabled y true name id b st ≡ ok (u, file)
    → run_request y (enable name id b) st ≡ ok file
unfolding run_request
enabled_file y st name id b u file e = rw (e, run_request) refl

pub put_entry :
    (m : Assoc RuntimeSchedule) (id j : String) (new rs : RuntimeSchedule)
    → get (put m id new) j ≡ some rs
    → ((id ≡ j) × (new ≡ rs)) ⊎ (((id == j) ≡ false) × (get m j ≡ some rs))
put_entry m id j new rs h =
    let h' : (if id == j then some new else get m j) ≡ some rs = sym (get-put m id j new) ∙ h in
    elim (Bool-cases (id == j)) [
      | inl same ↦ inl ((eq_iff id j).0 same, some_injective (rw same at h'))
      | inr other ↦ inr (other, (rw other at h'))
    ]

pub not_both : (b c : Bool) → c ≡ false → (b && c) ≡ false
not_both b c h = ground arith
