-- ===== src/Scheduler/RuntimeSchedules/Agreement.antt =====
-- The scheduler's map of runtime schedules agrees with the registry file (scheduler/
-- runtime_schedules.go, state/schedules.go).
use daggle.Prelude.{
  String, ◌≡◌, refl, sym, subst, ◌∙◌, ◌⊎◌, inl, inr, Bool, true, false, ◌&&◌, Option, none, some,
  ◌==◌, eq_iff, arith, Bool-cases, Option-cases, some_injective, and-true,
}
use daggle.Go.Map.{get}
use daggle.Scheduler.Sync.{CronEntry}
use daggle.State.Schedules.{ScheduleEntry, Store, Yaml, Result, ok, FileState, load_schedules}
use daggle.State.Schedules.Refines.{
  Spec, view, IsRegistry, remove, enable, spec_step, update_at, Refines,
}
use daggle.Scheduler.RuntimeSchedules.{Schedules, RuntimeSchedule}

-- Each schedule of the map is in the file under its workflow with the same content, no id belongs to
-- two workflows, and only an enabled schedule has an entry that fires.
pub record Agrees (y : Yaml) (st : Schedules y.Bytes) : Type 0 where
  pub store : Store
  pub loaded : load_schedules y st.file ≡ ok store
  pub registry : IsRegistry store
  pub unique :
      (d d' i : String) (e e' : ScheduleEntry)
      → view store d i ≡ some e
      → view store d' i ≡ some e'
      → d ≡ d'
  pub known :
      (id : String) (rs : RuntimeSchedule)
      → get st.runtime id ≡ some rs
      → view store rs.dag_name id ≡ some rs.entry
  pub firing :
      (id : String) (rs : RuntimeSchedule) (c : CronEntry)
      → get st.runtime id ≡ some rs
      → rs.cron ≡ some c
      → rs.entry.enabled ≡ true

pub ok_injective : {A : Type 0} {a b : A} → ok a ≡ ok b → a ≡ b
ok_injective h = cc

pub refined :
    (y : Yaml) (r : Result (FileState y.Bytes)) (o : Option Spec) (file : FileState y.Bytes)
    → Refines y r o
    → r ≡ ok file
    → (σ : Spec) × (s : Store) × (o ≡ some σ)
      × (load_schedules y file ≡ ok s)
      × IsRegistry s
      × ((d i : String) → view s d i ≡ σ d i)
refined y r none file h e = cc
refined y r (some σ) file (file', s, e', l, reg, v) e =
    (σ, s, refl, subst (λ f. load_schedules y f ≡ ok s) (ok_injective (sym e' ∙ e)) l, reg, v)

pub assigned :
    (σ : Spec) (d i : String) (v : Option ScheduleEntry) (d' j : String) (e : ScheduleEntry)
    → update_at σ d i v d' j ≡ some e
    → ((d ≡ d') × (i ≡ j) × (v ≡ some e)) ⊎ (σ d' j ≡ some e)
assigned σ d i v d' j e h = elim (Bool-cases (d == d' && i == j)) [
  | inl here ↦
      let both = and-true (d == d') (i == j) here in
      inl ((eq_iff d d').0 both.0, (eq_iff i j).0 both.1, (rw here at h))
  | inr other ↦ inr (rw other at h)
]

pub assign_other :
    (σ : Spec) (d i : String) (v : Option ScheduleEntry) (d' j : String)
    → (d == d' && i == j) ≡ false
    → update_at σ d i v d' j ≡ σ d' j
assign_other σ d i v d' j h = rw h refl

pub assign_here : (σ : Spec) (d i : String) (v : Option ScheduleEntry) → update_at σ d i v d i ≡ v
assign_here σ d i v = ground (arith, eq_iff d d, eq_iff i i)

-- What the abstract steps say of the schedule that they are about.
pub spec-remove :
    (σ τ : Spec) (d i : String)
    → spec_step (remove d i) σ ≡ some τ
    → ((e : ScheduleEntry) × (σ d i ≡ some e)) × (update_at σ d i none ≡ τ)
unfolding spec_step
spec-remove σ τ d i h = elim (Option-cases (σ d i)) [
  | inl gone ↦ cc (rw (spec_step, gone) at h)
  | inr (e, there) ↦ ((e, there), some_injective (rw (spec_step, there) at h))
]

pub spec-enable :
    (σ τ : Spec) (d i : String) (b : Bool)
    → spec_step (enable d i b) σ ≡ some τ
    → (e : ScheduleEntry) × (σ d i ≡ some e)
      × (update_at σ d i (some (record e { enabled = b })) ≡ τ)
unfolding spec_step
spec-enable σ τ d i b h = elim (Option-cases (σ d i)) [
  | inl gone ↦ cc (rw (spec_step, gone) at h)
  | inr (e, there) ↦ (e, there, some_injective (rw (spec_step, there) at h))
]

-- An id of the new registry belonged to the same workflow before.
pub same_owner :
    (s s' : Store) (d i : String) (v : Option ScheduleEntry)
    → ((e : ScheduleEntry) × (view s d i ≡ some e))
    → ((d' j : String) → view s' d' j ≡ update_at (view s) d i v d' j)
    → (d' j : String) (e : ScheduleEntry) → view s' d' j ≡ some e
    → (e' : ScheduleEntry) × (view s d' j ≡ some e')
same_owner s s' d i v (e₀, h₀) h d' j e e_eq =
    elim (assigned (view s) d i v d' j e (sym (h d' j) ∙ e_eq)) [
      | inl (same_d, same_i, _) ↦ (
        e₀,
        subst (λ x. view s x j ≡ some e₀) same_d (subst (λ x. view s d x ≡ some e₀) same_i h₀),
      )
      | inr there ↦ (e, there)
    ]
