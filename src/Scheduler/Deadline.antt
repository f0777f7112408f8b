-- ===== src/Scheduler/Deadline.antt =====
-- Deadlines of workflows (checkDeadlines in scheduler/trigger_deadline.go). A pass looks at the
-- workflows of all sources at one time `now` of the day `today`. `Clock` is what it takes from
-- `time.Parse` and from the run directories; the hook's process is not modelled.
pub mod Daily
use daggle.Prelude.{
  ℕ, zero, suc, ◌+◌, ◌≤◌, String, ◌≡◌, refl, inl, inr, Bool, true, false, not, ◌&&◌, ◌||◌, List, [],
  ◌∷◌, ◌++◌, Option, none, some, ◌==◌, eq_iff, eq_refl, if◌then◌else◌, ltb, count, count-append,
  arith, Bool-cases, Option-cases,
}
use daggle.Dag.Model.{Trigger, Hook, Dag}
use daggle.Dag.TopoSort.{update}

pub record Clock : Type 0 where
  -- time.Parse("2006-01-02 15:04", today+" "+deadline)
  pub parse_deadline : String → Option ℕ
  pub has_run_today : String → Bool

-- s.deadlineFired: the day of the last fired deadline of each workflow, "" where there is none
abbrev pub Fired : Type 0
Fired = String → String

-- The hook of a deadline that is due.
abbrev pub due_at : Clock → ℕ → String → Option ℕ → Bool
due_at c now name none = false
due_at c now name (some deadline) = not (ltb now deadline) && not (c.has_run_today name)

abbrev pub has_hook : Option Hook → Bool
has_hook none = false
has_hook (some h) = true

abbrev pub is_due : Clock → ℕ → String → Fired → Dag → Trigger → Bool
is_due c now today fired d t =
    not (t.deadline == "")
    && has_hook t.on_deadline
    && not (fired d.name == today)
    && due_at c now d.name (c.parse_deadline t.deadline)

-- What a pass has fired, with the map behind it.
pub record Pass : Type 0 where
  pub fired : Fired
  pub hooks : List String

abbrev pub fire : String → Bool → Dag → Fired → Pass
fire today true d fired = record { fired = update fired d.name today; hooks = d.name ∷ [] }
fire today false d fired = record { fired = fired; hooks = [] }

abbrev pub check_trigger_deadline : Clock → ℕ → String → Fired → Dag → Option Trigger → Pass
check_trigger_deadline c now today fired d none = fire today false d fired
check_trigger_deadline c now today fired d (some t) =
    fire today (is_due c now today fired d t) d fired

unfoldable pub check_deadline_of : Clock → ℕ → String → Dag → Fired → Pass
check_deadline_of c now today d fired = check_trigger_deadline c now today fired d d.trigger

-- One pass over the workflows.
unfoldable pub check_deadlines : Clock → ℕ → String → List Dag → Fired → Pass
check_deadlines c now today [] fired = record { fired = fired; hooks = [] }
check_deadlines c now today (d ∷ dags) fired =
    let first = check_deadline_of c now today d fired in
    let rest = check_deadlines c now today dags first.fired in
    record { fired = rest.fired; hooks = first.hooks ++ rest.hooks }

-- A pass of the day: what it sees, when, and the workflows it finds.
pub record Look : Type 0 where
  pub clock : Clock
  pub now : ℕ
  pub dags : List Dag

-- The passes of one day, one after another.
unfoldable pub check_day : String → List Look → Fired → Pass
unfolding check_deadlines
check_day today [] fired = record { fired = fired; hooks = [] }
check_day today (l ∷ looks) fired =
    let first = check_deadlines l.clock l.now today l.dags fired in
    let rest = check_day today looks first.fired in
    record { fired = rest.fired; hooks = first.hooks ++ rest.hooks }
