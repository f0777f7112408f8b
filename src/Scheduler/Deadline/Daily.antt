-- ===== src/Scheduler/Deadline/Daily.antt =====
-- How often a deadline fires.
use daggle.Prelude.{
  ℕ, ◌+◌, ◌≤◌, String, ◌≡◌, refl, inl, inr, Bool, true, false, List, [], ◌∷◌, ◌++◌, Option, none,
  some, ◌==◌, eq_iff, eq_refl, if◌then◌else◌, count, count-append, arith, Bool-cases, subst,
}
use daggle.Dag.Model.{Trigger, Dag}
use daggle.Scheduler.Deadline.{
  Clock, Fired, is_due, Pass, fire, check_trigger_deadline, check_deadline_of, check_deadlines,
  Look, check_day,
}

-- How often the deadline of a workflow may still fire on this day.
abbrev left : String → String → Fired → ℕ
left today x fired = if fired x == today then 0 else 1

-- A pass uses up what it fires.
abbrev IsSpent : String → String → Fired → Pass → Type 0
IsSpent today x fired p = count x p.hooks + left today x p.fired ≤ left today x fired

fire-IsSpent :
    (today x : String) (due : Bool) (d : Dag) (fired : Fired)
    → (due ≡ true → (fired d.name == today) ≡ false)
    → IsSpent today x fired (fire today due d fired)
fire-IsSpent today x false d fired new = omega arith
fire-IsSpent today x true d fired new = elim (Bool-cases (d.name == x)) [
  | inl b ↦
      subst (λ y. IsSpent today y fired (fire today true d fired)) ((eq_iff d.name x).0 b)
        (rw (eq_refl d.name, eq_refl today, new refl) (omega arith))
  | inr b ↦ rw b (omega arith)
]

due-new :
    (c : Clock) (now : ℕ) (today : String) (fired : Fired) (d : Dag) (t : Trigger)
    → is_due c now today fired d t ≡ true
    → (fired d.name == today) ≡ false
due-new c now today fired d t h = ground (arith, h)

hook-IsSpent :
    (c : Clock) (now : ℕ) (today x : String) (d : Dag) (fired : Fired) (o : Option Trigger)
    → IsSpent today x fired (check_trigger_deadline c now today fired d o)
hook-IsSpent c now today x d fired none = omega arith
hook-IsSpent c now today x d fired (some t) =
    fire-IsSpent today x (is_due c now today fired d t) d fired (due-new c now today fired d t)

-- One pass after another uses up no more than there is.
chain-IsSpent :
    (today x : String) (fired : Fired) (p q : Pass)
    → IsSpent today x fired p
    → IsSpent today x p.fired q
    → IsSpent today x fired (record { fired = q.fired; hooks = p.hooks ++ q.hooks })
chain-IsSpent today x fired p q hp hq =
    let parts = count-append x p.hooks q.hooks in omega (arith, parts, hp, hq)

check_deadlines-IsSpent :
    (c : Clock) (now : ℕ) (today x : String) (dags : List Dag) (fired : Fired)
    → IsSpent today x fired (check_deadlines c now today dags fired)
unfolding check_deadlines check_deadline_of
check_deadlines-IsSpent c now today x [] fired = omega arith
check_deadlines-IsSpent c now today x (d ∷ dags) fired =
    let first = check_deadline_of c now today d fired in
    chain-IsSpent today x fired first (check_deadlines c now today dags first.fired)
      (hook-IsSpent c now today x d fired d.trigger)
      (check_deadlines-IsSpent c now today x dags first.fired)

check_day-IsSpent :
    (today x : String) (looks : List Look) (fired : Fired)
    → IsSpent today x fired (check_day today looks fired)
unfolding check_day
check_day-IsSpent today x [] fired = omega arith
check_day-IsSpent today x (l ∷ looks) fired =
    let first = check_deadlines l.clock l.now today l.dags fired in
    chain-IsSpent today x fired first (check_day today looks first.fired)
      (check_deadlines-IsSpent l.clock l.now today x l.dags fired)
      (check_day-IsSpent today x looks first.fired)

-- In all the passes of one day the deadline of a workflow fires at most once, and not at all where
-- it is marked as fired on that day.
pub check_day-count :
    (today x : String) (looks : List Look) (fired : Fired)
    → count x (check_day today looks fired).hooks ≤ (if fired x == today then 0 else 1)
check_day-count today x looks fired = omega (arith, check_day-IsSpent today x looks fired)
