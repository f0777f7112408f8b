-- ===== src/Engine/Run/Status.antt =====
-- The log of a run tells how the run ended.
use daggle.Engine.Run.Ends.{Ends, append-Ends, run_status-completed, run_status-failed}
use daggle.Prelude.{
  ℕ, suc, String, ◌≡◌, refl, ◌⊎◌, inl, inr, Bool, true, ltb, All, List, [], ◌∷◌, ◌++◌, Option, none,
  some, sym, ap, ◌∙◌, Bool-cases, append-nil, subst,
}
use daggle.Dag.Model.{Dag, Hook}
use daggle.Dag.Matrix.{Order, expand_matrix}
use daggle.Dag.TopoSort.{Sorted, tiers, cycle, out_of_fuel, topo_sort}
use daggle.Dag.Validate.{validate_channels}
use daggle.Dag.Validate.Errors.{ValidationError}
use daggle.State.Event.{
  Event, event, event_run_started, event_run_completed, event_run_failed, write, write_all,
  read_events_from_file, max_scan_token_size,
}
use daggle.State.Run.{run_status}
use daggle.Engine.Action.{Action, Outcome, World, events_in}
use daggle.Engine.Step.{run_hook, write_event}
use daggle.Engine.Retry.Silent.{events_in-append}
use daggle.Engine.Retry.{IsTried}
use daggle.Engine.Run.{
  Concurrency, run, run_tier, run_tiers, settle_tier, end_run, refuse, run_sorted, run_checked,
  write_meta, run_hooks, completed, failed, final_status, source_of,
}

-- The last event of the log is the one of the result.
Told : Option String → List Event → Type 0
Told none es = Ends event_run_completed es
Told (some message) es = Ends event_run_failed es

append-Told :
    (err : Option String) (xs ys : List Action)
    → Told err (events_in ys)
    → Told err (events_in (xs ++ ys))
unfolding Told
append-Told none xs ys h =
    subst (Ends event_run_completed) (sym (events_in-append xs ys))
      (append-Ends _ (events_in xs) _ h)
append-Told (some m) xs ys h =
    subst (Ends event_run_failed) (sym (events_in-append xs ys)) (append-Ends _ (events_in xs) _ h)

-- Behind the last event there are only actions that write none.
tail-Told :
    (err : Option String) (xs ys : List Action)
    → events_in ys ≡ []
    → Told err (events_in xs)
    → Told err (events_in (xs ++ ys))
tail-Told err xs ys quiet h =
    subst (Told err)
      (sym
        (events_in-append xs ys ∙ ap (λ es. events_in xs ++ es) quiet ∙ append-nil (events_in xs)))
      h

run_hook-events : (h : Option Hook) (name : String) → events_in (run_hook h name) ≡ []
run_hook-events none name = refl
run_hook-events (some h) name = refl

two-events :
    (xs ys : List Action) → events_in xs ≡ [] → events_in ys ≡ [] → events_in (xs ++ ys) ≡ []
two-events xs ys hx hy = events_in-append xs ys ∙ rw (hx, hy) refl

run_hooks-events : (d : Dag) (err : Option String) → events_in (run_hooks d err) ≡ []
run_hooks-events d none =
    two-events (run_hook d.on_exit "on_exit") (run_hook d.on_success "on_success")
      (run_hook-events d.on_exit "on_exit") (run_hook-events d.on_success "on_success")
run_hooks-events d (some m) =
    two-events (run_hook d.on_exit "on_exit") (run_hook d.on_failure "on_failure")
      (run_hook-events d.on_exit "on_exit") (run_hook-events d.on_failure "on_failure")

write_meta-events :
    (meta : Option String) (status : String) → events_in (write_meta meta status) ≡ []
write_meta-events none status = refl
write_meta-events (some source) status = refl

-- A result that is an error has written its event already.
Failing : Option String → List Event → Type 0
Failing none es = Unit
Failing (some message) es = Ends event_run_failed es

append-Failing :
    (err : Option String) (xs ys : List Action)
    → Failing err (events_in ys)
    → Failing err (events_in (xs ++ ys))
unfolding Failing
append-Failing none xs ys h = tt
append-Failing (some m) xs ys h =
    subst (Ends event_run_failed) (sym (events_in-append xs ys)) (append-Ends _ (events_in xs) _ h)

settle_tier-Failing :
    (w : World) (trace : List Action) (err : Option String) (rest : Outcome)
    → Failing rest.err (events_in rest.trace)
    → Failing (settle_tier w trace err rest).err (events_in (settle_tier w trace err rest).trace)
unfolding Failing
settle_tier-Failing w trace none rest h = append-Failing rest.err trace rest.trace h
settle_tier-Failing w trace (some m) rest h = append-Failing (some m) trace (failed w m) refl

run_tiers-Failing :
    (w : World) (c : Concurrency) (cancelled : ℕ → Bool) (i : ℕ) (ts : List _)
    → Failing (run_tiers w c cancelled i ts).err (events_in (run_tiers w c cancelled i ts).trace)
unfolding run_tiers Failing
run_tiers-Failing w c cancelled i [] = tt
run_tiers-Failing w c cancelled i (tier ∷ ts) = elim (Bool-cases (cancelled i)) [
  | inl b ↦ rw b refl
  | inr b ↦ rw b (
      settle_tier-Failing w (run_tier w c tier).trace (run_tier w c tier).err _
        (run_tiers-Failing w c cancelled (suc i) ts))
]

-- The end of a run writes the completed event where there is no error.
finished-Told :
    (w : World) (err : Option String) (trace : List Action)
    → Failing err (events_in trace)
    → Told err (events_in (trace ++ completed w err))
unfolding Failing Told
finished-Told w none trace h = append-Told none trace (completed w none) refl
finished-Told w (some m) trace h = rw (append-nil trace) h

end_run-Told :
    (w : World) (d : Dag) (meta : Option String) (o : Outcome)
    → Failing o.err (events_in o.trace)
    → Told o.err (events_in (end_run w d meta o).trace)
unfolding end_run
end_run-Told w d meta o h =
    tail-Told o.err (o.trace ++ completed w o.err)
      (write_meta meta (final_status o.err) ++ run_hooks d o.err)
      (two-events (write_meta meta (final_status o.err)) (run_hooks d o.err)
        (write_meta-events meta (final_status o.err)) (run_hooks-events d o.err))
      (finished-Told w o.err o.trace h)

refuse-Told :
    (w : World) (message : String) → Told (some message) (events_in (refuse w message).trace)
unfolding Told
refuse-Told w message = refl

run_sorted-Told :
    (w : World) (c : Concurrency) (cancelled : ℕ → Bool) (d : Dag) (meta : Option String)
    (o : Sorted)
    → Told
        (run_sorted w c cancelled d meta o).err
        (events_in (run_sorted w c cancelled d meta o).trace)
unfolding end_run run_tiers
run_sorted-Told w c cancelled d meta (tiers ts) =
    end_run-Told w d meta (run_tiers w c cancelled 0 ts) (run_tiers-Failing w c cancelled 0 ts)
run_sorted-Told w c cancelled d meta (cycle n) = refuse-Told w _
run_sorted-Told w c cancelled d meta out_of_fuel = refuse-Told w _

run_checked-Told :
    (w : World) (c : Concurrency) (cancelled : ℕ → Bool) (order : Order) (d : Dag)
    (meta : Option String) (es : List ValidationError)
    → Told
        (run_checked w c cancelled order d meta es).err
        (events_in (run_checked w c cancelled order d meta es).trace)
run_checked-Told w c cancelled order d meta [] =
    run_sorted-Told w c cancelled d meta (topo_sort (expand_matrix order d.steps))
run_checked-Told w c cancelled order d meta (e ∷ es) = refuse-Told w _

-- Writing the events leaves their kinds as they are, on a disk that takes them.
write_all-Ends :
    (kind : String) (disk : ℕ → Bool) (clock : ℕ → ℕ) (n : ℕ) (es log : List Event)
    → ((i : ℕ) → disk i ≡ true)
    → Ends kind es
    → Ends kind (write_all disk clock n es log)
unfolding write_all write
write_all-Ends kind disk clock n [] log ok h = absurd h
write_all-Ends kind disk clock n (e ∷ []) log ok h = rw (ok n) (append-Ends kind log _ h)
write_all-Ends kind disk clock n (e ∷ f ∷ es) log ok h =
    write_all-Ends kind disk clock (suc n) (f ∷ es) _ ok h

-- events.jsonl, once the events of a trace have been written
abbrev pub log_of : (ℕ → Bool) → (ℕ → ℕ) → List Action → List Event
log_of disk clock trace = write_all disk clock 0 (events_in trace) []

-- The status that a result has.
abbrev pub StatusOf : Option String → String → Type 0
StatusOf none status = status ≡ "completed"
StatusOf (some message) status = status ≡ "failed"

-- Every line of the log fits in the buffer of the scanner that reads it.
abbrev pub IsShort : (Event → ℕ) → List Event → Type 0
IsShort size log = All (λ e. ltb (size e) max_scan_token_size ≡ true) log

-- The log reads as the result, or, with a line that is too long, as unknown.
abbrev pub ReadsAs : (Event → ℕ) → List Event → Option String → Type 0
ReadsAs size log err =
    (IsShort size log × StatusOf err (run_status (read_events_from_file size log)))
    ⊎ ((¬ IsShort size log) × (run_status (read_events_from_file size log) ≡ "unknown"))

-- The log is read as it is, or not at all.
read_log :
    (size : Event → ℕ) (log : List Event)
    → (IsShort size log × (read_events_from_file size log ≡ some log))
      ⊎ ((¬ IsShort size log) × (read_events_from_file size log ≡ none))
unfolding read_events_from_file
read_log size [] = inl (tt, refl)
read_log size (e ∷ es) = elim (Bool-cases (ltb (size e) max_scan_token_size)) [
  | inr long ↦ inr (λ h. cc (sym long ∙ h.0), rw long refl)
  | inl short ↦ elim (read_log size es) [
    | inl (fit, same) ↦ inl ((short, fit), rw (short, same) refl)
    | inr (unfit, same) ↦ inr (λ h. unfit h.1, rw (short, same) refl)
  ]
]

StatusOf-log :
    (size : Event → ℕ) (log : List Event) (err : Option String)
    → StatusOf err (run_status (some log))
    → ReadsAs size log err
unfolding run_status
StatusOf-log size log err h = elim (read_log size log) [
  | inl (fit, same) ↦ inl (fit, subst (λ o. StatusOf err (run_status o)) (sym same) h)
  | inr (unfit, same) ↦ inr (unfit, ap run_status same)
]

Told-StatusOf :
    (disk : ℕ → Bool) (clock : ℕ → ℕ) (err : Option String) (trace : List Action)
    → ((i : ℕ) → disk i ≡ true)
    → Told err (events_in trace)
    → StatusOf err (run_status (some (log_of disk clock trace)))
unfolding Told
Told-StatusOf disk clock none trace ok h =
    run_status-completed (log_of disk clock trace)
      (write_all-Ends _ disk clock 0 (events_in trace) [] ok h)
Told-StatusOf disk clock (some m) trace ok h =
    run_status-failed (log_of disk clock trace)
      (write_all-Ends _ disk clock 0 (events_in trace) [] ok h)

-- However the steps behave and interleave, whenever the events are written and however long their
-- lines are, where each of them can be written and the attempts of no step wrap: if all lines of the
-- log fit in the scanner's buffer, `RunStatus` is completed when `Run` returns no error, and failed
-- when it returns one; with a longer line it is unknown.
pub run-ReadsAs :
    (size : Event → ℕ) (disk : ℕ → Bool) (clock : ℕ → ℕ) (w : World) (c : Concurrency)
    (cancelled : ℕ → Bool) (order : Order) (channels : List String) (d : Dag) (meta : Option String)
    → ((i : ℕ) → disk i ≡ true)
    → All IsTried d.steps
    → ReadsAs size
        (log_of disk clock (run w c cancelled order channels d meta).trace)
        (run w c cancelled order channels d meta).err
unfolding run
run-ReadsAs size disk clock w c cancelled order channels d meta ok tried =
    let rest = run_checked w c cancelled order d meta (validate_channels d channels) in
    let first =
      write_event w (record (event event_run_started) { source = source_of meta })
      ∷ write_meta meta "" in
    StatusOf-log size (log_of disk clock (first ++ rest.trace)) rest.err (
      Told-StatusOf disk clock rest.err (first ++ rest.trace) ok (
        append-Told rest.err first rest.trace
          (run_checked-Told w c cancelled order d meta (validate_channels d channels))))
