-- ===== src/Dag/Validate/Parts.antt =====
-- The checks of a workflow's other parts: triggers, hooks, notify channels and exposures.
use daggle.Prelude.{
  ℕ, ◌+◌, String, Bool, true, false, ◌&&◌, ◌||◌, not, List, [], ◌∷◌, ◌++◌, map, Option, none, some,
  ltb, nat_eq, if◌then◌else◌, contains, ◌==◌, concat,
}
use daggle.Go.Text.{codes}
use daggle.Dag.Model.{
  Dag, Step, Hook, Trigger, WatchTrigger, OnDagTrigger, ConditionTrigger, GitTrigger, ApproveStep,
  Exposure,
}
use daggle.Dag.StepTypes.{is_set, is_some}
use daggle.Dag.Validate.Errors.{
  TriggerError, overlap_invalid, catchup_invalid, catchup_without_schedule, watch_path_required,
  watch_debounce_invalid, on_dag_name_required, on_dag_status_invalid, condition_empty,
  condition_poll_interval_invalid, git_poll_interval_invalid, git_event_invalid, deadline_invalid,
  on_deadline_without_deadline, bad_format, HookPlace, on_success, on_failure, on_exit, on_deadline,
  approve_notify, hook_empty, hook_multiple, unknown_channel, name_required, type_required,
  duplicate_name, type_invalid, ValidationError, r_version_invalid, trigger_error, hook_error,
  exposure_error, DeadlineError,
}
use daggle.Dag.Validate.Version.{
  validate_r_version_constraint, validate_deadline_time, deadline_matches,
}
use daggle.Dag.Validate.Steps.{report, optional_duration}

unfoldable pub validate_r_version : Dag → List ValidationError
validate_r_version d =
    if d.r_version == "" then [] else elim (validate_r_version_constraint (codes d.r_version)) [
      | none ↦ []
      | some e ↦ r_version_invalid d.r_version e ∷ []
    ]

abbrev part {ℓ} : {A : Type ℓ} → (A → List TriggerError) → Option A → List TriggerError
part f none = []
part f (some a) = f a

abbrev check_watch : WatchTrigger → List TriggerError
check_watch w =
    report (w.path == "") watch_path_required ++ optional_duration watch_debounce_invalid w.debounce

abbrev pub run_statuses : List String
run_statuses = "" ∷ "completed" ∷ "failed" ∷ "any" ∷ []

abbrev check_on_dag : OnDagTrigger → List TriggerError
check_on_dag t =
    report (t.name == "") on_dag_name_required
    ++ report (not (contains run_statuses t.status)) (on_dag_status_invalid t.status)

abbrev check_condition : ConditionTrigger → List TriggerError
check_condition c =
    report (c.r_expr == "" && c.command == "") condition_empty
    ++ optional_duration condition_poll_interval_invalid c.poll_interval

abbrev git_events : List String
git_events = "push" ∷ "tag" ∷ []

-- for _, ev := range t.Git.Events
abbrev check_events : List String → List TriggerError
check_events [] = []
check_events (ev ∷ evs) =
    report (not (contains git_events ev)) (git_event_invalid ev) ++ check_events evs

abbrev check_git : GitTrigger → List TriggerError
check_git g = optional_duration git_poll_interval_invalid g.poll_interval ++ check_events g.events

abbrev deadline_report : String → Option DeadlineError → List TriggerError
deadline_report s none = []
deadline_report s (some e) = deadline_invalid s e ∷ []

abbrev check_deadline : String → List TriggerError
check_deadline s =
    if s == ""
    then []
    else if deadline_matches (codes s)
    then deadline_report s (validate_deadline_time (codes s))
    else deadline_invalid s bad_format ∷ []

abbrev pub catchup_modes : List String
catchup_modes = "" ∷ "off" ∷ "once" ∷ "all" ∷ []

abbrev pub trigger_checks : Trigger → List (List TriggerError)
trigger_checks t =
    report (is_set t.overlap && not (t.overlap == "skip") && not (t.overlap == "cancel"))
      (overlap_invalid t.overlap)
    ∷ report (not (contains catchup_modes t.catchup)) (catchup_invalid t.catchup)
    ∷ report ((t.catchup == "once" || t.catchup == "all") && t.schedule == "")
        catchup_without_schedule
    ∷ part check_watch t.watch
    ∷ part check_on_dag t.on_dag
    ∷ part check_condition t.condition
    ∷ part check_git t.git
    ∷ check_deadline t.deadline
    ∷ report (is_some t.on_deadline && t.deadline == "") on_deadline_without_deadline
    ∷ []

unfoldable pub check_trigger : Trigger → List TriggerError
check_trigger t = concat (trigger_checks t)

unfoldable pub validate_triggers : Dag → List ValidationError
validate_triggers d = elim d.trigger [ none ↦ [] | some t ↦ map trigger_error (check_trigger t) ]

abbrev pub one_if : Bool → ℕ
one_if true = 1
one_if false = 0

abbrev pub hook_actions : Hook → ℕ
hook_actions h = one_if (is_set h.r_expr) + one_if (is_set h.command) + one_if (is_set h.notify)

-- the closure `check` of `validateHooks`
abbrev pub check_hook : Option Hook → HookPlace → List ValidationError
check_hook none place = []
check_hook (some h) place =
    report (nat_eq (hook_actions h) 0) (hook_error place hook_empty)
    ++ report (ltb 1 (hook_actions h)) (hook_error place hook_multiple)

abbrev pub deadline_hook : Option Trigger → Option Hook
deadline_hook none = none
deadline_hook (some t) = t.on_deadline

abbrev pub hook_checks : Dag → List (List ValidationError)
hook_checks d =
    check_hook d.on_success on_success
    ∷ check_hook d.on_failure on_failure
    ∷ check_hook d.on_exit on_exit
    ∷ check_hook (deadline_hook d.trigger) on_deadline
    ∷ []

unfoldable pub validate_hooks : Dag → List ValidationError
validate_hooks d = concat (hook_checks d)

-- the closure `check` of `validateNotifyChannels`
abbrev pub check_channel : List String → Option Hook → HookPlace → List ValidationError
check_channel channels none place = []
check_channel channels (some h) place =
    if h.notify == ""
    then []
    else report (not (contains channels h.notify)) (hook_error place (unknown_channel h.notify))

abbrev pub approve_hook : Option ApproveStep → Option Hook
approve_hook none = none
approve_hook (some a) = a.notify

abbrev pub check_step_channels : List String → List Step → List ValidationError
check_step_channels channels [] = []
check_step_channels channels (s ∷ steps) =
    check_channel channels (approve_hook s.approve) (approve_notify s.id)
    ++ check_step_channels channels steps

abbrev pub channel_checks : Dag → List String → List (List ValidationError)
channel_checks d channels =
    check_channel channels d.on_success on_success
    ∷ check_channel channels d.on_failure on_failure
    ∷ check_channel channels d.on_exit on_exit
    ∷ check_channel channels (deadline_hook d.trigger) on_deadline
    ∷ check_step_channels channels d.steps
    ∷ []

unfoldable pub validate_notify_channels : Dag → List String → List ValidationError
validate_notify_channels d channels = concat (channel_checks d channels)

abbrev pub exposure_types : List String
exposure_types = "shiny" ∷ "quarto" ∷ "dashboard" ∷ "report" ∷ "other" ∷ []

abbrev check_exposure_type : ℕ → Exposure → List ValidationError
check_exposure_type i ex =
    if ex.kind == ""
    then exposure_error i type_required ∷ []
    else report (not (contains exposure_types ex.kind)) (exposure_error i (type_invalid ex.kind))

-- for i, ex := range d.Exposures
unfoldable pub check_exposures : ℕ → List String → List Exposure → List ValidationError
check_exposures i seen [] = []
check_exposures i seen (ex ∷ exs) =
    let unnamed = exposure_error i name_required ∷ check_exposures (i + 1) seen exs in
    let named =
      report (contains seen ex.name) (exposure_error i (duplicate_name ex.name))
      ++ (check_exposure_type i ex ++ check_exposures (i + 1) (ex.name ∷ seen) exs) in
    if ex.name == "" then unnamed else named

unfoldable pub validate_exposures : Dag → List ValidationError
unfolding check_exposures
validate_exposures d = check_exposures 0 [] d.exposures
