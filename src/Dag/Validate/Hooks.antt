-- ===== src/Dag/Validate/Hooks.antt =====
-- Hooks and notify channels.
use daggle.Prelude.{
  String, ◌≡◌, refl, ◌≢◌, List, [], ◌∷◌, arith, ◌↔◌, ◌⊎◌, append-eq-nil, concat-eq-nil_iff, Option,
  none, some, contains, true, eq_iff, All,
}
use daggle.Dag.Model.{Dag, Step, Hook}
use daggle.Dag.Validate.Errors.{HookPlace, approve_notify}
use daggle.Dag.Validate.Parts.{
  check_hook, hook_checks, validate_hooks, deadline_hook, check_channel, approve_hook,
  check_step_channels, channel_checks, validate_notify_channels,
}
use daggle.Dag.Validate.{validate_channels}

-- A predicate of a hook, where there is one.
abbrev OnHook : (Hook → Type 0) → Option Hook → Type 0
OnHook P none = Unit
OnHook P (some h) = P h

-- Exactly one of the three actions is given.
abbrev pub OneAction : Hook → Type 0
OneAction h =
    ((h.r_expr ≢ "") × (h.command ≡ "") × (h.notify ≡ ""))
    ⊎ (((h.r_expr ≡ "") × (h.command ≢ "") × (h.notify ≡ ""))
        ⊎ ((h.r_expr ≡ "") × (h.command ≡ "") × (h.notify ≢ "")))

-- The channel that a hook notifies is configured.
abbrev pub KnownChannel : List String → Hook → Type 0
KnownChannel channels h = (h.notify ≢ "") → contains channels h.notify ≡ true

check_hook_iff :
    (o : Option Hook) (place : HookPlace) → (check_hook o place ≡ []) ↔ OnHook OneAction o
check_hook_iff none place = (λ h. tt, λ h. refl)
check_hook_iff (some h) place = (
  λ e. ground (arith, eq_iff h.r_expr "", eq_iff h.command "", eq_iff h.notify ""),
  λ e. ground (arith, eq_iff h.r_expr "", eq_iff h.command "", eq_iff h.notify ""),
)

check_channel_iff :
    (channels : List String) (o : Option Hook) (place : HookPlace)
    → (check_channel channels o place ≡ []) ↔ OnHook (KnownChannel channels) o
check_channel_iff channels none place = (λ h. tt, λ h. refl)
check_channel_iff channels (some h) place =
    (λ e. ground (arith, eq_iff h.notify ""), λ e. ground (arith, eq_iff h.notify "", e))

-- The workflow's own hooks.
abbrev pub OnDagHooks : (Hook → Type 0) → Dag → Type 0
OnDagHooks P d =
    OnHook P d.on_success
    × OnHook P d.on_failure
    × OnHook P d.on_exit
    × OnHook P (deadline_hook d.trigger)

-- `validateHooks` accepts exactly the workflows in which each of the four hooks that is present
-- gives exactly one of r_expr, command and notify.
pub validate_hooks_iff : (d : Dag) → (validate_hooks d ≡ []) ↔ OnDagHooks OneAction d
unfolding validate_hooks
validate_hooks_iff d = (
  λ h.
      let parts = (concat-eq-nil_iff (hook_checks d)).0 h in
      (
        (check_hook_iff d.on_success _).0 parts.0,
        (check_hook_iff d.on_failure _).0 parts.1.0,
        (check_hook_iff d.on_exit _).0 parts.1.1.0,
        (check_hook_iff (deadline_hook d.trigger) _).0 parts.1.1.1.0,
      ),
  λ ok. (concat-eq-nil_iff (hook_checks d)).1 (
    (check_hook_iff d.on_success _).1 ok.0,
    (
      (check_hook_iff d.on_failure _).1 ok.1,
      (
        (check_hook_iff d.on_exit _).1 ok.2,
        ((check_hook_iff (deadline_hook d.trigger) _).1 ok.3, tt),
      ),
    ),
  ),
)

abbrev pub OnApproveHooks : (Hook → Type 0) → List Step → Type 0
OnApproveHooks P steps = All (λ s. OnHook P (approve_hook s.approve)) steps

check_step_channels_iff :
    (channels : List String) (steps : List Step)
    → (check_step_channels channels steps ≡ []) ↔ OnApproveHooks (KnownChannel channels) steps
check_step_channels_iff channels [] = (λ h. tt, λ h. refl)
check_step_channels_iff channels (s ∷ steps) = (
  λ h.
      let (here, rest) =
        append-eq-nil (check_channel channels (approve_hook s.approve) (approve_notify s.id)) _ h in
      (
        (check_channel_iff channels (approve_hook s.approve) _).0 here,
        (check_step_channels_iff channels steps).0 rest,
      ),
  λ ok.
      rw ((check_channel_iff channels (approve_hook s.approve) (approve_notify s.id)).1 ok.0)
        ((check_step_channels_iff channels steps).1 ok.1),
)

-- `ValidateChannels` accepts a workflow exactly when every hook of the workflow and of its approval
-- steps that notifies a channel names one of the configured channels.
pub validate_channels_iff :
    (d : Dag) (channels : List String)
    → (validate_channels d channels ≡ [])
      ↔ (OnDagHooks (KnownChannel channels) d × OnApproveHooks (KnownChannel channels) d.steps)
unfolding validate_channels validate_notify_channels
validate_channels_iff d channels = (
  λ h.
      let parts = (concat-eq-nil_iff (channel_checks d channels)).0 h in
      (
        (
          (check_channel_iff channels d.on_success _).0 parts.0,
          (check_channel_iff channels d.on_failure _).0 parts.1.0,
          (check_channel_iff channels d.on_exit _).0 parts.1.1.0,
          (check_channel_iff channels (deadline_hook d.trigger) _).0 parts.1.1.1.0,
        ),
        (check_step_channels_iff channels d.steps).0 parts.1.1.1.1.0,
      ),
  λ (own, steps). (concat-eq-nil_iff (channel_checks d channels)).1 (
    (check_channel_iff channels d.on_success _).1 own.0,
    (
      (check_channel_iff channels d.on_failure _).1 own.1,
      (
        (check_channel_iff channels d.on_exit _).1 own.2,
        (
          (check_channel_iff channels (deadline_hook d.trigger) _).1 own.3,
          ((check_step_channels_iff channels d.steps).1 steps, tt),
        ),
      ),
    ),
  ),
)
