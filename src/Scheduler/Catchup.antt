-- ===== src/Scheduler/Catchup.antt =====
-- Missed ticks of a cron schedule (missedTicks in scheduler/catchup.go, and the loop of
-- fireDueCronEntries in scheduler/cron_executor.go). `next` is `Next` of the third-party schedule; a
-- time is its distance from Go's zero time, which `Next` returns where it finds no activation.
pub mod Missed
use daggle.Prelude.{
  ℕ, zero, suc, ◌+◌, ◌-◌, ◌≤◌, ◌<◌, String, ◌≡◌, refl, ◌≢◌, ◌⊎◌, inl, inr, Bool, true, false, not,
  ◌&&◌, ◌||◌, List, [], ◌∷◌, Option, none, some, ◌==◌, if◌then◌else◌, ltb, nat_eq, length, All,
  arith, Bool-cases, List-cases, differ,
}

-- The ticks, and whether the cap cut them off.
abbrev pub Ticks : Type 0
Ticks = List ℕ × Bool

abbrev pub add_tick : ℕ → Option Ticks → Option Ticks
add_tick t none = none
add_tick t (some (ticks, truncated)) = some (t ∷ ticks, truncated)

-- The loop at tick `t`, with `found` ticks before it: `none` means that the fuel ran out.
unfoldable pub tick_loop : (ℕ → ℕ) → ℕ → Bool → ℕ → ℕ → ℕ → ℕ → Option Ticks
tick_loop next now is_all cap zero found t = if ltb now t then some ([], false) else none
tick_loop next now is_all cap (suc fuel) found t =
    let rest = tick_loop next now is_all cap fuel (suc found) (next t) in
    if ltb now t
    then some ([], false)
    else if is_all && ltb 0 cap && ltb cap (suc found)
    then some ([], true)
    else add_tick t rest

-- all[len(all)-1:]
abbrev pub last_tick : List ℕ → List ℕ
last_tick [] = []
last_tick (t ∷ []) = t ∷ []
last_tick (t ∷ u ∷ ticks) = last_tick (u ∷ ticks)

abbrev pub by_mode : Bool → Option Ticks → Option Ticks
by_mode is_all none = none
by_mode true (some ticks) = some ticks
by_mode false (some (ticks, truncated)) = some (last_tick ticks, false)

-- A nil schedule has no `next`; each tick is later than the one before, so that the fuel is enough
-- where `Next` finds an activation.
unfoldable pub missed_ticks : Option (ℕ → ℕ) → ℕ → ℕ → String → ℕ → Option Ticks
unfolding tick_loop
missed_ticks none last_end now mode cap = some ([], false)
missed_ticks (some next) last_end now mode cap =
    if nat_eq last_end 0 || (not (mode == "once") && not (mode == "all"))
    then some ([], false)
    else by_mode (mode == "all")
        (tick_loop next now (mode == "all") cap (suc now) 0 (next last_end))

-- The ticks that `fireDueCronEntries` fires for one entry.
unfoldable pub due_ticks : (ℕ → ℕ) → ℕ → ℕ → ℕ → Option Ticks
unfolding tick_loop
due_ticks next now fuel t = tick_loop next now false 0 fuel 0 t
