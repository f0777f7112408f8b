-- ===== src/Scheduler/Catchup/Missed.antt =====
-- What the loops over the ticks of a schedule return.
use daggle.Prelude.{
  ℕ, zero, suc, ◌+◌, ◌≤◌, ◌<◌, ◌≡◌, refl, ◌≢◌, inl, inr, Bool, true, false, ◌&&◌, List, [], ◌∷◌,
  none, some, ltb, nat_eq, length, All, arith, Bool-cases, ap,
}
use daggle.Scheduler.Catchup.{Ticks, tick_loop, last_tick, by_mode, missed_ticks, due_ticks}

-- Consecutive ticks from `t` on.
abbrev pub AreConsecutive : (ℕ → ℕ) → ℕ → List ℕ → Type 0
AreConsecutive next t [] = Unit
AreConsecutive next t (u ∷ ticks) = (u ≡ t) × AreConsecutive next (next t) ticks

-- The tick behind them.
abbrev pub tick_after : (ℕ → ℕ) → ℕ → List ℕ → ℕ
tick_after next t [] = t
tick_after next t (u ∷ ticks) = tick_after next (next t) ticks

-- What the loop returns: consecutive ticks that are not after `now`; all of them, unless it is cut
-- off at the cap, when there is another.
pub record AreMissed (next : ℕ → ℕ) (now : ℕ) (limited : Bool) (cap found t : ℕ) (r : Ticks)
    : Type 0 where
  pub consecutive : AreConsecutive next t r.0
  pub past : All (λ u. u ≤ now) r.0
  pub complete : r.1 ≡ false → now < tick_after next t r.0
  pub cut :
      r.1 ≡ true → (limited ≡ true) × (found + length r.0 ≡ cap) × (tick_after next t r.0 ≤ now)
  pub within : limited ≡ true → found + length r.0 ≤ cap

module _ (next : ℕ → ℕ) (later : (t : ℕ) → t < next t) (now : ℕ) (is_all : Bool) (cap : ℕ) where
  nothing-AreMissed :
      (found t : ℕ)
      → now < t
      → ((is_all && ltb 0 cap) ≡ true → found ≤ cap)
      → AreMissed next now (is_all && ltb 0 cap) cap found t ([], false)
  nothing-AreMissed found t b room = record {
    consecutive = tt;
    past = tt;
    complete = λ h. b;
    cut = λ h. cc;
    within = λ h. omega (arith, room h);
  }

  add-AreMissed :
      (found t : ℕ) (r : Ticks)
      → t ≤ now
      → AreMissed next now (is_all && ltb 0 cap) cap (suc found) (next t) r
      → AreMissed next now (is_all && ltb 0 cap) cap found t (t ∷ r.0, r.1)
  add-AreMissed found t r b h = record {
    consecutive = (refl, h.consecutive);
    past = (b, h.past);
    complete = h.complete;
    cut = λ e. ((h.cut e).0, omega (arith, (h.cut e).1), (h.cut e).2);
    within = λ e. omega (arith, h.within e);
  }

  tick_loop-AreMissed :
      (fuel found t : ℕ)
      → now < fuel + t
      → ((is_all && ltb 0 cap) ≡ true → found ≤ cap)
      → (r : Ticks) × (tick_loop next now is_all cap fuel found t ≡ some r)
        × AreMissed next now (is_all && ltb 0 cap) cap found t r
  unfolding tick_loop
  tick_loop-AreMissed zero found t enough room =
      let b : ltb now t ≡ true = ground (arith, enough) in
      (([], false), rw b refl, nothing-AreMissed found t (ground (arith, b)) room)
  tick_loop-AreMissed (suc fuel) found t enough room = elim (Bool-cases (ltb now t)) [
    | inl b ↦ (([], false), rw b refl, nothing-AreMissed found t (ground (arith, b)) room)
    | inr b ↦ elim (Bool-cases (is_all && ltb 0 cap && ltb cap (suc found))) [
      | inl c ↦ (
        ([], true),
        rw (b, c) refl,
        record {
          consecutive = tt;
          past = tt;
          complete = λ e. cc;
          cut = λ e. (ground (arith, c), ground (arith, c, room), ground (arith, b));
          within = λ e. omega (arith, room e);
        },
      )
      | inr c ↦
          let (r, same, h) =
            tick_loop-AreMissed fuel (suc found) (next t) (omega (arith, later t, enough))
              (λ e. ground (arith, c, e)) in
          ((t ∷ r.0, r.1), rw (b, c, same) refl, add-AreMissed found t r (ground (arith, b)) h)
    ]
  ]

module _ (next : ℕ → ℕ) (later : (t : ℕ) → t < next t) (last_end now cap : ℕ)
    (anchored : last_end ≢ 0) where
  anchor : nat_eq last_end 0 ≡ false
  anchor = ground (arith, anchored)

  -- With catchup `all`, `missedTicks` ends and returns consecutive ticks from the first after the last
  -- run on, none later than now: all there are, or, marked as truncated, exactly the cap.
  pub missed_ticks-all :
      (r : Ticks) × (missed_ticks (some next) last_end now "all" cap ≡ some r)
      × AreMissed next now (ltb 0 cap) cap 0 (next last_end) r
  unfolding missed_ticks
  missed_ticks-all =
      let (r, same, h) =
        tick_loop-AreMissed next later now true cap (suc now) 0 (next last_end) (omega arith)
          (λ e. omega arith) in
      (r, rw (anchor, same) refl, h)

  -- With catchup `once`, `missedTicks` ends and returns the last of all the ticks after the last run
  -- that are not later than now, or nothing where there are none.
  pub missed_ticks-once :
      (ticks : List ℕ) × (missed_ticks (some next) last_end now "once" cap
        ≡ some (last_tick ticks, false))
      × AreMissed next now false cap 0 (next last_end) (ticks, false)
  unfolding missed_ticks
  missed_ticks-once =
      let (r, same, h) =
        tick_loop-AreMissed next later now false cap (suc now) 0 (next last_end) (omega arith)
          (λ e. omega arith) in
      elim (Bool-cases r.1) [
        | inl e ↦ absurd (ground (arith, (h.cut e).0))
        | inr e ↦ (
          r.0,
          rw anchor (ap (by_mode false) same),
          record {
            consecutive = h.consecutive;
            past = h.past;
            complete = λ k. h.complete e;
            cut = λ k. cc;
            within = λ k. cc;
          },
        )
      ]

never-ends : (now found fuel : ℕ) → tick_loop (λ t. 0) now false 0 fuel found 0 ≡ none
unfolding tick_loop
never-ends now found zero = ground arith
never-ends now found (suc fuel) = ground (arith, never-ends now (suc found) fuel)

-- Where `Next` finds no activation and returns the zero time, the loop of `fireDueCronEntries` goes
-- on for ever: no number of rounds is enough.
pub due_ticks-unending : (now fuel : ℕ) → due_ticks (λ t. 0) now fuel 0 ≡ none
unfolding due_ticks
due_ticks-unending now fuel = never-ends now 0 fuel
