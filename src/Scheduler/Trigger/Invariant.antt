-- ===== src/Scheduler/Trigger/Invariant.antt =====
-- What holds in every reachable state of the scheduler.
use daggle.Prelude.{
  ℕ, suc, ◌≤◌, String, ◌≡◌, refl, inl, inr, true, false, List, [], ◌∷◌, arith, ◌==◌, eq_iff,
  contains, count, length, Bool-cases, sym, ap, ◌∙◌, subst,
}
use daggle.Prelude.Int.{pos, pred_ℤ}
use daggle.Scheduler.Trigger.{
  RunEntry, State, names, is_running, is_full, succ_ℤ, delete_run, cancel_run, remove_one,
  start_run, trigger_run, resume_trigger, finish_run, Transition, triggered, resumed, finished,
  Reachable, start, step,
}

-- The map holds exactly the live runs, at most one of each workflow; the counter counts them; and
-- there are no more than the limit.
pub record IsConsistent (max : ℕ) (s : State) : Type 0 where
  pub same : names s.running ≡ s.live
  pub once : (x : String) → count x s.live ≤ 1
  pub counted : s.running_count ≡ pos (length s.live)
  pub bounded : length s.live ≤ max

names-cancel_run : (x : String) (rs : List RunEntry) → names (cancel_run x rs) ≡ names rs
unfolding cancel_run
names-cancel_run x [] = refl
names-cancel_run x (r ∷ rs) = elim (Bool-cases (r.dag_name == x)) [
  | inl b ↦ rw (b, names-cancel_run x rs) refl
  | inr b ↦ rw (b, names-cancel_run x rs) refl
]

delete_run-absent :
    (x : String) (rs : List RunEntry) → count x (names rs) ≡ 0 → names (delete_run x rs) ≡ names rs
unfolding delete_run
delete_run-absent x [] h = refl
delete_run-absent x (r ∷ rs) h = elim (Bool-cases (r.dag_name == x)) [
  | inl b ↦ absurd (ground (arith, h, b))
  | inr b ↦ rw b (ap (λ l. r.dag_name ∷ l) (delete_run-absent x rs (ground (arith, h, b))))
]

delete_run-names :
    (x : String) (rs : List RunEntry)
    → count x (names rs) ≤ 1
    → names (delete_run x rs) ≡ remove_one x (names rs)
unfolding delete_run remove_one
delete_run-names x [] h = refl
delete_run-names x (r ∷ rs) h = elim (Bool-cases (r.dag_name == x)) [
  | inl b ↦ rw b (delete_run-absent x rs (ground (arith, h, b)))
  | inr b ↦ rw b (ap (λ l. r.dag_name ∷ l) (delete_run-names x rs (ground (arith, h, b))))
]

count-remove_one : (y x : String) (xs : List String) → count y (remove_one x xs) ≤ count y xs
unfolding remove_one
count-remove_one y x [] = omega arith
count-remove_one y x (z ∷ xs) = ground (arith, count-remove_one y x xs)

length-remove_one :
    (x : String) (xs : List String)
    → contains xs x ≡ true
    → suc (length (remove_one x xs)) ≡ length xs
unfolding remove_one
length-remove_one x [] h = absurd (ground (arith, h))
length-remove_one x (z ∷ xs) h = elim (Bool-cases (z == x)) [
  | inl b ↦ rw b refl
  | inr b ↦ rw b (ap suc (length-remove_one x xs (ground (arith, h, b))))
]

count_of_absent : (x : String) (xs : List String) → contains xs x ≡ false → count x xs ≡ 0
count_of_absent x [] h = refl
count_of_absent x (z ∷ xs) h = ground (arith, h, count_of_absent x xs)

count-start :
    (x y : String) (xs : List String) → count x xs ≡ 0 → count y xs ≤ 1 → count y (x ∷ xs) ≤ 1
count-start x y xs absent once = elim (Bool-cases (x == y)) [
  | inl b ↦ rw b (omega (arith, subst (λ z. count z xs ≡ 0) ((eq_iff x y).0 b) absent))
  | inr b ↦ rw b once
]

module _ (max : ℕ) where
  not_full : (n : ℕ) → is_full max (pos n) ≡ false → suc n ≤ max
  not_full n h = ground (arith, h)

  start_run-IsConsistent :
      (x : String) (s : State)
      → is_running x s ≡ false
      → IsConsistent max s
      → IsConsistent max (start_run max x s)
  unfolding start_run
  start_run-IsConsistent x s new h = elim (Bool-cases (is_full max s.running_count)) [
    | inl b ↦ rw b h
    | inr b ↦
        let absent = count_of_absent x s.live (subst (λ l. contains l x ≡ false) h.same new) in
        rw b (record {
          same = ap (λ l. x ∷ l) h.same;
          once = λ y. count-start x y s.live absent (h.once y);
          counted = ap succ_ℤ h.counted;
          bounded = not_full (length s.live) (rw h.counted at b);
        })
  ]

  trigger_run-IsConsistent :
      (overlap x : String) (s : State)
      → IsConsistent max s
      → IsConsistent max (trigger_run max overlap x s)
  unfolding trigger_run
  trigger_run-IsConsistent overlap x s h = elim (Bool-cases (is_running x s)) [
    | inl b ↦ elim (Bool-cases (overlap == "cancel")) [
      | inl c ↦
          rw (b, c)
            (record {
              same = names-cancel_run x s.running ∙ h.same;
              once = h.once;
              counted = h.counted;
              bounded = h.bounded;
            })
      | inr c ↦ rw (b, c) h
    ]
    | inr b ↦ rw b (start_run-IsConsistent x s b h)
  ]

  -- A trigger that wakes up.
  woken-IsConsistent :
      (x : String) (s : State)
      → IsConsistent max s
      → IsConsistent max (record s { waiting = remove_one x s.waiting })
  woken-IsConsistent x s h = record {
    same = h.same;
    once = h.once;
    counted = h.counted;
    bounded = h.bounded;
  }

  resume_trigger-IsConsistent :
      (x : String) (s : State) → IsConsistent max s → IsConsistent max (resume_trigger max x s)
  unfolding resume_trigger
  resume_trigger-IsConsistent x s h = elim (Bool-cases (is_running x s)) [
    | inl b ↦ rw b (woken-IsConsistent x s h)
    | inr b ↦ rw b (
        start_run-IsConsistent x (record s { waiting = remove_one x s.waiting }) b
          (woken-IsConsistent x s h))
  ]

  finish_run-IsConsistent :
      (x : String) (s : State)
      → contains s.live x ≡ true
      → IsConsistent max s
      → IsConsistent max (finish_run x s)
  unfolding finish_run
  finish_run-IsConsistent x s here h =
      let shorter = length-remove_one x s.live here in
      record {
        same =
            delete_run-names x s.running (subst (λ l. count x l ≤ 1) (sym h.same) (h.once x))
            ∙ ap (remove_one x) h.same;
        once = λ y. omega (arith, h.once y, count-remove_one y x s.live);
        counted = ap pred_ℤ (h.counted ∙ ap pos (sym shorter));
        bounded = omega (arith, h.bounded, shorter);
      }

Transition-IsConsistent :
    (max : ℕ) {s t : State} → Transition max s t → IsConsistent max s → IsConsistent max t
Transition-IsConsistent max (triggered overlap x s) h = trigger_run-IsConsistent max overlap x s h
Transition-IsConsistent max (resumed x s woken) h = resume_trigger-IsConsistent max x s h
Transition-IsConsistent max (finished x s here) h = finish_run-IsConsistent max x s here h

-- In every state that triggers, woken triggers and ending runs can lead to, in any interleaving, at
-- most one run of each workflow is active, `running` holds exactly the active runs, `runningCount`
-- is their number, and it is no greater than `maxConcurrent`.
pub Reachable-IsConsistent : (max : ℕ) (s : State) → Reachable max s → IsConsistent max s
Reachable-IsConsistent max _ start = record {
  same = refl;
  once = λ x. omega arith;
  counted = refl;
  bounded = omega arith;
}
Reachable-IsConsistent max _ (step before next) =
    Transition-IsConsistent max next (Reachable-IsConsistent max _ before)
