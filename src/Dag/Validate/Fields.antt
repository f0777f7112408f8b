-- ===== src/Dag/Validate/Fields.antt =====
-- What single fields may hold: retries, the deadline, artifact and exposure names.
use daggle.Prelude.{
  ℕ, ◌+◌, ◌*◌, ◌-◌, ◌≤◌, String, ◌≡◌, refl, [], ◌∷◌, arith, ◌↔◌, ◌⊎◌, inl, inr, concat-eq-nil_iff,
  none, some, true, false, ◌==◌, eq_iff, Bool-cases, Option-cases, Bool,
}
use daggle.Prelude.Int.{ℤ, is_neg, pos}
use daggle.Go.Text.{Text, is_digit, scan_int}
use daggle.Go.Duration.{parse_duration}
use daggle.Dag.Model.{Step, Retry}
use daggle.Dag.Validate.Errors.{
  retry_limit_negative, retry_backoff_invalid, retry_max_delay_invalid,
}
use daggle.Dag.Validate.Version.{validate_deadline_time, deadline_matches, scan_time, judge_time}
use daggle.Dag.Validate.Steps.{
  report, check_retry, retry_checks, is_bad_backoff, optional_duration, is_bad_duration,
  validate_step_retry,
}

-- A text that `time.ParseDuration` reads.
abbrev pub IsDuration : String → Type 0
IsDuration s = (n : ℤ) × (parse_duration s ≡ some n)

abbrev pub IsRetry : Retry → Type 0
IsRetry r =
    (is_neg r.limit ≡ false)
    × ((r.backoff ≡ "") ⊎ ((r.backoff ≡ "linear") ⊎ (r.backoff ≡ "exponential")))
    × ((r.max_delay ≡ "") ⊎ IsDuration r.max_delay)

report_iff {ℓ} : {E : Type ℓ} (b : Bool) (e : E) → (report b e ≡ []) ↔ (b ≡ false)
report_iff true e = ((λ h. cc), (λ h. cc))
report_iff false e = ((λ h. refl), (λ h. refl))

good-IsDuration : (s : String) → (is_bad_duration s ≡ false) ↔ IsDuration s
good-IsDuration s = elim (Option-cases (parse_duration s)) [
  | inl bad ↦ ((λ h. cc (rw bad at h)), (λ (n, e). cc (e)))
  | inr (n, e) ↦ ((λ h. (n, e)), (λ _. rw e refl))
]

optional_duration_iff :
    {E : Type 0} (e : String → E) (s : String)
    → (optional_duration e s ≡ []) ↔ ((s ≡ "") ⊎ IsDuration s)
optional_duration_iff e s = elim (Bool-cases (s == "")) [
  | inl empty ↦ ((λ h. inl ((eq_iff s "").0 empty)), (λ h. rw empty refl))
  | inr given ↦ (
    (λ h. inr ((good-IsDuration s).0 ((report_iff _ (e s)).0 (rw given at h)))),
    λ h. elim h [
      | inl is ↦ cc ((eq_iff s "").1 is, given)
      | inr ok ↦ rw given ((report_iff _ (e s)).1 ((good-IsDuration s).1 ok))
    ],
  )
]

backoff_iff :
    (b : String) → (is_bad_backoff b ≡ false) ↔ ((b ≡ "") ⊎ ((b ≡ "linear") ⊎ (b ≡ "exponential")))
backoff_iff b = (
  (λ h. ground (arith, eq_iff b "", eq_iff b "linear", eq_iff b "exponential")),
  (λ h. ground (arith, eq_iff b "", eq_iff b "linear", eq_iff b "exponential")),
)

check_retry_iff : (r : Retry) → (check_retry r ≡ []) ↔ IsRetry r
check_retry_iff r = (
  (λ h.
      let parts = (concat-eq-nil_iff (retry_checks r)).0 h in
      (
        (report_iff (is_neg r.limit) retry_limit_negative).0 parts.0,
        (backoff_iff r.backoff).0
            ((report_iff (is_bad_backoff r.backoff) retry_backoff_invalid).0 parts.1.0),
        (optional_duration_iff retry_max_delay_invalid r.max_delay).0 parts.1.1.0,
      )),
  (λ (limit, backoff, delay). (concat-eq-nil_iff (retry_checks r)).1 (
    (report_iff (is_neg r.limit) retry_limit_negative).1 limit,
    (
      (report_iff (is_bad_backoff r.backoff) retry_backoff_invalid).1
          ((backoff_iff r.backoff).1 backoff),
      ((optional_duration_iff retry_max_delay_invalid r.max_delay).1 delay, tt),
    ),
  )),
)

-- A retry block is accepted exactly when its limit is not negative, its backoff is absent, linear
-- or exponential, and its cap is absent or a duration.
pub validate_step_retry_iff :
    (s : Step) (r : Retry) → s.retry ≡ some r → (validate_step_retry s ≡ []) ↔ IsRetry r
unfolding validate_step_retry
validate_step_retry_iff s r e = rw e (check_retry_iff r)

abbrev pub digit : ℕ → ℕ
digit c = c - b'0'

-- "HH:MM" with an hour up to 23 and a minute up to 59.
abbrev pub IsClockTime : Text → Type 0
IsClockTime (a ∷ b ∷ c ∷ d ∷ e ∷ []) = (digit a * 10 + digit b ≤ 23) × (digit d * 10 + digit e ≤ 59)
IsClockTime _ = ⊥

scan_int_two :
    (a b : ℕ) (rest : Text)
    → is_digit a ≡ true
    → is_digit b ≡ true
    → scan_int (a ∷ b ∷ b':' ∷ rest) ≡ some (pos (digit a * 10 + digit b), b':' ∷ rest)
unfolding scan_int
scan_int_two a b rest p q = ground arith

scan_int_end :
    (a b : ℕ)
    → is_digit a ≡ true
    → is_digit b ≡ true
    → scan_int (a ∷ b ∷ []) ≡ some (pos (digit a * 10 + digit b), [])
unfolding scan_int
scan_int_end a b p q = ground arith

scan_time_five :
    (a b d e : ℕ)
    → is_digit a ≡ true
    → is_digit b ≡ true
    → is_digit d ≡ true
    → is_digit e ≡ true
    → scan_time (a ∷ b ∷ b':' ∷ d ∷ e ∷ [])
      ≡ some (pos (digit a * 10 + digit b), pos (digit d * 10 + digit e))
unfolding scan_time
scan_time_five a b d e p q r t =
    ground (arith, scan_int_two a b (d ∷ e ∷ []) p q, scan_int_end d e r t)

judge_time_iff : (h m : ℕ) → (judge_time (some (pos h, pos m)) ≡ none) ↔ ((h ≤ 23) × (m ≤ 59))
judge_time_iff h m = ((λ e. ground arith), (λ e. ground arith))

-- A deadline of the form NN:NN is accepted exactly when it is a clock time.
pub validate_deadline_time_iff :
    (s : Text) → deadline_matches s ≡ true → (validate_deadline_time s ≡ none) ↔ IsClockTime s
unfolding validate_deadline_time
validate_deadline_time_iff (a ∷ b ∷ c ∷ d ∷ e ∷ []) m =
    let digits : (is_digit a ≡ true)
        × (is_digit b ≡ true)
        × (c ≡ b':')
        × (is_digit d ≡ true)
        × (is_digit e ≡ true) =
      ground arith in
    rw (digits.2, scan_time_five a b d e digits.0 digits.1 digits.3 digits.4)
      (judge_time_iff (digit a * 10 + digit b) (digit d * 10 + digit e))
validate_deadline_time_iff _ m = cc
