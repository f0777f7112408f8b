-- ===== src/State/Run/Latest.antt =====
-- Which run the look-ups of state/run.go return.
use daggle.Prelude.{
  ◌≤◌, String, ◌≡◌, refl, ◌⊎◌, inl, inr, true, List, [], ◌∷◌, Option, none, some, arith, ltb, All,
  All-map, contains, Bool-cases,
}
use daggle.State.Run.{RunInfo, Logs, run_status, insert_run, sort_runs, latest_run_with_status}

-- Every run started no earlier than those behind it.
abbrev pub IsDescending : List RunInfo → Type 0
IsDescending [] = Unit
IsDescending (r ∷ rs) = All (λ q. q.start_time ≤ r.start_time) rs × IsDescending rs

abbrev pub In : RunInfo → List RunInfo → Type 0
In r [] = ⊥
In r (q ∷ rs) = (r ≡ q) ⊎ In r rs

insert_run-All {κ} :
    (P : RunInfo → Type κ) (r : RunInfo) (rs : List RunInfo)
    → P r
    → All P rs
    → All P (insert_run r rs)
unfolding insert_run
insert_run-All P r [] p ps = (p, tt)
insert_run-All P r (q ∷ rs) p ps = elim (Bool-cases (ltb r.start_time q.start_time)) [
  | inl e ↦ rw e (ps.0, insert_run-All P r rs p ps.1)
  | inr e ↦ rw e (p, ps)
]

insert_run-IsDescending :
    (r : RunInfo) (rs : List RunInfo) → IsDescending rs → IsDescending (insert_run r rs)
unfolding insert_run
insert_run-IsDescending r [] d = (tt, tt)
insert_run-IsDescending r (q ∷ rs) d = elim (Bool-cases (ltb r.start_time q.start_time)) [
  | inl e ↦ rw e (insert_run-All _ r rs (ground arith) d.0, insert_run-IsDescending r rs d.1)
  | inr e ↦ rw e ((ground arith, All-map rs (λ p h. ground arith) d.0), d)
]

-- `ListRuns` orders the runs by their start, the latest first.
sort_runs-IsDescending : (rs : List RunInfo) → IsDescending (sort_runs rs)
unfolding sort_runs
sort_runs-IsDescending [] = tt
sort_runs-IsDescending (r ∷ rs) =
    insert_run-IsDescending r (sort_runs rs) (sort_runs-IsDescending rs)

-- A run that has one of the wanted statuses.
abbrev pub IsWanted : Logs → List String → RunInfo → Type 0
IsWanted logs want r = contains want (run_status (logs r.dir)) ≡ true

-- The answer `some r` is a wanted run that no wanted run is later than; `none` says that there is
-- no wanted run.
abbrev pub IsLatestWanted : Logs → List String → List RunInfo → Option RunInfo → Type 0
IsLatestWanted logs want rs none = All (λ q. ¬ IsWanted logs want q) rs
IsLatestWanted logs want rs (some r) =
    In r rs
    × IsWanted logs want r
    × All (λ q. IsWanted logs want q → q.start_time ≤ r.start_time) rs

skip-IsLatestWanted :
    (logs : Logs) (want : List String) (r : RunInfo) (rs : List RunInfo) (o : Option RunInfo)
    → ¬ IsWanted logs want r
    → IsLatestWanted logs want rs o
    → IsLatestWanted logs want (r ∷ rs) o
skip-IsLatestWanted logs want r rs none n h = (n, h)
skip-IsLatestWanted logs want r rs (some q) n h = (inr h.0, h.1, ((λ w. absurd (n w)), h.2))

latest-IsLatestWanted :
    (logs : Logs) (want : List String) (rs : List RunInfo)
    → IsDescending rs
    → IsLatestWanted logs want rs (latest_run_with_status logs want rs)
unfolding latest_run_with_status
latest-IsLatestWanted logs want [] d = tt
latest-IsLatestWanted logs want (r ∷ rs) d =
    elim (Bool-cases (contains want (run_status (logs r.dir)))) [
      | inl e ↦ rw e (inl refl, e, ((λ h. ground arith), All-map rs (λ q h w. h) d.0))
      | inr e ↦
          rw e (
            skip-IsLatestWanted logs want r rs _ (λ w. cc) (latest-IsLatestWanted logs want rs d.1))
    ]

-- `LatestRunWithStatus` returns a run with a wanted status that no run with one is later than, and
-- nothing only where no run has a wanted status; the runs are those of `ListRuns`, in its order.
pub latest_run_with_status-IsLatestWanted :
    (logs : Logs) (want : List String) (rs : List RunInfo)
    → IsLatestWanted logs want (sort_runs rs) (latest_run_with_status logs want (sort_runs rs))
latest_run_with_status-IsLatestWanted logs want rs =
    latest-IsLatestWanted logs want (sort_runs rs) (sort_runs-IsDescending rs)
