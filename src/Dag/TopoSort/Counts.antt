-- ===== src/Dag/TopoSort/Counts.antt =====
-- What one round of the loop does to the in-degree of an id and to the next queue, in numbers.
use daggle.Prelude.{
  ℕ, zero, suc, ◌+◌, ◌-◌, ◌≤◌, String, ◌≡◌, refl, false, List, [], ◌∷◌, ◌++◌, arith, eq_iff,
  if◌then◌else◌, contains, count, All, All-append, count-append, Bool-cases, inl, inr,
  contains-append, contains_of_count, append-nil, append_assoc,
}
use daggle.Prelude.Int.{pos, pred_ℤ, is_zero}
use daggle.Dag.TopoSort.{Frontier, count_down, release, drain}

-- 1 for a step that nothing holds up
abbrev pub settled : ℕ → ℕ
settled zero = 1
settled (suc n) = 0

-- How many entries of `deps` are not in `done`.
abbrev pub missing : List String → List String → ℕ
missing done [] = 0
missing done (d ∷ deps) = let rest = missing done deps in if contains done d then rest else suc rest

-- How many entries of `deps` are in the queue, counted from the queue.
abbrev pub taken : List String → List String → ℕ
taken [] deps = 0
taken (id ∷ queue) deps = count id deps + taken queue deps

-- How often a round counts `x` down.
abbrev pub load : (String → List String) → String → List String → ℕ
load dependents x [] = 0
load dependents x (id ∷ queue) = count x (dependents id) + load dependents x queue

-- No text stands twice in the list.
abbrev pub Once : List String → Type 0
Once xs = (x : String) → count x xs ≤ 1

pub missing-snoc :
    (done : List String) (id : String) (deps : List String)
    → contains done id ≡ false
    → missing done deps ≡ missing (done ++ id ∷ []) deps + count id deps
missing-snoc done id [] h = omega arith
missing-snoc done id (d ∷ deps) h =
    ground (
      arith,
      missing-snoc done id deps h,
      contains-append done (id ∷ []) d,
      eq_iff id d,
      eq_iff d id,
    )

-- `x` is `n` away from the queue, and what a round has done keeps that in step with the queue.
pub record Counted (x : String) (n c : ℕ) (f g : Frontier) : Type 0 where
  pub degree : g.degree x ≡ pos (n - c)
  pub queued : count x g.next + settled n ≡ count x f.next + settled (n - c)

count_down-Counted :
    (x d : String) (n : ℕ) (f : Frontier)
    → f.degree x ≡ pos n
    → count x (d ∷ []) ≤ n
    → Counted x n (count x (d ∷ [])) f (count_down d f)
unfolding count_down
count_down-Counted x d zero f e le = ground (arith, eq_iff d x, count-append x f.next (d ∷ []))
count_down-Counted x d (suc zero) f e le =
    ground (arith, eq_iff d x, count-append x f.next (d ∷ []))
count_down-Counted x d (suc (suc n)) f e le =
    ground (arith, eq_iff d x, count-append x f.next (d ∷ []))

Counted-refl : (x : String) (n : ℕ) (f : Frontier) → f.degree x ≡ pos n → Counted x n 0 f f
Counted-refl x n f e =
    let same : n - 0 ≡ n = omega arith in record { degree = rw same e; queued = rw same refl }

Counted-trans :
    (x : String) (n c c' : ℕ) (f g h : Frontier)
    → Counted x n c f g
    → Counted x (n - c) c' g h
    → Counted x n (c + c') f h
Counted-trans x n c c' f g h p q =
    let same : n - c - c' ≡ n - (c + c') = omega arith in
    record { degree = rw same at q.degree; queued = omega (arith, p.queued, rw same at q.queued) }

release-Counted :
    (x : String) (ds : List String) (n : ℕ) (f : Frontier)
    → f.degree x ≡ pos n
    → count x ds ≤ n
    → Counted x n (count x ds) f (release ds f)
unfolding release
release-Counted x [] n f e le = Counted-refl x n f e
release-Counted x (d ∷ ds) n f e le =
    let first : count x (d ∷ []) ≤ n = ground arith in
    let split : count x (d ∷ []) + count x ds ≡ count x (d ∷ ds) = ground arith in
    let here = count_down-Counted x d n f e first in
    rw (← split) (
      Counted-trans x n _ _ f (count_down d f) _ here
        (release-Counted x ds (n - count x (d ∷ [])) (count_down d f) here.degree (omega arith)))

pub drain-Counted :
    (x : String) (dependents : String → List String) (queue : List String) (n : ℕ) (f : Frontier)
    → f.degree x ≡ pos n
    → load dependents x queue ≤ n
    → Counted x n (load dependents x queue) f (drain dependents queue f)
unfolding drain
drain-Counted x dependents [] n f e le = Counted-refl x n f e
drain-Counted x dependents (id ∷ queue) n f e le =
    let here = release-Counted x (dependents id) n f e (omega arith) in
    Counted-trans x n _ _ f (release (dependents id) f) _ here (
      drain-Counted x dependents queue (n - count x (dependents id)) (release (dependents id) f)
        here.degree (omega arith))

-- Whatever holds of the dependents holds of what a round queues.
module _ (P : String → Type 0) where
  count_down-All : (d : String) (f : Frontier) → P d → All P f.next → All P (count_down d f).next
  unfolding count_down
  count_down-All d f p h = elim (Bool-cases (is_zero (pred_ℤ (f.degree d)))) [
    | inl e ↦ rw e (All-append P f.next (d ∷ []) h (p, tt))
    | inr e ↦ rw e h
  ]

  release-All :
      (ds : List String) (f : Frontier) → All P ds → All P f.next → All P (release ds f).next
  unfolding release
  release-All [] f p h = h
  release-All (d ∷ ds) f p h = release-All ds (count_down d f) p.1 (count_down-All d f p.0 h)

  pub drain-All :
      (dependents : String → List String) (queue : List String) (f : Frontier)
      → ((j : String) → All P (dependents j))
      → All P f.next
      → All P (drain dependents queue f).next
  unfolding drain
  drain-All dependents [] f p h = h
  drain-All dependents (id ∷ queue) f p h =
      drain-All dependents queue (release (dependents id) f) p
        (release-All (dependents id) f (p id) h)

-- Moving a queue of new ids to the ids that are done takes its entries off what is missing.
pub missing-append :
    (done queue : List String) (deps : List String)
    → Once (done ++ queue)
    → missing done deps ≡ missing (done ++ queue) deps + taken queue deps
missing-append done [] deps once = rw append-nil (omega arith)
missing-append done (id ∷ queue) deps once =
    let regroup : (done ++ id ∷ []) ++ queue ≡ done ++ id ∷ queue =
      append_assoc done (id ∷ []) queue in
    let new =
      contains_of_count id done
        (ground (arith, once id, count-append id done (id ∷ queue), eq_iff id id)) in
    let rest = missing-append (done ++ id ∷ []) queue deps (rw regroup once) in
    omega (arith, missing-snoc done id deps new, rw regroup at rest)
