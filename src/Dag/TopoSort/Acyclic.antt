-- ===== src/Dag/TopoSort/Acyclic.antt =====
-- The sort succeeds exactly when the dependencies are known and have no cycle.
use daggle.Prelude.{
  ℕ, suc, ◌≤◌, ◌<◌, String, ◌≡◌, refl, sym, subst, ◌∙◌, ap, List, [], ◌∷◌, ◌++◌, arith, ◌==◌,
  eq_iff, eq_refl, length, contains, count, All, All-zip, All-map, contains_of_count_pos,
  count-append, contains-append, inl, inr, if◌then◌else◌, true, false, Bool-cases, append_assoc,
  ◌↔◌,
}
use daggle.Dag.Model.{Step}
use daggle.Dag.TopoSort.{topo_sort, tiers}
use daggle.Dag.TopoSort.Build.{ids, IsDistinct}
use daggle.Dag.TopoSort.Ends.{IsId}
use daggle.Dag.TopoSort.Counts.{Once}
use daggle.Dag.TopoSort.Invariant.{In, IsId-In}
use daggle.Dag.TopoSort.Order.{tier_ids, IsLayered}
use daggle.Dag.TopoSort.Schedule.{IsSchedule, topo_sort-IsSchedule}
use daggle.Dag.TopoSort.Complete.{AreKnown, IsRanked, topo_sort_complete}

-- Where `x` stands first in a list.
abbrev pub position : String → List String → ℕ
position x [] = 0
position x (y ∷ ys) = let rest = position x ys in if y == x then 0 else suc rest

position_within :
    (x : String) (xs ys : List String) → contains xs x ≡ true → position x (xs ++ ys) < length xs
position_within x [] ys h = cc
position_within x (y ∷ xs) ys h = ground (arith, position_within x xs ys)

position_beyond :
    (x : String) (xs ys : List String) → count x xs ≡ 0 → length xs ≤ position x (xs ++ ys)
position_beyond x [] ys h = omega arith
position_beyond x (y ∷ xs) ys h = ground (arith, position_beyond x xs ys)

-- A step of a tier stands behind its dependencies in the list of all ids.
abbrev Behind : List String → Step → Type 0
Behind all s = All (λ d. (position d all < position s.id all) × (contains all d ≡ true)) s.depends

dep_before :
    (done rest : List String) (s : Step) (deps : List String)
    → count s.id done ≡ 0
    → All (λ d. contains done d ≡ true) deps
    → All
        (λ d.
          (position d (done ++ rest) < position s.id (done ++ rest))
          × (contains (done ++ rest) d ≡ true))
        deps
dep_before done rest s [] new h = tt
dep_before done rest s (d ∷ deps) new h = (
  (
    omega (arith, position_within d done rest h.0, position_beyond s.id done rest new),
    ground (arith, contains-append done rest d),
  ),
  dep_before done rest s deps new h.1,
)

tier_Behind :
    (done rest : List String) (tier : List Step)
    → ((x : String) → contains (ids tier) x ≡ true → count x done ≡ 0)
    → All (λ s. All (λ d. contains done d ≡ true) s.depends) tier
    → All (Behind (done ++ rest)) tier
tier_Behind done rest [] new h = tt
tier_Behind done rest (s ∷ tier) new h = (
  dep_before done rest s s.depends (new s.id (rw eq_refl)) h.0,
  tier_Behind done rest tier (λ x m. new x (ground (arith, m))) h.1,
)

count_of_contains : (x : String) (xs : List String) → contains xs x ≡ true → 0 < count x xs
count_of_contains x [] h = cc
count_of_contains x (y ∷ xs) h = ground (arith, count_of_contains x xs)

layers_Behind :
    (done : List String) (ts : List (List Step))
    → Once (done ++ tier_ids ts)
    → IsLayered done ts
    → All (All (Behind (done ++ tier_ids ts))) ts
layers_Behind done [] once h = tt
layers_Behind done (tier ∷ ts) once h = (
  tier_Behind done (ids tier ++ tier_ids ts) tier
      (λ x m. omega (
        arith,
        once x,
        count-append x done (ids tier ++ tier_ids ts),
        count-append x (ids tier) (tier_ids ts),
        count_of_contains x (ids tier) m,
      ))
      h.0,
  let regroup = append_assoc done (ids tier) (tier_ids ts) in
      subst (λ all. All (All (Behind all)) ts) regroup
        (layers_Behind (done ++ ids tier) ts (rw regroup once) h.1),
)

-- With distinct ids two steps of one id are one step.
distinct_id :
    (steps : List Step) (s u : Step)
    → IsDistinct (ids steps)
    → In s steps
    → In u steps
    → s.id ≡ u.id
    → s ≡ u
distinct_id [] s u d m n e = elim m [ ]
distinct_id (x ∷ steps) s u d (inl p) (inl q) e = p ∙ sym q
distinct_id (x ∷ steps) s u d (inl p) (inr n) e =
    cc (IsId-In u steps n, ap (λ (t : Step). t.id) p, d.0, e)
distinct_id (x ∷ steps) s u d (inr m) (inl q) e =
    cc (IsId-In s steps m, ap (λ (t : Step). t.id) q, d.0, e)
distinct_id (x ∷ steps) s u d (inr m) (inr n) e = distinct_id steps s u d.1 m n e

All-of_In {κ} :
    (P : Step → Type κ) (steps : List Step) → ((s : Step) → In s steps → P s) → All P steps
All-of_In P [] h = tt
All-of_In P (s ∷ steps) h = (h s (inl refl), All-of_In P steps (λ u m. h u (inr m)))

module _ (P : Step → Type 0) where
  Found : String → Type 0
  Found x = (t : Step) × (t.id ≡ x) × P t

  find_in_tier :
      (x : String) (tier : List Step) → contains (ids tier) x ≡ true → All P tier → Found x
  unfolding Found
  find_in_tier x [] h a = cc
  find_in_tier x (t ∷ tier) h a = elim (Bool-cases (t.id == x)) [
    | inl e ↦ (t, (eq_iff t.id x).0 e, a.0)
    | inr e ↦ find_in_tier x tier (rw e at h) a.1
  ]

  find_in_tiers :
      (x : String) (ts : List (List Step))
      → contains (tier_ids ts) x ≡ true
      → All (All P) ts
      → Found x
  unfolding Found
  find_in_tiers x [] h a = cc
  find_in_tiers x (tier ∷ ts) h a = elim (Bool-cases (contains (ids tier) x)) [
    | inl e ↦ find_in_tier x tier e a.0
    | inr e ↦
        find_in_tiers x ts (rw e at (sym (contains-append (ids tier) (tier_ids ts) x) ∙ h)) a.1
  ]

count_absent : (x : String) (xs : List String) → contains xs x ≡ false → count x xs ≡ 0
count_absent x [] h = refl
count_absent x (y ∷ xs) h = ground (arith, count_absent x xs)

module _ (steps : List Step) (distinct : IsDistinct (ids steps)) (ts : List (List Step))
    (sched : IsSchedule steps ts) where
  schedule-Once : Once (tier_ids ts)
  unfolding Found
  schedule-Once x = elim (Bool-cases (contains (tier_ids ts) x)) [
    | inl e ↦
        let (t, named, m) = find_in_tiers (λ s. In s steps) x ts e sched.members in
        let one = sched.once t m in subst (λ y. count y (tier_ids ts) ≤ 1) named (omega arith)
    | inr e ↦ rw (count_absent x (tier_ids ts) e) (omega arith)
  ]

  step_Behind : (s : Step) → In s steps → Behind (tier_ids ts) s
  unfolding Found
  step_Behind s m =
      let both =
        find_in_tiers (λ t. In t steps × Behind (tier_ids ts) t) s.id ts
          (contains_of_count_pos s.id (tier_ids ts) 0 (sched.once s m))
          (All-zip _ ts (λ tier ins behinds. All-zip _ tier (λ t i b. (i, b)) ins behinds)
            sched.members (layers_Behind [] ts schedule-Once sched.layered)) in
      subst (Behind (tier_ids ts)) (distinct_id steps both.0 s distinct both.2.0 m both.1) both.2.1

  Behind-IsId :
      (deps : List String) → All (λ d. contains (tier_ids ts) d ≡ true) deps → All (IsId steps) deps
  unfolding Found
  Behind-IsId [] h = tt
  Behind-IsId (d ∷ deps) h =
      let (t, named, m) = find_in_tiers (λ s. In s steps) d ts h.0 sched.members in
      (subst (IsId steps) named (IsId-In t steps m), Behind-IsId deps h.1)

  schedule-AreKnown : AreKnown steps
  schedule-AreKnown =
      All-of_In (λ s. All (IsId steps) s.depends) steps
        (λ s m. Behind-IsId s.depends (All-map s.depends (λ d b. b.1) (step_Behind s m)))

  schedule-IsRanked : IsRanked (λ x. position x (tier_ids ts)) steps
  schedule-IsRanked = All-of_In _ steps (λ s m. All-map s.depends (λ d b. b.0) (step_Behind s m))

-- For steps with distinct ids: `TopoSort` returns tiers exactly when every dependency names a
-- step and some ranking puts each dependency below its step, which is to say there is no cycle.
pub topo_sort_iff_acyclic :
    (steps : List Step)
    → IsDistinct (ids steps)
    → ((ts : List (List Step)) × (topo_sort steps ≡ tiers ts))
      ↔ (AreKnown steps × ((rank : String → ℕ) × IsRanked rank steps))
topo_sort_iff_acyclic steps distinct = (
  λ (ts, e).
      let sched = topo_sort-IsSchedule steps distinct ts e in
      (
        schedule-AreKnown steps distinct ts sched,
        ((λ x. position x (tier_ids ts)), schedule-IsRanked steps distinct ts sched),
      ),
  λ (known, (rank, ranked)). topo_sort_complete steps distinct rank known ranked,
)
