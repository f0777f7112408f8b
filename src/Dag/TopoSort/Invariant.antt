-- ===== src/Dag/TopoSort/Invariant.antt =====
-- The invariant of the loop over the tiers, for steps with distinct ids: `done` are the ids of the
-- tiers so far, and an id is queued exactly when none of its dependencies is missing.
use daggle.Prelude.{
  ℕ, zero, suc, ◌-◌, ◌≤◌, String, ◌≡◌, refl, sym, subst, ◌∙◌, ap, false, List, [], ◌∷◌, ◌++◌, arith,
  ◌==◌, eq_iff, eq_refl, if◌then◌else◌, length, contains, count, All, All-append, count-append,
  Bool-cases, inl, inr, ◌⊎◌,
}
use daggle.Prelude.Int.{ℤ, pos, is_zero}
use daggle.Dag.Model.{Step}
use daggle.Dag.TopoSort.{Tables, no_tables, Frontier, build_tables, drain, seeds}
use daggle.Dag.TopoSort.Build.{
  ids, IsDistinct, edges, build_tables-count, build_tables-All, IsEntered, build_tables-IsEntered,
}
use daggle.Dag.TopoSort.Ends.{IsId, ids-IsId}
use daggle.Dag.TopoSort.Counts.{
  settled, missing, taken, load, Once, Counted, drain-Counted, drain-All, missing-append,
}

-- `s` is one of the steps.
abbrev pub In : Step → List Step → Type 0
In s [] = ⊥
In s (x ∷ steps) = (s ≡ x) ⊎ In s steps

pub All-In {κ} : (P : Step → Type κ) (s : Step) (steps : List Step) → In s steps → All P steps → P s
All-In P s (x ∷ steps) (inl e) h = subst P (sym e) h.0
All-In P s (x ∷ steps) (inr m) h = All-In P s steps m h.1
All-In P s [] m h = elim m [ ]

pub IsId-In : (s : Step) (steps : List Step) → In s steps → IsId steps s.id
IsId-In s [] m = elim m [ ]
IsId-In s (x ∷ steps) (inl e) = rw (e, eq_refl)
IsId-In s (x ∷ steps) (inr m) = ground (arith, IsId-In s steps m)

-- An id names a step.
pub named_step :
    (x : String) (steps : List Step) → IsId steps x → (s : Step) × In s steps × (s.id ≡ x)
named_step x [] h = cc
named_step x (s ∷ steps) h = elim (Bool-cases (s.id == x)) [
  | inl same ↦ (s, inl refl, (eq_iff s.id x).0 same)
  | inr other ↦ let (u, m, e) = named_step x steps (rw other at h) in (u, inr m, e)
]

edges_absent :
    (id dep : String) (steps : List Step) → contains (ids steps) id ≡ false → edges id dep steps ≡ 0
edges_absent id dep [] h = refl
edges_absent id dep (s ∷ steps) h = ground (arith, edges_absent id dep steps)

-- With distinct ids the edges into a step are its own dependencies.
edges-In :
    (s : Step) (dep : String) (steps : List Step)
    → IsDistinct (ids steps)
    → In s steps
    → edges s.id dep steps ≡ count dep s.depends
edges-In s dep [] d m = elim m [ ]
edges-In s dep (x ∷ steps) d (inl e) =
    subst (λ u. edges u.id dep (x ∷ steps) ≡ count dep u.depends) (sym e)
      (rw eq_refl (rw (edges_absent x.id dep steps d.0) (omega arith)))
edges-In s dep (x ∷ steps) d (inr m) =
    ground (arith, edges-In s dep steps d.1 m, IsId-In s steps m, eq_iff x.id s.id)

seeds-absent :
    (y : String) (deg : String → ℤ) (rest : List Step)
    → contains (ids rest) y ≡ false
    → count y (seeds deg rest) ≡ 0
unfolding seeds
seeds-absent y deg [] h = refl
seeds-absent y deg (x ∷ rest) h = ground (arith, seeds-absent y deg rest, eq_iff x.id y)

seeds-count :
    (s : Step) (deg : String → ℤ) (rest : List Step)
    → IsDistinct (ids rest)
    → In s rest
    → count s.id (seeds deg rest) ≡ (if is_zero (deg s.id) then 1 else 0)
unfolding seeds
seeds-count s deg [] d m = elim m [ ]
seeds-count s deg (x ∷ rest) d (inl e) =
    subst (λ u. count u.id (seeds deg (x ∷ rest)) ≡ (if is_zero (deg u.id) then 1 else 0)) (sym e)
      (ground (arith, seeds-absent x.id deg rest d.0, eq_refl x.id))
seeds-count s deg (x ∷ rest) d (inr m) =
    ground (arith, seeds-count s deg rest d.1 m, IsId-In s rest m, eq_iff x.id s.id)

seeds-All :
    (P : String → Type 0) (deg : String → ℤ) (rest : List Step)
    → All P (ids rest)
    → All P (seeds deg rest)
unfolding seeds
seeds-All P deg [] h = tt
seeds-All P deg (x ∷ rest) h = elim (Bool-cases (is_zero (deg x.id))) [
  | inl e ↦ rw e (h.0, seeds-All P deg rest h.1)
  | inr e ↦ rw e (seeds-All P deg rest h.1)
]

missing-nil : (deps : List String) → missing [] deps ≡ length deps
missing-nil [] = refl
missing-nil (d ∷ deps) = ap suc (missing-nil deps)

settled-is_zero : (n : ℕ) → (if is_zero (pos n) then 1 else 0) ≡ settled n
settled-is_zero zero = refl
settled-is_zero (suc n) = refl

abbrev pub built : List Step → Tables
built steps = build_tables steps no_tables

module _ (steps : List Step) (distinct : IsDistinct (ids steps)) where
  load-taken :
      (s : Step) (queue : List String)
      → In s steps
      → load (built steps).dependents s.id queue ≡ taken queue s.depends
  load-taken s [] m = refl
  load-taken s (id ∷ queue) m = omega (
    arith,
    load-taken s queue m,
    build_tables-count s.id id steps no_tables,
    edges-In s id steps distinct m,
  )

  pub record Inv (done queue : List String) (deg : String → ℤ) : Type 0 where
    pub degree : (s : Step) → In s steps → deg s.id ≡ pos (missing done s.depends)
    pub placed :
        (s : Step) → In s steps → count s.id (done ++ queue) ≡ settled (missing done s.depends)
    pub known : All (IsId steps) (done ++ queue)

  settled-le : (n : ℕ) → settled n ≤ 1
  settled-le zero = omega arith
  settled-le (suc n) = omega arith

  count_of_All :
      (x : String) (xs : List String)
      → contains (ids steps) x ≡ false
      → All (IsId steps) xs
      → count x xs ≡ 0
  count_of_All x [] h a = refl
  count_of_All x (y ∷ xs) h a = ground (arith, count_of_All x xs h a.1, eq_iff y x)

  pub Inv-Once :
      {done queue : List String} {deg : String → ℤ} → Inv done queue deg → Once (done ++ queue)
  Inv-Once {done} {queue} inv x = elim (Bool-cases (contains (ids steps) x)) [
    | inl yes_ ↦
        let (s, m, e) = named_step x steps yes_ in
        rw (← e) (rw (inv.placed s m) (settled-le (missing done s.depends)))
    | inr no_ ↦ rw (count_of_All x (done ++ queue) no_ inv.known) (omega arith)
  ]

  started : (s : Step) → In s steps → (built steps).in_degree s.id ≡ pos (length s.depends)
  started s m =
      (All-In (IsEntered (built steps)) s steps m
        (build_tables-IsEntered steps no_tables distinct)).degree

  -- Before the first round the seeds are queued.
  pub start-Inv : Inv [] (seeds (built steps).in_degree steps) (built steps).in_degree
  start-Inv = record {
    degree = λ s m. started s m ∙ ap pos (sym (missing-nil s.depends));
    placed = λ s m.
        seeds-count s (built steps).in_degree steps distinct m
        ∙ (rw (started s m, missing-nil) (settled-is_zero (length s.depends)));
    known = seeds-All (IsId steps) (built steps).in_degree steps (ids-IsId steps);
  }

  -- One round.
  pub round-Inv :
      (done queue : List String) (deg : String → ℤ)
      → Inv done queue deg
      → let f = drain (built steps).dependents queue (record { degree = deg; next = [] }) in
        Inv (done ++ queue) f.next f.degree
  round-Inv done queue deg inv = record {
    degree = λ s m. (counted s m).degree ∙ ap pos (gone s m);
    placed = λ s m. omega (
      arith,
      (counted s m).queued,
      inv.placed s m,
      count-append s.id (done ++ queue) (drain (built steps).dependents queue start).next,
      ap settled (gone s m),
    );
    known = All-append (IsId steps) (done ++ queue) _ inv.known (
        drain-All (IsId steps) (built steps).dependents queue start
          (build_tables-All (IsId steps) steps no_tables (ids-IsId steps) (λ j. tt)) tt);
  }
    where
      start : Frontier
      start = record { degree = deg; next = [] }

      once : Once (done ++ queue)
      once = Inv-Once inv

      gone :
          (s : Step)
          → In s steps
          → missing done s.depends - load (built steps).dependents s.id queue
            ≡ missing (done ++ queue) s.depends
      gone s m = omega (arith, load-taken s queue m, missing-append done queue s.depends once)

      counted :
          (s : Step)
          → In s steps
          → Counted s.id
              (missing done s.depends)
              (load (built steps).dependents s.id queue)
              start
              (drain (built steps).dependents queue start)
      counted s m =
          drain-Counted s.id (built steps).dependents queue (missing done s.depends) _
            (inv.degree s m)
            (omega (arith, load-taken s queue m, missing-append done queue s.depends once))
