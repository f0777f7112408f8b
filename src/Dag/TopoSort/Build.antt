-- ===== src/Dag/TopoSort/Build.antt =====
-- What `build_tables` puts into the three maps.
use daggle.Prelude.{
  ℕ, ◌+◌, String, ◌≡◌, refl, ◌∙◌, false, List, [], ◌∷◌, ◌++◌, arith, ◌==◌, eq_iff, if◌then◌else◌,
  length, count, contains, All, All-append, count-append, Bool-cases, inl, inr, or-false, eq_refl,
}
use daggle.Prelude.Int.{pos}
use daggle.Dag.Model.{Step}
use daggle.Dag.TopoSort.{Tables, add_dependents, build_tables, update}

abbrev pub ids : List Step → List String
ids [] = []
ids (s ∷ steps) = s.id ∷ ids steps

-- No text stands twice.
abbrev pub IsDistinct : List String → Type 0
IsDistinct [] = Unit
IsDistinct (x ∷ xs) = (contains xs x ≡ false) × IsDistinct xs

-- Edges from a step named `id` to `dep`, counted over all steps.
abbrev pub edges : String → String → List Step → ℕ
edges id dep [] = 0
edges id dep (s ∷ steps) = (if s.id == id then count dep s.depends else 0) + edges id dep steps

add_dependents-count :
    (id y j : String) (deps : List String) (m : String → List String)
    → count y (add_dependents id deps m j) ≡ count y (m j) + (if id == y then count j deps else 0)
unfolding add_dependents
add_dependents-count id y j [] m = ground arith
add_dependents-count id y j (dep ∷ deps) m = ground (
  arith,
  add_dependents-count id y j deps (update m dep (m dep ++ id ∷ [])),
  count-append y (m dep) (id ∷ []),
  eq_iff dep j,
)

pub build_tables-count :
    (y j : String) (steps : List Step) (t : Tables)
    → count y ((build_tables steps t).dependents j) ≡ count y (t.dependents j) + edges y j steps
unfolding build_tables
build_tables-count y j [] t = omega arith
build_tables-count y j (s ∷ steps) t =
    omega
      (arith, build_tables-count y j steps _, add_dependents-count s.id y j s.depends t.dependents)

module _ {κ} (P : String → Type κ) where
  add_dependents-All :
      (id : String) (deps : List String) (m : String → List String)
      → P id
      → ((j : String) → All P (m j))
      → (j : String) → All P (add_dependents id deps m j)
  unfolding add_dependents
  add_dependents-All id [] m p h j = h j
  add_dependents-All id (dep ∷ deps) m p h j =
      add_dependents-All id deps _ p
        (λ k. elim (Bool-cases (dep == k)) [
          | inl e ↦ rw e (All-append P (m dep) (id ∷ []) (h dep) (p, tt))
          | inr e ↦ rw e (h k)
        ])
        j

  pub build_tables-All :
      (steps : List Step) (t : Tables)
      → All P (ids steps)
      → ((j : String) → All P (t.dependents j))
      → (j : String) → All P ((build_tables steps t).dependents j)
  unfolding build_tables
  build_tables-All [] t p h j = h j
  build_tables-All (s ∷ steps) t p h j =
      build_tables-All steps _ p.1 (add_dependents-All s.id s.depends t.dependents p.0 h) j

build_tables_other :
    (x : String) (steps : List Step) (t : Tables)
    → contains (ids steps) x ≡ false
    → ((build_tables steps t).in_degree x ≡ t.in_degree x)
      × ((build_tables steps t).step_map x ≡ t.step_map x)
unfolding build_tables
build_tables_other x [] t h = (refl, refl)
build_tables_other x (s ∷ steps) t h =
    let (differs, rest) = or-false (s.id == x) (contains (ids steps) x) h in
    let (degree, step) = build_tables_other x steps _ rest in
    (degree ∙ (rw differs), step ∙ (rw differs))

-- With distinct ids every step finds its own entry.
pub record IsEntered (t : Tables) (s : Step) : Type 0 where
  pub degree : t.in_degree s.id ≡ pos (length s.depends)
  pub step : t.step_map s.id ≡ s

pub build_tables-IsEntered :
    (steps : List Step) (t : Tables)
    → IsDistinct (ids steps)
    → All (IsEntered (build_tables steps t)) steps
unfolding build_tables
build_tables-IsEntered [] t d = tt
build_tables-IsEntered (s ∷ steps) t d =
    let (degree, step) = build_tables_other s.id steps _ d.0 in
    (
      record { degree = degree ∙ (rw eq_refl); step = step ∙ (rw eq_refl) },
      build_tables-IsEntered steps _ d.1,
    )
