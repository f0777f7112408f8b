-- ===== src/Dag/TopoSort/Order.antt =====
-- The tiers of the sort, for steps with distinct ids.
use daggle.Prelude.{
  ℕ, zero, suc, ◌<◌, String, ◌≡◌, refl, subst, ◌∙◌, true, List, [], ◌∷◌, ◌++◌, arith, eq_refl,
  length, contains, count, All, All-map, All-append, All-append_right, count-append, Bool-cases,
  inl, inr, append-nil, append_assoc, some, length-append,
}
use daggle.Prelude.Int.{ℤ}
use daggle.Dag.Model.{Step}
use daggle.Dag.TopoSort.{Progress, add_tier, tier_of, tier_loop, no_tables, drain}
use daggle.Dag.TopoSort.Build.{ids, IsDistinct, IsEntered, build_tables-IsEntered}
use daggle.Dag.TopoSort.Ends.{IsId}
use daggle.Dag.TopoSort.Counts.{settled, missing}
use daggle.Dag.TopoSort.Invariant.{In, All-In, named_step, built, Inv, round-Inv}

-- The ids of the tiers, in order.
abbrev pub tier_ids : List (List Step) → List String
tier_ids [] = []
tier_ids (tier ∷ ts) = ids tier ++ tier_ids ts

-- Every dependency of a step stands in a tier before the step's own, or in `done`.
abbrev pub IsLayered : List String → List (List Step) → Type 0
IsLayered done [] = Unit
IsLayered done (tier ∷ ts) =
    All (λ s. All (λ d. contains done d ≡ true) s.depends) tier × IsLayered (done ++ ids tier) ts

IsLayered-snoc :
    (done : List String) (ts : List (List Step)) (tier : List Step)
    → IsLayered done ts
    → All (λ s. All (λ d. contains (done ++ tier_ids ts) d ≡ true) s.depends) tier
    → IsLayered done (ts ++ tier ∷ [])
IsLayered-snoc done [] tier l h = (rw append-nil at h, tt)
IsLayered-snoc done (t ∷ ts) tier l h =
    (l.0, IsLayered-snoc (done ++ ids t) ts tier l.1 (rw append_assoc h))

tier_ids-snoc :
    (ts : List (List Step)) (tier : List Step)
    → tier_ids (ts ++ tier ∷ []) ≡ tier_ids ts ++ ids tier
tier_ids-snoc [] tier = append-nil (ids tier)
tier_ids-snoc (t ∷ ts) tier = rw (tier_ids-snoc ts tier, append_assoc)

none_missing :
    (done deps : List String) → missing done deps ≡ 0 → All (λ d. contains done d ≡ true) deps
none_missing done [] h = tt
none_missing done (d ∷ deps) h = elim (Bool-cases (contains done d)) [
  | inl e ↦ (e, none_missing done deps (rw e at h))
  | inr e ↦ absurd (omega (arith, rw e at h))
]

zero_of_settled : (n : ℕ) → 0 < settled n → n ≡ 0
zero_of_settled zero h = refl
zero_of_settled (suc n) h = absurd (omega arith)

count_self : (xs : List String) → All (λ x. 0 < count x xs) xs
count_self [] = tt
count_self (x ∷ xs) =
    (rw eq_refl (omega arith), All-map xs (λ y h. ground (arith, h)) (count_self xs))

module _ (steps : List Step) (distinct : IsDistinct (ids steps)) where
  -- What a step of the next tier has.
  abbrev Ready : List String → Step → Type 0
  Ready done s = In s steps × All (λ d. contains done d ≡ true) s.depends

  queued-Ready :
      {done queue : List String} {deg : String → ℤ} (x : String)
      → Inv steps distinct done queue deg
      → IsId steps x
      → 0 < count x (done ++ queue)
      → (((built steps).step_map x).id ≡ x) × Ready done ((built steps).step_map x)
  queued-Ready {done} {queue} x inv known queued =
      let (s, m, named) = named_step x steps known in
      let entered =
        All-In (IsEntered (built steps)) s steps m
          (build_tables-IsEntered steps no_tables distinct) in
      let found : (built steps).step_map x ≡ s =
        subst (λ y. (built steps).step_map y ≡ s) named entered.step in
      let ready =
        zero_of_settled (missing done s.depends)
          (omega (arith, inv.placed s m, rw (← named) at queued)) in
      rw found (named, (m, none_missing done s.depends ready))

  tier-Ready :
      (done queue rest : List String) (deg : String → ℤ)
      → Inv steps distinct done queue deg
      → All (IsId steps) rest
      → All (λ x. 0 < count x (done ++ queue)) rest
      → (ids (tier_of (built steps).step_map rest) ≡ rest)
        × All (Ready done) (tier_of (built steps).step_map rest)
  tier-Ready done queue [] deg inv known queued = (refl, tt)
  tier-Ready done queue (x ∷ rest) deg inv known queued =
      let (named, ready) = queued-Ready x inv known.0 queued.0 in
      let (names, readys) = tier-Ready done queue rest deg inv known.1 queued.1 in
      (cc, (ready, readys))

  -- What the loop has built so far.
  pub record Sound (done : List String) (p : Progress) : Type 0 where
    pub layered : IsLayered [] p.tiers
    pub names : tier_ids p.tiers ≡ done
    pub size : p.processed ≡ length done
    pub members : All (All (λ s. In s steps)) p.tiers

  add_tier-Sound :
      (done queue : List String) (deg : String → ℤ) (p : Progress)
      → Inv steps distinct done queue deg
      → Sound done p
      → Sound (done ++ queue) (add_tier (built steps) queue p)
  add_tier-Sound done queue deg p inv sound =
      let known = All-append_right (IsId steps) done queue inv.known in
      let queued : All (λ x. 0 < count x (done ++ queue)) queue =
        All-map queue (λ x h. omega (arith, h, count-append x done queue)) (count_self queue) in
      let (names, ready) = tier-Ready done queue queue deg inv known queued in
      record {
        layered =
            IsLayered-snoc [] p.tiers _ sound.layered
              (rw sound.names (All-map _ (λ s r. r.1) ready));
        names = tier_ids-snoc p.tiers _ ∙ cc;
        size = omega (arith, sound.size, length-append done queue);
        members =
            All-append (All (λ s. In s steps)) p.tiers _ sound.members
              (All-map _ (λ s r. r.0) ready, tt);
      }

  pub tier_loop-Sound :
      (fuel : ℕ) (done queue : List String) (deg : String → ℤ) (p q : Progress)
      → Inv steps distinct done queue deg
      → Sound done p
      → tier_loop fuel (built steps) queue deg p ≡ some q
      → (final : List String) × (last : String → ℤ) × Inv steps distinct final [] last
        × Sound final q
  unfolding tier_loop
  tier_loop-Sound zero done [] deg p q inv sound e = (done, deg, inv, subst (Sound done) (cc) sound)
  tier_loop-Sound (suc fuel) done [] deg p q inv sound e =
      (done, deg, inv, subst (Sound done) (cc) sound)
  tier_loop-Sound zero done (id ∷ queue) deg p q inv sound e = cc
  tier_loop-Sound (suc fuel) done (id ∷ queue) deg p q inv sound e =
      let f = drain (built steps).dependents (id ∷ queue) (record { degree = deg; next = [] }) in
      tier_loop-Sound fuel (done ++ id ∷ queue) f.next f.degree _ q
        (round-Inv steps distinct done (id ∷ queue) deg inv)
        (add_tier-Sound done (id ∷ queue) deg p inv sound) e
