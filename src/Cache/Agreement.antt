-- ===== src/Cache/Agreement.antt =====
-- `daggle plan` beside the engine: which steps the plan shows as cached, and when it looks up the
-- key that the engine looks up.
use daggle.Prelude.{
  String, ◌≡◌, ◌≢◌, ◌↔◌, refl, sym, ap, ◌∙◌, Bool, true, false, ◌&&◌, ◌||◌, List, [], ◌∷◌, ◌++◌,
  Option, none, some, ◌==◌, contains, if◌then◌else◌, All, All-map, differ, arith,
}
use daggle.Dag.Model.{Dag, Step}
use daggle.Cache.Plan.{
  PlanEntry, PlanWorld, upstream_outdated, plan_key, plan_entry, no_cache, upstream_entry,
  looked_up, with_outdated, compute_plan_from, compute_plan,
}

-- The ids of the entries that are outdated, the last one first.
abbrev pub outdated_after : List String → List PlanEntry → List String
outdated_after outdated [] = outdated
outdated_after outdated (e ∷ es) = outdated_after (with_outdated e outdated) es

compute_plan_from-append :
    (w : PlanWorld) (d : Dag) (outdated : List String) (xs ys : List Step)
    → compute_plan_from w d outdated (xs ++ ys)
      ≡ compute_plan_from w d outdated xs
        ++ compute_plan_from w d (outdated_after outdated (compute_plan_from w d outdated xs)) ys
unfolding compute_plan_from
compute_plan_from-append w d outdated [] ys = refl
compute_plan_from-append w d outdated (x ∷ xs) ys =
    let e = plan_entry w d outdated x in
    ap (λ es. e ∷ es) (compute_plan_from-append w d (with_outdated e outdated) xs ys)

-- An entry for `id` that is outdated.
abbrev pub is_outdated : List PlanEntry → String → Bool
is_outdated [] id = false
is_outdated (e ∷ es) id = (e.status == "outdated" && e.step_id == id) || is_outdated es id

contains-outdated_after :
    (es : List PlanEntry) (outdated : List String) (id : String)
    → contains (outdated_after outdated es) id ≡ (contains outdated id || is_outdated es id)
contains-outdated_after [] outdated id = ground arith
contains-outdated_after (e ∷ es) outdated id =
    contains-outdated_after es (with_outdated e outdated) id ∙ ground arith

upstream_outdated-none_iff :
    (outdated depends : List String)
    → (upstream_outdated outdated depends ≡ none)
      ↔ All (λ dep. contains outdated dep ≡ false) depends
upstream_outdated-none_iff outdated [] = (λ h. tt, λ h. refl)
upstream_outdated-none_iff outdated (dep ∷ depends) =
    let ih = upstream_outdated-none_iff outdated depends in
    (λ h. (ground arith, ih.0 (ground arith)), λ h. ground (arith, h.0, ih.1 h.1))

plan_entry-step_id :
    (w : PlanWorld) (d : Dag) (outdated : List String) (s : Step)
    → (plan_entry w d outdated s).step_id ≡ s.id
unfolding plan_entry
plan_entry-step_id w d outdated s = ground arith

outdated_differs : ◌≢◌ {A = String} "outdated" "cached"
outdated_differs = differ "outdated" "cached" refl

no_cache_differs : ◌≢◌ {A = String} "no-cache" "cached"
no_cache_differs = differ "no-cache" "cached" refl

looked_up-cached_iff :
    (hit : Bool) (s : Step) → ((looked_up hit s).status ≡ "cached") ↔ (hit ≡ true)
looked_up-cached_iff true s = (λ h. refl, λ h. refl)
looked_up-cached_iff false s = (λ h. absurd (outdated_differs h), λ h. cc)

upstream_entry-cached_iff :
    (w : PlanWorld) (d : Dag) (s : Step) (up : Option String)
    → ((upstream_entry w d s up).status ≡ "cached")
      ↔ ((up ≡ none) × (w.lookup d.name s.id (plan_key w d s) ≡ true))
upstream_entry-cached_iff w d s none =
    let hit = looked_up-cached_iff (w.lookup d.name s.id (plan_key w d s)) s in
    (λ h. (refl, hit.0 h), λ h. hit.1 h.1)
upstream_entry-cached_iff w d s (some dep) = (λ h. absurd (outdated_differs h), λ h. cc)

gated_iff :
    {X : Type 0} (c : Bool) (e other : PlanEntry)
    → other.status ≢ "cached"
    → (e.status ≡ "cached") ↔ X
    → ((if c then e else other).status ≡ "cached") ↔ ((c ≡ true) × X)
gated_iff true e other differs entry = (λ h. (refl, entry.0 h), λ h. entry.1 h.1)
gated_iff false e other differs entry = (λ h. absurd (differs h), λ h. cc)

plan_entry-cached_iff :
    (w : PlanWorld) (d : Dag) (outdated : List String) (s : Step)
    → ((plan_entry w d outdated s).status ≡ "cached") ↔ (
        (s.cache ≡ true)
        × All (λ dep. contains outdated dep ≡ false) s.depends
        × (w.lookup d.name s.id (plan_key w d s) ≡ true))
unfolding plan_entry
plan_entry-cached_iff w d outdated s =
    let up = upstream_outdated-none_iff outdated s.depends in
    let entry = upstream_entry-cached_iff w d s (upstream_outdated outdated s.depends) in
    let found =
      gated_iff s.cache (upstream_entry w d s (upstream_outdated outdated s.depends)) (no_cache s)
        no_cache_differs entry in
    (
      λ h. ((found.0 h).0, up.0 (found.0 h).1.0, (found.0 h).1.1),
      λ h. found.1 (h.0, (up.1 h.1, h.2)),
    )

-- Whether a step is shown as cached, given the entries of the steps before it.
abbrev pub IsShownCached : PlanWorld → Dag → List PlanEntry → Step → Type 0
IsShownCached w d earlier s =
    (s.cache ≡ true)
    × All (λ dep. is_outdated earlier dep ≡ false) s.depends
    × (w.lookup d.name s.id (plan_key w d s) ≡ true)

-- The entries of a plan stand in the order of the steps, and a step is shown as cached exactly when
-- it asks for caching, none of its dependencies has an earlier entry that is outdated, and the store
-- has an entry for its key.
pub compute_plan-cached_iff :
    (w : PlanWorld) (d : Dag) (before after : List Step) (s : Step)
    → (e : PlanEntry) × (rest : List PlanEntry) × (compute_plan w d (before ++ s ∷ after)
        ≡ compute_plan w d before ++ e ∷ rest)
      × (e.step_id ≡ s.id)
      × ((e.status ≡ "cached") ↔ IsShownCached w d (compute_plan w d before) s)
unfolding compute_plan compute_plan_from
compute_plan-cached_iff w d before after s =
    let earlier = compute_plan_from w d [] before in
    let outdated = outdated_after [] earlier in
    let e = plan_entry w d outdated s in
    let seen = contains-outdated_after earlier [] in
    let entry = plan_entry-cached_iff w d outdated s in
    (
      e,
      compute_plan_from w d (with_outdated e outdated) after,
      compute_plan_from-append w d [] before (s ∷ after),
      plan_entry-step_id w d outdated s,
      (
        λ h. (
          (entry.0 h).0,
          All-map s.depends (λ dep k. sym (seen dep) ∙ k) (entry.0 h).1,
          (entry.0 h).2,
        ),
        λ h. entry.1 (h.0, All-map s.depends (λ dep k. seen dep ∙ k) h.1, h.2),
      ),
    )
