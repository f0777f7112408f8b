-- ===== src/Dag/Defaults.antt =====
-- The shared defaults of base.yaml (dag/parse.go) and the filters of a listing (dag/filter.go).
pub mod Merge
use daggle.Prelude.{
  String, ◌≡◌, refl, Bool, true, false, not, ◌&&◌, ◌||◌, List, [], ◌∷◌, ◌++◌, map, Option, none,
  some, ◌==◌, if◌then◌else◌, contains,
}
use daggle.Dag.Model.{Assoc, EnvVar, EnvMap, Hook, Retry, Step, Dag}

pub record BaseDefaults : Type 0 where
  pub env : EnvMap
  pub workdir : String
  pub timeout : String
  pub retry : Option Retry
  pub on_success : Option Hook
  pub on_failure : Option Hook
  pub on_exit : Option Hook

-- m[k]
abbrev pub find : String → Assoc EnvVar → Option EnvVar
find k [] = none
find k ((j, v) ∷ m) = let rest = find k m in if j == k then some v else rest

-- if _, exists := d.Env[k]; !exists { d.Env[k] = v }
abbrev pub put_new : String → EnvVar → Option EnvVar → Assoc EnvVar → Assoc EnvVar
put_new k v none m = m ++ (k, v) ∷ []
put_new k v (some u) m = m

unfoldable pub merge_env : Assoc EnvVar → Assoc EnvVar → Assoc EnvVar
merge_env [] m = m
merge_env ((k, v) ∷ base) m = merge_env base (put_new k v (find k m) m)

abbrev pub entries : EnvMap → Assoc EnvVar
entries none = []
entries (some m) = m

abbrev pub merge_maps : EnvMap → EnvMap → EnvMap
merge_maps none m = m
merge_maps (some []) m = m
merge_maps (some (e ∷ base)) m = some (merge_env (e ∷ base) (entries m))

-- if d.X == "" && b.X != "" { d.X = b.X }
abbrev pub text_or : String → String → String
text_or own base = if own == "" && not (base == "") then base else own

-- if d.X == nil && b.X != nil { d.X = b.X }
abbrev pub option_or {ℓ} : {A : Type ℓ} → Option A → Option A → Option A
option_or none base = base
option_or (some a) base = some a

abbrev pub step_defaults : BaseDefaults → Step → Step
step_defaults b s = record s {
  timeout = text_or s.timeout b.timeout;
  retry = option_or s.retry b.retry;
}

unfoldable pub apply_base_defaults : Dag → Option BaseDefaults → Dag
unfolding merge_env
apply_base_defaults d none = d
apply_base_defaults d (some b) = record d {
  env = merge_maps b.env d.env;
  workdir = text_or d.workdir b.workdir;
  on_success = option_or d.on_success b.on_success;
  on_failure = option_or d.on_failure b.on_failure;
  on_exit = option_or d.on_exit b.on_exit;
  steps = map (step_defaults b) d.steps;
}

pub record Filters : Type 0 where
  pub tag : String
  pub team : String
  pub owner : String

-- Filters.Match
unfoldable pub match_filters : Filters → Dag → Bool
match_filters f d =
    not (not (f.owner == "") && not (d.owner == f.owner))
    && not (not (f.team == "") && not (d.team == f.team))
    && not (not (f.tag == "") && not (contains d.tags f.tag))
