-- ===== src/Examples/Configuring.antt =====
-- Defaults of base.yaml, filters, and the masking of a secret.
use daggle.Prelude.{String, ◌≡◌, refl, true, false, List, [], ◌∷◌, none, some, contains}
use daggle.Prelude.Int.{pos}
use daggle.Go.Text.{codes}
use daggle.Dag.Model.{EnvVar, EnvMap, Dag}
use daggle.Dag.Defaults.{BaseDefaults, apply_base_defaults, match_filters}
use daggle.Dag.Redact.{redact, new_redactor, all_env_maps}
use daggle.Dag.Redact.Clean.{occurs, redact-occurs_secret}

abbrev token : EnvVar
token = record { value = "s3cr3t"; secret = true }

abbrev region : String → EnvVar
region name = record { value = name; secret = false }

abbrev monthly : Dag
monthly = record {
  version = "1";
  name = "monthly";
  trigger = none;
  env = some (("TOKEN", token) ∷ ("REGION", region "eu") ∷ []);
  params = [];
  steps = [];
  workdir = "";
  max_parallel = pos 0;
  owner = "ops";
  team = "";
  description = "";
  tags = "etl" ∷ [];
  exposures = [];
  r_version = "";
  r_version_strict = false;
  source_dir = "";
  on_success = none;
  on_failure = none;
  on_exit = none;
}

abbrev shared : BaseDefaults
shared = record {
  env = some (("REGION", region "us") ∷ ("LANG", region "C") ∷ []);
  workdir = "/srv";
  timeout = "1h";
  retry = none;
  on_success = none;
  on_failure = none;
  on_exit = none;
}

own_region_wins :
    (apply_base_defaults monthly (some shared)).env
    ≡ some (("TOKEN", token) ∷ ("REGION", region "eu") ∷ ("LANG", region "C") ∷ [])
unfolding apply_base_defaults
own_region_wins = refl

tagged : match_filters (record { tag = "etl"; team = ""; owner = "ops" }) monthly ≡ true
unfolding match_filters
tagged = refl

other_team : match_filters (record { tag = ""; team = "ml"; owner = "" }) monthly ≡ false
unfolding match_filters
other_team = refl

token_found : new_redactor (all_env_maps monthly) ≡ "s3cr3t" ∷ []
unfolding new_redactor all_env_maps
token_found = refl

abbrev env_maps : List EnvMap
env_maps = monthly.env ∷ []

known : contains (new_redactor env_maps) "s3cr3t" ≡ true
unfolding new_redactor
known = refl

redact-occurs_secret_example :
    occurs (codes "s3cr3t") (redact (new_redactor env_maps) (codes "psql: s3cr3t rejected")) ≡ false
redact-occurs_secret_example =
    redact-occurs_secret env_maps "s3cr3t" (codes "psql: s3cr3t rejected") known refl
