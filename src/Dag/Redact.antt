-- ===== src/Dag/Redact.antt =====
-- The masking of secret values (dag/redact.go). A text is the list of its code points; the secrets
-- of `NewRedactor` are not empty, and the replacement of an empty text is not modelled.
pub mod Clean
use daggle.Prelude.{
  ℕ, zero, suc, ◌-◌, String, ◌≡◌, refl, Bool, true, false, not, ◌&&◌, ◌||◌, List, [], ◌∷◌, ◌++◌,
  Option, none, some, ◌==◌, if◌then◌else◌, length,
}
use daggle.Go.Text.{Text, codes, has_prefix}
use daggle.Dag.Model.{Assoc, EnvVar, EnvMap, Step, Dag}

abbrev pub star : ℕ
star = b'*'

-- strings.ReplaceAll(s, old, "***"): `skip` characters belong to the match before.
unfoldable pub replace_from : Text → ℕ → Text → Text
replace_from old skip [] = []
replace_from old (suc skip) (c ∷ s) = replace_from old skip s
replace_from old zero (c ∷ s) =
    let after = replace_from old (length old - 1) s in
    let rest = replace_from old zero s in
    if has_prefix (c ∷ s) old then star ∷ star ∷ star ∷ after else c ∷ rest

-- Redact: one secret after another
unfoldable pub redact : List String → Text → Text
unfolding replace_from
redact [] s = s
redact (secret ∷ secrets) s = redact secrets (replace_from (codes secret) 0 s)

-- EnvMap.SecretValues
abbrev pub secrets_in : Assoc EnvVar → List String
secrets_in [] = []
secrets_in ((k, v) ∷ m) =
    let rest = secrets_in m in if v.secret && not (v.value == "") then v.value ∷ rest else rest

abbrev pub secret_values : EnvMap → List String
secret_values none = []
secret_values (some m) = secrets_in m

unfoldable pub new_redactor : List EnvMap → List String
new_redactor [] = []
new_redactor (m ∷ maps) = secret_values m ++ new_redactor maps

-- AllEnvMaps: the workflow's, then those of the steps that have one
abbrev pub step_maps : List Step → List EnvMap
step_maps [] = []
step_maps (s ∷ steps) = elim s.env [ some (◌∷◌ e m) ↦ s.env ∷ [] | _ ↦ [] ] ++ step_maps steps

unfoldable pub all_env_maps : Dag → List EnvMap
all_env_maps d = d.env ∷ step_maps d.steps

unfoldable pub has_secrets : List String → Bool
has_secrets [] = false
has_secrets (secret ∷ secrets) = true

masked : redact ("abc" ∷ "c1" ∷ []) (codes "xabc1 c1") ≡ codes "x***1 ***"
unfolding redact
masked = refl
