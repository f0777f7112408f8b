-- ===== src/Dag/Validate/Steps/Checks.antt =====
-- The checks of the fields of one type of step (dag/validate.go).
use daggle.Prelude.{
  ℕ, ◌+◌, String, Bool, true, false, ◌&&◌, ◌||◌, not, List, [], ◌∷◌, ◌++◌, Option, none, some,
  nat_eq, if◌then◌else◌, contains, ◌==◌,
}
use daggle.Go.Text.{Text, codes, has_char, ext, to_lower, text_eq}
use daggle.Go.Duration.{parse_duration}
use daggle.Dag.Model.{Step, ConnectDeploy, DatabaseStep, EmailStep, DockerStep}
use daggle.Dag.StepTypes.{count_step_types, is_set, is_some}
use daggle.Dag.Validate.Errors.{
  StepError, no_type, multiple_types, connect_type_required, connect_path_required,
  connect_type_invalid, database_driver_required, database_query_required, database_query_both,
  database_output_required, database_driver_invalid, database_output_extension,
  email_channel_required, email_subject_required, email_body_required, email_body_both,
  docker_image_required, docker_command_required, docker_pull_invalid, docker_volume_form,
}

-- if b { errs = append(errs, e) }
abbrev pub report {ℓ} : {E : Type ℓ} → Bool → E → List E
report true e = e ∷ []
report false e = []

-- time.ParseDuration returns an error
abbrev pub is_bad_duration : String → Bool
is_bad_duration s = not (is_some (parse_duration s))

-- if s != "" { if _, err := time.ParseDuration(s); err != nil { … } }
abbrev pub optional_duration : {E : Type 0} → (String → E) → String → List E
optional_duration e s = if s == "" then [] else report (is_bad_duration s) (e s)

unfoldable pub validate_step_type : Step → List StepError
validate_step_type s =
    let n = count_step_types s in
    if nat_eq n 1 then [] else if nat_eq n 0 then no_type ∷ [] else multiple_types ∷ []

abbrev pub connect_types : List String
connect_types = "shiny" ∷ "quarto" ∷ "plumber" ∷ []

abbrev check_connect : ConnectDeploy → List StepError
check_connect c =
    (if c.kind == ""
      then connect_type_required ∷ []
      else report (not (contains connect_types c.kind)) (connect_type_invalid c.kind))
    ++ report (c.path == "") connect_path_required

abbrev pub check {ℓ} : {A : Type ℓ} → (A → List StepError) → Option A → List StepError
check f none = []
check f (some a) = f a

unfoldable pub validate_step_connect : Step → List StepError
validate_step_connect s = check check_connect s.connect

abbrev pub drivers : List String
drivers = "postgres" ∷ "mysql" ∷ "mariadb" ∷ "sqlite" ∷ "duckdb" ∷ "odbc" ∷ []

abbrev pub is_output_extension : Text → Bool
is_output_extension e =
    text_eq e (codes ".csv")
    || text_eq e (codes ".tsv")
    || text_eq e (codes ".rds")
    || text_eq e (codes ".parquet")
    || text_eq e (codes ".feather")

abbrev check_database : DatabaseStep → List StepError
check_database db =
    (if db.driver == ""
      then database_driver_required ∷ []
      else report (not (contains drivers db.driver)) (database_driver_invalid db.driver))
    ++ (report (db.query == "" && db.query_file == "") database_query_required
        ++ (report (is_set db.query && is_set db.query_file) database_query_both
            ++ (if db.output == ""
                then database_output_required ∷ []
                else report (not (is_output_extension (to_lower (ext (codes db.output)))))
                    (database_output_extension db.output))))

unfoldable pub validate_step_database : Step → List StepError
validate_step_database s = check check_database s.database

abbrev check_email : EmailStep → List StepError
check_email e =
    report (e.channel == "") email_channel_required
    ++ (report (e.subject == "") email_subject_required
        ++ (report (e.body == "" && e.body_file == "") email_body_required
            ++ report (is_set e.body && is_set e.body_file) email_body_both))

unfoldable pub validate_step_email : Step → List StepError
validate_step_email s = check check_email s.email

abbrev pub pull_policies : List String
pull_policies = "" ∷ "always" ∷ "missing" ∷ "never" ∷ []

-- for i, v := range d.Volumes
abbrev check_volumes : ℕ → List String → List StepError
check_volumes i [] = []
check_volumes i (v ∷ vs) =
    report (not (has_char b':' (codes v))) (docker_volume_form i v) ++ check_volumes (i + 1) vs

abbrev check_docker : DockerStep → List StepError
check_docker d =
    report (d.image == "") docker_image_required
    ++ (report (d.command == "" && d.entrypoint == "") docker_command_required
        ++ (report (not (contains pull_policies d.pull)) (docker_pull_invalid d.pull)
            ++ check_volumes 0 d.volumes))

unfoldable pub validate_step_docker : Step → List StepError
validate_step_docker s = check check_docker s.docker
