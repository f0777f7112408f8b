-- ===== src/Dag/StepTypes.antt =====
-- The registry of step types (dag/step_types.go, and `StepType` of dag/dag.go). The order of the
-- registry is the order in which `step_type` tries the types.
pub mod Laws
use daggle.Prelude.{
  ℕ, suc, String, Bool, true, false, not, Option, none, some, List, [], ◌∷◌, ◌==◌, if◌then◌else◌,
}
use daggle.Dag.Model.{Step, zero_step}

-- s != ""
abbrev pub is_set : String → Bool
is_set s = not (s == "")

-- p != nil
abbrev pub is_some {ℓ} : {A : Type ℓ} → Option A → Bool
is_some none = false
is_some (some a) = true

pub record StepTypeEntry : Type 0 where
  pub name : String
  pub set : Step → Bool
  pub zero : Step

abbrev entry : String → (Step → Bool) → Step → StepTypeEntry
entry name set zero = record { name = name; set = set; zero = zero }

unfoldable pub step_type_registry : List StepTypeEntry
unfolding zero_step
step_type_registry =
    entry "script" (λ s. is_set s.script) (record zero_step { script = "foo.R" })
    ∷ entry "r_expr" (λ s. is_set s.r_expr) (record zero_step { r_expr = "1+1" })
    ∷ entry "command" (λ s. is_set s.command) (record zero_step { command = "echo" })
    ∷ entry "quarto" (λ s. is_set s.quarto) (record zero_step { quarto = "report.qmd" })
    ∷ entry "test" (λ s. is_set s.test) (record zero_step { test = "." })
    ∷ entry "check" (λ s. is_set s.check) (record zero_step { check = "." })
    ∷ entry "document" (λ s. is_set s.document) (record zero_step { document = "." })
    ∷ entry "lint" (λ s. is_set s.lint) (record zero_step { lint = "." })
    ∷ entry "style" (λ s. is_set s.style) (record zero_step { style = "." })
    ∷ entry "rmd" (λ s. is_set s.rmd) (record zero_step { rmd = "report.Rmd" })
    ∷ entry "renv_restore" (λ s. is_set s.renv_restore) (record zero_step { renv_restore = "." })
    ∷ entry "coverage" (λ s. is_set s.coverage) (record zero_step { coverage = "." })
    ∷ entry "validate" (λ s. is_set s.validate) (record zero_step { validate = "check.R" })
    ∷ entry "approve" (λ s. is_some s.approve)
        (record zero_step {
          approve = some (record { message = "review"; timeout = ""; notify = none });
        })
    ∷ entry "call" (λ s. is_some s.call)
        (record zero_step { call = some (record { dag = "other"; params = [] }) })
    ∷ entry "pin" (λ s. is_some s.pin)
        (record zero_step {
          pin =
              some
                (record { board = "local"; name = "n"; object = "o"; kind = ""; versioned = none });
        })
    ∷ entry "vetiver" (λ s. is_some s.vetiver)
        (record zero_step {
          vetiver = some (record { action = "pin"; model = ""; board = ""; name = "m" });
        })
    ∷ entry "shinytest" (λ s. is_set s.shinytest) (record zero_step { shinytest = "." })
    ∷ entry "pkgdown" (λ s. is_set s.pkgdown) (record zero_step { pkgdown = "." })
    ∷ entry "install" (λ s. is_set s.install) (record zero_step { install = "." })
    ∷ entry "targets" (λ s. is_set s.targets) (record zero_step { targets = "." })
    ∷ entry "benchmark" (λ s. is_set s.benchmark) (record zero_step { benchmark = "bench/" })
    ∷ entry "revdepcheck" (λ s. is_set s.revdepcheck) (record zero_step { revdepcheck = "." })
    ∷ entry "connect" (λ s. is_some s.connect)
        (record zero_step {
          connect = some (record { kind = "shiny"; path = "app/"; name = ""; force_update = none });
        })
    ∷ entry "database" (λ s. is_some s.database)
        (record zero_step {
          database = some (record {
            driver = "sqlite";
            params = [];
            query = "SELECT 1";
            query_file = "";
            output = "out.csv";
          });
        })
    ∷ entry "email" (λ s. is_some s.email)
        (record zero_step {
          email = some (record {
            channel = "smtp";
            from = "";
            to = [];
            cc = [];
            bcc = [];
            subject = "s";
            body = "b";
            body_file = "";
            attach = [];
          });
        })
    ∷ entry "docker" (λ s. is_some s.docker)
        (record zero_step {
          docker = some (record {
            image = "alpine";
            command = "echo";
            entrypoint = "";
            volumes = [];
            env = [];
            workdir = "";
            network = "";
            user = "";
            pull = "";
          });
        })
    ∷ []

abbrev pub names : List StepTypeEntry → List String
names [] = []
names (e ∷ es) = e.name ∷ names es

unfoldable pub all_step_types : List String
unfolding step_type_registry
all_step_types = names step_type_registry

abbrev pub count_set : Step → List StepTypeEntry → ℕ
count_set s [] = 0
count_set s (e ∷ es) = let rest = count_set s es in if e.set s then suc rest else rest

unfoldable pub count_step_types : Step → ℕ
count_step_types s = count_set s step_type_registry

-- The first entry that is set, or "".
abbrev pub first_set : Step → List StepTypeEntry → String
first_set s [] = ""
first_set s (e ∷ es) = let rest = first_set s es in if e.set s then e.name else rest

unfoldable pub step_type : Step → String
step_type s = first_set s step_type_registry

-- `none` is the panic on a name that is not registered.
abbrev pub find_zero : String → List StepTypeEntry → Option Step
find_zero name [] = none
find_zero name (e ∷ es) =
    let rest = find_zero name es in if e.name == name then some e.zero else rest

unfoldable pub minimal_step_of_type : String → Option Step
minimal_step_of_type name = find_zero name step_type_registry
