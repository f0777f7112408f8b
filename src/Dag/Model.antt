-- ===== src/Dag/Model.antt =====
-- The data model of a workflow (dag/dag.go): one record for each struct, with the source's fields.
-- A pointer is an `Option`; a Go `map` is an association list, and `EnvMap` keeps the difference
-- between a nil map (`none`) and an empty one. A text is a native `String`.
use daggle.Prelude.{String, Bool, false, Option, none, List, []}
use daggle.Prelude.Int.{ℤ, pos}

-- map[string]V
abbrev pub Assoc : Type 0 → Type 0
Assoc V = List (String × V)

pub record EnvVar : Type 0 where
  pub value : String
  pub secret : Bool

-- map[string]EnvVar: `none` is nil
abbrev pub EnvMap : Type 0
EnvMap = Option (Assoc EnvVar)

pub record Hook : Type 0 where
  pub r_expr : String
  pub command : String
  pub notify : String
  pub message : String

pub record WatchTrigger : Type 0 where
  pub path : String
  pub pattern : String
  pub debounce : String

pub record WebhookTrigger : Type 0 where
  pub secret : String

pub record OnDagTrigger : Type 0 where
  pub name : String
  pub status : String
  pub pass_outputs : Bool

pub record ConditionTrigger : Type 0 where
  pub r_expr : String
  pub command : String
  pub poll_interval : String

pub record GitTrigger : Type 0 where
  pub branch : String
  pub events : List String
  pub poll_interval : String

pub record Trigger : Type 0 where
  pub schedule : String
  pub watch : Option WatchTrigger
  pub webhook : Option WebhookTrigger
  pub on_dag : Option OnDagTrigger
  pub condition : Option ConditionTrigger
  pub git : Option GitTrigger
  pub overlap : String
  pub catchup : String
  pub deadline : String
  pub on_deadline : Option Hook

pub record Exposure : Type 0 where
  pub name : String
  pub kind : String
  pub url : String
  pub description : String

pub record Param : Type 0 where
  pub name : String
  pub default : String

pub record Artifact : Type 0 where
  pub name : String
  pub path : String
  pub format : String
  pub versioned : Bool

pub record DatabaseStep : Type 0 where
  pub driver : String
  pub params : Assoc String
  pub query : String
  pub query_file : String
  pub output : String

pub record DockerStep : Type 0 where
  pub image : String
  pub command : String
  pub entrypoint : String
  pub volumes : List String
  pub env : Assoc String
  pub workdir : String
  pub network : String
  pub user : String
  pub pull : String

pub record EmailStep : Type 0 where
  pub channel : String
  pub from : String
  pub to : List String
  pub cc : List String
  pub bcc : List String
  pub subject : String
  pub body : String
  pub body_file : String
  pub attach : List String

pub record ConnectDeploy : Type 0 where
  pub kind : String
  pub path : String
  pub name : String
  pub force_update : Option Bool

pub record ApproveStep : Type 0 where
  pub message : String
  pub timeout : String
  pub notify : Option Hook

pub record CallStep : Type 0 where
  pub dag : String
  pub params : Assoc String

pub record StepCondition : Type 0 where
  pub r_expr : String
  pub command : String

pub record Precondition : Type 0 where
  pub r_expr : String
  pub command : String

pub record FreshnessCheck : Type 0 where
  pub path : String
  pub max_age : String
  pub on_stale : String

pub record PinDeploy : Type 0 where
  pub board : String
  pub name : String
  pub object : String
  pub kind : String
  pub versioned : Option Bool

pub record VetiverDeploy : Type 0 where
  pub action : String
  pub model : String
  pub board : String
  pub name : String

pub record Retry : Type 0 where
  pub limit : ℤ
  pub backoff : String
  pub max_delay : String

pub record Step : Type 0 where
  pub id : String
  pub script : String
  pub r_expr : String
  pub command : String
  pub quarto : String
  pub args : List String
  pub depends : List String
  pub timeout : String
  pub retry : Option Retry
  pub env : EnvMap
  pub workdir : String
  pub test : String
  pub check : String
  pub document : String
  pub lint : String
  pub style : String
  pub rmd : String
  pub renv_restore : String
  pub coverage : String
  pub validate : String
  pub approve : Option ApproveStep
  pub call : Option CallStep
  pub pin : Option PinDeploy
  pub vetiver : Option VetiverDeploy
  pub shinytest : String
  pub pkgdown : String
  pub install : String
  pub targets : String
  pub benchmark : String
  pub revdepcheck : String
  pub connect : Option ConnectDeploy
  pub database : Option DatabaseStep
  pub email : Option EmailStep
  pub docker : Option DockerStep
  pub output_dir : String
  pub output_name : String
  pub matrix : Assoc (List String)
  pub max_parallel : ℤ
  pub when : Option StepCondition
  pub preconditions : List Precondition
  pub freshness : List FreshnessCheck
  pub error_on : String
  pub cache : Bool
  pub artifacts : List Artifact
  pub on_success : Option Hook
  pub on_failure : Option Hook

pub record Dag : Type 0 where
  pub version : String
  pub name : String
  pub trigger : Option Trigger
  pub env : EnvMap
  pub params : List Param
  pub steps : List Step
  pub workdir : String
  pub max_parallel : ℤ
  pub owner : String
  pub team : String
  pub description : String
  pub tags : List String
  pub exposures : List Exposure
  pub r_version : String
  pub r_version_strict : Bool
  pub source_dir : String
  pub on_success : Option Hook
  pub on_failure : Option Hook
  pub on_exit : Option Hook

-- `Step{}`
unfoldable pub zero_step : Step
zero_step = record {
  id = "";
  script = "";
  r_expr = "";
  command = "";
  quarto = "";
  args = [];
  depends = [];
  timeout = "";
  retry = none;
  env = none;
  workdir = "";
  test = "";
  check = "";
  document = "";
  lint = "";
  style = "";
  rmd = "";
  renv_restore = "";
  coverage = "";
  validate = "";
  approve = none;
  call = none;
  pin = none;
  vetiver = none;
  shinytest = "";
  pkgdown = "";
  install = "";
  targets = "";
  benchmark = "";
  revdepcheck = "";
  connect = none;
  database = none;
  email = none;
  docker = none;
  output_dir = "";
  output_name = "";
  matrix = [];
  max_parallel = pos 0;
  when = none;
  preconditions = [];
  freshness = [];
  error_on = "";
  cache = false;
  artifacts = [];
  on_success = none;
  on_failure = none;
}
