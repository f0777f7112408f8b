-- ===== src/Engine/Action.antt =====
-- What a step does to the outside, in order: the events that it writes, its hooks and files, and
-- the result of an executor (internal/executor/executor.go). An event stands as it is given to
-- `EventWriter.Write`, after redaction; an error is its message.
use daggle.Prelude.{ℕ, String, Bool, List, [], ◌∷◌, ◌++◌, Option, ◌⊎◌}
use daggle.Prelude.Int.{ℤ}
use daggle.Go.Text.{Text}
use daggle.Dag.Model.{Assoc, Step, Artifact, Hook, StepCondition, FreshnessCheck}
use daggle.State.Event.{Event, ArtifactInfo, CacheInfo}

pub record ValidationResult : Type 0 where
  pub name : String
  pub status : String
  pub message : String

pub record Result : Type 0 where
  pub exit_code : ℤ
  pub duration : ℤ
  pub err : Option String
  pub outputs : Assoc String
  pub error_detail : String
  pub summaries : List String
  pub metadata : List String
  pub validations : List ValidationResult
  pub peak_rss_kb : ℤ
  pub user_cpu_sec : ℕ
  pub sys_cpu_sec : ℕ

pub data Action : Type 0 where
  wrote : Event → Action
  -- time.Sleep
  slept : ℤ → Action
  ran_hook : Hook → String → Action
  -- e.outputs[key] = value
  set_output : Text → String → Action
  summary_file : String → List String → Action
  metadata_file : String → List String → Action
  validation_file : String → List ValidationResult → Action
  saved_cache : String → Assoc String → Action
  -- meta.json, with this status
  wrote_meta : String → Action

pub record Outcome : Type 0 where
  pub trace : List Action
  pub err : Option String

-- An entry of the cache that a step finds.
pub record CacheHit : Type 0 where
  pub outputs : Assoc String
  pub info : CacheInfo

-- What the engine calls: conditions, which are met (`inl true`) or not, or fail to run; the age of a
-- source file; the cache; the executor of a step, if it has one, with the result of each attempt;
-- the file system, which records an artifact or refuses it; the redactor; `Duration.String`; and
-- whether there is a cache store.
pub record World : Type 0 where
  pub condition_met : StepCondition → Bool ⊎ String
  pub source_age : Step → FreshnessCheck → ℤ ⊎ String
  pub cache_lookup : Step → Option CacheHit
  pub executor : Step → Option (ℕ → Result)
  pub record_artifact : Step → Artifact → ArtifactInfo ⊎ String
  pub redact : String → String
  pub duration_text : ℤ → String
  pub has_cache : Bool

-- The actions come before the outcome.
abbrev pub after : List Action → Outcome → Outcome
after before o = record { trace = before ++ o.trace; err = o.err }

-- The events of a trace, which are the lines of events.jsonl.
abbrev pub event_of : Action → List Event
event_of a = elim a [ wrote e ↦ e ∷ [] | _ ↦ [] ]

abbrev pub events_in : List Action → List Event
events_in [] = []
events_in (a ∷ trace) = event_of a ++ events_in trace
