-- ===== src/State/Event.antt =====
-- The lifecycle events of a run (state/event.go). A time is its distance from Go's zero time, so
-- that 0 is the zero time; a float64 is only copied, and is its bit pattern.
use daggle.Prelude.{
  ℕ, suc, String, Bool, true, false, ltb, List, [], ◌∷◌, ◌++◌, Option, none, some, if◌then◌else◌,
  nat_eq,
}
use daggle.Prelude.Int.{ℤ, pos}

abbrev pub event_run_started : String
event_run_started = "run_started"

abbrev pub event_run_completed : String
event_run_completed = "run_completed"

abbrev pub event_run_failed : String
event_run_failed = "run_failed"

abbrev pub event_step_started : String
event_step_started = "step_started"

abbrev pub event_step_completed : String
event_step_completed = "step_completed"

abbrev pub event_step_failed : String
event_step_failed = "step_failed"

abbrev pub event_step_retrying : String
event_step_retrying = "step_retrying"

abbrev pub event_step_waiting_approval : String
event_step_waiting_approval = "step_waiting_approval"

abbrev pub event_step_approved : String
event_step_approved = "step_approved"

abbrev pub event_step_rejected : String
event_step_rejected = "step_rejected"

abbrev pub event_step_artifact : String
event_step_artifact = "step_artifact"

abbrev pub event_step_cached : String
event_step_cached = "step_cached"

abbrev pub event_step_skipped : String
event_step_skipped = "step_skipped"

pub record ArtifactInfo : Type 0 where
  pub artifact_name : String
  pub artifact_path : String
  pub artifact_abs_path : String
  pub artifact_hash : String
  pub artifact_size : ℕ
  pub artifact_format : String

pub record CacheInfo : Type 0 where
  pub cache_key : String
  pub cached_run_id : String

pub record Event : Type 0 where
  pub version : ℕ
  pub timestamp : ℕ
  pub kind : String
  pub step_id : String
  pub exit_code : ℤ
  pub duration : String
  pub error : String
  pub error_detail : String
  pub attempt : ℕ
  pub message : String
  pub approver : String
  pub source : String
  pub note : String
  pub author : String
  pub peak_rss_kb : ℤ
  pub user_cpu_sec : ℕ
  pub sys_cpu_sec : ℕ
  pub artifact_info : Option ArtifactInfo
  pub cache_info : Option CacheInfo

-- `Event{Type: kind}`
abbrev pub event : String → Event
event kind = record {
  version = 0;
  timestamp = 0;
  kind = kind;
  step_id = "";
  exit_code = pos 0;
  duration = "";
  error = "";
  error_detail = "";
  attempt = 0;
  message = "";
  approver = "";
  source = "";
  note = "";
  author = "";
  peak_rss_kb = pos 0;
  user_cpu_sec = 0;
  sys_cpu_sec = 0;
  artifact_info = none;
  cache_info = none;
}

-- The defaults that `Write` fills in at time `now`.
abbrev pub stamp : ℕ → Event → Event
stamp now e = record e {
  version = if nat_eq e.version 0 then 1 else e.version;
  timestamp = if nat_eq e.timestamp 0 then now else e.timestamp;
}

-- EventWriter.Write: the event is appended to the log. A write that fails leaves nothing; the engine
-- only logs its error.
unfoldable pub write : Bool → ℕ → Event → List Event → List Event
write written now e log = if written then log ++ stamp now e ∷ [] else log

-- The events are written one after another: the `n`-th at `clock n`, where `disk n` lets it.
unfoldable pub write_all : (ℕ → Bool) → (ℕ → ℕ) → ℕ → List Event → List Event → List Event
unfolding write
write_all disk clock n [] log = log
write_all disk clock n (e ∷ es) log =
    write_all disk clock (suc n) es (write (disk n) (clock n) e log)

-- bufio.MaxScanTokenSize
abbrev pub max_scan_token_size : ℕ
max_scan_token_size = 65_536

abbrev pub read_line : Bool → Event → Option (List Event) → Option (List Event)
read_line false e rest = none
read_line true e none = none
read_line true e (some es) = some (e ∷ es)

-- readEventsFromFile: `size` is the length of an event's line without its newline. The scanner ends
-- with an error at a line that its buffer does not hold, and the events before it are dropped.
unfoldable pub read_events_from_file : (Event → ℕ) → List Event → Option (List Event)
read_events_from_file size [] = some []
read_events_from_file size (e ∷ es) =
    read_line (ltb (size e) max_scan_token_size) e (read_events_from_file size es)
