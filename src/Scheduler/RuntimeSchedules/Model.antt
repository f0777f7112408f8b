-- ===== src/Scheduler/RuntimeSchedules/Model.antt =====
-- The schedules of the scheduler, their views, and the results of the calls
-- (scheduler/runtime_schedules.go).
use daggle.Prelude.{ℕ, String, Bool, List, Option}
use daggle.Dag.Model.{Assoc}
use daggle.Scheduler.Sync.{Source, CronEntry, Disk}
use daggle.State.Schedules.{ScheduleEntry, Failure, FileState}

pub record ScheduleView : Type 0 where
  pub view_id : String
  pub view_cron : String
  pub source : String
  pub view_enabled : Bool
  -- 0 is the zero time
  pub next_run : ℕ
  pub view_params : Assoc String

pub record RuntimeSchedule : Type 0 where
  pub dag_name : String
  pub entry : ScheduleEntry
  pub dag_path : String
  pub cron : Option CronEntry

-- The scheduler's map, and the registry file.
pub record Schedules (B : Type 0) : Type 0 where
  pub runtime : Assoc RuntimeSchedule
  pub file : FileState B

-- What a call meets: `new_id` is the generated id, `writable` whether the file can be written.
pub record World : Type 0 where
  pub disk : Disk
  pub sources : List Source
  pub is_file : String → Bool
  pub writable : Bool
  pub now : ℕ
  pub new_id : String

pub data Problem : Type 0 where
  yaml_schedule not_registered invalid_cron bad_register : Problem
  storage : Failure → Problem

pub data Outcome (B : Type 0) : Type 0 where
  done : Option ScheduleView → Schedules B → Outcome B
  failed : Problem → Schedules B → Outcome B
  -- The call waits for a lock that it holds.
  deadlocked : Outcome B
