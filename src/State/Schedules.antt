-- ===== src/State/Schedules.antt =====
-- The registry of the schedules added at run time (state/schedules.go). `Yaml` is the third-party
-- encoder of the file; nil and empty parameters are the same map here.
pub mod Entries
pub mod Refines
use daggle.Prelude.{
  String, ◌≡◌, Bool, true, false, List, [], ◌∷◌, ◌++◌, Option, none, some, ◌==◌, if◌then◌else◌,
}
use daggle.Go.Map.{get, put}
use daggle.Dag.Model.{Assoc}

pub record ScheduleEntry : Type 0 where
  pub id : String
  pub cron : String
  pub enabled : Bool
  pub params : Assoc String

-- The schedules of each workflow.
abbrev pub Store : Type 0
Store = Assoc (List ScheduleEntry)

-- yaml.Marshal and yaml.Unmarshal of a `schedulesFile`, whose nil map is read as an empty one.
pub record Yaml : Type 1 where
  pub Bytes : Type 0
  pub marshal : Store → Bytes
  pub unmarshal : Bytes → Option Store
  pub unmarshal_marshal : (s : Store) → unmarshal (marshal s) ≡ some s

pub data Failure : Type 0 where
  unreadable malformed unwritable not_found : Failure

pub data Result {ℓ} (A : Type ℓ) : Type ℓ where
  ok : A → Result A
  err : Failure → Result A

infixl 5 ◌>>=◌
abbrev pub ◌>>=◌ {ℓ κ} : {A : Type ℓ} {B : Type κ} → Result A → (A → Result B) → Result B
ok a >>= f = f a
err e >>= f = err e

-- os.ReadFile
pub data FileState (B : Type 0) : Type 0 where
  missing denied : FileState B
  content : B → FileState B

-- Empty lists are not written.
unfoldable pub cleaned : Store → Store
cleaned [] = []
cleaned ((k, []) ∷ m) = cleaned m
cleaned ((k, e ∷ l) ∷ m) = (k, e ∷ l) ∷ cleaned m

-- list[:idx] and list[idx+1:] of the first entry with the id
unfoldable pub remove_entry : String → List ScheduleEntry → Option (List ScheduleEntry)
remove_entry id [] = none
remove_entry id (e ∷ l) =
    let rest = remove_entry id l in
    if e.id == id then some l else elim rest [ none ↦ none | some r ↦ some (e ∷ r) ]

unfoldable pub set_enabled :
    String → Bool → List ScheduleEntry → Option (ScheduleEntry × List ScheduleEntry)
set_enabled id b [] = none
set_enabled id b (e ∷ l) =
    let rest = set_enabled id b l in
    if e.id == id
    then some (record e { enabled = b }, record e { enabled = b } ∷ l)
    else elim rest [ none ↦ none | some (u, r) ↦ some (u, e ∷ r) ]

abbrev pub or_nil : Option (List ScheduleEntry) → List ScheduleEntry
or_nil none = []
or_nil (some l) = l

-- all[dagName] = append(all[dagName], entry)
abbrev pub with_entry : String → ScheduleEntry → Store → Store
with_entry dag_name entry all = put all dag_name (or_nil (get all dag_name) ++ entry ∷ [])

abbrev pub or_missing {ℓ} : {A : Type ℓ} → Option A → Result A
or_missing none = err not_found
or_missing (some a) = ok a

module _ (y : Yaml) where
  open y use {Bytes, marshal, unmarshal}

  unfoldable pub load_schedules : FileState Bytes → Result Store
  load_schedules missing = ok []
  load_schedules denied = err unreadable
  load_schedules (content b) = elim (unmarshal b) [ none ↦ err malformed | some s ↦ ok s ]

  -- Whether the directory and the file can be written is `writable`.
  unfoldable pub save_schedules : Bool → Store → Result (FileState Bytes)
  unfolding cleaned
  save_schedules writable all =
      if writable then ok (content (marshal (cleaned all))) else err unwritable

  unfoldable pub add_schedule :
      Bool → String → ScheduleEntry → FileState Bytes → Result (FileState Bytes)
  unfolding load_schedules save_schedules
  add_schedule writable dag_name entry file = do
    all ← load_schedules file
    save_schedules writable (with_entry dag_name entry all)

  unfoldable pub remove_schedule :
      Bool → String → String → FileState Bytes → Result (FileState Bytes)
  unfolding load_schedules save_schedules remove_entry
  remove_schedule writable dag_name schedule_id file = do
    all ← load_schedules file
    list ← or_missing (get all dag_name)
    rest ← or_missing (remove_entry schedule_id list)
    save_schedules writable (put all dag_name rest)

  unfoldable pub update_schedule_enabled :
      Bool → String → String → Bool → FileState Bytes → Result (ScheduleEntry × FileState Bytes)
  unfolding load_schedules save_schedules set_enabled
  update_schedule_enabled writable dag_name schedule_id enabled file = do
    all ← load_schedules file
    list ← or_missing (get all dag_name)
    found ← or_missing (set_enabled schedule_id enabled list)
    file' ← save_schedules writable (put all dag_name found.1)
    ok (found.0, file')
