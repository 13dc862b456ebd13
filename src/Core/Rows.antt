-- ===== src/Core/Rows.antt =====
-- The rows of unfinished work (runner/src/db.rs), and what runner/src/core.rs reads of them.
-- `none` is a panic.
use qscheduler.Base.{
  ℕ, ◌*◌, ◌%◌, String, Bool, true, false, Option, none, some, List, [], ◌>>=◌, nat_eq, nat_key,
  str_eq, if◌then◌else◌,
}
use qscheduler.User.{u64_mod}
use qscheduler.Project.{nanos_per_milli}
use qscheduler.Session.{Session, SessionConfig, SessionMap, insert_session, set_restored_closed}
use qscheduler.Session as Sessions
use qscheduler.Task.{
  Task, TaskConfig, TaskKind, circuit, pulse, parent_new, project_id, set_started_at,
}

pub record RestoredSession : Type 0 where
  pub id : ℕ
  pub machine_id : ℕ
  pub project_id : ℕ
  pub user_id : ℕ
  pub owner : String
  pub time_limit_ms : ℕ
  pub created_at : ℕ
  pub opened_at : Option ℕ
  pub updated_at : Option ℕ
  pub closed_at : Option ℕ
  pub exec_time_ms : Option ℕ
  pub notifier_id : Option ℕ

pub record RestoredTask : Type 0 where
  pub id : ℕ
  pub machine_id : ℕ
  pub session_id : Option ℕ
  pub project_id : Option ℕ
  pub user_id : ℕ
  pub user_name : String
  pub kind : String
  pub payload : Option (List ℕ)
  pub time_limit_ms : Option ℕ
  pub created_at : ℕ
  pub started_at : Option ℕ
  pub backend_id : Option String
  pub notifier_id : Option ℕ

-- runner/src/machine.rs: a task to attach to the backend again.
pub record ResumeTask : Type 0 where
  pub task_id : ℕ
  pub backend_id : String
  pub payload : List ℕ
  pub cancel : Bool
  pub started_at : Option ℕ
  pub time_limit : ℕ
  pub project_id : Option ℕ

abbrev pub from_millis : ℕ → ℕ
from_millis ms = ms % u64_mod * nanos_per_milli

abbrev pub or_else : {A : Type 0} → Option A → A → A
or_else none other = other
or_else (some a) other = a

abbrev pub is_none : {A : Type 0} → Option A → Bool
is_none none = true
is_none (some _) = false

-- runner/src/id.rs: an id is not zero.
unfoldable pub try_id : ℕ → Option ℕ
try_id id = if nat_eq id 0 then none else some id

abbrev pub try_ids : Option ℕ → Option (Option ℕ)
try_ids none = some none
try_ids (some id) = do id' ← try_id id; some (some id')

-- runner/src/task.rs: `TaskKind::from_db`.
unfoldable pub kind_from_db : String → Option TaskKind
kind_from_db s =
    if str_eq s "circuit" then some circuit else if str_eq s "pulse" then some pulse else none

unfoldable pub session_config : RestoredSession → Option SessionConfig
session_config row = do
  machine_id ← try_id row.machine_id
  project_id ← try_id row.project_id
  owner_id ← try_id row.user_id
  notifier ← try_ids row.notifier_id
  some (record {
    machine_id = machine_id;
    project_id = project_id;
    owner_id = owner_id;
    time_limit = from_millis row.time_limit_ms;
    notifier = notifier;
  })

-- The config of a task, whose time limit is given.
unfoldable pub task_config : ℕ → RestoredTask → Option TaskConfig
task_config time_limit row = do
  machine_id ← try_id row.machine_id
  s_id ← try_ids row.session_id
  p_id ← try_ids row.project_id
  parent ← parent_new s_id p_id
  user_id ← try_id row.user_id
  kind ← kind_from_db row.kind
  notifier ← try_ids row.notifier_id
  some (record {
    machine_id = machine_id;
    parent = parent;
    user_id = user_id;
    kind = kind;
    payload = or_else row.payload [];
    time_limit = time_limit;
    notifier = notifier;
  })

abbrev pub session_of_row : RestoredSession → SessionConfig → Session
session_of_row row config = record (Sessions.new row.id row.created_at config) {
  consumed = from_millis (or_else row.exec_time_ms 0);
}

abbrev pub started : Task → Option ℕ → Task
started task none = task
started task (some started_at) = set_started_at task started_at
