-- ===== src/Core/Infos.antt =====
-- What the API shows of a task and of a session: `TaskInfo` of runner/src/task.rs, `SessionInfo` of
-- runner/src/session.rs, and `task_info` and `session_info` of runner/src/core.rs. `none` is a panic.
use qscheduler.Base.{ℕ, String, Option, none, some, get, nat_key, ◌>>=◌, whole_micros}
use qscheduler.User.{UserMap, get_user}
use qscheduler.Project.{Project, ProjectMap, find_project}
use qscheduler.Session.{Session, SessionState}
use qscheduler.Session as Sessions
use qscheduler.Task.{Task, TaskState, TaskKind, CompletedState, session_id, project_id}
use qscheduler.Task as Tasks
use qscheduler.Callback.{NotifierMap, notifier_name}
use qscheduler.Core.{Core}
use qscheduler.Db.{millis}
use qscheduler.Db.Updates.{duration_ms}

pub data TaskStateKind : Type 0 where
  waiting running finished failed cancelled : TaskStateKind

pub data SessionStateKind : Type 0 where
  waiting open_now closed : SessionStateKind

pub record TaskInfo : Type 0 where
  pub id : ℕ
  pub session : Option ℕ
  pub project : Option String
  pub user : String
  pub kind : TaskKind
  pub backend_id : Option String
  pub machine : String
  pub state : TaskStateKind
  pub created_at : ℕ
  pub time_limit_ms : Option ℕ
  pub started_at : Option ℕ
  pub finished_at : Option ℕ
  pub exectime_ms : Option ℕ
  pub error : Option String
  pub notify : Option String

pub record SessionInfo : Type 0 where
  pub id : ℕ
  pub state : SessionStateKind
  pub machine : String
  pub project : String
  pub owner : String
  pub time_limit_ms : ℕ
  pub created_at : ℕ
  pub opened_at : Option ℕ
  pub closed_at : Option ℕ
  pub exectime_ms : Option ℕ
  pub notify : Option String

unfoldable pub kind_of_state : TaskState → TaskStateKind
kind_of_state Tasks.waiting = TaskStateKind.waiting
kind_of_state Tasks.running = TaskStateKind.running
kind_of_state (Tasks.finished _) = TaskStateKind.finished
kind_of_state (Tasks.failed _ _) = TaskStateKind.failed
kind_of_state (Tasks.cancelled _) = TaskStateKind.cancelled

unfoldable pub session_kind : SessionState → SessionStateKind
session_kind Sessions.waiting = SessionStateKind.waiting
session_kind (Sessions.open_since _) = SessionStateKind.open_now
session_kind (Sessions.closed _ _) = SessionStateKind.closed

-- When the task ended, how long it ran and what it failed with.
pub record Outcome : Type 0 where
  pub finished_at : Option ℕ
  pub exectime_ms : Option ℕ
  pub error : Option String

abbrev pub no_outcome : Outcome
no_outcome = record { finished_at = none; exectime_ms = none; error = none }

abbrev pub outcome_with : CompletedState → Option String → Outcome
outcome_with completed error = record {
  finished_at = some (whole_micros completed.timestamp);
  exectime_ms = duration_ms completed.consumed;
  error = error;
}

unfoldable pub outcome_of : TaskState → Outcome
outcome_of Tasks.waiting = no_outcome
outcome_of Tasks.running = no_outcome
outcome_of (Tasks.finished completed) = outcome_with completed none
outcome_of (Tasks.failed completed error) = outcome_with completed (some error)
outcome_of (Tasks.cancelled completed) = outcome_with completed none

-- `TaskInfo::build`.
unfoldable pub build_task_info :
    Task → TaskState → String → Option String → UserMap → NotifierMap → Option TaskInfo
build_task_info t state machine project users notifiers = do
  user ← get_user users t.config.user_id
  let outcome = outcome_of state
  some (record {
    id = t.id;
    session = session_id t.config.parent;
    project = project;
    user = user.name;
    kind = t.config.kind;
    backend_id = t.backend_id;
    machine = machine;
    state = kind_of_state state;
    created_at = t.created_at;
    time_limit_ms = some (millis t.config.time_limit);
    started_at = t.started_at;
    finished_at = outcome.finished_at;
    exectime_ms = outcome.exectime_ms;
    error = outcome.error;
    notify = notifier_name notifiers t.config.notifier;
  })

unfoldable pub opened_of : SessionState → Option ℕ
opened_of Sessions.waiting = none
opened_of (Sessions.open_since opened_at) = some opened_at
opened_of (Sessions.closed opened_at _) = opened_at

unfoldable pub closed_of : SessionState → Option ℕ
closed_of Sessions.waiting = none
closed_of (Sessions.open_since _) = none
closed_of (Sessions.closed _ closed_at) = some closed_at

abbrev pub whole_micros? : Option ℕ → Option ℕ
whole_micros? none = none
whole_micros? (some t) = some (whole_micros t)

-- `SessionInfo::build`.
unfoldable pub build_session_info : Session → String → String → String → NotifierMap → SessionInfo
build_session_info s machine project owner notifiers = record {
  id = s.id;
  state = session_kind s.state;
  machine = machine;
  project = project;
  owner = owner;
  time_limit_ms = millis s.config.time_limit;
  created_at = s.created_at;
  opened_at = whole_micros? (opened_of s.state);
  closed_at = whole_micros? (closed_of s.state);
  exectime_ms = duration_ms s.consumed;
  notify = notifier_name notifiers s.config.notifier;
}

abbrev pub name_of : Option Project → Option String
name_of none = none
name_of (some p) = some p.name

abbrev pub name_or_default : Option Project → String
name_or_default none = ""
name_or_default (some p) = p.name

abbrev pub project_of : ProjectMap → Option ℕ → Option Project
project_of projects none = none
project_of projects (some id) = find_project projects id

abbrev pub found : {A : Type 0} → Option A → Option (Option A)
found none = none
found (some a) = some (some a)

module _ {U : Type 0} where
  -- The outer `Option` is the panic, the inner one the result.
  unfoldable pub task_info : Core U → NotifierMap → ℕ → Option (Option TaskInfo)
  task_info c notifiers id = elim (get id c.task_map) [
    | none ↦ some none
    | some t ↦ do
      machine ← get t.config.machine_id c.machine_map.machines
      let project = name_of (project_of c.project_map (project_id t.config.parent))
      found (build_task_info t t.state machine.config.name project c.user_map notifiers)
  ]

  unfoldable pub session_info : Core U → NotifierMap → ℕ → Option (Option SessionInfo)
  session_info c notifiers id = elim (get id c.session_map) [
    | none ↦ some none
    | some s ↦ do
      owner ← get_user c.user_map s.config.owner_id
      machine ← get s.config.machine_id c.machine_map.machines
      let project = name_or_default (find_project c.project_map s.config.project_id)
      some (some (build_session_info s machine.config.name project owner.name notifiers))
  ]

  -- The machine and the backend id of a task in memory.
  unfoldable pub task_backend_ref : Core U → ℕ → Option (ℕ × Option String)
  task_backend_ref c id = do t ← get id c.task_map; some (t.config.machine_id, t.backend_id)
