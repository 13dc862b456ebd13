-- ===== src/Db/Loading.antt =====
-- runner/src/db.rs: the rows that a restart loads. Rows stand in the order of their ids, in which
-- they were inserted. What `restore` (runner/src/core.rs) loads of projects are those that the wanted
-- rows name.
pub mod Reloaded
use qscheduler.Base.{
  ℕ, String, Bool, true, false, not, Option, none, some, List, [], ◌∷◌, ◌++◌, ◌&&◌, ◌||◌, Map,
  nat_eq, if◌then◌else◌, ◌>>=◌,
}
use qscheduler.Error.{Result, ok, err, sqlx}
use qscheduler.Project.{Project}
use qscheduler.Suspension.{Suspension}
use qscheduler.Task.{TaskKind, circuit, pulse, session_id, project_id}
use qscheduler.Core.Rows.{RestoredSession, RestoredTask, is_none}
use qscheduler.Core.Restore.{Loaded, wanted_tasks, wanted_sessions}
use qscheduler.Db.{
  Db, Access, served, broken, TaskRow, SessionRow, ProjectRow, SuspensionRow, StoredState, millis,
  project_of_row,
}
use qscheduler.Db as Rows
use qscheduler.Db.Infos.{user_name}

-- `TaskKind::as_str`.
unfoldable pub as_str : TaskKind → String
as_str circuit = "circuit"
as_str pulse = "pulse"

abbrev pub is_waiting : StoredState → Bool
is_waiting Rows.waiting = true
is_waiting Rows.finished = false
is_waiting Rows.failed = false
is_waiting Rows.cancelled = false

unfoldable pub restored_task : ℕ → TaskRow → String → RestoredTask
restored_task id row name = record {
  id = id;
  machine_id = row.config.machine_id;
  session_id = session_id row.config.parent;
  project_id = project_id row.config.parent;
  user_id = row.config.user_id;
  user_name = name;
  kind = as_str row.config.kind;
  payload = row.payload;
  time_limit_ms = some (millis row.config.time_limit);
  created_at = row.created_at;
  started_at = row.started_at;
  backend_id = row.backend_id;
  notifier_id = row.config.notifier;
}

-- Added to the rows if it waits and its user is there.
abbrev pub with_task : Db → ℕ → TaskRow → List RestoredTask → List RestoredTask
with_task db id row rows =
    if is_waiting row.state
    then (elim (user_name db row.config.user_id) [
      | none ↦ rows
      | some name ↦ restored_task id row name ∷ rows
    ])
    else rows

unfoldable pub active_tasks : Db → Map ℕ TaskRow → List RestoredTask
active_tasks db [] = []
active_tasks db ((id, row) ∷ tasks) = with_task db id row (active_tasks db tasks)

unfoldable pub load_active_tasks : Access → Db → Result (List RestoredTask)
load_active_tasks broken db = err sqlx
load_active_tasks served db = ok (active_tasks db db.tasks)

unfoldable pub restored_session : ℕ → SessionRow → String → RestoredSession
restored_session id row owner = record {
  id = id;
  machine_id = row.config.machine_id;
  project_id = row.config.project_id;
  user_id = row.config.owner_id;
  owner = owner;
  time_limit_ms = millis row.config.time_limit;
  created_at = row.created_at;
  opened_at = row.opened_at;
  updated_at = row.updated_at;
  closed_at = row.closed_at;
  exec_time_ms = row.exec_time_ms;
  notifier_id = row.config.notifier;
}

abbrev pub is_its_session : ℕ → Option ℕ → Bool
is_its_session id none = false
is_its_session id (some s) = nat_eq s id

unfoldable pub is_used : ℕ → List RestoredTask → Bool
is_used id [] = false
is_used id (task ∷ tasks) = is_its_session id task.session_id || is_used id tasks

abbrev pub with_session :
    Db → List RestoredTask → ℕ → SessionRow → List RestoredSession → List RestoredSession
with_session db tasks id row rows =
    if is_none row.closed_at || is_used id tasks
    then (elim (user_name db row.config.owner_id) [
      | none ↦ rows
      | some owner ↦ restored_session id row owner ∷ rows
    ])
    else rows

unfoldable pub active_sessions : Db → List RestoredTask → Map ℕ SessionRow → List RestoredSession
active_sessions db tasks [] = []
active_sessions db tasks ((id, row) ∷ sessions) =
    with_session db tasks id row (active_sessions db tasks sessions)

-- Also a closed session of a task that has not ended.
unfoldable pub load_active_sessions :
    Access → Db → List RestoredTask → Result (List RestoredSession)
load_active_sessions broken db tasks = err sqlx
load_active_sessions served db tasks = ok (active_sessions db tasks db.sessions)

abbrev pub is_among : ℕ → List ℕ → Bool
is_among id [] = false
is_among id (i ∷ ids) = nat_eq i id || is_among id ids

unfoldable pub projects_by_ids : List ℕ → List ProjectRow → List Project
projects_by_ids ids [] = []
projects_by_ids ids (row ∷ rows) =
    if is_among row.id ids
    then project_of_row row ∷ projects_by_ids ids rows
    else projects_by_ids ids rows

unfoldable pub load_projects_by_ids : Access → Db → List ℕ → Result (List Project)
load_projects_by_ids broken db ids = err sqlx
load_projects_by_ids served db ids = ok (projects_by_ids ids db.projects)

unfoldable pub active_suspensions : List SuspensionRow → List (ℕ × Suspension)
active_suspensions [] = []
active_suspensions (row ∷ rows) =
    if is_none row.suspension.resumed_at
    then (row.machine_id, row.suspension) ∷ active_suspensions rows
    else active_suspensions rows

unfoldable pub load_active_suspensions : Access → Db → Result (List (ℕ × Suspension))
load_active_suspensions broken db = err sqlx
load_active_suspensions served db = ok (active_suspensions db.suspensions)

-- The ids of projects that are not 0, of tasks outside sessions and of sessions.
abbrev pub unless_unset : Option ℕ → List ℕ → List ℕ
unless_unset none ids = ids
unless_unset (some id) ids = if nat_eq id 0 then ids else id ∷ ids

unfoldable pub projects_of_tasks : List RestoredTask → List ℕ
projects_of_tasks [] = []
projects_of_tasks (row ∷ rows) = unless_unset row.project_id (projects_of_tasks rows)

unfoldable pub projects_of_sessions : List RestoredSession → List ℕ
projects_of_sessions [] = []
projects_of_sessions (row ∷ rows) = unless_unset (some row.project_id) (projects_of_sessions rows)

-- What `restore` loads. Any failure is one.
unfoldable pub load_rows : Access → Db → Option ℕ → Result Loaded
load_rows broken db only = err sqlx
load_rows served db only =
    let tasks = active_tasks db db.tasks in
    let sessions = active_sessions db tasks db.sessions in
    ok (record {
      tasks = tasks;
      sessions = sessions;
      projects =
          projects_by_ids
            (projects_of_tasks (wanted_tasks only tasks)
              ++ projects_of_sessions (wanted_sessions only sessions))
            db.projects;
      suspensions = active_suspensions db.suspensions;
    })
