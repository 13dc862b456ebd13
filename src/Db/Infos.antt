-- ===== src/Db/Infos.antt =====
-- runner/src/db.rs: what the API shows of a row. A join with a table finds nothing if the row of the
-- other table is gone; a left join leaves the name out.
use qscheduler.Base.{
  ℕ, String, Option, none, some, List, [], ◌∷◌, Map, get, nat_eq, nat_key, if◌then◌else◌, ◌>>=◌,
}
use qscheduler.Error.{Result, ok, err, sqlx}
use qscheduler.Task.{session_id, project_id}
use qscheduler.Core.Infos.{TaskInfo, SessionInfo, TaskStateKind, SessionStateKind}
use qscheduler.Db.{
  Db, Access, served, broken, TaskRow, SessionRow, ProjectRow, MachineRow, NotifierRow, StoredState,
  millis,
}
use qscheduler.Db as Rows

-- The name under which a row with the id stands.
unfoldable pub name_by_id : {V : Type 0} → (V → ℕ) → ℕ → Map String V → Option String
name_by_id id_of id [] = none
name_by_id id_of id ((name, row) ∷ rows) =
    if nat_eq (id_of row) id then some name else name_by_id id_of id rows

abbrev pub machine_name : Db → ℕ → Option String
machine_name db id = name_by_id (λ (row : MachineRow). row.id) id db.machines

abbrev pub user_name : Db → ℕ → Option String
user_name db id = name_by_id (λ (user_id : ℕ). user_id) id db.users

abbrev pub notifier_name_of : Db → Option ℕ → Option String
notifier_name_of db none = none
notifier_name_of db (some id) = name_by_id (λ (row : NotifierRow). row.id) id db.notifiers

unfoldable pub project_name_of : Option ℕ → List ProjectRow → Option String
project_name_of none rows = none
project_name_of (some id) [] = none
project_name_of (some id) (row ∷ rows) =
    if nat_eq row.id id then some row.name else project_name_of (some id) rows

-- A text of the column is one of the four, so no other is met.
unfoldable pub kind_of_row : StoredState → TaskStateKind
kind_of_row Rows.waiting = TaskStateKind.waiting
kind_of_row Rows.finished = TaskStateKind.finished
kind_of_row Rows.failed = TaskStateKind.failed
kind_of_row Rows.cancelled = TaskStateKind.cancelled

unfoldable pub task_info_row : Db → ℕ → Option TaskInfo
task_info_row db id = do
  row ← get id db.tasks
  machine ← machine_name db row.config.machine_id
  user ← user_name db row.config.user_id
  some (record {
    id = id;
    session = session_id row.config.parent;
    project = project_name_of (project_id row.config.parent) db.projects;
    user = user;
    kind = row.config.kind;
    backend_id = row.backend_id;
    machine = machine;
    state = kind_of_row row.state;
    created_at = row.created_at;
    time_limit_ms = some (millis row.config.time_limit);
    started_at = row.started_at;
    finished_at = row.finished_at;
    exectime_ms = row.exec_time_ms;
    error = row.error;
    notify = notifier_name_of db row.config.notifier;
  })

abbrev pub if_read : {A : Type 0} → Access → A → Result A
if_read broken a = err sqlx
if_read served a = ok a

unfoldable pub find_task_info : Access → Db → ℕ → Result (Option TaskInfo)
find_task_info access db id = if_read access (task_info_row db id)

unfoldable pub find_task_backend_ref : Access → Db → ℕ → Result (Option (ℕ × Option String))
find_task_backend_ref access db id =
    if_read access (do row ← get id db.tasks; some (row.config.machine_id, row.backend_id))

abbrev pub kind_of_session_row : Option ℕ → Option ℕ → SessionStateKind
kind_of_session_row opened_at (some _) = SessionStateKind.closed
kind_of_session_row (some _) none = SessionStateKind.open_now
kind_of_session_row none none = SessionStateKind.waiting

-- A zero is left out.
abbrev pub unless_zero : Option ℕ → Option ℕ
unless_zero none = none
unless_zero (some ms) = if nat_eq ms 0 then none else some ms

unfoldable pub session_info_row : Db → ℕ → Option SessionInfo
session_info_row db id = do
  row ← get id db.sessions
  machine ← machine_name db row.config.machine_id
  project ← project_name_of (some row.config.project_id) db.projects
  owner ← user_name db row.config.owner_id
  some (record {
    id = id;
    state = kind_of_session_row row.opened_at row.closed_at;
    machine = machine;
    project = project;
    owner = owner;
    time_limit_ms = millis row.config.time_limit;
    created_at = row.created_at;
    opened_at = row.opened_at;
    closed_at = row.closed_at;
    exectime_ms = unless_zero row.exec_time_ms;
    notify = notifier_name_of db row.config.notifier;
  })

unfoldable pub find_session_info : Access → Db → ℕ → Result (Option SessionInfo)
find_session_info access db id = if_read access (session_info_row db id)
