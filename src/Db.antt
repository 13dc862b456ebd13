-- ===== src/Db.antt =====
-- runner/src/db.rs: the statements that the requests wait for, on tables as lists of rows; a table
-- whose names are unique is a map by name. Db/Updates has what the launchers write, Db/Machines and
-- Db/Notifiers the statements on machines and notifiers, Db/Infos what the API shows of a row. Whether
-- the database can be reached for a statement is an input, and so are its clock and the columns
-- that other statements write.
pub mod Updates
pub mod Infos
pub mod Notifiers
pub mod Machines
pub mod Loading
use qscheduler.Base.{
  ℕ, ◌+◌, max, String, Bool, true, false, ◌&&◌, Option, none, some, List, [], ◌∷◌, ◌++◌, Map, get,
  insert, remove, nat_eq, nat_key, if◌then◌else◌, ◌*◌, ◌%◌, str_eq, string_key,
}
use Prim.Native.Nat.{◌/◌}
use qscheduler.User.{u64_mod}
use qscheduler.Project.{Project, nanos_per_milli}
use qscheduler.Error.{Result, ok, err, sqlx, machine_already_suspended, project_already_exists}
use qscheduler.Suspension.{SuspendCancel, Suspension}
use qscheduler.Task.{TaskConfig}
use qscheduler.Session.{SessionConfig}

-- Whether a statement is executed.
pub data Access : Type 0 where
  served broken : Access

-- A row of `machine_suspensions`.
pub record SuspensionRow : Type 0 where
  pub machine_id : ℕ
  pub suspension : Suspension

-- The column `state`: a task that runs is stored as waiting.
pub data StoredState : Type 0 where
  waiting finished failed cancelled : StoredState

-- A row of `tasks`. The payload of `config` is what was inserted; the column is `payload`, which is
-- cleared when the task ends. Timestamps are in nanoseconds.
pub record TaskRow : Type 0 where
  pub config : TaskConfig
  pub created_at : ℕ
  pub state : StoredState
  pub payload : Option (List ℕ)
  pub backend_id : Option String
  pub error : Option String
  pub started_at : Option ℕ
  pub finished_at : Option ℕ
  pub exec_time_ms : Option ℕ

-- A row of `sessions`.
pub record SessionRow : Type 0 where
  pub config : SessionConfig
  pub created_at : ℕ
  pub opened_at : Option ℕ
  pub updated_at : Option ℕ
  pub closed_at : Option ℕ
  pub exec_time_ms : Option ℕ

-- A row of `machines`, with its configuration as it is stored.
pub record MachineRow : Type 0 where
  pub id : ℕ
  pub stored : String

-- A row of `notifiers`.
pub record NotifierRow : Type 0 where
  pub id : ℕ
  pub url : String
  pub token : Option String

abbrev pub task_row : ℕ → TaskConfig → TaskRow
task_row now config = record {
  config = config;
  created_at = now;
  state = waiting;
  payload = some config.payload;
  backend_id = none;
  error = none;
  started_at = none;
  finished_at = none;
  exec_time_ms = none;
}

abbrev pub session_row : ℕ → SessionConfig → SessionRow
session_row now config = record {
  config = config;
  created_at = now;
  opened_at = none;
  updated_at = none;
  closed_at = none;
  exec_time_ms = none;
}

-- A row of `projects`. Durations are in milliseconds.
pub record ProjectRow : Type 0 where
  pub id : ℕ
  pub name : String
  pub consumed_ms : ℕ
  pub limit_ms : ℕ
  pub active : Bool

pub record Db : Type 0 where
  pub tasks : Map ℕ TaskRow
  pub next_task_id : ℕ
  pub sessions : Map ℕ SessionRow
  pub next_session_id : ℕ
  pub suspensions : List SuspensionRow
  pub projects : List ProjectRow
  pub next_project_id : ℕ
  pub users : Map String ℕ
  pub next_user_id : ℕ
  pub machines : Map String MachineRow
  pub next_machine_id : ℕ
  pub notifiers : Map String NotifierRow
  pub next_notifier_id : ℕ

unfoldable pub is_active : ℕ → SuspensionRow → Bool
is_active machine_id row =
    nat_eq row.machine_id machine_id
    && (elim row.suspension.resumed_at [ none ↦ true | some _ ↦ false ])

-- The first active suspension of a machine.
unfoldable pub active_of : ℕ → List SuspensionRow → Option Suspension
active_of machine_id [] = none
active_of machine_id (row ∷ rows) =
    if is_active machine_id row then some row.suspension else active_of machine_id rows

-- The index admits one active suspension of a machine.
unfoldable pub insert_suspension :
    Access → ℕ → Db → ℕ → String → String → SuspendCancel → Result (Db × Suspension)
insert_suspension broken now db machine_id machine_name message cancel = err sqlx
insert_suspension served now db machine_id machine_name message cancel =
    elim (active_of machine_id db.suspensions) [
      | some _ ↦ err (machine_already_suspended machine_name)
      | none ↦
          let suspension : Suspension = record {
            message = message;
            cancel = cancel;
            suspended_at = now;
            resumed_at = none;
          } in
          ok (
            record db {
              suspensions =
                  db.suspensions
                  ++ record { machine_id = machine_id; suspension = suspension } ∷ [];
            },
            suspension,
          )
    ]

abbrev pub ended : ℕ → Suspension → Suspension
ended now s = record s { resumed_at = some (max now s.suspended_at) }

-- The update of the rows.
unfoldable pub end_active : ℕ → ℕ → List SuspensionRow → List SuspensionRow
end_active now machine_id [] = []
end_active now machine_id (row ∷ rows) =
    (if is_active machine_id row then record row { suspension = ended now row.suspension } else row)
    ∷ end_active now machine_id rows

unfoldable pub end_suspension : Access → ℕ → Db → ℕ → Result (Db × Option Suspension)
end_suspension broken now db machine_id = err sqlx
end_suspension served now db machine_id = ok (
  record db { suspensions = end_active now machine_id db.suspensions },
  elim (active_of machine_id db.suspensions) [ none ↦ none | some s ↦ some (ended now s) ],
)

-- The check of the column `id` refuses 0, so the id that the source converts is valid.
unfoldable pub insert_task : Access → ℕ → Db → TaskConfig → Result (Db × ℕ × ℕ)
insert_task broken now db config = err sqlx
insert_task served now db config =
    if nat_eq db.next_task_id 0
    then err sqlx
    else ok (
      record db {
        tasks = insert db.next_task_id (task_row now config) db.tasks;
        next_task_id = db.next_task_id + 1;
      },
      db.next_task_id,
      now,
    )

-- A failed deletion is only logged.
unfoldable pub delete_task : Access → Db → ℕ → Db
delete_task broken db task_id = db
delete_task served db task_id = record db { tasks = remove task_id db.tasks }

unfoldable pub insert_session : Access → ℕ → Db → SessionConfig → Result (Db × ℕ × ℕ)
insert_session broken now db config = err sqlx
insert_session served now db config =
    if nat_eq db.next_session_id 0
    then err sqlx
    else ok (
      record db {
        sessions = insert db.next_session_id (session_row now config) db.sessions;
        next_session_id = db.next_session_id + 1;
      },
      db.next_session_id,
      now,
    )

unfoldable pub delete_session : Access → Db → ℕ → Db
delete_session broken db session_id = db
delete_session served db session_id = record db { sessions = remove session_id db.sessions }

-- `Project::from`: the in-flight time is not stored.
unfoldable pub project_of_row : ProjectRow → Project
project_of_row row = record {
  id = row.id;
  name = row.name;
  active = row.active;
  consumed = row.consumed_ms % u64_mod * nanos_per_milli;
  limit = row.limit_ms % u64_mod * nanos_per_milli;
  in_flight = 0;
}

unfoldable pub row_named : String → List ProjectRow → Option ProjectRow
row_named name [] = none
row_named name (row ∷ rows) = if str_eq row.name name then some row else row_named name rows

-- `as_millis() as i64`: a column stands for its 64 bits.
abbrev pub millis : ℕ → ℕ
millis duration = duration / nanos_per_milli % u64_mod

-- The names are unique.
unfoldable pub insert_project : Access → Db → String → Bool → ℕ → Result (Db × ℕ)
insert_project broken db name active limit = err sqlx
insert_project served db name active limit = elim (row_named name db.projects) [
  | some _ ↦ err (project_already_exists name)
  | none ↦ ok (
    record db {
      projects =
          db.projects
          ++ record {
            id = db.next_project_id;
            name = name;
            consumed_ms = 0;
            limit_ms = millis limit;
            active = active;
          }
            ∷ [];
      next_project_id = db.next_project_id + 1;
    },
    db.next_project_id,
  )
]

unfoldable pub find_project_row : Access → Db → String → Result (Option Project)
find_project_row broken db name = err sqlx
find_project_row served db name =
    ok (elim (row_named name db.projects) [ none ↦ none | some row ↦ some (project_of_row row) ])

-- `COALESCE`.
abbrev pub coalesce : {A : Type 0} → Option A → A → A
coalesce none old = old
coalesce (some new) old = new

abbrev pub updated : Option Bool → Option ℕ → ProjectRow → ProjectRow
updated active limit_ms row = record row {
  active = coalesce active row.active;
  limit_ms = coalesce limit_ms row.limit_ms;
}

unfoldable pub update_rows : String → Option Bool → Option ℕ → List ProjectRow → List ProjectRow
update_rows name active limit_ms [] = []
update_rows name active limit_ms (row ∷ rows) =
    (if str_eq row.name name then updated active limit_ms row else row)
    ∷ update_rows name active limit_ms rows

unfoldable pub update_project_row :
    Access → Db → String → Option Bool → Option ℕ → Result (Db × Option Project)
update_project_row broken db name active limit_ms = err sqlx
update_project_row served db name active limit_ms =
    let rows = update_rows name active limit_ms db.projects in
    ok (
      record db { projects = rows },
      elim (row_named name rows) [ none ↦ none | some row ↦ some (project_of_row row) ],
    )

-- The id of the user, who is inserted if the name is new.
unfoldable pub get_or_create_user : Access → Db → String → Result (Db × ℕ)
get_or_create_user broken db name = err sqlx
get_or_create_user served db name = elim (get name db.users) [
  | some id ↦ ok (db, id)
  | none ↦ ok (
    record db { users = insert name db.next_user_id db.users; next_user_id = db.next_user_id + 1 },
    db.next_user_id,
  )
]
