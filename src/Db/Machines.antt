-- ===== src/Db/Machines.antt =====
-- runner/src/db.rs: the statements on machines. How a configuration is written is the parameter
-- `Serde`; the totals of what users consumed, which triggers keep, are left out.
use qscheduler.Base.{
  ℕ, ◌+◌, String, Bool, true, false, not, Option, none, some, List, [], ◌∷◌, ◌&&◌, ◌||◌, Map, get,
  insert, remove, retain, length, ltb, nat_eq, nat_key, string_key, if◌then◌else◌,
}
use qscheduler.Error.{Result, ok, err, sqlx, machine_already_exists}
use qscheduler.Task.{session_id}
use qscheduler.Config.{MachineConfiguration, Serde, to_stored}
use qscheduler.Db.{Db, Access, served, broken, TaskRow, SessionRow, SuspensionRow}

unfoldable pub insert_machine : Serde → Access → Db → MachineConfiguration → Result (Db × ℕ)
insert_machine serde broken db config = err sqlx
insert_machine serde served db config = elim (get config.name db.machines) [
  | some _ ↦ err (machine_already_exists config.name)
  | none ↦
      if nat_eq db.next_machine_id 0
      then err sqlx
      else ok (
        record db {
          machines =
              insert config.name
                (record { id = db.next_machine_id; stored = to_stored serde config }) db.machines;
          next_machine_id = db.next_machine_id + 1;
        },
        db.next_machine_id,
      )
]

-- Whether there is such a machine.
unfoldable pub update_machine : Serde → Access → Db → MachineConfiguration → Result (Db × Bool)
update_machine serde broken db config = err sqlx
update_machine serde served db config = elim (get config.name db.machines) [
  | none ↦ ok (db, false)
  | some row ↦ ok (
    record db {
      machines = insert config.name (record row { stored = to_stored serde config }) db.machines;
    },
    true,
  )
]

abbrev pub is_of_machine : ℕ → SessionRow → Bool
is_of_machine machine_id row = nat_eq row.config.machine_id machine_id

abbrev pub is_in_its_session : ℕ → Map ℕ SessionRow → Option ℕ → Bool
is_in_its_session machine_id sessions none = false
is_in_its_session machine_id sessions (some id) = elim (get id sessions) [
  | none ↦ false
  | some row ↦ is_of_machine machine_id row
]

-- A task of the machine or of one of its sessions.
abbrev pub is_dependent : ℕ → Map ℕ SessionRow → TaskRow → Bool
is_dependent machine_id sessions row =
    nat_eq row.config.machine_id machine_id
    || is_in_its_session machine_id sessions (session_id row.config.parent)

-- The numbers of tasks and sessions.
unfoldable pub count_dependents : Db → ℕ → ℕ × ℕ
count_dependents db machine_id = (
  length (retain (is_dependent machine_id db.sessions) db.tasks),
  length (retain (is_of_machine machine_id) db.sessions),
)

unfoldable pub count_machine_dependents : Access → Db → ℕ → Result (ℕ × ℕ)
count_machine_dependents broken db machine_id = err sqlx
count_machine_dependents served db machine_id = ok (count_dependents db machine_id)

pub data RemoveMachineOutcome : Type 0 where
  not_found : RemoveMachineOutcome
  has_dependents : ℕ → ℕ → RemoveMachineOutcome
  removed : ℕ → ℕ → RemoveMachineOutcome

-- `ON DELETE CASCADE`.
unfoldable pub other_suspensions : ℕ → List SuspensionRow → List SuspensionRow
other_suspensions machine_id [] = []
other_suspensions machine_id (row ∷ rows) =
    if nat_eq row.machine_id machine_id
    then other_suspensions machine_id rows
    else row ∷ other_suspensions machine_id rows

unfoldable pub delete_rows : Db → String → ℕ → Db
delete_rows db name machine_id = record db {
  tasks = retain (λ row. not (is_dependent machine_id db.sessions row)) db.tasks;
  sessions = retain (λ row. not (is_of_machine machine_id row)) db.sessions;
  suspensions = other_suspensions machine_id db.suspensions;
  machines = remove name db.machines;
}

-- One transaction.
unfoldable pub remove_machine : Access → Db → String → Bool → Result (Db × RemoveMachineOutcome)
remove_machine broken db name force = err sqlx
remove_machine served db name force = elim (get name db.machines) [
  | none ↦ ok (db, not_found)
  | some row ↦
      let (tasks, sessions) = count_dependents db row.id in
      if (ltb 0 tasks || ltb 0 sessions) && not force
      then ok (db, has_dependents tasks sessions)
      else ok (delete_rows db name row.id, removed tasks sessions)
]
