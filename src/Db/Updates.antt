-- ===== src/Db/Updates.antt =====
-- runner/src/db.rs: what the launchers write of tasks and sessions, and runner/src/launcher.rs: the
-- end of a round, which writes the updates in order. A failed statement is only logged. A column of
-- a timestamp holds whole microseconds; a duration is stored in milliseconds.
pub mod InSync
use qscheduler.Base.{
  ℕ, Bool, true, false, String, Option, none, some, List, [], ◌∷◌, get, insert, nat_eq, nat_key,
  if◌then◌else◌, whole_micros,
}
use qscheduler.Task.{CompletedState}
use qscheduler.Core.Rows.{or_else}
use qscheduler.Launcher.{DbUpdate}
use qscheduler.Launcher as Launchers
use qscheduler.Db.{
  Db, Access, served, broken, TaskRow, SessionRow, StoredState, finished, failed, cancelled, millis,
}

-- runner/src/task.rs: nothing for a duration of zero.
unfoldable pub duration_ms : ℕ → Option ℕ
duration_ms d = if nat_eq d 0 then none else some (millis d)

-- An update of the row with the id.
unfoldable pub change_task : Db → ℕ → (TaskRow → TaskRow) → Db
change_task db id change = elim (get id db.tasks) [
  | none ↦ db
  | some row ↦ record db { tasks = insert id (change row) db.tasks }
]

unfoldable pub change_session : Db → ℕ → (SessionRow → SessionRow) → Db
change_session db id change = elim (get id db.sessions) [
  | none ↦ db
  | some row ↦ record db { sessions = insert id (change row) db.sessions }
]

-- An update that is made if the database is reached.
abbrev pub if_served : Access → Db → Db → Db
if_served broken db db' = db
if_served served db db' = db'

abbrev pub ended_row : StoredState → CompletedState → TaskRow → TaskRow
ended_row state completed row = record row {
  state = state;
  payload = none;
  finished_at = some (whole_micros completed.timestamp);
  exec_time_ms = duration_ms completed.consumed;
}

unfoldable pub update_task_finished : Access → Db → ℕ → CompletedState → Db
update_task_finished access db id completed =
    if_served access db (change_task db id (ended_row finished completed))

unfoldable pub update_task_failed : Access → Db → ℕ → CompletedState → String → Db
update_task_failed access db id completed error =
    if_served access db
      (change_task db id (λ row. record (ended_row failed completed row) { error = some error }))

unfoldable pub update_task_cancelled : Access → Db → ℕ → CompletedState → Db
update_task_cancelled access db id completed =
    if_served access db (change_task db id (ended_row cancelled completed))

abbrev pub cancelled_row : ℕ → TaskRow → TaskRow
cancelled_row at row = record row {
  state = cancelled;
  payload = none;
  finished_at = some (whole_micros at);
}

unfoldable pub cancel_rows : ℕ → Db → List ℕ → Db
cancel_rows at db [] = db
cancel_rows at db (id ∷ ids) = cancel_rows at (change_task db id (cancelled_row at)) ids

unfoldable pub update_tasks_cancelled : Access → ℕ → Db → List ℕ → Db
update_tasks_cancelled access now db ids = if_served access db (cancel_rows now db ids)

-- Only the first report is kept.
unfoldable pub update_task_started : Access → Db → ℕ → ℕ → Db
update_task_started access db id started_at = if_served access db (
    change_task db id
      (λ row. record row { started_at = some (or_else row.started_at (whole_micros started_at)) }))

unfoldable pub update_task_backend_id : Access → Db → ℕ → String → Db
update_task_backend_id access db id backend_id =
    if_served access db (change_task db id (λ row. record row { backend_id = some backend_id }))

unfoldable pub update_session_opened : Access → ℕ → Db → ℕ → ℕ → Db
update_session_opened access now db id timestamp = if_served access db (
    change_session db id (λ row. record row {
      opened_at = some (whole_micros timestamp);
      updated_at = some (whole_micros now);
    }))

unfoldable pub update_session_exec_time : Access → ℕ → Db → ℕ → ℕ → Db
update_session_exec_time access now db id exec_time_ms = if_served access db (
    change_session db id (λ row. record row {
      exec_time_ms = some exec_time_ms;
      updated_at = some (whole_micros now);
    }))

-- One transaction: all rows are updated, or none.
unfoldable pub close_session_with_tasks : Access → Db → ℕ → ℕ → ℕ → List ℕ → Db
close_session_with_tasks access db id exec_time timestamp cancelled_tasks = if_served access db (
    cancel_rows timestamp
      (change_session db id (λ row. record row {
        updated_at = none;
        closed_at = some (whole_micros timestamp);
        exec_time_ms = some (millis exec_time);
      }))
      cancelled_tasks)

unfoldable pub close_dead_session : Access → Db → ℕ → ℕ → Db
close_dead_session access db id closed_at = if_served access db (
    change_session db id
      (λ row. record row { updated_at = none; closed_at = some (whole_micros closed_at) }))

unfoldable pub write_update : Access → ℕ → Db → DbUpdate → Db
write_update access now db (Launchers.task_submitted id backend_id) =
    update_task_backend_id access db id backend_id
write_update access now db (Launchers.task_started id timestamp) =
    update_task_started access db id timestamp
write_update access now db (Launchers.task_finished id completed) =
    update_task_finished access db id completed
write_update access now db (Launchers.task_failed id completed error) =
    update_task_failed access db id completed error
write_update access now db (Launchers.task_cancelled id completed) =
    update_task_cancelled access db id completed
write_update access now db (Launchers.session_opened id timestamp) =
    update_session_opened access now db id timestamp
write_update access now db (Launchers.session_closed id exec_time timestamp cancelled_tasks) =
    close_session_with_tasks access db id exec_time timestamp cancelled_tasks
write_update access now db (Launchers.session_exec_time id exec_time_ms) =
    update_session_exec_time access now db id exec_time_ms

-- `access` says which of the updates are written.
unfoldable pub write_updates : (DbUpdate → Access) → ℕ → Db → List DbUpdate → Db
write_updates access now db [] = db
write_updates access now db (update ∷ updates) =
    write_updates access now (write_update (access update) now db update) updates
