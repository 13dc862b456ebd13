-- ===== src/Reactor/Work.antt =====
-- runner/src/reactor.rs: submitting and cancelling tasks and sessions. `none` is a panic. `begin`
-- and `end` are the core at the first lock and at the last.
pub mod Recorded
pub mod Answers
use qscheduler.Base.{
  ℕ, String, Bool, true, false, Option, none, some, get, ltb, if◌then◌else◌, nat_key, ◌>>=◌,
}
use qscheduler.Error.{
  Result, ok, err, task_already_finished, invalid_task, session_already_closed, invalid_session,
  task_time_limit_exceeds_max, task_not_submitted, sqlx,
}
use qscheduler.Task.{TaskConfig, is_final}
use qscheduler.Session.{SessionConfig, is_closed}
use qscheduler.Machine.{Machine, F64, request_task_cancel, request_session_cancel, wake_launcher}
use qscheduler.Machine.Registry.{set_machine}
use qscheduler.Core.{Core}
use qscheduler.Core.Checks.{validate_task_config, validate_session_config}
use qscheduler.Core.Submit.{add_task, add_session}
use qscheduler.Db.{
  Db, Access, served, broken, insert_task, delete_task, insert_session, delete_session,
}

module _ {U : Type 0} ⦃f : F64 U⦄ where
  -- The task is inserted by `access` and, after a failure, deleted by `undo`.
  unfoldable pub submit_task :
      (access undo : Access) → ℕ → (begin end : Core U) → Db → TaskConfig → Core U × Db × Result ℕ
  submit_task access undo now begin end db config = elim (validate_task_config begin config) [
    | err e ↦ (end, db, err e)
    | ok _ ↦ elim (insert_task access now db config) [
      | err e ↦ (end, db, err e)
      | ok (db', task_id, created_at) ↦ elim (add_task end task_id created_at config) [
        | err e ↦ (end, delete_task undo db' task_id, err e)
        | ok (end', id) ↦ (end', db', ok id)
      ]
    ]
  ]

  unfoldable pub create_session :
      (access undo : Access)
      → ℕ
      → (begin end : Core U) → Db
      → SessionConfig
      → Option (Core U × Db × Result ℕ)
  create_session access undo now begin end db config = elim (validate_session_config begin config) [
    | err e ↦ some (end, db, err e)
    | ok _ ↦ elim (insert_session access now db config) [
      | err e ↦ some (end, db, err e)
      | ok (db', session_id, created_at) ↦ elim (add_session end session_id created_at config) [
        | none ↦ none
        | some (err e) ↦ some (end, delete_session undo db' session_id, err e)
        | some (ok (end', id)) ↦ some (end', db', ok id)
      ]
    ]
  ]

-- A row of a task that is not in memory belongs to a final one.
abbrev pub answer_by_row : Access → Db → ℕ → Result (Unit {0})
answer_by_row broken db task_id = err sqlx
answer_by_row served db task_id = elim (get task_id db.tasks) [
  | some _ ↦ err (task_already_finished task_id)
  | none ↦ err (invalid_task task_id)
]

abbrev pub session_answer_by_row : Access → Db → ℕ → Result (Unit {0})
session_answer_by_row broken db session_id = err sqlx
session_answer_by_row served db session_id = elim (get session_id db.sessions) [
  | some _ ↦ err (session_already_closed session_id)
  | none ↦ err (invalid_session session_id)
]

module _ {U : Type 0} where
  -- What is done with a machine that is there; `none` is the panic of `get_machine_mut`.
  abbrev pub change_machine : Core U → ℕ → (Machine U → Machine U) → Option (Core U)
  change_machine c machine_id change = do
    machine ← get machine_id c.machine_map.machines
    some (record c { machine_map = set_machine c.machine_map machine_id (change machine) })

  abbrev pub accepted : Core U → Option (Core U) → Option (Core U × Result (Unit {0}))
  accepted c none = none
  accepted c (some c') = some (c', ok tt)

  unfoldable pub cancel_task : Access → Core U → Db → ℕ → Option (Core U × Result (Unit {0}))
  cancel_task access c db task_id = elim (get task_id c.task_map) [
    | none ↦ some (c, answer_by_row access db task_id)
    | some t ↦
        if is_final t.state
        then some (c, err (task_already_finished task_id))
        else accepted c (
            change_machine c t.config.machine_id
              (λ machine. wake_launcher (request_task_cancel machine task_id)))
  ]

  unfoldable pub cancel_session : Access → Core U → Db → ℕ → Option (Core U × Result (Unit {0}))
  cancel_session access c db session_id = elim (get session_id c.session_map) [
    | none ↦ some (c, session_answer_by_row access db session_id)
    | some s ↦
        if is_closed s.state
        then some (c, err (session_already_closed session_id))
        else accepted c (
            change_machine c s.config.machine_id
              (λ machine. wake_launcher (request_session_cancel machine session_id)))
  ]

  abbrev pub limit_of : Machine U → Option ℕ → Result ℕ
  limit_of machine none = ok machine.config.default_task_time_limit
  limit_of machine (some requested) =
      if ltb machine.config.max_task_time_limit requested
      then err (
          task_time_limit_exceeds_max machine.config.name machine.config.max_task_time_limit
            requested)
      else ok requested

  unfoldable pub resolve_task_time_limit : Core U → ℕ → Option ℕ → Option (Result ℕ)
  resolve_task_time_limit c machine_id requested = do
    machine ← get machine_id c.machine_map.machines
    some (limit_of machine requested)
