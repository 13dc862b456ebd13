-- ===== src/Core/Submit.antt =====
-- runner/src/core.rs: adding a task or a session.
pub mod Counted
pub mod Opened
use qscheduler.Base.{ℕ, String, Option, none, some, length, nat_key}
use qscheduler.Error.{Result, ok, err, ◌>>=◌, ◌>>◌, generic_error, user_not_loaded}
use qscheduler.User.{User, UserMap, find_user, insert_user, task_activated, session_activated}
use qscheduler.Session.{Session, SessionConfig, SessionMap, insert_session, is_closed, evict_closed}
use qscheduler.Session
use qscheduler.Task.{
  Task, TaskConfig, TaskKind, circuit, pulse, TaskMap, insert_task, is_final, session_id,
  project_id, evict_finished,
}
use qscheduler.Task
use qscheduler.Machine.{Machine, F64, check_not_suspended, wake_launcher}
use qscheduler.Machine.Queue.{queue_task, queue_session}
use qscheduler.Machine.Registry.{find_machine, set_machine}
use qscheduler.Core.{Core}
use qscheduler.Core.Checks.{check_user_limits, check_session_owner_limit}

-- A user that is not loaded is an error.
abbrev pub need_loaded : ℕ → Option User → Result (Unit {0})
need_loaded user_id none = err (generic_error (user_not_loaded user_id))
need_loaded user_id (some _) = ok tt

-- The two maps with the session in them, counted for its owner; `none` if the owner is missing.
unfoldable pub keep_active_session : SessionMap → UserMap → Session → Option (SessionMap × UserMap)
keep_active_session sessions users s = elim (session_activated users s.config.owner_id) [
  | err _ ↦ none
  | ok users' ↦ some (insert_session sessions s, users')
]

unfoldable pub keep_restored_task :
    ℕ → TaskMap → UserMap → String → Task → Option (TaskMap × UserMap)
keep_restored_task now tasks users user_name t =
    elim (task_activated (insert_user now users t.config.user_id user_name) t.config.user_id
      (length t.config.payload)) [ err _ ↦ none | ok users' ↦ some (insert_task tasks t, users') ]

module _ {U : Type 0} ⦃f : F64 U⦄ where
  unfoldable pub add_task : Core U → ℕ → ℕ → TaskConfig → Result (Core U × ℕ)
  add_task c task_id created_at config = do
    check_user_limits c config.user_id (length config.payload)
    machine ← find_machine c.machine_map config.machine_id
    check_not_suspended machine
    need_loaded config.user_id (find_user c.user_map config.user_id)
    let t = Task.new task_id created_at config
    queued ← queue_task machine t
    users ← task_activated c.user_map config.user_id (length config.payload)
    ok (
      record c {
        machine_map = set_machine c.machine_map config.machine_id (wake_launcher queued);
        task_map = insert_task c.task_map t;
        user_map = users;
      },
      task_id,
    )

  -- The queue with the new session and the session, if the session may be added.
  unfoldable pub queue_new_session : Core U → ℕ → ℕ → SessionConfig → Result (Machine U × Session)
  queue_new_session c session_id created_at config = do
    check_session_owner_limit c config.owner_id
    machine ← find_machine c.machine_map config.machine_id
    check_not_suspended machine
    need_loaded config.owner_id (find_user c.user_map config.owner_id)
    let s = Session.new session_id created_at config
    queued ← queue_session machine s
    ok (queued, s)

  unfoldable pub add_session : Core U → ℕ → ℕ → SessionConfig → Option (Result (Core U × ℕ))
  add_session c session_id created_at config =
      elim (queue_new_session c session_id created_at config) [
        | err e ↦ some (err e)
        | ok (queued, s) ↦ elim (keep_active_session c.session_map c.user_map s) [
          | none ↦ none
          | some (sessions, users) ↦ some (
              ok (
                record c {
                  machine_map = set_machine c.machine_map config.machine_id (wake_launcher queued);
                  session_map = sessions;
                  user_map = users;
                },
                session_id,
              ))
        ]
      ]
