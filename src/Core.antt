-- ===== src/Core.antt =====
-- runner/src/core.rs: the shared state of the service and the operations under its lock. The
-- notifiers, the database pool and the launcher handles are outside; ids and times of creation
-- come from the database and are arguments. `none` is a panic.
pub mod Checks
pub mod Submit
pub mod Counters
pub mod Purge
pub mod Evict
pub mod Rows
pub mod Restore
pub mod Infos
use qscheduler.Base.{
  ℕ, ◌+◌, ◌-◌, String, Bool, true, false, not, ◌&&◌, ◌||◌, Option, none, some, List, [], ◌∷◌, Map,
  length, get, insert, min, ltb, leb, nat_eq, if◌then◌else◌, nat_key,
}
use qscheduler.Error.{
  RunnerError, Result, ok, err, ◌>>=◌, ◌>>◌, generic_error, user_not_loaded,
  session_duration_exceeds_limit, project_not_found, project_not_active, project_limit_exceeded,
  pulse_access_denied, non_running_session, user_payload_limit_exceeded,
  user_active_item_limit_exceeded,
}
use qscheduler.User.{
  User, UserMap, u64_mod, find_user, find_by_name, insert_user, task_activated, task_deactivated,
  session_activated, session_deactivated, evict_idle,
}
use qscheduler.Project.{Project, ProjectMap, find_project, has_time_for, is_over_limit}
use qscheduler.Session.{Session, SessionConfig, SessionMap, insert_session, is_closed, evict_closed}
use qscheduler.Session
use qscheduler.Task.{
  Task, TaskConfig, TaskKind, circuit, pulse, TaskMap, insert_task, is_final, session_id,
  project_id, evict_finished,
}
use qscheduler.Task
use qscheduler.Machine.{Machine, MachineConfig, F64, check_not_suspended, wake_launcher}
use qscheduler.Machine.Queue.{queue_task, queue_session}
use qscheduler.Machine.Removal.{running_session_id}
use qscheduler.Machine.Registry.{MachineMap, find_machine, set_machine, remove_machine}

pub record Core (U : Type 0) : Type 0 where
  pub machine_map : MachineMap U
  pub task_map : TaskMap
  pub session_map : SessionMap
  pub project_map : ProjectMap
  pub user_map : UserMap
  pub max_user_active_items : ℕ
  pub max_user_active_payload : ℕ
