-- ===== src/Core/Purge.antt =====
-- runner/src/core.rs: `purge_machine`, which takes a machine out of memory together with its tasks
-- and sessions. What the closures of the two `retain` calls do to the users is a walk of its own.
pub mod Counted
use qscheduler.Base.{
  ℕ, Bool, true, false, not, Option, none, some, List, [], ◌∷◌, Map, length, retain, nat_eq,
  if◌then◌else◌, ◌>>=◌,
}
use qscheduler.User.{UserMap, task_deactivated, session_deactivated}
use qscheduler.Session.{Session, SessionMap, is_closed}
use qscheduler.Task.{Task, TaskMap, is_final}
use qscheduler.Machine.{Machine}
use qscheduler.Machine.Registry.{remove_machine}
use qscheduler.Core.{Core}

abbrev pub release_task : ℕ → Task → UserMap → Option UserMap
release_task now t users =
    if is_final t.state
    then some users
    else task_deactivated now users t.config.user_id (length t.config.payload)

abbrev pub release_session : ℕ → Session → UserMap → Option UserMap
release_session now s users =
    if is_closed s.state then some users else session_deactivated now users s.config.owner_id

-- The users after every task that is not kept has been uncounted.
unfoldable pub release_tasks : ℕ → (Task → Bool) → TaskMap → UserMap → Option UserMap
release_tasks now keep [] users = some users
release_tasks now keep ((_, t) ∷ tasks) users = do
  users' ← if keep t then some users else release_task now t users
  release_tasks now keep tasks users'

unfoldable pub release_sessions : ℕ → (Session → Bool) → SessionMap → UserMap → Option UserMap
release_sessions now keep [] users = some users
release_sessions now keep ((_, s) ∷ sessions) users = do
  users' ← if keep s then some users else release_session now s users
  release_sessions now keep sessions users'

abbrev pub is_elsewhere : ℕ → Task → Bool
is_elsewhere machine_id t = not (nat_eq t.config.machine_id machine_id)

abbrev pub is_session_elsewhere : ℕ → Session → Bool
is_session_elsewhere machine_id s = not (nat_eq s.config.machine_id machine_id)

-- The core without the machine, and the machine if it was there; `none` is a panic.
unfoldable pub purge_machine : {U : Type 0} → ℕ → Core U → ℕ → Option (Core U × Option (Machine U))
purge_machine now c machine_id = do
  users ← release_tasks now (is_elsewhere machine_id) c.task_map c.user_map
  users' ← release_sessions now (is_session_elsewhere machine_id) c.session_map users
  let (machines, machine) = remove_machine c.machine_map machine_id
  some (
    record c {
      machine_map = machines;
      task_map = retain (is_elsewhere machine_id) c.task_map;
      session_map = retain (is_session_elsewhere machine_id) c.session_map;
      user_map = users';
    },
    machine,
  )
