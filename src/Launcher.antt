-- ===== src/Launcher.antt =====
-- runner/src/launcher.rs: the launcher of one machine. `State` is what its loop reads and writes
-- under the lock: the core, its own variables, and what it asks of the database, of the backend
-- and of the notifiers, in order. `Clock` is the time at which an event is handled.
pub mod Estimate
pub mod Check
pub mod Close
pub mod Fail
pub mod Message
pub mod Requests
pub mod Loop
use qscheduler.Base.{
  ℕ, String, Bool, Option, none, some, List, [], ◌∷◌, ◌++◌, Map, get, insert, nat_key, ◌>>=◌,
}
use qscheduler.User.{get_user}
use qscheduler.Session.{Session, SessionState}
use qscheduler.Task.{Task, TaskState, CompletedState, TaskKind, set_state}
use qscheduler.Machine.{Machine}
use qscheduler.Machine.Registry.{set_machine}
use qscheduler.Core.{Core}

pub record Clock : Type 0 where
  pub instant : ℕ
  pub utc : ℕ

pub record RunningSession : Type 0 where
  pub session_id : ℕ
  pub project_id : ℕ
  pub deadline : ℕ
  pub opened_at : ℕ
  pub exec_time : ℕ

pub record RunningTask : Type 0 where
  pub elapsed : ℕ
  pub elapsed_at : ℕ
  pub time_limit : ℕ
  pub project_id : Option ℕ
  pub charged : ℕ

pub data DbUpdate : Type 0 where
  task_submitted : ℕ → String → DbUpdate
  task_started : ℕ → ℕ → DbUpdate
  task_finished : ℕ → CompletedState → DbUpdate
  task_failed : ℕ → CompletedState → String → DbUpdate
  task_cancelled : ℕ → CompletedState → DbUpdate
  session_opened : ℕ → ℕ → DbUpdate
  session_closed : ℕ → ℕ → ℕ → List ℕ → DbUpdate
  session_exec_time : ℕ → ℕ → DbUpdate

-- The calls of the backend.
pub data Request : Type 0 where
  cancel_task : ℕ → String → Request
  submit_task : ℕ → TaskKind → List ℕ → Request

-- A notification: the notifier, the task or session, and its state.
pub data NotifyEvent : Type 0 where
  task_event : ℕ → ℕ → TaskState → NotifyEvent
  session_event : ℕ → ℕ → SessionState → NotifyEvent

-- `notifiers` has the names of the registered notifiers. `submitted_tasks` tells of each task
-- handed to the backend whether it is being cancelled.
pub record State (U : Type 0) : Type 0 where
  pub core : Core U
  pub machine_id : ℕ
  pub queue_size : ℕ
  pub max_clock_skew : ℕ
  pub shutting_down : Bool
  pub notifiers : Map ℕ String
  pub running_session : Option RunningSession
  pub submitted_tasks : Map ℕ Bool
  pub running_tasks : Map ℕ RunningTask
  pub fail_reasons : Map ℕ String
  pub db_updates : List DbUpdate
  pub requests : List Request
  pub events : List NotifyEvent

abbrev pub task_time_limit_error : String
task_time_limit_error = "Task time limit exceeded"

abbrev pub project_limit_error : String
project_limit_error = "Project time limit exceeded"

module _ {U : Type 0} where
  abbrev pub tell_db : State U → DbUpdate → State U
  tell_db st update = record st { db_updates = st.db_updates ++ update ∷ [] }

  abbrev pub ask : State U → Request → State U
  ask st request = record st { requests = st.requests ++ request ∷ [] }

  abbrev pub tell : State U → NotifyEvent → State U
  tell st event = record st { events = st.events ++ event ∷ [] }

  -- `get_machine_mut` of the launcher's machine, and writing it back.
  abbrev pub get_machine : State U → Option (Machine U)
  get_machine st = get st.machine_id st.core.machine_map.machines

  abbrev pub put_machine : State U → Machine U → State U
  put_machine st machine = record st {
    core = record st.core { machine_map = set_machine st.core.machine_map st.machine_id machine };
  }

  abbrev pub put_session : State U → ℕ → Session → State U
  put_session st id s = record st {
    core = record st.core { session_map = insert id s st.core.session_map };
  }

  abbrev pub put_task : State U → ℕ → Task → State U
  put_task st id t = record st { core = record st.core { task_map = insert id t st.core.task_map } }

  abbrev pub notifier_of : State U → Option ℕ → Option (ℕ × String)
  notifier_of st none = none
  notifier_of st (some id) = elim (get id st.notifiers) [
    | none ↦ none
    | some name ↦ some (id, name)
  ]

  -- The event of a task in a state that may be about to be applied. Its user must be loaded.
  unfoldable pub notify_task : State U → Task → TaskState → Option (State U)
  notify_task st t state = elim (notifier_of st t.config.notifier) [
    | none ↦ some st
    | some (notifier, _) ↦ do
      user ← get_user st.core.user_map t.config.user_id
      some (tell st (task_event notifier t.id state))
  ]

  unfoldable pub notify_session : State U → Session → Option (State U)
  notify_session st s = elim (notifier_of st s.config.notifier) [
    | none ↦ some st
    | some (notifier, _) ↦ do
      owner ← get_user st.core.user_map s.config.owner_id
      some (tell st (session_event notifier s.id s.state))
  ]

  -- `get_task_mut` and `set_state`: the task as it is then, in the new state of the launcher.
  unfoldable pub set_task_state : ℕ → State U → ℕ → TaskState → Option (State U × Task)
  set_task_state now st id state = do
    t ← get id st.core.task_map
    (t', users) ← set_state now t state st.core.user_map
    some (
      record st {
        core = record st.core { task_map = insert id t' st.core.task_map; user_map = users };
      },
      t',
    )

  -- What is done for each of a list, in order.
  unfoldable pub each :
      {A : Type 0} → (State U → A → Option (State U)) → List A → State U → Option (State U)
  each step [] st = some st
  each step (a ∷ rest) st = do st' ← step st a; each step rest st'
