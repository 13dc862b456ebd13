-- ===== src/Core/Restore.antt =====
-- runner/src/core.rs: `restore`, which rebuilds the state in memory from the rows of the unfinished
-- work (runner/src/db.rs). The rows that were loaded are arguments; `now` is the monotonic clock and
-- `utc` the time of day. `none` is a panic.
pub mod Kept
pub mod Known
pub mod Steps
pub mod SessionRows
pub mod TaskRows
pub mod Counted
use qscheduler.Base.{
  ℕ, ◌*◌, ◌%◌, String, Bool, true, false, not, Option, none, some, List, [], ◌∷◌, ◌++◌, ◌>>=◌, get,
  nat_eq, nat_key, str_eq, if◌then◌else◌,
}
use qscheduler.Error.{Result, ok, err, generic_error, restoration_failed}
use qscheduler.User.{UserMap, u64_mod, insert_user}
use qscheduler.Project.{Project, ProjectMap, nanos_per_milli, find_project, add_project}
use qscheduler.Suspension.{Suspension}
use qscheduler.Session.{Session, SessionConfig, SessionMap, insert_session, set_restored_closed}
use qscheduler.Session as Sessions
use qscheduler.Task.{
  Task, TaskConfig, TaskMap, TaskKind, TaskParent, circuit, pulse, running, parent_new, project_id,
  session_id, set_state, set_backend_id, set_started_at,
}
use qscheduler.Task as Tasks
use qscheduler.Machine.{Machine, F64, wake_launcher, set_suspension}
use qscheduler.Machine.Queue.{queue_task, queue_session}
use qscheduler.Machine.FairShare.{record_closed_session, record_new_task_in_backend}
use qscheduler.Machine.Registry.{MachineMap, find_machine, set_machine}
use qscheduler.Core.{Core}
use qscheduler.Core.Submit.{keep_active_session, keep_restored_task}
use qscheduler.Core.Rows.{
  RestoredSession, RestoredTask, ResumeTask, from_millis, or_else, is_none, try_id, try_ids,
  kind_from_db, session_config, task_config, session_of_row, started,
}

-- What has been restored so far: `resume_tasks` are by machine, `dead_sessions` have been open.
pub record Restored (U : Type 0) : Type 0 where
  pub core : Core U
  pub woken : List ℕ
  pub resume_tasks : List (ℕ × ResumeTask)
  pub dead_sessions : List (ℕ × ℕ)
  pub orphan_cancels : List ℕ

module _ {U : Type 0} where
  -- A machine that is known is changed.
  abbrev pub change_known : MachineMap U → ℕ → (Machine U → Machine U) → MachineMap U
  change_known machines machine_id change = elim (find_machine machines machine_id) [
    | err _ ↦ machines
    | ok machine ↦ set_machine machines machine_id (change machine)
  ]

  abbrev pub default_limit : Result (Machine U) → ℕ
  default_limit (err _) = 0
  default_limit (ok machine) = machine.config.default_task_time_limit

  abbrev pub limit_of_row : MachineMap U → RestoredTask → ℕ
  limit_of_row machines row = elim row.time_limit_ms [
    | some ms ↦ from_millis ms
    | none ↦ default_limit (find_machine machines row.machine_id)
  ]

  -- The machines and the ones to wake, after an attempt to queue.
  abbrev pub queued : MachineMap U → List ℕ → ℕ → Result (Machine U) → MachineMap U × List ℕ
  queued machines woken machine_id (err _) = (machines, woken)
  queued machines woken machine_id (ok machine) =
      (set_machine machines machine_id machine, woken ++ machine_id ∷ [])

  abbrev pub requeue :
      (Machine U → Result (Machine U)) → MachineMap U → List ℕ → ℕ → MachineMap U × List ℕ
  requeue queue machines woken machine_id = elim (find_machine machines machine_id) [
    | err _ ↦ (machines, woken)
    | ok machine ↦ queued machines woken machine_id (queue machine)
  ]

module _ {U : Type 0} ⦃f : F64 U⦄ where
  -- A session that has been open is closed.
  unfoldable pub restore_opened : ℕ → ℕ → Restored U → RestoredSession → Session → ℕ → Restored U
  restore_opened now utc r row session opened_at =
      let closed_at = or_else row.closed_at (or_else row.updated_at utc) in
      let machines =
        if is_none row.closed_at
        then change_known r.core.machine_map session.config.machine_id
            (λ m. record_closed_session m session.config.owner_id session.consumed)
        else r.core.machine_map in
      let (session', users) =
        set_restored_closed now session opened_at closed_at row.owner r.core.user_map in
      record r {
        core = record r.core {
          machine_map = machines;
          session_map = insert_session r.core.session_map session';
          user_map = users;
        };
        dead_sessions =
            if is_none row.closed_at
            then r.dead_sessions ++ (session.id, closed_at) ∷ []
            else r.dead_sessions;
      }

  -- A session that has not been opened waits again.
  unfoldable pub restore_waiting : ℕ → Restored U → RestoredSession → Session → Option (Restored U)
  restore_waiting now r row session = do
    let (machines, woken) =
        requeue (λ m. queue_session m session) r.core.machine_map r.woken session.config.machine_id
    (sessions, users) ←
        keep_active_session r.core.session_map
          (insert_user now r.core.user_map session.config.owner_id row.owner) session
    some (record r {
      core = record r.core { machine_map = machines; session_map = sessions; user_map = users };
      woken = woken;
    })

  unfoldable pub restore_session : ℕ → ℕ → Restored U → RestoredSession → Option (Restored U)
  restore_session now utc r row = if nat_eq row.id 0 then some r else elim (session_config row) [
    | none ↦ none
    | some config ↦ elim row.opened_at [
      | some opened_at ↦ some (restore_opened now utc r row (session_of_row row config) opened_at)
      | none ↦ restore_waiting now r row (session_of_row row config)
    ]
  ]

  -- The tasks to attach again, if the machine is known.
  abbrev pub resumed : MachineMap U → List (ℕ × ResumeTask) → ℕ → ResumeTask → List (ℕ × ResumeTask)
  resumed machines resume_tasks machine_id task = elim (find_machine machines machine_id) [
    | err _ ↦ resume_tasks
    | ok _ ↦ resume_tasks ++ (machine_id, task) ∷ []
  ]

  -- What has been restored with a submitted task, given the maps with the task.
  abbrev pub with_submitted :
      Restored U → RestoredTask → TaskConfig → String → TaskMap → UserMap → Restored U
  with_submitted r row config backend_id tasks users' = record r {
    core = record r.core {
      machine_map =
          change_known r.core.machine_map config.machine_id
            (λ m. record_new_task_in_backend m config);
      task_map = tasks;
      user_map = users';
    };
    resume_tasks = resumed r.core.machine_map r.resume_tasks config.machine_id (record {
      task_id = row.id;
      backend_id = backend_id;
      payload = config.payload;
      cancel = not (is_none (session_id config.parent));
      started_at = row.started_at;
      time_limit = config.time_limit;
      project_id = project_id config.parent;
    });
  }

  -- A task that is in the backend runs again.
  unfoldable pub restore_submitted :
      ℕ → Restored U → RestoredTask → TaskConfig → String → Option (Restored U)
  restore_submitted now r row config backend_id = do
    (task, users) ← set_state now (Tasks.new row.id row.created_at config) running r.core.user_map
    (tasks, users') ←
        keep_restored_task now r.core.task_map users row.user_name
          (started (set_backend_id task backend_id) row.started_at)
    some (with_submitted r row config backend_id tasks users')

  -- A task that is not in the backend waits again, unless its session is gone.
  unfoldable pub restore_queued : ℕ → Restored U → RestoredTask → TaskConfig → Option (Restored U)
  restore_queued now r row config = elim (session_id config.parent) [
    | some _ ↦ some (record r { orphan_cancels = r.orphan_cancels ++ row.id ∷ [] })
    | none ↦ do
      let task = Tasks.new row.id row.created_at config
      let (machines, woken) =
          requeue (λ m. queue_task m task) r.core.machine_map r.woken config.machine_id
      (tasks, users) ← keep_restored_task now r.core.task_map r.core.user_map row.user_name task
      some (record r {
        core = record r.core { machine_map = machines; task_map = tasks; user_map = users };
        woken = woken;
      })
  ]

  unfoldable pub restore_task : ℕ → Restored U → RestoredTask → Option (Restored U)
  restore_task now r row =
      if nat_eq row.id 0
      then some r
      else elim (task_config (limit_of_row r.core.machine_map row) row) [
        | none ↦ none
        | some config ↦ elim row.backend_id [
          | some backend_id ↦ restore_submitted now r row config backend_id
          | none ↦ restore_queued now r row config
        ]
      ]

  unfoldable pub restore_sessions : ℕ → ℕ → Restored U → List RestoredSession → Option (Restored U)
  restore_sessions now utc r [] = some r
  restore_sessions now utc r (row ∷ rows) = do
    r' ← restore_session now utc r row
    restore_sessions now utc r' rows

  unfoldable pub restore_tasks : ℕ → Restored U → List RestoredTask → Option (Restored U)
  restore_tasks now r [] = some r
  restore_tasks now r (row ∷ rows) = do r' ← restore_task now r row; restore_tasks now r' rows

-- The rows, and the projects that they name.
pub record Loaded : Type 0 where
  pub tasks : List RestoredTask
  pub sessions : List RestoredSession
  pub projects : List Project
  pub suspensions : List (ℕ × Suspension)

-- With `only`, the rows of that machine.
abbrev pub wanted : Option ℕ → ℕ → Bool
wanted none machine_id = true
wanted (some only) machine_id = nat_eq only machine_id

unfoldable pub wanted_tasks : Option ℕ → List RestoredTask → List RestoredTask
wanted_tasks only [] = []
wanted_tasks only (row ∷ rows) =
    if wanted only row.machine_id then row ∷ wanted_tasks only rows else wanted_tasks only rows

unfoldable pub wanted_sessions : Option ℕ → List RestoredSession → List RestoredSession
wanted_sessions only [] = []
wanted_sessions only (row ∷ rows) =
    if wanted only row.machine_id
    then row ∷ wanted_sessions only rows
    else wanted_sessions only rows

-- A project already in memory stays as it is.
unfoldable pub restore_projects : ProjectMap → List Project → ProjectMap
restore_projects cache [] = cache
restore_projects cache (project ∷ projects) =
    restore_projects
      (elim (find_project cache project.id) [ some _ ↦ cache | none ↦ add_project cache project ])
      projects

module _ {U : Type 0} where
  unfoldable pub restore_suspensions :
      Option ℕ → MachineMap U → List (ℕ × Suspension) → MachineMap U
  restore_suspensions only machines [] = machines
  restore_suspensions only machines ((machine_id, suspension) ∷ suspensions) =
      restore_suspensions only
        (if wanted only machine_id
          then change_known machines machine_id (λ m. set_suspension m (some suspension))
          else machines)
        suspensions

  unfoldable pub wake_all : MachineMap U → List ℕ → MachineMap U
  wake_all machines [] = machines
  wake_all machines (machine_id ∷ woken) =
      wake_all (change_known machines machine_id wake_launcher) woken

  abbrev pub starting : Option ℕ → Core U → Loaded → Restored U
  starting only c loaded = record {
    core = record c {
      project_map = restore_projects c.project_map loaded.projects;
      machine_map = restore_suspensions only c.machine_map loaded.suspensions;
    };
    woken = [];
    resume_tasks = [];
    dead_sessions = [];
    orphan_cancels = [];
  }

  abbrev pub woken_up : Restored U → Restored U
  woken_up r = record r {
    core = record r.core { machine_map = wake_all r.core.machine_map r.woken };
  }

module _ {U : Type 0} ⦃f : F64 U⦄ where
  unfoldable pub restore_rows : ℕ → ℕ → Option ℕ → Core U → Loaded → Option (Restored U)
  restore_rows now utc only c loaded = do
    r ← restore_sessions now utc (starting only c loaded) (wanted_sessions only loaded.sessions)
    r' ← restore_tasks now r (wanted_tasks only loaded.tasks)
    some (woken_up r')

  abbrev pub answered : Option (Restored U) → Option (Result (Restored U))
  answered none = none
  answered (some r) = some (ok r)

  -- A failure to load any of the rows ends the restoration.
  unfoldable pub restore : ℕ → ℕ → Option ℕ → Core U → Result Loaded → Option (Result (Restored U))
  restore now utc only c (err _) = some (err (generic_error restoration_failed))
  restore now utc only c (ok loaded) = answered (restore_rows now utc only c loaded)
