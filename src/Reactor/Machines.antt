-- ===== src/Reactor/Machines.antt =====
-- runner/src/reactor.rs: adding, updating and removing machines, one of which runs at a time
-- (`admin_lock`). A request waits more than once without the lock of the core: `others` is what
-- other requests and the launchers do to the core at each wait. What the launchers still write while
-- they stop, and the loading of rows, are inputs. `none` is a panic.
pub mod Removal
pub mod Restarted
pub mod Marked
pub mod Removed
pub mod Updated
use qscheduler.Base.{
  ℕ, String, Bool, true, false, not, Option, none, some, List, [], ◌∷◌, ◌&&◌, ◌||◌, Map, get,
  insert, remove, ltb, nat_eq, nat_key, string_key, if◌then◌else◌, ◌>>=◌,
}
use qscheduler.Error.{
  RunnerError, Result, ok, err, machine_already_exists, invalid_machine_name,
  machine_has_dependents,
}
use qscheduler.Task.{Task, TaskMap, is_final}
use qscheduler.Machine.{Machine, F64, new, set_unavailable, inherit_cancel_requests}
use qscheduler.Machine.FairShare.{inherit_usage}
use qscheduler.Machine.Registry.{
  MachineMap, find_machine, find_machine_by_name, insert_machine, set_machine,
}
use qscheduler.Config.{
  MachineConfiguration, BackendConfig, Serde, validate, machine_config, to_configuration,
}
use qscheduler.Core.{Core}
use qscheduler.Core.Purge.{purge_machine}
use qscheduler.Core.Rows.{ResumeTask}
use qscheduler.Core.Restore.{Restored, Loaded, restore}
use qscheduler.Db.{Db, Access}
use qscheduler.Db.Machines.{count_machine_dependents, RemoveMachineOutcome}
use qscheduler.Db.Machines as Statements

-- The core with its launchers, each by the tasks that it was started with.
pub record Service (U : Type 0) : Type 0 where
  pub core : Core U
  pub launchers : Map ℕ (List ResumeTask)

-- What others do at the four waits of an update or a removal: for the statement, for the launcher,
-- and within the restart.
pub record Others (U : Type 0) : Type 0 where
  pub at_statement : Service U → Service U
  pub at_stop : Service U → Service U
  pub loading : Service U → Service U
  pub writing : Service U → Service U

unfoldable pub tasks_of : ℕ → List (ℕ × ResumeTask) → List ResumeTask
tasks_of machine_id [] = []
tasks_of machine_id ((id, task) ∷ tasks) =
    if nat_eq id machine_id then task ∷ tasks_of machine_id tasks else tasks_of machine_id tasks

module _ {U : Type 0} where
  unfoldable pub start_launcher : Service U → ℕ → List ResumeTask → Service U
  start_launcher s machine_id tasks = record s { launchers = insert machine_id tasks s.launchers }

  unfoldable pub stop_launcher : Service U → ℕ → Service U
  stop_launcher s machine_id = record s { launchers = remove machine_id s.launchers }

  abbrev pub with_core : Service U → Core U → Service U
  with_core s c = record s { core = c }

  abbrev pub with_machines : Core U → MachineMap U → Core U
  with_machines c machines = record c { machine_map = machines }

  -- `get_machine_mut`; `none` is its panic.
  abbrev pub change : Service U → ℕ → (Machine U → Machine U) → Option (Service U)
  change s machine_id f = do
    machine ← get machine_id s.core.machine_map.machines
    some
        (with_core s (with_machines s.core (set_machine s.core.machine_map machine_id (f machine))))

  abbrev pub marked : ℕ → Option (Service U) → Option (Result (Service U × ℕ))
  marked machine_id none = none
  marked machine_id (some s) = some (ok (s, machine_id))

  unfoldable pub set_machine_unavailable : Service U → String → Option (Result (Service U × ℕ))
  set_machine_unavailable s name = elim (find_machine_by_name s.core.machine_map name) [
    | err e ↦ some (err e)
    | ok machine_id ↦ marked machine_id (change s machine_id (λ m. set_unavailable m true))
  ]

  unfoldable pub set_machine_available : Service U → ℕ → Service U
  set_machine_available s machine_id = elim (find_machine s.core.machine_map machine_id) [
    | err _ ↦ s
    | ok machine ↦ with_core s (
        with_machines s.core
          (set_machine s.core.machine_map machine_id (set_unavailable machine false)))
  ]

  -- `Core::insert_machine`.
  unfoldable pub create_machine : ℕ → Core U → ℕ → MachineConfiguration → Core U
  create_machine now c machine_id config =
      with_machines c (insert_machine c.machine_map (new now machine_id (machine_config config)))

  unfoldable pub get_machine_info : Core U → ℕ → Result (Machine U)
  get_machine_info c machine_id = find_machine c.machine_map machine_id

  abbrev pub is_taken : Service U → String → Bool
  is_taken s name = elim (find_machine_by_name s.core.machine_map name) [
    | err _ ↦ false
    | ok _ ↦ true
  ]

  unfoldable pub add_machine :
      Serde
      → Access
      → ℕ
      → (Service U → Service U)
      → Service U
      → Db
      → MachineConfiguration
      → Service U × Db × Result (Machine U)
  add_machine serde access now others s db config = elim (validate config) [
    | err e ↦ (s, db, err e)
    | ok _ ↦
        if is_taken s config.name
        then (s, db, err (machine_already_exists config.name))
        else elim (Statements.insert_machine serde access db config) [
          | err e ↦ (others s, db, err e)
          | ok (db', machine_id) ↦
              let s' = others s in
              let c = create_machine now s'.core machine_id config in
              (start_launcher (with_core s' c) machine_id [], db', get_machine_info c machine_id)
        ]
  ]

module _ {U : Type 0} ⦃f : F64 U⦄ where
  -- The fresh machine, with what it takes over from the old one.
  abbrev pub inheriting : ℕ → Machine U → Option (Machine U) → Machine U
  inheriting now machine none = set_unavailable machine true
  inheriting now machine (some old) =
      let (m, old') = inherit_cancel_requests (set_unavailable machine true) old in
      (inherit_usage now m old').0

  -- What is done under the first lock of a restart.
  unfoldable pub rebuild : ℕ → Service U → ℕ → MachineConfiguration → Option (Service U)
  rebuild now s machine_id config = do
    (purged, old) ← purge_machine now s.core machine_id
    change (with_core s (create_machine now purged machine_id config)) machine_id
        (λ m. inheriting now m old)

  -- What is done under the last lock, with the tasks to attach again.
  unfoldable pub relaunch : Service U → ℕ → List (ℕ × ResumeTask) → Option (Service U)
  relaunch s machine_id resume_tasks = do
    s' ← change s machine_id (λ m. set_unavailable m false)
    some (start_launcher s' machine_id (tasks_of machine_id resume_tasks))

  abbrev pub launched : Option (Service U) → Option (Service U × Result (Unit {0}))
  launched none = none
  launched (some s) = some (s, ok tt)

  abbrev pub restored :
      (Service U → Service U)
      → Service U
      → ℕ
      → Option (Result (Restored U))
      → Option (Service U × Result (Unit {0}))
  restored others s machine_id none = none
  restored others s machine_id (some (err e)) = some (s, err e)
  restored others s machine_id (some (ok r)) =
      launched (relaunch (others (with_core s r.core)) machine_id r.resume_tasks)

  -- `loading` is what others do while the rows are loaded, `writing` while the ends of sessions are
  -- written.
  unfoldable pub restart_machine :
      ℕ
      → ℕ
      → (loading writing : Service U → Service U) → Result Loaded
      → Service U
      → ℕ
      → MachineConfiguration
      → Option (Service U × Result (Unit {0}))
  restart_machine now utc loading writing loaded s machine_id config = do
    rebuilt ← rebuild now s machine_id config
    let s' = loading rebuilt
    restored writing s' machine_id (restore now utc (some machine_id) s'.core loaded)

  abbrev pub informed :
      ℕ → Option (Service U × Result (Unit {0})) → Option (Service U × Result (Machine U))
  informed machine_id none = none
  informed machine_id (some (s, err e)) = some (s, err e)
  informed machine_id (some (s, ok _)) = some (s, get_machine_info s.core machine_id)

  abbrev pub with_db :
      {A : Type 0} → Db → Option (Service U × Result A) → Option (Service U × Db × Result A)
  with_db db none = none
  with_db db (some (s, r)) = some (s, db, r)

  unfoldable pub update_marked :
      Serde
      → Access
      → ℕ
      → ℕ
      → Others U
      → Result Loaded
      → Service U
      → ℕ
      → Db
      → MachineConfiguration
      → Option (Service U × Db × Result (Machine U))
  update_marked serde access now utc others loaded s machine_id db config =
      elim (Statements.update_machine serde access db config) [
        | err e ↦ some (set_machine_available (others.at_statement s) machine_id, db, err e)
        | ok (db', false) ↦ some (
          set_machine_available (others.at_statement s) machine_id,
          db',
          err (invalid_machine_name config.name),
        )
        | ok (db', true) ↦
            let stopped = others.at_stop (stop_launcher (others.at_statement s) machine_id) in
            with_db db' (
              informed machine_id (
                restart_machine now utc others.loading others.writing loaded stopped machine_id
                  config))
      ]

  unfoldable pub update_machine :
      Serde
      → Access
      → ℕ
      → ℕ
      → Others U
      → Result Loaded
      → Service U
      → Db
      → MachineConfiguration
      → Option (Service U × Db × Result (Machine U))
  update_machine serde access now utc others loaded s db config = elim (validate config) [
    | err e ↦ some (s, db, err e)
    | ok _ ↦ elim (set_machine_unavailable s config.name) [
      | none ↦ none
      | some (err e) ↦ some (s, db, err e)
      | some (ok (s', machine_id)) ↦
          update_marked serde access now utc others loaded s' machine_id db config
    ]
  ]
