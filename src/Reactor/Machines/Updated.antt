-- ===== src/Reactor/Machines/Updated.antt =====
-- What updating a machine leaves (runner/src/reactor.rs, runner/src/db.rs).
use qscheduler.Base.{◌≡◌, some, get, nat_key, string_key, str_eq, String, if◌then◌else◌}
use qscheduler.Machine.{Machine}
use qscheduler.Config.{MachineConfiguration, Serde, to_stored}
use qscheduler.Db.{Db, MachineRow}
use qscheduler.Db.Machines as Statements

-- The table with the machine's new configuration; its other rows are as they were.
pub record IsStored (serde : Serde) (config : MachineConfiguration) (row : MachineRow) (db db' : Db)
    : Type 0 where
  pub rows :
      (name : String)
      → get name db'.machines ≡ (
          if str_eq config.name name
          then some (record row { stored = to_stored serde config })
          else get name db.machines)
  pub tasks : db'.tasks ≡ db.tasks
  pub sessions : db'.sessions ≡ db.sessions
