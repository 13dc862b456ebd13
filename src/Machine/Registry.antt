-- ===== src/Machine/Registry.antt =====
-- runner/src/machine.rs: `MachineMap`, the machines by id and by name.
use qscheduler.Base.{ℕ, String, Option, none, some, Map, get, insert, remove, nat_key, string_key}
use qscheduler.Error.{Result, ok, err, invalid_machine_id, invalid_machine_name}
use qscheduler.Machine.{Machine}

pub record MachineMap (U : Type 0) : Type 0 where
  pub machines : Map ℕ (Machine U)
  pub machines_by_name : Map String ℕ

module _ {U : Type 0} where
  unfoldable pub find_machine : MachineMap U → ℕ → Result (Machine U)
  find_machine m machine_id = elim (get machine_id m.machines) [
    | none ↦ err (invalid_machine_id machine_id)
    | some machine ↦ ok machine
  ]

  unfoldable pub insert_machine : MachineMap U → Machine U → MachineMap U
  insert_machine m machine = record {
    machines = insert machine.machine_id machine m.machines;
    machines_by_name = insert machine.config.name machine.machine_id m.machines_by_name;
  }

  -- The map without the machine, and the machine if it was there.
  unfoldable pub remove_machine : MachineMap U → ℕ → MachineMap U × Option (Machine U)
  remove_machine m machine_id = elim (get machine_id m.machines) [
    | none ↦ (m, none)
    | some machine ↦ (
      record {
        machines = remove machine_id m.machines;
        machines_by_name = remove machine.config.name m.machines_by_name;
      },
      some machine,
    )
  ]

  unfoldable pub find_machine_by_name : MachineMap U → String → Result ℕ
  find_machine_by_name m name = elim (get name m.machines_by_name) [
    | none ↦ err (invalid_machine_name name)
    | some machine_id ↦ ok machine_id
  ]

  -- Writing back a machine got by `get_machine_mut` or `find_machine_mut`.
  unfoldable pub set_machine : MachineMap U → ℕ → Machine U → MachineMap U
  set_machine m machine_id machine = record m { machines = insert machine_id machine m.machines }
