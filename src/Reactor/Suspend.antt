-- ===== src/Reactor/Suspend.antt =====
-- runner/src/reactor.rs: suspending and resuming a machine. `none` is a panic.
pub mod InStep
use Prim.Native.String.{count, ◌++◌}
use qscheduler.Base.{
  ℕ, String, Bool, true, false, Option, none, some, get, ltb, if◌then◌else◌, is_blank, nat_key,
}
use qscheduler.Error.{
  Result, ok, err, ◌>>=◌, ◌>>◌, invalid_suspension_message, must_not_be_empty, too_many_characters,
  machine_already_suspended, machine_not_suspended,
}
use qscheduler.Suspension.{SuspendCancel, Suspension}
use qscheduler.Suspension as Suspensions
use qscheduler.Machine.{Machine, set_suspension, request_suspend_cancel, wake_launcher}
use qscheduler.Machine.Registry.{find_machine, set_machine}
use qscheduler.Core.{Core}
use qscheduler.Db.{Db, Access, insert_suspension, end_suspension}

-- runner/src/suspension.rs.
abbrev pub max_suspension_message_len : ℕ
max_suspension_message_len = 512

unfoldable pub suspension_task_error : String → String
suspension_task_error message = "Machine suspended: " ++ message

unfoldable pub check_message : String → Result (Unit {0})
check_message message =
    if is_blank message
    then err (invalid_suspension_message must_not_be_empty)
    else if ltb max_suspension_message_len (count message)
    then err (
        invalid_suspension_message (too_many_characters (count message) max_suspension_message_len))
    else ok tt

-- The policy `none` leaves existing work alone.
abbrev pub keeps_work : SuspendCancel → Bool
keeps_work Suspensions.none = true
keeps_work Suspensions.waiting = false
keeps_work Suspensions.all = false

module _ {U : Type 0} where
  abbrev pub check_unsuspended : Machine U → Result String
  check_unsuspended machine = elim machine.suspension [
    | some _ ↦ err (machine_already_suspended machine.config.name)
    | none ↦ ok machine.config.name
  ]

  -- What is done up to the answer of the database.
  unfoldable pub suspend_begin :
      Access → ℕ → Core U → Db → ℕ → String → SuspendCancel → Result (Db × Suspension)
  suspend_begin access now c db machine_id message cancel = do
    check_message message
    machine ← find_machine c.machine_map machine_id
    name ← check_unsuspended machine
    insert_suspension access now db machine_id name message cancel

  unfoldable pub suspended : Machine U → Suspension → SuspendCancel → String → Machine U
  suspended machine suspension cancel message =
      let m = set_suspension machine (some suspension) in
      if keeps_work cancel
      then m
      else wake_launcher (request_suspend_cancel m cancel (suspension_task_error message))

  -- `begin` and `end` are the core at the first lock after the suspension lock is taken and at the
  -- last.
  unfoldable pub suspend_machine :
      Access
      → ℕ
      → (begin end : Core U) → Db
      → ℕ
      → String
      → SuspendCancel
      → Option (Core U × Db × Result Suspension)
  suspend_machine access now begin end db machine_id message cancel =
      elim (suspend_begin access now begin db machine_id message cancel) [
        | err e ↦ some (end, db, err e)
        | ok (db', suspension) ↦ elim (get machine_id end.machine_map.machines) [
          | none ↦ none
          | some machine ↦ some (
            record end {
              machine_map =
                  set_machine end.machine_map machine_id
                    (suspended machine suspension cancel message);
            },
            db',
            ok suspension,
          )
        ]
      ]

  unfoldable pub resume_machine :
      Access → ℕ → (begin end : Core U) → Db → ℕ → Option (Core U × Db × Result Suspension)
  resume_machine access now begin end db machine_id =
      elim (find_machine begin.machine_map machine_id) [
        | err e ↦ some (end, db, err e)
        | ok named ↦ elim (end_suspension access now db machine_id) [
          | err e ↦ some (end, db, err e)
          | ok (db', none) ↦ some (end, db', err (machine_not_suspended named.config.name))
          | ok (db', some suspension) ↦ elim (get machine_id end.machine_map.machines) [
            | none ↦ none
            | some machine ↦ some (
              record end {
                machine_map = set_machine end.machine_map machine_id (set_suspension machine none);
              },
              db',
              ok suspension,
            )
          ]
        ]
      ]
