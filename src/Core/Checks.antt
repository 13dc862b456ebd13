-- ===== src/Core/Checks.antt =====
-- runner/src/core.rs: what is checked before work is accepted.
use qscheduler.Base.{
  ℕ, ◌+◌, ◌-◌, String, Bool, true, false, not, ◌&&◌, Option, none, some, length, min, ltb, leb,
  nat_eq, if◌then◌else◌, nat_key,
}
use qscheduler.Error.{
  Result, ok, err, ◌>>=◌, ◌>>◌, session_duration_exceeds_limit, project_not_found, of_id,
  project_not_active, project_limit_exceeded, pulse_access_denied, non_running_session,
  user_payload_limit_exceeded, user_active_item_limit_exceeded,
}
use qscheduler.User.{User, u64_mod, find_user, find_by_name}
use qscheduler.Project.{Project, find_project, has_time_for, is_over_limit}
use qscheduler.Session.{SessionConfig}
use qscheduler.Task.{TaskConfig, TaskKind, circuit, pulse, session_id, project_id}
use qscheduler.Machine.{Machine, MachineConfig, check_not_suspended}
use qscheduler.Machine.Removal.{running_session_id}
use qscheduler.Machine.Registry.{find_machine}
use qscheduler.Core.{Core}

abbrev pub active_bytes : Option User → ℕ
active_bytes none = 0
active_bytes (some u) = u.active_payload_bytes

abbrev pub is_at_limit : ℕ → Option User → Bool
is_at_limit limit none = false
is_at_limit limit (some u) = leb limit u.active_items

-- `u64::saturating_add`.
abbrev pub saturating_add : ℕ → ℕ → ℕ
saturating_add a b = min (a + b) (u64_mod - 1)

abbrev pub is_pulse : TaskKind → Bool
is_pulse circuit = false
is_pulse pulse = true

abbrev pub check_duration : MachineConfig → ℕ → Result (Unit {0})
check_duration config time_limit =
    if ltb config.max_session_time time_limit
    then err (session_duration_exceeds_limit config.name config.max_session_time time_limit)
    else ok tt

abbrev pub check_project_time : Option Project → ℕ → ℕ → Result (Unit {0})
check_project_time none id time_limit = err (project_not_found (of_id id))
check_project_time (some p) id time_limit =
    if not p.active
    then err (project_not_active p.name)
    else if not (has_time_for p time_limit)
    then err (project_limit_exceeded p.name)
    else ok tt

abbrev pub is_running : Option ℕ → ℕ → Bool
is_running none s_id = false
is_running (some id) s_id = nat_eq id s_id

abbrev pub check_project : Option Project → Result (Unit {0})
check_project none = ok tt
check_project (some p) =
    if not p.active
    then err (project_not_active p.name)
    else if is_over_limit p
    then err (project_limit_exceeded p.name)
    else ok tt

module _ {U : Type 0} where
  unfoldable pub check_item_limit : Core U → String → Option User → Result (Unit {0})
  check_item_limit c name user =
      if is_at_limit c.max_user_active_items user
      then err (user_active_item_limit_exceeded name c.max_user_active_items)
      else ok tt

  unfoldable pub check_limits_of : Core U → String → Option User → ℕ → Result (Unit {0})
  check_limits_of c name user payload_size =
      let active = active_bytes user in
      if ltb c.max_user_active_payload (saturating_add active payload_size)
      then err (user_payload_limit_exceeded name payload_size active c.max_user_active_payload)
      else check_item_limit c name user

  unfoldable pub check_user_limits : Core U → ℕ → ℕ → Result (Unit {0})
  check_user_limits c user_id payload_size = elim (find_user c.user_map user_id) [
    | none ↦ ok tt
    | some user ↦ check_limits_of c user.name (some user) payload_size
  ]

  unfoldable pub check_user_upload : Core U → String → ℕ → Result (Unit {0})
  check_user_upload c name payload_size =
      check_limits_of c name (find_by_name c.user_map name) payload_size

  unfoldable pub check_session_owner_limit : Core U → ℕ → Result (Unit {0})
  check_session_owner_limit c owner_id = elim (find_user c.user_map owner_id) [
    | none ↦ ok tt
    | some user ↦ check_item_limit c user.name (some user)
  ]

  unfoldable pub check_session_params : Core U → ℕ → ℕ → ℕ → Result (Unit {0})
  check_session_params c machine_id project time_limit = do
    machine ← find_machine c.machine_map machine_id
    check_not_suspended machine
    check_duration machine.config time_limit
    check_project_time (find_project c.project_map project) project time_limit

  unfoldable pub validate_session_config : Core U → SessionConfig → Result (Unit {0})
  validate_session_config c config = do
    check_session_params c config.machine_id config.project_id config.time_limit
    check_session_owner_limit c config.owner_id

  unfoldable pub check_new_session : Core U → String → ℕ → ℕ → ℕ → Result (Unit {0})
  check_new_session c owner machine_id project time_limit = do
    check_session_params c machine_id project time_limit
    check_item_limit c owner (find_by_name c.user_map owner)

  abbrev pub check_pulse : Machine U → TaskKind → Result (Unit {0})
  check_pulse machine kind =
      if is_pulse kind && not machine.config.pulse_access
      then err (pulse_access_denied machine.config.name)
      else ok tt

  abbrev pub check_session : Machine U → Option ℕ → Result (Unit {0})
  check_session machine none = ok tt
  check_session machine (some s_id) =
      if is_running (running_session_id machine) s_id then ok tt else err (non_running_session s_id)

  -- The project of a task that has one, if it is in memory.
  abbrev pub project_of : Core U → TaskConfig → Option Project
  project_of c config = elim (project_id config.parent) [
    | none ↦ none
    | some id ↦ find_project c.project_map id
  ]

  unfoldable pub validate_task_config : Core U → TaskConfig → Result (Unit {0})
  validate_task_config c config = do
    machine ← find_machine c.machine_map config.machine_id
    check_not_suspended machine
    check_pulse machine config.kind
    check_session machine (session_id config.parent)
    check_project (project_of c config)
    check_user_limits c config.user_id (length config.payload)
