-- ===== src/Reactor/Infos.antt =====
-- runner/src/reactor.rs: looking up tasks and sessions, in memory first and else in the database.
-- `none` is a panic. What a backend returns is not modelled: a request for a result or an artifact
-- is the machine and the job that its backend is asked for.
pub mod Evicted
use qscheduler.Base.{
  ℕ, String, Option, none, some, List, [], ◌∷◌, get, nat_key, ◌&&◌, ◌||◌, Bool, false, str_eq,
  if◌then◌else◌,
}
use qscheduler.Error.{Result, ok, err, ◌>>=◌, invalid_task, task_not_submitted, unknown_artifact}
use qscheduler.Machine.{Machine, MachineConfig}
use qscheduler.Machine.Registry.{find_machine, find_machine_by_name}
use qscheduler.Callback.{NotifierMap, find_notifier_by_name}
use qscheduler.Core.{Core}
use qscheduler.Core.Infos.{TaskInfo, SessionInfo, task_info, session_info, task_backend_ref}
use qscheduler.Db.{Db, Access}
use qscheduler.Db.Infos.{find_task_info, find_session_info, find_task_backend_ref}

-- What was found in memory, or else the answer of the database.
abbrev pub or_database : {A : Type 0} → Result (Option A) → Option A → Result (Option A)
or_database answer none = answer
or_database answer (some info) = ok (some info)

abbrev pub looked_up :
    {A : Type 0} → Result (Option A) → Option (Option A) → Option (Result (Option A))
looked_up answer none = none
looked_up answer (some found) = some (or_database answer found)

abbrev pub or_error : {A : Type 0} → Option A → Result A → Result A
or_error none failure = failure
or_error (some a) failure = ok a

-- runner/src/core.rs: the artifacts that are served.
abbrev pub qc_artifacts : List String
qc_artifacts =
    "settings" ∷ "chip-design-records" ∷ "channel-properties" ∷ "static-quantum-architectures"
    ∷ "duts" ∷ []

abbrev pub is_among : String → List String → Bool
is_among name [] = false
is_among name (n ∷ names) = str_eq n name || is_among name names

abbrev pub stored_ref : Access → Db → ℕ → Result (ℕ × Option String)
stored_ref access db id = do
  row ← find_task_backend_ref access db id
  or_error row (err (invalid_task id))

module _ {U : Type 0} where
  unfoldable pub get_task_info :
      Access → Core U → NotifierMap → Db → ℕ → Option (Result (Option TaskInfo))
  get_task_info access c notifiers db id =
      looked_up (find_task_info access db id) (task_info c notifiers id)

  unfoldable pub get_session_info :
      Access → Core U → NotifierMap → Db → ℕ → Option (Result (Option SessionInfo))
  get_session_info access c notifiers db id =
      looked_up (find_session_info access db id) (session_info c notifiers id)

  abbrev pub backend_ref : Access → Core U → Db → ℕ → Result (ℕ × Option String)
  backend_ref access c db id = elim (task_backend_ref c id) [
    | some ref ↦ ok ref
    | none ↦ stored_ref access db id
  ]

  -- The machine and the backend id of a task that was submitted.
  unfoldable pub resolve_task_backend_ref : Access → Core U → Db → ℕ → Result (ℕ × String)
  resolve_task_backend_ref access c db id = do
    (machine_id, backend_id) ← backend_ref access c db id
    job ← or_error backend_id (err (task_not_submitted id))
    ok (machine_id, job)

  -- `begin` and `end` are the core at the two locks.
  unfoldable pub get_task_result : Access → (begin end : Core U) → Db → ℕ → Result (ℕ × String)
  get_task_result access begin end db id = do
    (machine_id, job) ← resolve_task_backend_ref access begin db id
    machine ← find_machine end.machine_map machine_id
    ok (machine_id, job)

  unfoldable pub get_task_artifact :
      Access → (begin end : Core U) → Db → ℕ → String → Result (ℕ × String × String)
  get_task_artifact access begin end db id name = do
    (machine_id, job) ← resolve_task_backend_ref access begin db id
    machine ← find_machine end.machine_map machine_id
    ok (machine_id, job, name)

  unfoldable pub get_qc_artifact : Core U → ℕ → String → Result (Machine U × String)
  get_qc_artifact c machine_id name = do
    machine ← find_machine c.machine_map machine_id
    if is_among name qc_artifacts then ok (machine, name) else err (unknown_artifact name)

  unfoldable pub get_machine_id_by_name : Core U → String → Result ℕ
  get_machine_id_by_name c name = find_machine_by_name c.machine_map name

abbrev pub resolved : Result ℕ → Result (Option ℕ)
resolved (err e) = err e
resolved (ok id) = ok (some id)

-- No name is no notification.
unfoldable pub resolve_notifier : NotifierMap → Option String → Result (Option ℕ)
resolve_notifier notifiers none = ok none
resolve_notifier notifiers (some name) = resolved (find_notifier_by_name notifiers name)
