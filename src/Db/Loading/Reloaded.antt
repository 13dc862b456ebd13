-- ===== src/Db/Loading/Reloaded.antt =====
-- The rows of unfinished tasks give the tasks back (runner/src/db.rs, runner/src/core.rs).
use qscheduler.Base.{
  ℕ, ◌%◌, ◌<◌, ◌≡◌, refl, ◌∙◌, ap, inl, inr, true, false, Option, none, some, List, [], ◌∷◌, Map,
  get, nat_eq, nat_eq_iff, nat_key, if◌then◌else◌, Bool-cases, Option-cases, arith, String,
}
use Prim.Native.Nat.{◌/◌}
use qscheduler.User.{u64_mod}
use qscheduler.Project.{nanos_per_milli}
use qscheduler.Task.{
  Task, TaskConfig, TaskState, TaskKind, TaskParent, circuit, pulse, session, project, waiting,
  running, finished, failed, cancelled, is_final, parent_new, session_id, project_id,
}
use qscheduler.Machine.Registry.{MachineMap}
use qscheduler.Core.Rows.{RestoredTask, task_config, kind_from_db, try_id, try_ids, from_millis}
use qscheduler.Core.Restore.{limit_of_row}
use qscheduler.Db.{Db, TaskRow, millis}
use qscheduler.Db.Infos.{user_name}
use qscheduler.Db.Updates.InSync.{Mirrors, stored_state}
use qscheduler.Db.Loading.{as_str, is_waiting, restored_task, with_task, active_tasks}

-- The row of a task among those that were loaded.
abbrev pub row_of : ℕ → List RestoredTask → Option RestoredTask
row_of id [] = none
row_of id (row ∷ rows) = if nat_eq row.id id then some row else row_of id rows

row_of-with_task :
    (db : Db) (j id : ℕ) (row : TaskRow) (rows : List RestoredTask)
    → nat_eq j id ≡ false
    → row_of id (with_task db j row rows) ≡ row_of id rows
unfolding restored_task
row_of-with_task db j id row rows miss = elim (Bool-cases (is_waiting row.state)) [
  | inr ended ↦ ground (arith, ended)
  | inl waits ↦ elim (Option-cases (user_name db row.config.user_id)) [
    | inl nobody ↦ ground (arith, waits, nobody)
    | inr (name, named) ↦ ground (arith, waits, named, miss)
  ]
]

row_of-active_tasks :
    (db : Db) (tasks : Map ℕ TaskRow) (id : ℕ) (row : TaskRow) (name : String)
    → get id tasks ≡ some row
    → is_waiting row.state ≡ true
    → user_name db row.config.user_id ≡ some name
    → row_of id (active_tasks db tasks) ≡ some (restored_task id row name)
unfolding active_tasks restored_task get
row_of-active_tasks db [] id row name there waits named = cc
row_of-active_tasks db ((j, first) ∷ tasks) id row name there waits named =
    elim (Bool-cases (nat_eq j id)) [
      | inl hit ↦
          let same : first ≡ row = ground (arith, there, hit) in
          let waits' : is_waiting first.state ≡ true = ap (λ r. is_waiting r.state) same ∙ waits in
          let named' = ap (λ (r : TaskRow). user_name db r.config.user_id) same ∙ named in
          ground (arith, hit, waits', named', same, nat_eq_iff j id)
      | inr miss ↦
          row_of-with_task db j id first (active_tasks db tasks) miss
          ∙ row_of-active_tasks db tasks id row name (ground (arith, there, miss)) waits named
    ]

-- An id is not 0, where there is one.
abbrev pub IsNonzero : Option ℕ → Type 0
IsNonzero none = Unit
IsNonzero (some id) = nat_eq id 0 ≡ false

-- What a task that was accepted has: ids that are not 0, and a time limit in whole milliseconds that
-- fits its column.
pub record IsStorable (c : TaskConfig) : Type 0 where
  pub machine_id : nat_eq c.machine_id 0 ≡ false
  pub user_id : nat_eq c.user_id 0 ≡ false
  pub session_set : IsNonzero (session_id c.parent)
  pub project_set : IsNonzero (project_id c.parent)
  pub notifier : IsNonzero c.notifier
  pub whole : c.time_limit % nanos_per_milli ≡ 0
  pub fits : c.time_limit / nanos_per_milli < u64_mod

kind_from_db-as_str : (kind : TaskKind) → kind_from_db (as_str kind) ≡ some kind
unfolding as_str kind_from_db
kind_from_db-as_str circuit = refl
kind_from_db-as_str pulse = refl

parent_new-ids :
    (parent : TaskParent) → parent_new (session_id parent) (project_id parent) ≡ some parent
unfolding parent_new session_id project_id
parent_new-ids (session s) = refl
parent_new-ids (project p) = refl

try_ids_nonzero : (id : Option ℕ) → IsNonzero id → try_ids id ≡ some id
unfolding try_id
try_ids_nonzero none set = refl
try_ids_nonzero (some id) set = ground (arith, set)

try_id-set : (id : ℕ) → nat_eq id 0 ≡ false → try_id id ≡ some id
unfolding try_id
try_id-set id set = ground (arith, set)

same_limit :
    (limit : ℕ)
    → limit % nanos_per_milli ≡ 0
    → limit / nanos_per_milli < u64_mod
    → from_millis (millis limit) ≡ limit
same_limit limit whole fits = omega arith

-- What is loaded of a task.
abbrev loaded_of : ℕ → Task → String → RestoredTask
loaded_of id t name = record {
  id = id;
  machine_id = t.config.machine_id;
  session_id = session_id t.config.parent;
  project_id = project_id t.config.parent;
  user_id = t.config.user_id;
  user_name = name;
  kind = as_str t.config.kind;
  payload = some t.config.payload;
  time_limit_ms = some (millis t.config.time_limit);
  created_at = t.created_at;
  started_at = t.started_at;
  backend_id = t.backend_id;
  notifier_id = t.config.notifier;
}

loaded_of-row :
    (id : ℕ) (t : Task) (row : TaskRow) (name : String)
    → Mirrors t row
    → row.payload ≡ some t.config.payload
    → restored_task id row name ≡ loaded_of id t name
unfolding restored_task
loaded_of-row id t row name m payload = ground (
  arith, payload, m.machine_id, m.parent, m.user_id, m.kind, m.time_limit, m.notifier, m.created_at,
  m.backend_id, m.started_at,
)

task_config-loaded_of :
    (limit id : ℕ) (t : Task) (name : String)
    → IsStorable t.config
    → limit ≡ t.config.time_limit
    → task_config limit (loaded_of id t name) ≡ some t.config
unfolding task_config
task_config-loaded_of limit id t name h same =
    let machine = try_id-set t.config.machine_id h.machine_id in
    let user = try_id-set t.config.user_id h.user_id in
    let in_session = try_ids_nonzero (session_id t.config.parent) h.session_set in
    let in_project = try_ids_nonzero (project_id t.config.parent) h.project_set in
    let notifier = try_ids_nonzero t.config.notifier h.notifier in
    ground (
      arith,
      same,
      machine,
      user,
      in_session,
      in_project,
      notifier,
      parent_new-ids t.config.parent,
      kind_from_db-as_str t.config.kind,
    )

going_waits : (state : TaskState) → is_final state ≡ false → is_waiting (stored_state state) ≡ true
unfolding is_final
going_waits waiting going = refl
going_waits running going = refl
going_waits (finished c) going = cc
going_waits (failed c error) going = cc
going_waits (cancelled c) going = cc

-- A restart gets back every task that has not ended: if the row mirrors the task and still has its
-- payload, and the user is in the table, then the row is among those that are loaded, and what is
-- read of it is the task's configuration, with its time limit and payload, and its id, its times of
-- creation and start and its job in the backend. The ids of the task are not 0, and its time limit is
-- in whole milliseconds that fit the column.
pub row_of-active_tasks_same :
    {U : Type 0} (machines : MachineMap U) (db : Db) (id : ℕ) (t : Task) (row : TaskRow)
    (name : String)
    → get id db.tasks ≡ some row
    → Mirrors t row
    → row.payload ≡ some t.config.payload
    → is_final t.state ≡ false
    → user_name db t.config.user_id ≡ some name
    → IsStorable t.config
    → (r : RestoredTask) × (row_of id (active_tasks db db.tasks) ≡ some r)
      × (task_config (limit_of_row machines r) r ≡ some t.config)
      × (r.id ≡ id)
      × (r.created_at ≡ t.created_at)
      × (r.started_at ≡ t.started_at)
      × (r.backend_id ≡ t.backend_id)
row_of-active_tasks_same machines db id t row name there m payload going named h =
    let waits = ap is_waiting m.state ∙ going_waits t.state going in
    let named' = ap (user_name db) m.user_id ∙ named in
    let found = row_of-active_tasks db db.tasks id row name there waits named' in
    let same = loaded_of-row id t row name m payload in
    let limit = same_limit t.config.time_limit h.whole h.fits in
    (
      loaded_of id t name,
      found ∙ ap some same,
      task_config-loaded_of (from_millis (millis t.config.time_limit)) id t name h limit,
      refl,
      refl,
      refl,
      refl,
    )
