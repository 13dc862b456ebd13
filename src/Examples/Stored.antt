-- ===== src/Examples/Stored.antt =====
-- Tasks and their rows.
use qscheduler.Base.{
  ℕ, ◌≡◌, refl, inl, inr, none, some, [], ◌∷◌, get, nat_eq, nat_eq_iff, nat_key, string_key, Bool,
  Bool-cases, arith, subst, Option-cases,
}
use qscheduler.Error.{ok}
use qscheduler.User.{get_user}
use qscheduler.Project.{find_project}
use qscheduler.Task.{Task, TaskMap, is_final, session_id, project_id, finished}
use qscheduler.Task as Tasks
use qscheduler.Callback.{NotifierMap, notifier_name, get_notifier}
use qscheduler.Core.{Core}
use qscheduler.Core.Infos.{TaskInfo, outcome_of}
use qscheduler.Core.Rows.{RestoredTask, task_config}
use qscheduler.Core.Restore.{limit_of_row}
use qscheduler.Launcher.{State}
use qscheduler.Launcher.Message.{handle_message, task_state_change}
use qscheduler.Launcher.Message.Written.{IsWritten, handle_message-IsWritten}
use qscheduler.Db.{Db, TaskRow, task_row, served, broken}
use qscheduler.Db as Rows
use qscheduler.Db.Infos.{name_by_id, project_name_of}
use qscheduler.Db.Updates.{write_updates, ended_row, duration_ms}
use qscheduler.Db.Updates.InSync.{InSync, Mirrors}
use qscheduler.Db.Loading.{active_tasks}
use qscheduler.Db.Loading.Reloaded.{IsStorable, row_of, row_of-active_tasks_same}
use qscheduler.Reactor.Infos.{get_task_info}
use qscheduler.Reactor.Infos.Evicted.{SameNames, IsLoaded, get_task_info-evicted}
use qscheduler.Examples.Data.{whole, idle_core, machine_with, project, user_with}
use qscheduler.Examples.Data as Data
use qscheduler.Examples.Launchers.{over_limit, over_limit-IsTracked, end_of_task}
use qscheduler.Examples.Requests.{stored}

abbrev queued_row : TaskRow
queued_row = task_row 9 Data.task_config

-- Tasks 4 and 5 were inserted.
abbrev pub with_tasks : Db
with_tasks = record stored {
  tasks = (4, queued_row) ∷ (5, queued_row) ∷ [];
  users = ("alice", 1) ∷ ("bob", 2) ∷ [];
  machines = ("m", record { id = 1; stored = "{}" }) ∷ [];
}

queued-Mirrors : (id : ℕ) → Mirrors (Tasks.new id 9 Data.task_config) queued_row
unfolding Tasks.new outcome_of
queued-Mirrors id = record {
  machine_id = refl;
  parent = refl;
  user_id = refl;
  kind = refl;
  time_limit = refl;
  notifier = refl;
  created_at = refl;
  backend_id = refl;
  started_at = refl;
  state = refl;
  finished_at = refl;
  exec_time_ms = refl;
  error = refl;
}

over_limit-IsWritten : IsWritten 400 with_tasks over_limit
unfolding get write_updates Tasks.new
over_limit-IsWritten id t found = elim (Bool-cases (nat_eq 4 id)) [
  | inl hit ↦ (
    ground (arith, found, hit, nat_eq_iff 4 id),
    queued_row,
    ground (arith, hit),
    subst (λ x. Mirrors x queued_row) (ground (arith, found, hit)) (queued-Mirrors 4),
  )
  | inr other ↦ (
    ground (arith, found, other, nat_eq_iff 5 id),
    queued_row,
    ground (arith, found, other),
    subst (λ x. Mirrors x queued_row) (ground (arith, found, other)) (queued-Mirrors 5),
  )
]

handle_message-IsWritten_example :
    (st' : State ℕ) × (goes_on : Bool) × (handle_message
        (record { instant = 300; utc = 300 })
        over_limit
        (task_state_change 4 (Tasks.cancelled end_of_task))
      ≡ some (st', goes_on))
    × IsWritten 400 with_tasks st'
unfolding get is_final Tasks.new
handle_message-IsWritten_example =
    handle_message-IsWritten (record { instant = 300; utc = 300 }) 400 with_tasks over_limit
      (task_state_change 4 (Tasks.cancelled end_of_task)) over_limit-IsWritten refl
      (λ cancelling found. (_, _, over_limit-IsTracked, refl))

-- Task 4 has finished.
abbrev ended_task : Task
ended_task = record (Tasks.new 4 9 Data.task_config) {
  state = finished end_of_task;
  finished_on = some 300;
  config = record Data.task_config { payload = [] };
}

abbrev ended_core : Core ℕ
ended_core = record idle_core { task_map = (4, ended_task) ∷ [] }

abbrev ended_db : Db
ended_db = record with_tasks { tasks = (4, ended_row Rows.finished end_of_task queued_row) ∷ [] }

ended-Mirrors : Mirrors ended_task (ended_row Rows.finished end_of_task queued_row)
unfolding Tasks.new outcome_of duration_ms
ended-Mirrors = record {
  machine_id = refl;
  parent = refl;
  user_id = refl;
  kind = refl;
  time_limit = refl;
  notifier = refl;
  created_at = refl;
  backend_id = refl;
  started_at = refl;
  state = refl;
  finished_at = refl;
  exec_time_ms = refl;
  error = refl;
}

ended-InSync : InSync ended_core.task_map ended_db
unfolding get Tasks.new
ended-InSync id t found = (
  ground (arith, found, nat_eq_iff 4 id),
  ended_row Rows.finished end_of_task queued_row,
  ground (arith, found),
  subst (λ x. Mirrors x (ended_row Rows.finished end_of_task queued_row)) (ground (arith, found))
      ended-Mirrors,
)

abbrev pub nobody : NotifierMap
nobody = record { notifiers = []; notifiers_by_name = [] }

ended-SameNames : SameNames ended_core nobody ended_db
unfolding get name_by_id project_name_of get_user find_project notifier_name get_notifier
ended-SameNames = record {
  machines = λ id m found. ground (arith, found);
  users = λ id u found. ground (arith, found);
  projects = λ id p found. ground (arith, found);
  notifiers_named =
      λ id. elim (Option-cases id) [ inl absent ↦ rw absent refl | inr (n, there) ↦ rw there refl ];
}

ended-IsLoaded : IsLoaded ended_core ended_task
unfolding get get_user find_project project_id Tasks.new
ended-IsLoaded = record {
  machine = (_, refl);
  user = (_, refl);
  project = λ id is. (project, ground (arith, is));
}

get_task_info-evicted_example :
    (info : TaskInfo) × (get_task_info broken ended_core nobody ended_db 4 ≡ some (ok (some info)))
    × (get_task_info served idle_core nobody ended_db 4 ≡ some (ok (some info)))
unfolding get is_final Tasks.new
get_task_info-evicted_example =
    get_task_info-evicted ended_core idle_core nobody nobody ended_db 4 ended_task ended-InSync
      ended-SameNames ended-IsLoaded refl refl refl

-- A time limit of 2 ms.
abbrev usual_config : Tasks.TaskConfig
usual_config = record Data.task_config { time_limit = 2000000 }

usual_config-IsStorable : IsStorable usual_config
unfolding session_id project_id
usual_config-IsStorable = record {
  machine_id = refl;
  user_id = refl;
  session_set = tt;
  project_set = refl;
  notifier = tt;
  whole = omega arith;
  fits = omega arith;
}

abbrev usual_db : Db
usual_db = record with_tasks { tasks = (4, task_row 9 usual_config) ∷ [] }

usual-Mirrors : Mirrors (Tasks.new 4 9 usual_config) (task_row 9 usual_config)
unfolding Tasks.new outcome_of
usual-Mirrors = record {
  machine_id = refl;
  parent = refl;
  user_id = refl;
  kind = refl;
  time_limit = refl;
  notifier = refl;
  created_at = refl;
  backend_id = refl;
  started_at = refl;
  state = refl;
  finished_at = refl;
  exec_time_ms = refl;
  error = refl;
}

row_of-active_tasks_same_example :
    (r : RestoredTask) × (row_of 4 (active_tasks usual_db usual_db.tasks) ≡ some r)
    × (task_config (limit_of_row idle_core.machine_map r) r ≡ some usual_config)
    × (r.id ≡ 4)
    × (r.created_at ≡ 9)
    × (r.started_at ≡ none)
    × (r.backend_id ≡ none)
unfolding get is_final Tasks.new name_by_id
row_of-active_tasks_same_example =
    row_of-active_tasks_same idle_core.machine_map usual_db 4 (Tasks.new 4 9 usual_config)
      (task_row 9 usual_config) "alice" refl usual-Mirrors refl refl refl usual_config-IsStorable
