-- ===== src/Examples/Requests.antt =====
-- Requests of the API on a small service.
use qscheduler.Base.{
  ◌≤◌, nat_key, string_key, inl, inr, str_eq, eq_iff, nat_eq_iff, Bool-cases, ℕ, ◌≡◌, ◌⊎◌, refl,
  true, false, none, some, [], ◌∷◌, get, arith,
}
use qscheduler.Error.{RunnerError, Result, ok, err}
use qscheduler.Suspension.{Suspension, waiting}
use qscheduler.Task.{insert_task}
use qscheduler.Task as Tasks
use qscheduler.Project.{ProjectMap}
use qscheduler.Core.{Core}
use qscheduler.Db.{Db, ProjectRow, served, active_of, is_active, row_named}
use qscheduler.Reactor.Suspend.{suspend_machine, resume_machine}
use qscheduler.Reactor.Suspend.InStep.{IsInStep, suspend_machine-IsInStep, resume_machine-IsInStep}
use qscheduler.Reactor.Work.{submit_task, cancel_task}
use qscheduler.Reactor.Work.Recorded.{Accepted, Rejected, submit_task-recorded}
use qscheduler.Reactor.Work.Answers.{Answered, cancel_task-Answered}
use qscheduler.Reactor.Projects.{update, accounted, Locks, handle}
use qscheduler.Project.{ProjectMap}
use qscheduler.Reactor.Projects.Agree.{HasIds, IsCached}
use qscheduler.Reactor.Projects.Updated.{update_project_row-HasIds}
use qscheduler.Reactor.Projects.Cached.{handle-IsCached}
use qscheduler.Examples.Data.{whole, idle_core, task_config, machine_with, project}

abbrev row : ProjectRow
row = record { id = 1; name = "p"; consumed_ms = 0; limit_ms = 0; active = true }

abbrev pub stored : Db
stored = record {
  tasks = [];
  next_task_id = 1;
  sessions = [];
  next_session_id = 1;
  suspensions = [];
  projects = row ∷ [];
  next_project_id = 2;
  users = [];
  next_user_id = 1;
  machines = [];
  next_machine_id = 2;
  notifiers = [];
  next_notifier_id = 1;
}

idle_core-IsInStep : IsInStep idle_core stored
unfolding IsInStep active_of get
idle_core-IsInStep id m found = ground arith

suspend_machine-IsInStep_example :
    (c : Core ℕ) × (db : Db) × (r : Result Suspension) × (suspend_machine served 10 idle_core
        idle_core stored 1 "upgrade" waiting
      ≡ some (c, db, r))
    × IsInStep c db
unfolding get
suspend_machine-IsInStep_example =
    suspend_machine-IsInStep served 10 idle_core idle_core stored 1 "upgrade" waiting
      (machine_with []) idle_core-IsInStep refl

-- Machine 1 has been suspended at 10.
abbrev upgrading : Suspension
upgrading = record { message = "upgrade"; cancel = waiting; suspended_at = 10; resumed_at = none }

abbrev suspended_core : Core ℕ
suspended_core = record idle_core {
  machine_map = record {
    machines = (1, record (machine_with []) { suspension = some upgrading }) ∷ [];
    machines_by_name = ("m", 1) ∷ [];
  };
}

abbrev suspended_rows : Db
suspended_rows = record stored {
  suspensions = record { machine_id = 1; suspension = upgrading } ∷ [];
}

suspended_core-IsInStep : IsInStep suspended_core suspended_rows
unfolding IsInStep active_of is_active get
suspended_core-IsInStep id m found = ground arith

resume_machine-IsInStep_example :
    (c : Core ℕ) × (db : Db) × (r : Result Suspension) × (resume_machine served 20 suspended_core
        suspended_core suspended_rows 1
      ≡ some (c, db, r))
    × IsInStep c db
unfolding get
resume_machine-IsInStep_example =
    resume_machine-IsInStep served 20 suspended_core suspended_core suspended_rows 1
      (record (machine_with []) { suspension = some upgrading }) suspended_core-IsInStep refl

submit_task-recorded_example :
    ((id : ℕ)
      → (submit_task served served 9 idle_core idle_core stored task_config).1.next_task_id ≤ id
      → get id (submit_task served served 9 idle_core idle_core stored task_config).1.tasks ≡ none)
    × (((id : ℕ) × ((submit_task served served 9 idle_core idle_core stored task_config).2 ≡ ok id)
          × Accepted 9 task_config stored
              (submit_task served served 9 idle_core idle_core stored task_config).0
              (submit_task served served 9 idle_core idle_core stored task_config).1
              id)
        ⊎ ((e : RunnerError) × ((submit_task served served 9 idle_core idle_core stored
                task_config).2
              ≡ err e)
            × Rejected idle_core stored
                (submit_task served served 9 idle_core idle_core stored task_config).0
                (submit_task served served 9 idle_core idle_core stored task_config).1))
unfolding get
submit_task-recorded_example =
    submit_task-recorded served served 9 idle_core idle_core stored task_config (λ id late. refl)
      refl

-- Task 4 waits.
abbrev waiting_core : Core ℕ
waiting_core = record idle_core { task_map = (4, Tasks.new 4 9 task_config) ∷ [] }

cancel_task-Answered_example :
    (c : Core ℕ) × (r : Result (Unit {0})) × (cancel_task served waiting_core stored 4
      ≡ some (c, r))
    × Answered served waiting_core stored 4 c r
unfolding get Tasks.new
cancel_task-Answered_example =
    cancel_task-Answered served waiting_core stored 4
      (λ id t found going. (machine_with [], ground arith))

abbrev cache : ProjectMap
cache = idle_core.project_map

cache-IsCached : IsCached cache stored
unfolding row_named get
cache-IsCached = record {
  has_ids = record {
    distinct = λ n m r q row row' same. ground (arith, eq_iff "p" n, eq_iff "p" m);
    below = λ n r stored_row. ground arith;
  };
  agree = λ name id found. elim (Bool-cases (str_eq "p" name)) [
    | inr other ↦ absurd (ground (arith, other, found))
    | inl same ↦ (
      project,
      row,
      ground (arith, same, found, nat_eq_iff 1 id),
      ground (arith, same),
      record {
        project_id = ground (arith, same, found);
        row_id = ground (arith, same, found);
        project_name = (eq_iff "p" name).0 same;
        same_active = refl;
        same_limit = refl;
      },
    )
  ];
}

-- Nothing is cached before the request, and the project is when it has been updated.
abbrev locks : Locks
locks = record {
  begin = record { projects = []; projects_by_name = [] };
  end = record { projects = []; projects_by_name = [] };
  late = record { projects = []; projects_by_name = [] };
  last = record { projects = []; projects_by_name = [] };
  reread = λ db. db;
}

nothing-IsCached : (db : Db) → HasIds db → IsCached locks.end db
unfolding get
nothing-IsCached db ids = record { has_ids = ids; agree = λ name id named. cc }

handle-IsCached_example :
    ((cache' : ProjectMap) × (db : Db) × (handle locks stored
          (update served served "p" (some false) none)
        ≡ some (cache', db))
      × IsCached cache' db)
    ⊎ ((id : ℕ) × (consumed : ℕ) × (in_flight : ℕ) × (update served served "p" (some false) none
          ≡ accounted id consumed in_flight)
        × (get id locks.end.projects ≡ none))
handle-IsCached_example =
    handle-IsCached locks stored (update served served "p" (some false) none)
      (nothing-IsCached stored cache-IsCached.has_ids)
      (λ db' answer done. nothing-IsCached db' (
        update_project_row-HasIds served stored db' "p" (some false) none answer done
          cache-IsCached.has_ids))
