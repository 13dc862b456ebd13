-- ===== src/Examples/Launchers.antt =====
-- The launcher of machine 1, with one task in the backend.
use qscheduler.Base.{
  ◌++◌, String, Option, Bool, true, length, insert, ℕ, ◌+◌, ◌≡◌, ◌≤◌, refl, false, none, some, [],
  ◌∷◌, Map, get, remove, total, nat_key, IsUnique, arith,
}
use qscheduler.Project.{find_project, is_over_limit, ProjectMap}
use qscheduler.Launcher.{State, Clock, RunningTask, DbUpdate, task_time_limit_error}
use qscheduler.Launcher.Estimate.{
  new, elapsed, raise_elapsed, raise_all, is_over_time_limit, is_over_time_limit_sound,
}
use qscheduler.Launcher.Check.{charge_all, check_tasks}
use qscheduler.Launcher.Check.InFlight.{charged_to, Charges, charge_all-conserves}
use qscheduler.Launcher.Check.Limits.{Reason, cancels, recorded, cancelled_after, check_tasks-exact}
use qscheduler.Launcher.Message.{relabel, on_state_change}
use qscheduler.Launcher.Message.Tracked.{IsTracked}
use qscheduler.Launcher.Message.Final.{EndsAs, Tells, Ended, on_state_change-final}
use qscheduler.Launcher.Loop.{
  submit_loop, submit_next, submit_found, pick_task, pick_popped, pick_item, or_again, next_item,
  submit, hand_over,
}
use qscheduler.Machine.Queue.{pop_queue_item, pick, least, front_key, set_entry, effective_usage}
use qscheduler.Machine.FairShare.{record_new_task_in_backend}
use qscheduler.Machine.Registry.{set_machine}
use qscheduler.Launcher.Fail.{fail_submitted_task}
use qscheduler.Launcher.Fail.Ended.{RanFor, FailedNow, fail_submitted_task-FailedNow}
use qscheduler.Launcher.Loop.Sessions.{submit_loop-running_session}
use qscheduler.Launcher.Loop.Bounds.{submit_loop-bounded}
use qscheduler.User.{get_user}
use qscheduler.User.Counts.{items_of, bytes_of}
use qscheduler.Task as Tasks
use qscheduler.Task.{CompletedState}
use qscheduler.Task.Final.{item_weight, byte_weight}
use qscheduler.Machine.{task}
use qscheduler.Machine.FairShare.Backend.{in_backend, submitted_of}
use qscheduler.Examples.Data.{
  whole, idle_core, project, machine_with, queue_of, task_config, users, user_with,
}

abbrev tracked : RunningTask
tracked = record {
  elapsed = 10;
  elapsed_at = 100;
  time_limit = 50;
  project_id = some 1;
  charged = 5;
}

abbrev projects : ProjectMap
projects = record {
  projects = (1, record project { in_flight = 5 }) ∷ [];
  projects_by_name = ("p", 1) ∷ [];
}

abbrev one_running : State ℕ
one_running = record {
  core = record idle_core { project_map = projects };
  machine_id = 1;
  queue_size = 2;
  max_clock_skew = 0;
  shutting_down = false;
  notifiers = [];
  running_session = none;
  submitted_tasks = (4, false) ∷ [];
  running_tasks = (4, tracked) ∷ [];
  fail_reasons = [];
  db_updates = [];
  requests = [];
  events = [];
}

submitted-IsUnique : IsUnique one_running.submitted_tasks
unfolding get
submitted-IsUnique = (refl, tt)

-- Reports at 20 and 40 of a task that runs since 10, with a limit of 25.
is_over_time_limit_sound_example : 10 + 25 ≤ 45
unfolding raise_all raise_elapsed elapsed is_over_time_limit new
is_over_time_limit_sound_example =
    is_over_time_limit_sound 10 20 45 7 25 none ((40, 28) ∷ []) (omega arith)
      (omega arith, omega arith, tt) (omega arith) (ground arith)

charge_all-conserves_example :
    (running' : Map ℕ RunningTask) × (projects' : ProjectMap) × (charge_all 120
        one_running.running_tasks projects
      ≡ some (running', projects'))
    × Charges projects projects'
        (λ p. total (charged_to p) one_running.running_tasks)
        (λ p. total (charged_to p) running')
unfolding get
charge_all-conserves_example =
    charge_all-conserves 120 one_running.running_tasks projects
      (λ id e. (record project { in_flight = 5 }, ground arith), tt)

check_tasks-exact_example :
    (found : ℕ → Option String) × ((id : ℕ) → Reason 200 one_running id (found id))
    × ((check_tasks 200 one_running one_running.submitted_tasks).0.core ≡ one_running.core)
    × ((check_tasks 200 one_running one_running.submitted_tasks).0.requests
        ≡ one_running.requests
          ++ cancels found one_running.core.task_map one_running.submitted_tasks)
    × ((id : ℕ)
        → (get id (check_tasks 200 one_running one_running.submitted_tasks).1
            ≡ cancelled_after (get id one_running.submitted_tasks) (found id))
          × (get id (check_tasks 200 one_running one_running.submitted_tasks).0.fail_reasons
              ≡ recorded
                  (get id one_running.submitted_tasks)
                  (found id)
                  (get id one_running.fail_reasons)))
check_tasks-exact_example =
    check_tasks-exact 200 one_running one_running.submitted_tasks submitted-IsUnique

-- Alice's task 4 runs, was found to be over its limit, and is reported as cancelled.
abbrev pub over_limit : State ℕ
over_limit = record one_running {
  submitted_tasks = (4, true) ∷ [];
  fail_reasons = (4, task_time_limit_error) ∷ [];
  core = record idle_core {
    machine_map = record {
      machines = (1, machine_with ((1, queue_of 0 1 (task 5 ∷ [])) ∷ [])) ∷ [];
      machines_by_name = ("m", 1) ∷ [];
    };
    task_map = (4, Tasks.new 4 9 task_config) ∷ (5, Tasks.new 5 9 task_config) ∷ [];
    project_map = projects;
    user_map = record users {
      users = (1, user_with "alice" 2 6 5) ∷ (2, user_with "bob" 0 0 7) ∷ [];
    };
  };
}

pub over_limit-IsTracked :
    IsTracked over_limit 4
      (Tasks.new 4 9 task_config)
      (machine_with ((1, queue_of 0 1 (task 5 ∷ [])) ∷ []))
unfolding get get_user Tasks.new Tasks.is_final items_of bytes_of item_weight byte_weight in_backend
    submitted_of Tasks.project_id Tasks.session_id
over_limit-IsTracked = record {
  known = refl;
  settled = refl;
  items = omega arith;
  bytes = omega arith;
  items_fit = omega arith;
  bytes_fit = omega arith;
  user = (user_with "alice" 2 6 5, refl);
  machine = refl;
  queues_unique = (refl, tt);
  counted = omega arith;
  counts_fit = omega arith;
  project = λ p e. (record project { in_flight = 5 }, ground arith);
}

abbrev pub end_of_task : CompletedState
end_of_task = record { consumed = 3000000; timestamp = 300 }

on_state_change-final_example :
    (st' : State ℕ) × (final_state : Tasks.TaskState) × (update : DbUpdate) × (on_state_change
        (record { instant = 300; utc = 300 })
        over_limit
        4
        (Tasks.cancelled end_of_task)
      ≡ some (st', true))
    × EndsAs (get 4 over_limit.fail_reasons) (Tasks.cancelled end_of_task) final_state
    × Tells 4 final_state update
    × Ended
        (record over_limit { fail_reasons = remove 4 over_limit.fail_reasons })
        4
        (Tasks.new 4 9 task_config)
        final_state
        update
        st'
    × ((later : Clock) (other : Tasks.TaskState)
        → on_state_change later st' 4 other ≡ some (st', true))
unfolding get Tasks.is_final
on_state_change-final_example =
    on_state_change-final (record { instant = 300; utc = 300 }) over_limit 4
      (Tasks.new 4 9 task_config) (machine_with ((1, queue_of 0 1 (task 5 ∷ [])) ∷ []))
      (Tasks.cancelled end_of_task) true over_limit-IsTracked refl refl

-- It is recorded as failed.
is_failed :
    relabel (get 4 over_limit.fail_reasons) (Tasks.cancelled end_of_task)
    ≡ Tasks.failed end_of_task task_time_limit_error
unfolding relabel get
is_failed = refl

-- Task 5 is submitted, and then nothing waits.
abbrev after_loop : State ℕ × Bool
after_loop = elim (submit_loop 3 (record { instant = 300; utc = 300 }) over_limit) [
  | none ↦ (over_limit, false)
  | some r ↦ r
]

ends :
    submit_loop 3 (record { instant = 300; utc = 300 }) over_limit
    ≡ some (after_loop.0, after_loop.1)
unfolding get insert remove total submit_loop submit_next submit_found pick_task pick_popped
    pick_item or_again next_item submit hand_over pop_queue_item pick least front_key set_entry
    effective_usage Tasks.new Tasks.project_id Tasks.session_id find_project is_over_limit
    record_new_task_in_backend set_machine
ends = refl

hands_over : after_loop.0.submitted_tasks ≡ (4, true) ∷ (5, false) ∷ []
unfolding get insert remove total submit_loop submit_next submit_found pick_task pick_popped
    pick_item or_again next_item submit hand_over pop_queue_item pick least front_key set_entry
    effective_usage Tasks.new Tasks.project_id Tasks.session_id find_project is_over_limit
    record_new_task_in_backend set_machine
hands_over = refl

submit_loop-bounded_example :
    (after_loop.1 ≡ true)
    × (length after_loop.0.submitted_tasks ≤ after_loop.0.queue_size)
    × (after_loop.0.queue_size ≡ 2)
unfolding get total
submit_loop-bounded_example =
    submit_loop-bounded 3 (record { instant = 300; utc = 300 }) over_limit after_loop.0
      (machine_with ((1, queue_of 0 1 (task 5 ∷ [])) ∷ [])) after_loop.1 (omega arith) refl
      (omega arith) ends

-- Task 4 is in the backend, so no session opens.
submit_loop-running_session_example : after_loop.0.running_session ≡ none
submit_loop-running_session_example =
    submit_loop-running_session 3 (record { instant = 300; utc = 300 }) over_limit after_loop.0
      after_loop.1 (omega arith) ends

-- The machine is suspended while task 4 runs; it has been charged 5 and has run for 50, its limit.
fail_submitted_task-FailedNow_example :
    (st' : State ℕ) × (consumed : ℕ) × (fail_submitted_task
        (record { instant = 300; utc = 300 })
        "suspended"
        over_limit
        4
      ≡ some st')
    × RanFor 300 (get 4 over_limit.running_tasks) consumed
    × FailedNow over_limit 4
        (Tasks.new 4 9 task_config)
        true
        (record { consumed = consumed; timestamp = 300 })
        "suspended"
        st'
    × ((later : Clock) (other : Tasks.TaskState)
        → on_state_change later st' 4 other ≡ some (st', true))
unfolding get
fail_submitted_task-FailedNow_example =
    fail_submitted_task-FailedNow (record { instant = 300; utc = 300 }) "suspended" over_limit 4
      (Tasks.new 4 9 task_config) (machine_with ((1, queue_of 0 1 (task 5 ∷ [])) ∷ [])) true
      over_limit-IsTracked refl
