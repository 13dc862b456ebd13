-- ===== src/Examples/Cores.antt =====
-- The invariant of the core, from a state with no work on.
use qscheduler.Base.{ℕ, inr, ◌≡◌, refl, none, some, [], ◌∷◌, get, insert, total, nat_key, arith}
use qscheduler.Error.{Result, ok, err}
use qscheduler.User.{task_activated, find_user}
use qscheduler.User.Counts.{items_of, bytes_of}
use qscheduler.Task.{insert_task}
use qscheduler.Task as Tasks
use qscheduler.Task.Final as Final
use qscheduler.Machine.{Machine, check_not_suspended}
use qscheduler.Machine.Queue.{queue_task, push_back, set_entry}
use qscheduler.Machine.Registry.{find_machine}
use qscheduler.Core.{Core}
use qscheduler.Core.Checks.{check_user_limits, check_limits_of, check_item_limit}
use qscheduler.Core.Counters.{IsValid, IsWithinLimits, live_items, live_bytes}
use qscheduler.Core.Submit.{add_task, add_session}
use qscheduler.Core.Submit.Counted.{add_task-IsValid, add_task-IsWithinLimits}
use qscheduler.Core.Submit.Opened.{add_session-IsValid, SessionAdded}
use qscheduler.Core.Evict.{evict}
use qscheduler.Core.Evict.Counted.{evict-IsValid}
use qscheduler.Core.Evict.Resident.{IsResident, evict-IsResident}
use qscheduler.Examples.Data.{whole, idle_core, task_config, session_config, user_with}

idle_core-IsValid : IsValid idle_core
unfolding items_of bytes_of live_items live_bytes total get
idle_core-IsValid = record {
  counted = record {
    items = λ u. ground arith;
    bytes = λ u. ground arith;
    items_fit = λ u. ground arith;
    bytes_fit = λ u. ground arith;
  };
  settled = record { tasks_settled = λ id t found. cc; sessions_settled = λ id s found. cc };
  tasks_unique = tt;
  sessions_unique = tt;
  users_unique = (refl, (refl, tt));
}

idle_core-IsWithinLimits : IsWithinLimits idle_core
unfolding items_of bytes_of get
idle_core-IsWithinLimits = record { items = λ u. ground arith; bytes = λ u. ground arith }

abbrev core_of : Result (Core ℕ × ℕ) → Core ℕ
core_of (ok (c, _)) = c
core_of (err _) = idle_core

-- Alice's task is queued.
busy_core : Core ℕ
busy_core = core_of (add_task idle_core 4 9 task_config)

added : add_task idle_core 4 9 task_config ≡ ok (busy_core, 4)
unfolding add_task check_user_limits check_limits_of check_item_limit find_user find_machine
    check_not_suspended queue_task push_back set_entry task_activated get insert busy_core
    Tasks.session_id Tasks.new
added = refl

add_task-IsValid_example : IsValid busy_core
unfolding get
add_task-IsValid_example =
    add_task-IsValid idle_core busy_core 4 9 4 task_config (omega arith) (omega arith) refl
      idle_core-IsValid added

add_task-IsWithinLimits_example : IsWithinLimits busy_core
add_task-IsWithinLimits_example =
    add_task-IsWithinLimits idle_core busy_core 4 9 4 task_config (omega arith) (omega arith)
      idle_core-IsWithinLimits added

add_session-IsValid_example :
    SessionAdded idle_core 3 9 session_config (add_session idle_core 3 9 session_config)
unfolding get
add_session-IsValid_example =
    add_session-IsValid idle_core 3 9 session_config (omega arith) refl idle_core-IsValid

evict-IsValid_example : IsValid (evict 1000 10 busy_core)
evict-IsValid_example = evict-IsValid 1000 10 busy_core add_task-IsValid_example

-- A task of alice that finished at 5, when she went idle.
abbrev done_task : Tasks.Task
done_task = record {
  id = 4;
  state = Tasks.TaskState.finished (record { consumed = 3; timestamp = 5 });
  backend_id = none;
  created_at = 1;
  started_at = none;
  finished_on = some 5;
  config = record task_config { payload = [] };
}

abbrev done_core : Core ℕ
done_core = record idle_core { task_map = (4, done_task) ∷ [] }

done_core-IsValid : IsValid done_core
unfolding items_of bytes_of live_items live_bytes total get Final.item_weight Final.byte_weight
    Tasks.is_final
done_core-IsValid = record {
  counted = record {
    items = λ u. ground arith;
    bytes = λ u. ground arith;
    items_fit = λ u. ground arith;
    bytes_fit = λ u. ground arith;
  };
  settled = record {
    tasks_settled = λ id t found. ground arith;
    sessions_settled = λ id s found. cc;
  };
  tasks_unique = (refl, tt);
  sessions_unique = tt;
  users_unique = (refl, (refl, tt));
}

done_core-IsResident : IsResident done_core
unfolding get
done_core-IsResident = record {
  tasks = λ id t ended found e. (user_with "alice" 0 0 5, ground arith, inr (ground arith));
  sessions = λ id s ended found e. cc;
}

evict-IsResident_example : IsResident (evict 12 10 done_core)
evict-IsResident_example = evict-IsResident 12 10 done_core done_core-IsValid done_core-IsResident
