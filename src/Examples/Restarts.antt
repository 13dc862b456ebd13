-- ===== src/Examples/Restarts.antt =====
-- A restart with a waiting task and a session that was open.
use qscheduler.Base.{ℕ, ◌≡◌, refl, true, none, some, [], ◌∷◌, get, total, arith, nat_key}
use qscheduler.Error.{ok}
use qscheduler.User.Counts.{items_of, bytes_of}
use qscheduler.Core.Counters.{IsValid, live_items, live_bytes}
use qscheduler.Core.Restore.{Restored, Loaded, restore, wanted_sessions, wanted_tasks}
use qscheduler.Core.Rows.{
  RestoredSession, RestoredTask, session_config, task_config, try_id, kind_from_db,
}
use qscheduler.Core.Restore.Counted.{restore-IsValid, are_all_kept}
use qscheduler.Task.{parent_new}
use qscheduler.Examples.Data.{whole, idle_core, project}

abbrev open_row : RestoredSession
open_row = record {
  id = 3;
  machine_id = 1;
  project_id = 1;
  user_id = 2;
  owner = "bob";
  time_limit_ms = 500;
  created_at = 10;
  opened_at = some 20;
  updated_at = some 30;
  closed_at = none;
  exec_time_ms = some 8;
  notifier_id = none;
}

abbrev waiting_row : RestoredTask
waiting_row = record {
  id = 4;
  machine_id = 1;
  session_id = none;
  project_id = some 1;
  user_id = 1;
  user_name = "alice";
  kind = "circuit";
  payload = some (7 ∷ 8 ∷ []);
  time_limit_ms = none;
  created_at = 15;
  started_at = none;
  backend_id = none;
  notifier_id = none;
}

abbrev pub loaded : Loaded
loaded = record {
  tasks = waiting_row ∷ [];
  sessions = open_row ∷ [];
  projects = project ∷ [];
  suspensions = [];
}

pub fresh_core-IsValid : IsValid idle_core
unfolding items_of bytes_of live_items live_bytes total get
fresh_core-IsValid = record {
  counted = record {
    items = λ u. ground arith;
    bytes = λ u. ground arith;
    items_fit = λ u. ground arith;
    bytes_fit = λ u. ground arith;
  };
  settled = record { tasks_settled = λ id t found. cc; sessions_settled = λ id s found. cc };
  tasks_unique = tt;
  sessions_unique = tt;
  users_unique = (refl, (refl, tt));
}

restore-IsValid_example :
    (r : Restored ℕ) × (restore 100 50 none idle_core (ok loaded) ≡ some (ok r))
    × IsValid r.core
    × (are_all_kept r.core.task_map (waiting_row ∷ []) ≡ true)
unfolding get session_config task_config try_id kind_from_db wanted_sessions wanted_tasks items_of
    bytes_of parent_new
restore-IsValid_example =
    restore-IsValid 100 50 none idle_core loaded fresh_core-IsValid ((_, refl), refl, tt, tt)
      (λ limit. (_, refl), refl, tt, tt) (λ u. ground arith) (λ u. ground arith)
