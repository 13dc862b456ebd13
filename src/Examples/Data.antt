-- ===== src/Examples/Data.antt =====
-- A small service: one machine, one project and two users. Usage is in whole units of time.
use qscheduler.Base.{ℕ, ◌+◌, ◌-◌, ◌*◌, true, false, none, List, [], ◌∷◌, ltb, arith, String}
use Prim.Native.Nat.{◌/◌, ◌^◌}
use qscheduler.User.{User, UserMap}
use qscheduler.Project.{Project}
use qscheduler.Session.{SessionConfig}
use qscheduler.Task.{TaskConfig, TaskParent, circuit}
use qscheduler.Task as Tasks
use qscheduler.Machine.{F64, IsOrder, QueueItem, MachineConfig, UserQueue, Machine}
use qscheduler.Core.{Core}

instance abbrev pub whole : F64 ℕ
whole = record {
  decimal = λ m k. m / 10 ^ k;
  of_nat = λ n. n;
  secs = λ n. n / 1000000000;
  add = λ a b. a + b;
  sub = λ a b. a - b;
  mul = λ a b. a * b;
  div = λ a b. a / b;
  neg = λ a. a;
  exp2 = λ a. 1;
  lt = ltb;
}

pub whole-IsOrder : IsOrder whole
whole-IsOrder = record {
  lt_asymm = λ a b h. ground arith;
  le_trans = λ a b c h k. ground arith;
  le_antisymm = λ a b h k. ground arith;
}

abbrev pub machine_config : MachineConfig
machine_config = record {
  name = "m";
  queue_size = 2;
  decay_half_time = 100;
  limit_check_interval = 1;
  max_session_time = 1000;
  default_task_time_limit = 50;
  max_task_time_limit = 100;
  max_clock_skew = 0;
  pulse_access = false;
}

abbrev pub queue_of : ℕ → ℕ → List QueueItem → UserQueue ℕ
queue_of usage submitted items = record {
  usage = usage;
  average_usage = none;
  submitted_tasks = submitted;
  queue = items;
}

abbrev pub machine_with : List (ℕ × UserQueue ℕ) → Machine ℕ
machine_with queues = record {
  machine_id = 1;
  queues = queues;
  last_decay_update = 0;
  running_session = none;
  config = machine_config;
  notified = false;
  task_cancel_requests = [];
  session_cancel_requests = [];
  suspension = none;
  suspend_cancel_requests = [];
  unavailable = false;
}

abbrev pub user_with : String → ℕ → ℕ → ℕ → User
user_with name items bytes idle = record {
  name = name;
  active_items = items;
  active_payload_bytes = bytes;
  idle_since = idle;
}

abbrev pub users : UserMap
users = record {
  users = (1, user_with "alice" 0 0 5) ∷ (2, user_with "bob" 0 0 7) ∷ [];
  users_by_name = ("alice", 1) ∷ ("bob", 2) ∷ [];
}

abbrev pub project : Project
project = record { id = 1; name = "p"; active = true; consumed = 0; limit = 1000; in_flight = 0 }

abbrev pub task_config : TaskConfig
task_config = record {
  machine_id = 1;
  parent = Tasks.TaskParent.project 1;
  user_id = 1;
  kind = circuit;
  payload = 7 ∷ 8 ∷ 9 ∷ [];
  time_limit = 50;
  notifier = none;
}

abbrev pub session_config : SessionConfig
session_config = record {
  machine_id = 1;
  project_id = 1;
  owner_id = 2;
  time_limit = 500;
  notifier = none;
}

-- No task and no session yet.
abbrev pub idle_core : Core ℕ
idle_core = record {
  machine_map = record { machines = (1, machine_with []) ∷ []; machines_by_name = ("m", 1) ∷ [] };
  task_map = [];
  session_map = [];
  project_map = record { projects = (1, project) ∷ []; projects_by_name = ("p", 1) ∷ [] };
  user_map = users;
  max_user_active_items = 3;
  max_user_active_payload = 100;
}
