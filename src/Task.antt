-- ===== src/Task.antt =====
-- runner/src/task.rs: tasks and the map of those in memory. A payload is its bytes; times of day
-- and durations are in nanoseconds; the monotonic clock is the argument `now`. `none` is a panic.
pub mod Final
use qscheduler.Base.{
  ℕ, ◌-◌, String, Bool, true, false, Option, none, some, List, [], Map, length, insert, retain,
  nat_key, ◌>>=◌,
}
use qscheduler.User.{UserMap, task_deactivated}
use qscheduler.Session.{is_recent}

pub record CompletedState : Type 0 where
  pub consumed : ℕ
  pub timestamp : ℕ

pub data TaskState : Type 0 where
  waiting running : TaskState
  finished : CompletedState → TaskState
  failed : CompletedState → String → TaskState
  cancelled : CompletedState → TaskState

unfoldable pub is_final : TaskState → Bool
is_final waiting = false
is_final running = false
is_final (finished _) = true
is_final (failed _ _) = true
is_final (cancelled _) = true

unfoldable pub completed_of : TaskState → Option CompletedState
completed_of waiting = none
completed_of running = none
completed_of (finished c) = some c
completed_of (failed c _) = some c
completed_of (cancelled c) = some c

pub data TaskKind : Type 0 where
  circuit pulse : TaskKind

pub data TaskParent : Type 0 where
  session : ℕ → TaskParent
  project : ℕ → TaskParent

-- `TaskParent::new`: exactly one of the two must be given.
unfoldable pub parent_new : Option ℕ → Option ℕ → Option TaskParent
parent_new (some s) none = some (session s)
parent_new none (some p) = some (project p)
parent_new none none = none
parent_new (some _) (some _) = none

unfoldable pub session_id : TaskParent → Option ℕ
session_id (session s) = some s
session_id (project _) = none

unfoldable pub project_id : TaskParent → Option ℕ
project_id (session _) = none
project_id (project p) = some p

pub record TaskConfig : Type 0 where
  pub machine_id : ℕ
  pub parent : TaskParent
  pub user_id : ℕ
  pub kind : TaskKind
  pub payload : List ℕ
  pub time_limit : ℕ
  pub notifier : Option ℕ

pub record Task : Type 0 where
  pub id : ℕ
  pub state : TaskState
  pub backend_id : Option String
  pub created_at : ℕ
  pub started_at : Option ℕ
  pub finished_on : Option ℕ
  pub config : TaskConfig

unfoldable pub new : ℕ → ℕ → TaskConfig → Task
new id created_at config = record {
  id = id;
  state = waiting;
  backend_id = none;
  created_at = created_at;
  started_at = none;
  finished_on = none;
  config = config;
}

unfoldable pub set_started_at : Task → ℕ → Task
set_started_at t started_at = record t { started_at = some started_at }

unfoldable pub set_backend_id : Task → String → Task
set_backend_id t backend_id = record t { backend_id = some backend_id }

-- The first final state stops counting the task as its user's.
abbrev pub give_back : ℕ → Task → UserMap → Option (Task × UserMap)
give_back now t users = elim t.finished_on [
  | some _ ↦ some (t, users)
  | none ↦ do
    users' ← task_deactivated now users t.config.user_id (length t.config.payload)
    some (record t { finished_on = some now }, users')
]

abbrev pub drop_payload : TaskConfig → TaskConfig
drop_payload c = record c { payload = [] }

unfoldable pub set_state : ℕ → Task → TaskState → UserMap → Option (Task × UserMap)
set_state now t state users = elim (is_final state) [
  | false ↦ some (record t { state = state }, users)
  | true ↦ elim (give_back now t users) [
    | none ↦ none
    | some (t', users') ↦
        some (record t' { config = drop_payload t'.config; state = state }, users')
  ]
]

abbrev pub TaskMap : Type 0
TaskMap = Map ℕ Task

unfoldable pub insert_task : TaskMap → Task → TaskMap
insert_task m t = insert t.id t m

unfoldable pub evict_finished : ℕ → ℕ → TaskMap → TaskMap × ℕ
evict_finished now retention m =
    let kept = retain (λ t. is_recent now retention t.finished_on) m in
    (kept, length m - length kept)
