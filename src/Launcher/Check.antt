-- ===== src/Launcher/Check.antt =====
-- runner/src/launcher.rs: the periodic check of the tasks handed to the backend.
pub mod InFlight
pub mod Limits
use qscheduler.Base.{
  ℕ, ◌-◌, String, Bool, true, false, Option, none, some, List, [], ◌∷◌, Map, get, insert, min, max,
  if◌then◌else◌, nat_key, ◌>>=◌,
}
use qscheduler.Project.{
  Project, ProjectMap, add_in_flight, change_project, find_project, is_over_limit,
}
use qscheduler.Task.{Task, project_id}
use qscheduler.Core.{Core}
use qscheduler.Launcher.{
  State, RunningTask, Request, cancel_task, ask, task_time_limit_error, project_limit_error,
}
use qscheduler.Launcher.Estimate.{elapsed, is_over_time_limit}

-- The estimate that a project is charged: no more than the task's own limit.
abbrev pub capped : ℕ → RunningTask → ℕ
capped now rt = min (elapsed now rt) rt.time_limit

-- The first loop: every running task's estimate is added to its project.
unfoldable pub charge : ℕ → RunningTask → ProjectMap → Option (RunningTask × ProjectMap)
charge now rt projects = elim rt.project_id [
  | none ↦ some (rt, projects)
  | some id ↦ do
    projects' ← change_project projects id (λ p. add_in_flight p (capped now rt - rt.charged))
    some (record rt { charged = max rt.charged (capped now rt) }, projects')
]

unfoldable pub charge_all :
    ℕ → Map ℕ RunningTask → ProjectMap → Option (Map ℕ RunningTask × ProjectMap)
charge_all now [] projects = some ([], projects)
charge_all now ((id, rt) ∷ running) projects = do
  (rt', charged) ← charge now rt projects
  (running', projects') ← charge_all now running charged
  some ((id, rt') ∷ running', projects')

abbrev pub task_project : Option Task → Option ℕ
task_project none = none
task_project (some t) = project_id t.config.parent

abbrev pub is_project_over : ProjectMap → Option ℕ → Bool
is_project_over projects none = false
is_project_over projects (some id) = elim (find_project projects id) [
  | none ↦ false
  | some p ↦ is_over_limit p
]

abbrev pub is_task_over : ℕ → Option RunningTask → Bool
is_task_over now none = false
is_task_over now (some rt) = is_over_time_limit now rt

module _ {U : Type 0} where
  -- The request to the backend, and that the task is now being cancelled. A task with no backend
  -- id yet is cancelled once its submission is confirmed.
  unfoldable pub request_backend_cancel : State U → ℕ → Bool → State U × Bool
  request_backend_cancel st id true = (st, true)
  request_backend_cancel st id false = elim (get id st.core.task_map) [
    | none ↦ (st, true)
    | some t ↦ elim t.backend_id [
      | none ↦ (st, true)
      | some backend_id ↦ (ask st (cancel_task id backend_id), true)
    ]
  ]

  -- Why a task is to fail, if it is.
  unfoldable pub fail_reason : ℕ → State U → ℕ → Option String
  fail_reason now st id =
      if is_task_over now (get id st.running_tasks)
      then some task_time_limit_error
      else if is_project_over st.core.project_map (task_project (get id st.core.task_map))
      then some project_limit_error
      else none

  unfoldable pub check_task : ℕ → State U → ℕ → Bool → State U × Bool
  check_task now st id true = (st, true)
  check_task now st id false = elim (fail_reason now st id) [
    | none ↦ (st, false)
    | some reason ↦
        request_backend_cancel (record st { fail_reasons = insert id reason st.fail_reasons }) id
          false
  ]

  -- The second loop, over the submitted tasks.
  unfoldable pub check_tasks : ℕ → State U → Map ℕ Bool → State U × Map ℕ Bool
  check_tasks now st [] = (st, [])
  check_tasks now st ((id, cancelling) ∷ submitted) =
      let (st', cancelling') = check_task now st id cancelling in
      let (st'', submitted') = check_tasks now st' submitted in
      (st'', (id, cancelling') ∷ submitted')

  unfoldable pub check_running_tasks : ℕ → State U → Option (State U)
  check_running_tasks now st = do
    (running, projects) ← charge_all now st.running_tasks st.core.project_map
    let charged = record st {
      running_tasks = running;
      core = record st.core { project_map = projects };
    }
    let (checked, submitted) = check_tasks now charged charged.submitted_tasks
    some (record checked { submitted_tasks = submitted })
