-- ===== src/Launcher/Fail.antt =====
-- runner/src/launcher.rs: `FailContext`, which fails tasks with the error of a suspension.
pub mod Ended
use qscheduler.Base.{
  ℕ, String, Bool, true, false, ◌&&◌, Option, none, some, get, remove, min, nat_eq, if◌then◌else◌,
  nat_key, ◌>>=◌,
}
use qscheduler.Project.{settle_in_flight, change_project}
use qscheduler.Task.{CompletedState, failed, project_id}
use qscheduler.Machine.{F64}
use qscheduler.Machine.FairShare.{decay_update, record_finished_task_in_backend}
use qscheduler.Launcher.{
  State, Clock, RunningTask, task_failed, cancel_task, ask, tell_db, get_machine, put_machine,
  notify_task, set_task_state,
}
use qscheduler.Launcher.Estimate.{elapsed}

-- What a task has run for, and what it has been charged: nothing if it was not running.
abbrev pub consumed_by : ℕ → Option RunningTask → ℕ
consumed_by now none = 0
consumed_by now (some rt) = min (elapsed now rt) rt.time_limit

abbrev pub charged_by : Option RunningTask → ℕ
charged_by none = 0
charged_by (some rt) = rt.charged

module _ {U : Type 0} where
  -- Settling the time of a task with its project, where there is anything to settle.
  unfoldable pub settle : State U → Option ℕ → ℕ → ℕ → Option (State U)
  settle st none charged consumed = some st
  settle st (some id) charged consumed =
      if nat_eq consumed 0 && nat_eq charged 0 then some st else do
        projects ← change_project st.core.project_map id (λ p. settle_in_flight p charged consumed)
        some (record st { core = record st.core { project_map = projects } })

  unfoldable pub fail : Clock → String → State U → ℕ → CompletedState → ℕ → Option (State U)
  fail clock error st id completed charged = do
    (st', t) ← set_task_state clock.instant st id (failed completed error)
    settled ← settle st' (project_id t.config.parent) charged completed.consumed
    told ← notify_task settled t t.state
    some (tell_db told (task_failed id completed error))

  unfoldable pub fail_queued_task : Clock → String → State U → ℕ → Option (State U)
  fail_queued_task clock error st id =
      fail clock error st id (record { consumed = 0; timestamp = clock.utc }) 0

  abbrev pub untrack : State U → ℕ → State U
  untrack st id = record st {
    submitted_tasks = remove id st.submitted_tasks;
    fail_reasons = remove id st.fail_reasons;
    running_tasks = remove id st.running_tasks;
  }

  -- A task that is not being cancelled is, if the backend knows it.
  abbrev pub cancel_known : State U → ℕ → Bool → Option (State U)
  cancel_known st id true = some st
  cancel_known st id false = do
    t ← get id st.core.task_map
    elim t.backend_id [
      | none ↦ some st
      | some backend_id ↦ some (ask st (cancel_task id backend_id))
    ]

module _ {U : Type 0} ⦃f : F64 U⦄ where
  -- The task leaves the backend in its machine's fair share, after a decay.
  unfoldable pub leave_backend : Clock → State U → ℕ → ℕ → Option (State U)
  leave_backend clock st id exec_time = do
    t ← get id st.core.task_map
    machine ← get_machine st
    machine' ←
        record_finished_task_in_backend (decay_update clock.instant machine) t.config exec_time
    some (put_machine st machine')

  unfoldable pub fail_submitted_task : Clock → String → State U → ℕ → Option (State U)
  fail_submitted_task clock error st id = elim (get id st.submitted_tasks) [
    | none ↦ some st
    | some cancelling ↦ do
      let rt = get id st.running_tasks
      let consumed = consumed_by clock.instant rt
      asked ← cancel_known (untrack st id) id cancelling
      left ← leave_backend clock asked id consumed
      fail clock error left id (record { consumed = consumed; timestamp = clock.utc })
          (charged_by rt)
  ]
