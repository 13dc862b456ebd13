-- ===== src/Launcher/Message.antt =====
-- runner/src/launcher.rs: the messages of the backend. `none` is a panic. What a handler returns
-- beside the state says whether the round of the loop goes on after it: the report that a task is
-- running ends it.
pub mod Tracked
pub mod Final
pub mod Mirrored
pub mod Written
use qscheduler.Base.{
  ℕ, ◌-◌, ◌%◌, String, Bool, true, false, Option, none, some, get, insert, remove, max,
  whole_micros, nat_key, ◌>>=◌,
}
use qscheduler.Task.{
  Task, TaskState, CompletedState, waiting, running, finished, failed, cancelled, is_final,
  project_id, set_backend_id, set_started_at,
}
use qscheduler.Machine.{F64}
use qscheduler.Launcher.{
  State, Clock, RunningTask, DbUpdate, task_started, task_finished, task_failed, task_cancelled,
  cancel_task, ask, tell_db, put_task, notify_task, set_task_state,
}
use qscheduler.Launcher as Launchers
use qscheduler.Launcher.Estimate.{new, raise_elapsed, elapsed_since_backend_start}
use qscheduler.Launcher.Fail.{settle, leave_backend, charged_by}

pub data FromBackendMessage : Type 0 where
  task_submitted : ℕ → String → FromBackendMessage
  task_state_change : ℕ → TaskState → FromBackendMessage
  execution_started : ℕ → ℕ → ℕ → FromBackendMessage

-- What a task that was cancelled for a reason is taken to have failed with.
unfoldable pub relabel : Option String → TaskState → TaskState
relabel (some reason) (cancelled completed) = failed completed reason
relabel (some _) waiting = waiting
relabel (some _) running = running
relabel (some _) (finished completed) = finished completed
relabel (some _) (failed completed error) = failed completed error
relabel none state = state

unfoldable pub final_update : ℕ → TaskState → Option (DbUpdate × CompletedState)
final_update id waiting = none
final_update id running = none
final_update id (finished completed) = some (task_finished id completed, completed)
final_update id (failed completed error) = some (task_failed id completed error, completed)
final_update id (cancelled completed) = some (task_cancelled id completed, completed)

module _ {U : Type 0} where
  unfoldable pub on_submitted : State U → ℕ → String → Option (State U)
  on_submitted st id backend_id = elim (get id st.submitted_tasks) [
    | none ↦ some (ask st (cancel_task id backend_id))
    | some true ↦ some (ask st (cancel_task id backend_id))
    | some false ↦ do
      t ← get id st.core.task_map
      some (
          tell_db (put_task st id (set_backend_id t backend_id))
            (Launchers.task_submitted id backend_id))
  ]

  abbrev pub track : State U → ℕ → RunningTask → State U
  track st id rt = record st { running_tasks = insert id rt st.running_tasks }

  -- The estimate of a running task: raised, or new for a task that is not being cancelled.
  unfoldable pub estimate : Clock → State U → Task → ℕ → Bool → ℕ → State U
  estimate clock st t id cancelling bound = elim (get id st.running_tasks) [
    | some rt ↦ track st id (raise_elapsed clock.instant rt bound)
    | none ↦ elim cancelling [
      | true ↦ st
      | false ↦
          track st id (new clock.instant bound t.config.time_limit (project_id t.config.parent))
    ]
  ]

  unfoldable pub start_task : State U → Task → ℕ → Bool → ℕ → State U
  start_task st t id true started_at = st
  start_task st t id false started_at = elim t.started_at [
    | some _ ↦ st
    | none ↦ tell_db (put_task st id (set_started_at t started_at)) (task_started id started_at)
  ]

  unfoldable pub on_started : Clock → State U → ℕ → ℕ → ℕ → Option (State U)
  on_started clock st id reported observed_at = elim (get id st.submitted_tasks) [
    | none ↦ some st
    | some cancelling ↦ do
      t ← get id st.core.task_map
      let started_at = whole_micros reported
      let bound =
          max (clock.instant - observed_at)
            (elapsed_since_backend_start clock.utc started_at st.max_clock_skew)
      some (start_task (estimate clock st t id cancelling bound) t id cancelling started_at)
  ]

module _ {U : Type 0} ⦃f : F64 U⦄ where
  -- A submitted task in a final state, of which `final_update` tells the database.
  unfoldable pub finish :
      Clock → State U → ℕ → TaskState → DbUpdate × CompletedState → Option (State U)
  finish clock st id state (update, completed) = do
    let gone = record st { submitted_tasks = remove id st.submitted_tasks }
    left ← leave_backend clock (tell_db gone update) id completed.consumed
    t ← get id left.core.task_map
    told ← notify_task left t state
    (ended, t') ← set_task_state clock.instant told id state
    settle (record ended { running_tasks = remove id ended.running_tasks })
        (project_id t'.config.parent) (charged_by (get id ended.running_tasks)) completed.consumed

  unfoldable pub on_final : Clock → State U → ℕ → TaskState → Option (State U)
  on_final clock st id state = do
    let state' = relabel (get id st.fail_reasons) state
    final ← final_update id state'
    finish clock (record st { fail_reasons = remove id st.fail_reasons }) id state' final

  unfoldable pub on_state_change : Clock → State U → ℕ → TaskState → Option (State U × Bool)
  on_state_change clock st id state = elim (get id st.submitted_tasks) [
    | none ↦ some (st, true)
    | some _ ↦ elim (is_final state) [
      | true ↦ do st' ← on_final clock st id state; some (st', true)
      | false ↦ elim state [
        | running ↦ do (st', _) ← set_task_state clock.instant st id running; some (st', false)
        | waiting ↦ none
        | finished _ ↦ none
        | failed _ _ ↦ none
        | cancelled _ ↦ none
      ]
    ]
  ]

  unfoldable pub handle_message : Clock → State U → FromBackendMessage → Option (State U × Bool)
  handle_message clock st (task_submitted id backend_id) = do
    st' ← on_submitted st id backend_id
    some (st', true)
  handle_message clock st (task_state_change id state) = on_state_change clock st id state
  handle_message clock st (execution_started id started_at observed_at) = do
    st' ← on_started clock st id started_at observed_at
    some (st', true)
