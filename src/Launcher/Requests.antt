-- ===== src/Launcher/Requests.antt =====
-- runner/src/launcher.rs: the requests that the machine has collected for its launcher. `none` is
-- a panic. The tasks of a map are taken in the order of its list.
use qscheduler.Base.{
  ℕ, ◌-◌, String, Bool, false, Option, none, some, List, [], ◌∷◌, Map, get, insert, ltb, nat_eq,
  if◌then◌else◌, nat_key, ◌>>=◌,
}
use qscheduler.Project.{update_consumed, change_project}
use qscheduler.Task.{Task, CompletedState, cancelled}
use qscheduler.Task as Tasks
use qscheduler.Suspension.{SuspendCancel, waiting, all}
use qscheduler.Suspension as Suspensions
use qscheduler.Machine.{
  F64, QueueItem, task, session, take_task_cancel_requests, take_session_cancel_requests,
  take_suspend_cancel_requests,
}
use qscheduler.Machine.Removal.{
  remove_queued_task, remove_queued_session, take_queued_items, pop_session_task,
}
use qscheduler.Launcher.{
  State, Clock, RunningSession, task_cancelled, tell_db, get_machine, put_machine, notify_task,
  set_task_state, each,
}
use qscheduler.Launcher.Check.{request_backend_cancel}
use qscheduler.Launcher.Close.{close_queued_session, close_running_session, session_queue}
use qscheduler.Launcher.Fail.{fail_queued_task, fail_submitted_task}

abbrev pub keys : {V : Type 0} → Map ℕ V → List ℕ
keys [] = []
keys ((id, _) ∷ m) = id ∷ keys m

abbrev pub is_of_session : ℕ → Option Task → Bool
is_of_session session_id none = false
is_of_session session_id (some t) = elim (Tasks.session_id t.config.parent) [
  | none ↦ false
  | some s ↦ nat_eq s session_id
]

module _ {U : Type 0} where
  -- The session's time since its last checkpoint is consumed by its project. A duration that
  -- would be negative is a panic.
  unfoldable pub consume : ℕ → State U → RunningSession → Option (State U × ℕ)
  consume now st s =
      let exec_time = now - s.opened_at in
      if ltb exec_time s.exec_time then none else do
        projects ←
            change_project st.core.project_map s.project_id
              (λ p. update_consumed p (exec_time - s.exec_time))
        some (record st { core = record st.core { project_map = projects } }, exec_time)

  unfoldable pub cancel_waiting_session : Clock → State U → ℕ → Option (State U)
  cancel_waiting_session clock st session_id = do
    machine ← get_machine st
    s ← get session_id st.core.session_map
    let (machine', removed) = remove_queued_session machine session_id s.config.owner_id
    if removed then close_queued_session clock (put_machine st machine') session_id else some st

  -- The rest of a task's cancellation, once it is out of its queue.
  unfoldable pub cancel_removed : Clock → State U → ℕ → Option (State U)
  cancel_removed clock st id = do
    let completed : CompletedState = record { consumed = 0; timestamp = clock.utc }
    (st', t) ← set_task_state clock.instant st id (cancelled completed)
    told ← notify_task st' t t.state
    some (tell_db told (task_cancelled id completed))

  unfoldable pub cancel_waiting_task : Clock → State U → ℕ → Option (State U)
  cancel_waiting_task clock st id = do
    machine ← get_machine st
    t ← get id st.core.task_map
    let (machine', removed) = remove_queued_task machine id t.config.user_id
    if removed then cancel_removed clock (put_machine st machine') id else some st

  unfoldable pub cancel_task_request : Clock → State U → ℕ → Option (State U)
  cancel_task_request clock st id = elim (get id st.submitted_tasks) [
    | none ↦ cancel_waiting_task clock st id
    | some cancelling ↦
        let (st', cancelling') = request_backend_cancel st id cancelling in
        some (record st' { submitted_tasks = insert id cancelling' st'.submitted_tasks })
  ]

  unfoldable pub drop_item : Clock → String → State U → QueueItem → Option (State U)
  drop_item clock error st (task id) = fail_queued_task clock error st id
  drop_item clock error st (session id) = close_queued_session clock st id

  -- Every task that waits in the session, which leaves its queue before it fails.
  unfoldable pub fail_session_queue : Clock → String → List ℕ → State U → Option (State U)
  fail_session_queue clock error [] st = some st
  fail_session_queue clock error (_ ∷ rounds) st = do
    machine ← get_machine st
    let (popped, machine') = pop_session_task machine
    elim popped [
      | none ↦ some st
      | some id ↦ do
        st' ← fail_queued_task clock error (put_machine st machine') id
        fail_session_queue clock error rounds st'
    ]

  unfoldable pub tasks_of_session : State U → ℕ → List ℕ → List ℕ
  tasks_of_session st session_id [] = []
  tasks_of_session st session_id (id ∷ ids) =
      let rest = tasks_of_session st session_id ids in
      if is_of_session session_id (get id st.core.task_map) then id ∷ rest else rest

module _ {U : Type 0} ⦃f : F64 U⦄ where
  -- The launcher's session, taken and closed.
  unfoldable pub end_session : Clock → State U → RunningSession → Option (State U)
  end_session clock st s = do
    (st', exec_time) ← consume clock.instant (record st { running_session = none }) s
    close_running_session clock st' s exec_time

  unfoldable pub cancel_session_request : Clock → State U → ℕ → Option (State U)
  cancel_session_request clock st session_id = elim st.running_session [
    | none ↦ cancel_waiting_session clock st session_id
    | some s ↦
        if nat_eq s.session_id session_id
        then end_session clock st s
        else cancel_waiting_session clock st session_id
  ]

  unfoldable pub suspend_session : Clock → String → State U → RunningSession → Option (State U)
  suspend_session clock error st s = do
    machine ← get_machine st
    st' ← fail_session_queue clock error (session_queue machine) st
    st'' ←
        each (fail_submitted_task clock error)
          (tasks_of_session st' s.session_id (keys st'.submitted_tasks)) st'
    end_session clock st'' s

  -- The waiting work: what is queued, and the open session with all its tasks.
  unfoldable pub cancel_waiting : Clock → String → State U → Option (State U)
  cancel_waiting clock error st = do
    machine ← get_machine st
    let (items, machine') = take_queued_items machine
    st' ← each (drop_item clock error) items (put_machine st machine')
    elim st'.running_session [ none ↦ some st' | some s ↦ suspend_session clock error st' s ]

  unfoldable pub suspend_cancel : Clock → State U → SuspendCancel × String → Option (State U)
  suspend_cancel clock st (Suspensions.none, error) = some st
  suspend_cancel clock st (waiting, error) = cancel_waiting clock error st
  suspend_cancel clock st (all, error) = do
    st' ← cancel_waiting clock error st
    each (fail_submitted_task clock error) (keys st'.submitted_tasks) st'

  -- The requests, taken from the machine: sessions, then tasks, then suspensions.
  unfoldable pub handle_requests : Clock → State U → Option (State U)
  handle_requests clock st = do
    machine ← get_machine st
    let (sessions, m1) = take_session_cancel_requests machine
    let (tasks, m2) = take_task_cancel_requests m1
    st1 ← each (cancel_session_request clock) sessions (put_machine st m2)
    st2 ← each (cancel_task_request clock) tasks st1
    machine' ← get_machine st2
    let (suspends, m3) = take_suspend_cancel_requests machine'
    each (suspend_cancel clock) suspends (put_machine st2 m3)
