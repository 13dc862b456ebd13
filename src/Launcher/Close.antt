-- ===== src/Launcher/Close.antt =====
-- runner/src/launcher.rs: closing a session, open or queued. `none` is a panic.
use qscheduler.Base.{ℕ, Bool, Option, none, some, List, [], ◌∷◌, Map, get, nat_key, ◌>>=◌}
use qscheduler.Session.{Session, close}
use qscheduler.Task.{cancelled}
use qscheduler.Machine.{F64, Machine}
use qscheduler.Machine.Removal.{close_session, pop_session_task}
use qscheduler.Machine.FairShare.{decay_update, record_closed_session}
use qscheduler.Launcher.{
  State, Clock, RunningSession, session_closed, tell_db, get_machine, put_machine, put_session,
  notify_task, notify_session, set_task_state,
}
use qscheduler.Launcher.Check.{request_backend_cancel}

module _ {U : Type 0} where
  -- Every submitted task is asked to be cancelled.
  unfoldable pub cancel_submitted : State U → Map ℕ Bool → State U × Map ℕ Bool
  cancel_submitted st [] = (st, [])
  cancel_submitted st ((id, cancelling) ∷ submitted) =
      let (st', cancelling') = request_backend_cancel st id cancelling in
      let (st'', submitted') = cancel_submitted st' submitted in
      (st'', (id, cancelling') ∷ submitted')

  abbrev pub cancel_all_submitted : State U → State U
  cancel_all_submitted st =
      let (st', submitted) = cancel_submitted st st.submitted_tasks in
      record st' { submitted_tasks = submitted }

  -- One task of the session's queue.
  unfoldable pub cancel_queued : Clock → State U → ℕ → Option (State U)
  cancel_queued clock st id = do
    (st', t) ←
        set_task_state clock.instant st id
          (cancelled (record { consumed = 0; timestamp = clock.utc }))
    notify_task st' t t.state

  -- The loop over the session's queue, with as many rounds as the queue is long, and what it has
  -- cancelled.
  unfoldable pub cancel_queue : Clock → List ℕ → State U → Option (State U × List ℕ)
  cancel_queue clock [] st = some (st, [])
  cancel_queue clock (_ ∷ rounds) st = do
    machine ← get_machine st
    let (popped, machine') = pop_session_task machine
    elim popped [
      | none ↦ some (st, [])
      | some id ↦ do
        st' ← cancel_queued clock (put_machine st machine') id
        (st'', ids) ← cancel_queue clock rounds st'
        some (st'', id ∷ ids)
    ]

  abbrev pub session_queue : Machine U → List ℕ
  session_queue machine = elim machine.running_session [ none ↦ [] | some s ↦ s.queue ]

  -- `Session::close` of a session in memory.
  unfoldable pub close_in_memory : Clock → State U → ℕ → Option (State U × Session)
  close_in_memory clock st session_id = do
    s ← get session_id st.core.session_map
    (closed, users) ← close clock.instant s clock.utc st.core.user_map
    some (
      put_session (record st { core = record st.core { user_map = users } }) session_id closed,
      closed,
    )

  -- A session that never opened, gone from its queue.
  unfoldable pub close_queued_session : Clock → State U → ℕ → Option (State U)
  close_queued_session clock st session_id = do
    (st', closed) ← close_in_memory clock st session_id
    st'' ← notify_session st' closed
    some (tell_db st'' (session_closed session_id 0 clock.utc []))

module _ {U : Type 0} ⦃f : F64 U⦄ where
  unfoldable pub close_running_session : Clock → State U → RunningSession → ℕ → Option (State U)
  close_running_session clock st s exec_time = do
    (st', ended) ← close_in_memory clock (cancel_all_submitted st) s.session_id
    let consumed = record ended { consumed = exec_time }
    machine ← get_machine st'
    (st'', ids) ← cancel_queue clock (session_queue machine) (put_session st' s.session_id consumed)
    drained ← get_machine st''
    free ← close_session drained
    let charged =
        record_closed_session (decay_update clock.instant free) consumed.config.owner_id exec_time
    told ← notify_session (put_machine st'' charged) consumed
    some (tell_db told (session_closed s.session_id exec_time clock.utc ids))
