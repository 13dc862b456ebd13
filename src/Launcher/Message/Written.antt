-- ===== src/Launcher/Message/Written.antt =====
-- What the launcher's handling of the backend's messages keeps in memory, and what it has the
-- database write (runner/src/launcher.rs, runner/src/db.rs).
use qscheduler.Base.{
  ℕ, ◌≡◌, refl, sym, inl, inr, Bool, true, false, some, List, get, max, ◌-◌, insert, nat_key, arith,
  String, subst, Option-cases, whole_micros,
}
use qscheduler.Task.{
  Task, TaskState, waiting, running, finished, failed, cancelled, is_final, set_state,
  set_backend_id, set_started_at,
}
use qscheduler.Machine.{F64, Machine}
use qscheduler.Core.Rows.{or_else}
use qscheduler.Launcher.{
  State, Clock, DbUpdate, RunningTask, ask, tell_db, put_task, set_task_state,
}
use qscheduler.Launcher as Launchers
use qscheduler.Launcher.Estimate.{elapsed_since_backend_start}
use qscheduler.Launcher.Message.{
  FromBackendMessage, task_submitted, task_state_change, execution_started, relabel, on_submitted,
  estimate, start_task, on_started, on_state_change, handle_message,
}
use qscheduler.Launcher.Message.Tracked.{IsTracked}
use qscheduler.Launcher.Message.Final.{on_state_change-Ended}
use qscheduler.Launcher.Message.Mirrored.{submitted-Mirrors, started-Mirrors, running-Mirrors}
use qscheduler.Db.{Db, served}
use qscheduler.Db.Updates.{write_update, write_updates, update_task_backend_id, update_task_started}
use qscheduler.Db.Updates.InSync.{
  InSync, SameTask, write_updates-append, change-InSync, keep-InSync, final-InSync,
  set_state-SameTask,
}

-- The database once the launcher's updates are written.
abbrev pub written : ℕ → Db → List DbUpdate → Db
written now db updates = write_updates (λ _. served) now db updates

abbrev pub task_of : FromBackendMessage → ℕ
task_of (task_submitted id backend_id) = id
task_of (task_state_change id state) = id
task_of (execution_started id started_at observed_at) = id

-- A backend never reports a task as waiting.
abbrev pub is_report : FromBackendMessage → Bool
is_report (task_submitted id backend_id) = true
is_report (execution_started id started_at observed_at) = true
is_report (task_state_change id waiting) = false
is_report (task_state_change id running) = true
is_report (task_state_change id (finished c)) = true
is_report (task_state_change id (failed c error)) = true
is_report (task_state_change id (cancelled c)) = true

module _ {U : Type 0} ⦃f : F64 U⦄ where
  -- The launcher tracks the task, which has not ended.
  abbrev pub IsCurrent : State U → ℕ → Type 0
  IsCurrent st id = (t : Task) × (m : Machine U) × IsTracked st id t m × (is_final t.state ≡ false)

  abbrev pub IsWritten : ℕ → Db → State U → Type 0
  IsWritten now db st = InSync st.core.task_map (written now db st.db_updates)

  on_submitted-IsWritten :
      (now : ℕ) (db : Db) (st : State U) (id : ℕ) (backend_id : String)
      → IsWritten now db st
      → ((cancelling : Bool) → get id st.submitted_tasks ≡ some cancelling → IsCurrent st id)
      → (st' : State U) × (on_submitted st id backend_id ≡ some st') × IsWritten now db st'
  unfolding on_submitted write_update update_task_backend_id set_backend_id
  on_submitted-IsWritten now db st id backend_id sync current =
      elim (Option-cases (get id st.submitted_tasks)) [
        | inl gone ↦
            (ask st (Launchers.cancel_task id backend_id), rw (on_submitted, gone) refl, sync)
        | inr (true, leaving) ↦
            (ask st (Launchers.cancel_task id backend_id), rw (on_submitted, leaving) refl, sync)
        | inr (false, kept) ↦
            let (t, m, tracked, going) = current false kept in
            let update = Launchers.task_submitted id backend_id in
            let changed =
              change-InSync st.core.task_map (written now db st.db_updates) id t
                (set_backend_id t backend_id) (λ row. record row { backend_id = some backend_id })
                sync tracked.known refl (submitted-Mirrors t backend_id) in
            (
              tell_db (put_task st id (set_backend_id t backend_id)) update,
              rw (on_submitted, kept, tracked.known) refl,
              subst (InSync (insert id (set_backend_id t backend_id) st.core.task_map))
                  (sym (write_updates-append (λ _. served) now db st.db_updates update)) changed,
            )
      ]

  -- The estimate of a running task is of no concern to the database.
  estimate-same :
      (clock : Clock) (st : State U) (t : Task) (id : ℕ) (cancelling : Bool) (bound : ℕ)
      → ((estimate clock st t id cancelling bound).core ≡ st.core)
        × ((estimate clock st t id cancelling bound).db_updates ≡ st.db_updates)
  unfolding estimate
  estimate-same clock st t id cancelling bound = (ground arith, ground arith)

  start_task-IsWritten :
      (now : ℕ) (db : Db) (st : State U) (id : ℕ) (t : Task) (cancelling : Bool) (reported : ℕ)
      → IsWritten now db st
      → get id st.core.task_map ≡ some t
      → IsWritten now db (start_task st t id cancelling (whole_micros reported))
  unfolding start_task write_update update_task_started set_started_at
  start_task-IsWritten now db st id t true reported sync there = sync
  start_task-IsWritten now db st id t false reported sync there = elim (Option-cases t.started_at) [
    | inr (at, started) ↦ rw (started, start_task) sync
    | inl unset ↦
        let t' = set_started_at t (whole_micros reported) in
        let update = Launchers.task_started id (whole_micros reported) in
        let changed =
          change-InSync st.core.task_map (written now db st.db_updates) id t t'
            (λ row. record row {
              started_at = some (or_else row.started_at (whole_micros (whole_micros reported)));
            })
            sync there refl (λ row. started-Mirrors t reported row unset) in
        rw (unset, start_task)
          (subst (InSync (insert id t' st.core.task_map))
            (sym (write_updates-append (λ _. served) now db st.db_updates update)) changed)
  ]

  on_started-IsWritten :
      (clock : Clock) (now : ℕ) (db : Db) (st : State U) (id reported observed_at : ℕ)
      → IsWritten now db st
      → ((cancelling : Bool) → get id st.submitted_tasks ≡ some cancelling → IsCurrent st id)
      → (st' : State U) × (on_started clock st id reported observed_at ≡ some st')
        × IsWritten now db st'
  unfolding on_started
  on_started-IsWritten clock now db st id reported observed_at sync current =
      elim (Option-cases (get id st.submitted_tasks)) [
        | inl gone ↦ (st, rw (on_started, gone) refl, sync)
        | inr (cancelling, kept) ↦
            let (t, m, tracked, going) = current cancelling kept in
            let bound =
              max (clock.instant - observed_at)
                (elapsed_since_backend_start clock.utc (whole_micros reported) st.max_clock_skew) in
            let estimated = estimate clock st t id cancelling bound in
            let (same_core, same_updates) = estimate-same clock st t id cancelling bound in
            (
              start_task estimated t id cancelling (whole_micros reported),
              rw (on_started, kept, tracked.known) refl,
              start_task-IsWritten now db estimated id t cancelling reported
                  (rw (same_core, same_updates) sync) (rw same_core tracked.known),
            )
      ]

  on_running-IsWritten :
      (clock : Clock) (now : ℕ) (db : Db) (st : State U) (id : ℕ) (t : Task)
      → IsWritten now db st
      → get id st.core.task_map ≡ some t
      → is_final t.state ≡ false
      → (st' : State U) × (t' : Task) × (set_task_state clock.instant st id running
          ≡ some (st', t'))
        × IsWritten now db st'
  unfolding set_task_state set_state is_final
  on_running-IsWritten clock now db st id t sync there going =
      let t' : Task = record t { state = running } in
      let same : SameTask t t' = record {
        id = refl;
        machine_id = refl;
        parent = refl;
        user_id = refl;
        kind = refl;
        time_limit = refl;
        notifier = refl;
        created_at = refl;
        backend_id = refl;
        started_at = refl;
      } in
      (
        put_task st id t',
        t',
        rw (set_task_state, there) refl,
        keep-InSync st.core.task_map (written now db st.db_updates) id t t' sync there refl
            (λ row. running-Mirrors t t' row same refl going),
      )

  on_end-IsWritten :
      (clock : Clock) (now : ℕ) (db : Db) (st : State U) (id : ℕ) (t : Task) (m : Machine U)
      (state : TaskState) (cancelling : Bool)
      → IsWritten now db st
      → IsTracked st id t m
      → is_final t.state ≡ false
      → get id st.submitted_tasks ≡ some cancelling
      → is_final state ≡ true
      → (st' : State U) × (goes_on : Bool) × (on_state_change clock st id state
          ≡ some (st', goes_on))
        × IsWritten now db st'
  on_end-IsWritten clock now db st id t m state cancelling sync tracked going kept ends =
      let (st', (update, completed), done, told, ended, deaf) =
        on_state_change-Ended clock st id t m state cancelling tracked kept ends in
      let (at, t', users, sets, tasks) = ended.tasks in
      let final_state = relabel (get id st.fail_reasons) state in
      let (same, became) = set_state-SameTask at t t' final_state st.core.user_map users sets in
      let changed =
        final-InSync now st.core.task_map (written now db st.db_updates) id t t' final_state update
          completed sync tracked.known same became going told in
      (
        st',
        true,
        done,
        rw (tasks, ended.updates, write_updates-append (λ _. served) now db st.db_updates update)
            changed,
      )

  on_state_change-IsWritten :
      (clock : Clock) (now : ℕ) (db : Db) (st : State U) (id : ℕ) (state : TaskState)
      (cancelling : Bool)
      → IsWritten now db st
      → is_report (task_state_change id state) ≡ true
      → IsCurrent st id
      → get id st.submitted_tasks ≡ some cancelling
      → (st' : State U) × (goes_on : Bool) × (on_state_change clock st id state
          ≡ some (st', goes_on))
        × IsWritten now db st'
  unfolding on_state_change is_final
  on_state_change-IsWritten clock now db st id waiting cancelling sync report current kept = cc
  on_state_change-IsWritten clock now db st id running cancelling sync report (t, m, tracked, going)
        kept =
      let (st', t', done, sync') =
        on_running-IsWritten clock now db st id t sync tracked.known going in
      (st', false, rw (on_state_change, kept, done) refl, sync')
  on_state_change-IsWritten clock now db st id (finished c) cancelling sync report
        (t, m, tracked, going) kept =
      on_end-IsWritten clock now db st id t m (finished c) cancelling sync tracked going kept refl
  on_state_change-IsWritten clock now db st id (failed c error) cancelling sync report
        (t, m, tracked, going) kept =
      on_end-IsWritten clock now db st id t m (failed c error) cancelling sync tracked going kept
        refl
  on_state_change-IsWritten clock now db st id (cancelled c) cancelling sync report
        (t, m, tracked, going) kept =
      on_end-IsWritten clock now db st id t m (cancelled c) cancelling sync tracked going kept refl

  -- Handling a message of the backend keeps every task in memory as its row will be once the
  -- launcher's updates are written, in all that the API shows, but that the database has a running
  -- task as waiting. It does not panic if the launcher tracks the task of the message, if it was
  -- submitted, and that has not ended, and the message reports no task as waiting.
  pub handle_message-IsWritten :
      (clock : Clock) (now : ℕ) (db : Db) (st : State U) (message : FromBackendMessage)
      → IsWritten now db st
      → is_report message ≡ true
      → ((cancelling : Bool)
          → get (task_of message) st.submitted_tasks ≡ some cancelling
          → IsCurrent st (task_of message))
      → (st' : State U) × (goes_on : Bool) × (handle_message clock st message ≡ some (st', goes_on))
        × IsWritten now db st'
  unfolding handle_message on_state_change
  handle_message-IsWritten clock now db st (task_submitted id backend_id) sync report current =
      let (st', done, sync') = on_submitted-IsWritten now db st id backend_id sync current in
      (st', true, rw (handle_message, done) refl, sync')
  handle_message-IsWritten clock now db st (execution_started id reported observed_at) sync report
        current =
      let (st', done, sync') =
        on_started-IsWritten clock now db st id reported observed_at sync current in
      (st', true, rw (handle_message, done) refl, sync')
  handle_message-IsWritten clock now db st (task_state_change id state) sync report current =
      elim (Option-cases (get id st.submitted_tasks)) [
        | inl gone ↦ (st, true, rw (handle_message, on_state_change, gone) refl, sync)
        | inr (cancelling, kept) ↦
            on_state_change-IsWritten clock now db st id state cancelling sync report
              (current cancelling kept) kept
      ]
