-- ===== src/Launcher/Message/Final.antt =====
-- What the backend's report of a task's end does (runner/src/launcher.rs).
use qscheduler.Base.{
  subst, ℕ, ◌≡◌, ◌∙◌, refl, Bool, true, String, Option, none, some, [], ◌∷◌, ◌++◌, get,
  get-insert_self, get-remove, insert, remove, nat_eq_iff, nat_key, arith,
}
use qscheduler.User.{UserMap}
use qscheduler.Task.{
  Task, TaskState, CompletedState, waiting, running, finished, failed, cancelled, is_final,
  project_id, set_state,
}
use qscheduler.Task.Final.{Follows, set_state-Follows}
use qscheduler.Machine.{F64, Machine}
use qscheduler.Launcher.{
  State, Clock, DbUpdate, task_finished, task_failed, task_cancelled, put_machine, tell_db,
}
use qscheduler.Launcher.Fail.{charged_by}
use qscheduler.Launcher.Message.{relabel, final_update, finish, on_final, on_state_change}
use qscheduler.Launcher.Message.Tracked.{
  IsTracked, IsTracked-same, notify_task-total, set_task_state-some, settle-total,
  leave_backend-total,
}

-- The state that a task gets by a report of its end, when a reason to fail is on record for it or
-- not.
pub data EndsAs (reason : Option String) : TaskState → TaskState → Type 0 where
  as_finished : (c : CompletedState) → EndsAs reason (finished c) (finished c)
  as_failed :
      (c : CompletedState) (error : String) → EndsAs reason (failed c error) (failed c error)
  as_cancelled : (c : CompletedState) → reason ≡ none → EndsAs reason (cancelled c) (cancelled c)
  for_reason :
      (c : CompletedState) (error : String)
      → reason ≡ some error
      → EndsAs reason (cancelled c) (failed c error)

-- What the database is told of a task that has ended in a state.
pub data Tells (id : ℕ) : TaskState → DbUpdate → Type 0 where
  of_finished : (c : CompletedState) → Tells id (finished c) (task_finished id c)
  of_failed :
      (c : CompletedState) (error : String) → Tells id (failed c error) (task_failed id c error)
  of_cancelled : (c : CompletedState) → Tells id (cancelled c) (task_cancelled id c)

relabel-EndsAs :
    (reason : Option String) (state : TaskState)
    → is_final state ≡ true
    → EndsAs reason state (relabel reason state)
unfolding relabel is_final
relabel-EndsAs reason waiting final = cc
relabel-EndsAs reason running final = cc
relabel-EndsAs none (finished c) final = as_finished c
relabel-EndsAs (some error) (finished c) final = as_finished c
relabel-EndsAs none (failed c e) final = as_failed c e
relabel-EndsAs (some error) (failed c e) final = as_failed c e
relabel-EndsAs none (cancelled c) final = as_cancelled c refl
relabel-EndsAs (some error) (cancelled c) final = for_reason c error refl

final_update-Tells :
    (id : ℕ) (state : TaskState) (update : DbUpdate) (completed : CompletedState)
    → final_update id state ≡ some (update, completed)
    → Tells id state update
unfolding final_update
final_update-Tells id waiting update completed told = cc
final_update-Tells id running update completed told = cc
final_update-Tells id (finished c) update completed told =
    subst (Tells id (finished c)) (ground (arith, told)) (of_finished c)
final_update-Tells id (failed c e) update completed told =
    subst (Tells id (failed c e)) (ground (arith, told)) (of_failed c e)
final_update-Tells id (cancelled c) update completed told =
    subst (Tells id (cancelled c)) (ground (arith, told)) (of_cancelled c)

relabel-is_final :
    (reason : Option String) (state : TaskState) → is_final (relabel reason state) ≡ is_final state
unfolding relabel is_final
relabel-is_final none state = refl
relabel-is_final (some reason) waiting = refl
relabel-is_final (some reason) running = refl
relabel-is_final (some reason) (finished c) = refl
relabel-is_final (some reason) (failed c e) = refl
relabel-is_final (some reason) (cancelled c) = refl

final_update-some :
    (id : ℕ) (state : TaskState)
    → is_final state ≡ true
    → (r : DbUpdate × CompletedState) × (final_update id state ≡ some r)
unfolding final_update is_final
final_update-some id waiting final = cc
final_update-some id running final = cc
final_update-some id (finished c) final = (_, refl)
final_update-some id (failed c e) final = (_, refl)
final_update-some id (cancelled c) final = (_, refl)

pub set_state-parent :
    (now : ℕ) (t t' : Task) (state : TaskState) (users users' : UserMap)
    → set_state now t state users ≡ some (t', users')
    → t'.config.parent ≡ t.config.parent
unfolding set_state
set_state-parent now t t' state users users' sets = ground arith

module _ {U : Type 0} ⦃f : F64 U⦄ where
  -- The task has ended in `state`, and nothing is tracked of it.
  pub record Ended (st : State U) (id : ℕ) (t : Task) (state : TaskState) (update : DbUpdate)
      (st' : State U) : Type 0 where
    pub recorded :
        (t' : Task) × (get id st'.core.task_map ≡ some t')
        × (t'.state ≡ state)
        × Follows st.core.user_map st'.core.user_map t t'
    pub submitted : st'.submitted_tasks ≡ remove id st.submitted_tasks
    pub running : st'.running_tasks ≡ remove id st.running_tasks
    pub reasons : st'.fail_reasons ≡ st.fail_reasons
    pub updates : st'.db_updates ≡ st.db_updates ++ update ∷ []
    pub tasks :
        (now : ℕ) × (t' : Task) × (users : UserMap) × (set_state now t state st.core.user_map
          ≡ some (t', users))
        × (st'.core.task_map ≡ insert id t' st.core.task_map)

  finish-Ended :
      (clock : Clock) (st : State U) (id : ℕ) (t : Task) (m : Machine U) (state : TaskState)
      (update : DbUpdate) (completed : CompletedState)
      → IsTracked st id t m
      → is_final state ≡ true
      → (st' : State U) × (finish clock st id state (update, completed) ≡ some st')
        × Ended st id t state update st'
  unfolding finish
  finish-Ended clock st id t m state update completed h final =
      let told : State U =
        tell_db (record st { submitted_tasks = remove id st.submitted_tasks }) update in
      let (m', left) =
        leave_backend-total clock told id t m completed.consumed
          (IsTracked-same st told id t m refl refl h) in
      let (events, heard) = notify_task-total (put_machine told m') t state h.user.0 h.user.1 in
      let (t', users, sets, became, follows) =
        set_state-Follows clock.instant t state st.core.user_map h.settled (λ _. final) h.items
          h.bytes h.items_fit h.bytes_fit in
      let same = set_state-parent clock.instant t t' state st.core.user_map users sets in
      let ended : State U = record (put_machine told m') {
        events = events;
        core = record (put_machine told m').core {
          task_map = insert id t' st.core.task_map;
          user_map = users;
        };
      } in
      let set =
        set_task_state-some clock.instant (record (put_machine told m') { events = events }) id t t'
          state users h.known sets in
      let gone : State U = record ended { running_tasks = remove id st.running_tasks } in
      let charged = charged_by (get id st.running_tasks) in
      let (projects, settles) =
        settle-total gone (project_id t'.config.parent) charged completed.consumed
          (λ p e. h.project p (ground (arith, e, same))) in
      (
        record gone { core = record gone.core { project_map = projects } },
        rw (left, h.known, heard, set) settles,
        record {
          recorded = (t', get-insert_self id t' st.core.task_map, became, follows);
          submitted = refl;
          running = refl;
          reasons = refl;
          updates = refl;
          tasks = (clock.instant, t', users, sets, refl);
        },
      )

  pub on_state_change-Ended :
      (clock : Clock) (st : State U) (id : ℕ) (t : Task) (m : Machine U) (state : TaskState)
      (cancelling : Bool)
      → IsTracked st id t m
      → get id st.submitted_tasks ≡ some cancelling
      → is_final state ≡ true
      → (st' : State U) × (update : DbUpdate × CompletedState) × (on_state_change clock st id state
          ≡ some (st', true))
        × (final_update id (relabel (get id st.fail_reasons) state) ≡ some update)
        × Ended
            (record st { fail_reasons = remove id st.fail_reasons })
            id
            t
            (relabel (get id st.fail_reasons) state)
            update.0
            st'
        × ((later : Clock) (other : TaskState)
            → on_state_change later st' id other ≡ some (st', true))
  unfolding on_state_change on_final
  on_state_change-Ended clock st id t m state cancelling h tracked final =
      let relabelled = relabel (get id st.fail_reasons) state in
      let ends = relabel-is_final (get id st.fail_reasons) state ∙ final in
      let ((update, completed), e) = final_update-some id relabelled ends in
      let before : State U = record st { fail_reasons = remove id st.fail_reasons } in
      let (st', done, ended) =
        finish-Ended clock before id t m relabelled update completed
          (IsTracked-same st before id t m refl refl h) ends in
      (
        st',
        (update, completed),
        rw (tracked, final, e, done, on_state_change, on_final) refl,
        e,
        ended,
        λ later other.
            ground (arith, ended.submitted, get-remove id id st.submitted_tasks, nat_eq_iff id id),
      )

  -- A report of a task's end, by the backend, for a task that the launcher tracks and everything
  -- counts, never panics. The task gets the reported state, except that one reported as cancelled
  -- when a reason to fail is on record has failed with that reason; the database is told exactly
  -- that; the user's counters change by exactly what the task no longer counts for; and nothing of
  -- the task is tracked afterwards, so that any later report of its state changes nothing.
  pub on_state_change-final :
      (clock : Clock) (st : State U) (id : ℕ) (t : Task) (m : Machine U) (state : TaskState)
      (cancelling : Bool)
      → IsTracked st id t m
      → get id st.submitted_tasks ≡ some cancelling
      → is_final state ≡ true
      → (st' : State U) × (final_state : TaskState) × (update : DbUpdate) × (on_state_change clock
            st id state
          ≡ some (st', true))
        × EndsAs (get id st.fail_reasons) state final_state
        × Tells id final_state update
        × Ended (record st { fail_reasons = remove id st.fail_reasons }) id t final_state update st'
        × ((later : Clock) (other : TaskState)
            → on_state_change later st' id other ≡ some (st', true))
  on_state_change-final clock st id t m state cancelling h tracked final =
      let reason = get id st.fail_reasons in
      let (st', (update, completed), done, told, ended, deaf) =
        on_state_change-Ended clock st id t m state cancelling h tracked final in
      (
        st',
        relabel reason state,
        update,
        done,
        relabel-EndsAs reason state final,
        final_update-Tells id (relabel reason state) update completed told,
        ended,
        deaf,
      )
