-- ===== src/Launcher/Fail/Ended.antt =====
-- `FailContext::fail_submitted_task` (runner/src/launcher.rs) on a task that the launcher tracks.
use qscheduler.Base.{
  ◌≤◌, ◌⊎◌, ℕ, ◌≡◌, refl, Bool, true, false, String, Option, none, some, List, [], ◌∷◌, ◌++◌, get,
  get-insert_self, get-remove, insert, remove, nat_eq_iff, nat_key, inl, inr, length, Option-cases,
  Bool-cases, arith,
}
use qscheduler.User.{User, UserMap, get_user, task_deactivated}
use qscheduler.User.Idle.{task_deactivated-Covers_self}
use qscheduler.Task.{Task, TaskState, CompletedState, failed, is_final, project_id, set_state}
use qscheduler.Task.Final.{Follows, set_state-Follows}
use qscheduler.Machine.{F64, Machine}
use qscheduler.Launcher.Estimate.{elapsed}
use qscheduler.Launcher.{
  State, Clock, RunningTask, Request, put_machine, task_failed, cancel_task, tell_db,
}
use qscheduler.Launcher.Fail.{
  fail, fail_submitted_task, consumed_by, charged_by, cancel_known, untrack,
}
use qscheduler.Launcher.Message.{on_state_change}
use qscheduler.Launcher.Message.Tracked.{
  IsTracked, IsTracked-same, notify_task-total, set_task_state-some, settle-total,
  leave_backend-total,
}
use qscheduler.Launcher.Message.Final.{set_state-parent}

-- What has been asked of the backend after a cancellation: nothing more for a task that is already
-- being cancelled or that the backend does not know.
abbrev pub asked : List Request → Bool → ℕ → Option String → List Request
asked requests true id backend_id = requests
asked requests false id none = requests
asked requests false id (some backend_id) = requests ++ cancel_task id backend_id ∷ []

-- What a task has run for by the estimate: as much as that, but no more than its limit.
abbrev pub RanFor : ℕ → Option RunningTask → ℕ → Type 0
RanFor now none consumed = consumed ≡ 0
RanFor now (some rt) consumed =
    (consumed ≤ elapsed now rt)
    × (consumed ≤ rt.time_limit)
    × ((consumed ≡ elapsed now rt) ⊎ (consumed ≡ rt.time_limit))

consumed_by-RanFor : (now : ℕ) (rt : Option RunningTask) → RanFor now rt (consumed_by now rt)
consumed_by-RanFor now none = refl
consumed_by-RanFor now (some rt) = (omega arith, omega arith, ground arith)

failed-is_final :
    (completed : CompletedState) (error : String) → is_final (failed completed error) ≡ true
unfolding is_final
failed-is_final completed error = refl

set_state-loaded :
    (now : ℕ) (t t' : Task) (state : TaskState) (users users' : UserMap) (u : User)
    → set_state now t state users ≡ some (t', users')
    → get_user users t.config.user_id ≡ some u
    → (u' : User) × (get_user users' t.config.user_id ≡ some u')
unfolding set_state get_user
set_state-loaded now t t' state users users' u sets loaded = elim (Bool-cases (is_final state)) [
  | inr open_ended ↦ (u, ground arith)
  | inl final ↦ elim (Option-cases t.finished_on) [
    | inr (at, e) ↦ (u, ground arith)
    | inl e ↦
        elim (Option-cases
          (task_deactivated now users t.config.user_id (length t.config.payload))) [
            | inl fails ↦ absurd (ground arith)
            | inr (left, leaves) ↦
                let (u', there, _) =
                  task_deactivated-Covers_self now users left t.config.user_id
                    (length t.config.payload) leaves in
                (u', ground arith)
          ]
  ]
]

module _ {U : Type 0} where
  cancel_known-some :
      (st : State U) (id : ℕ) (t : Task) (cancelling : Bool)
      → get id st.core.task_map ≡ some t
      → cancel_known st id cancelling
        ≡ some (record st { requests = asked st.requests cancelling id t.backend_id })
  cancel_known-some st id t true known = refl
  cancel_known-some st id t false known = elim (Option-cases t.backend_id) [
    | inl e ↦ ground arith
    | inr (b, e) ↦ ground arith
  ]

module _ {U : Type 0} ⦃f : F64 U⦄ where
  fail-Ended :
      (clock : Clock) (error : String) (st : State U) (id : ℕ) (t : Task) (m m' : Machine U)
      (completed : CompletedState) (charged : ℕ)
      → IsTracked st id t m
      → (st' : State U) × (fail clock error (put_machine st m') id completed charged ≡ some st')
        × ((t' : Task) × (get id st'.core.task_map ≡ some t')
            × (t'.state ≡ failed completed error)
            × Follows st.core.user_map st'.core.user_map t t')
        × (st'.submitted_tasks ≡ st.submitted_tasks)
        × (st'.running_tasks ≡ st.running_tasks)
        × (st'.fail_reasons ≡ st.fail_reasons)
        × (st'.requests ≡ st.requests)
        × (st'.db_updates ≡ st.db_updates ++ task_failed id completed error ∷ [])
  unfolding fail
  fail-Ended clock error st id t m m' completed charged h =
      let left : State U = put_machine st m' in
      let state : TaskState = failed completed error in
      let final : is_final state ≡ true = failed-is_final completed error in
      let (t', users, sets, became, follows) =
        set_state-Follows clock.instant t state st.core.user_map h.settled (λ _. final) h.items
          h.bytes h.items_fit h.bytes_fit in
      let same = set_state-parent clock.instant t t' state st.core.user_map users sets in
      let set = set_task_state-some clock.instant left id t t' state users h.known sets in
      let ended : State U = record left {
        core = record left.core { task_map = insert id t' st.core.task_map; user_map = users };
      } in
      let (projects, settles) =
        settle-total ended (project_id t'.config.parent) charged completed.consumed
          (λ p e. h.project p (ground (arith, e, same))) in
      let settled : State U = record ended {
        core = record ended.core { project_map = projects };
      } in
      let (u, loaded) =
        set_state-loaded clock.instant t t' state st.core.user_map users h.user.0 sets h.user.1 in
      let (events, heard) =
        notify_task-total settled t' t'.state u (rw (follows.same_user) loaded) in
      (
        tell_db (record settled { events = events }) (task_failed id completed error),
        rw (set, settles, heard) refl,
        (t', get-insert_self id t' st.core.task_map, became, follows),
        refl,
        refl,
        refl,
        refl,
        refl,
      )

  -- What a suspension leaves of a task that was handed to the backend: it has failed with the
  -- error and the given time, its user no longer counts it, it is tracked nowhere, and the backend
  -- and the database are told.
  pub record FailedNow (st : State U) (id : ℕ) (t : Task) (cancelling : Bool)
      (completed : CompletedState) (error : String) (st' : State U) : Type 0 where
    pub recorded :
        (t' : Task) × (get id st'.core.task_map ≡ some t')
        × (t'.state ≡ failed completed error)
        × Follows st.core.user_map st'.core.user_map t t'
    pub submitted : st'.submitted_tasks ≡ remove id st.submitted_tasks
    pub running : st'.running_tasks ≡ remove id st.running_tasks
    pub reasons : st'.fail_reasons ≡ remove id st.fail_reasons
    pub requests : st'.requests ≡ asked st.requests cancelling id t.backend_id
    pub updates : st'.db_updates ≡ st.db_updates ++ task_failed id completed error ∷ []

  -- Failing a task that the launcher tracks and everything counts never panics. The task has then
  -- failed with the error and with what it has run for: its estimate or its limit, whichever is
  -- less, and nothing if it was not running; its user's counters change by exactly what it no
  -- longer counts for; the backend is asked to cancel it unless that was done or it has no backend
  -- id; the database is told; and nothing of the task is tracked afterwards, so that the backend's
  -- later reports of its state change nothing.
  pub fail_submitted_task-FailedNow :
      (clock : Clock) (error : String) (st : State U) (id : ℕ) (t : Task) (m : Machine U)
      (cancelling : Bool)
      → IsTracked st id t m
      → get id st.submitted_tasks ≡ some cancelling
      → (st' : State U) × (consumed : ℕ) × (fail_submitted_task clock error st id ≡ some st')
        × RanFor clock.instant (get id st.running_tasks) consumed
        × FailedNow st id t cancelling
            (record { consumed = consumed; timestamp = clock.utc })
            error
            st'
        × ((later : Clock) (other : TaskState)
            → on_state_change later st' id other ≡ some (st', true))
  unfolding fail_submitted_task on_state_change
  fail_submitted_task-FailedNow clock error st id t m cancelling h tracked =
      let rt = get id st.running_tasks in
      let consumed = consumed_by clock.instant rt in
      let completed : CompletedState = record { consumed = consumed; timestamp = clock.utc } in
      let known = cancel_known-some (untrack st id) id t cancelling h.known in
      let told : State U = record (untrack st id) {
        requests = asked st.requests cancelling id t.backend_id;
      } in
      let (m', left) =
        leave_backend-total clock told id t m consumed
          (IsTracked-same st told id t m refl refl h) in
      let (st', fails, recorded, submitted, running, reasons, requests, updates) =
        fail-Ended clock error told id t m m' completed (charged_by rt)
          (IsTracked-same st told id t m refl refl h) in
      (
        st',
        consumed,
        rw (tracked, known, left, fails, fail_submitted_task) refl,
        consumed_by-RanFor clock.instant rt,
        record {
          recorded = recorded;
          submitted = submitted;
          running = running;
          reasons = reasons;
          requests = requests;
          updates = updates;
        },
        λ later other.
            ground (arith, submitted, get-remove id id st.submitted_tasks, nat_eq_iff id id),
      )
