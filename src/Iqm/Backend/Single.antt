-- ===== src/Iqm/Backend/Single.antt =====
-- Jobs from their submission, or their resumption, on (runner/src/backend_iqm.rs).
use qscheduler.Base.{
  ℕ, ◌+◌, ◌≤◌, ◌≡◌, refl, sym, String, Bool, true, false, none, some, List, [], ◌∷◌, ◌++◌, map,
  if◌then◌else◌, nat_eq_iff, arith,
}
use mathlib.Core.List.{append-nil}
use qscheduler.Iqm.{new, not_requested, in_flight}
use qscheduler.Iqm.Monitor.{
  Monitor, Event, command, new_task, cancel, has_cancel, find_task, change_task, set_cancel,
  on_command, on_new_task, on_cancel, spawn_cancel_attempt, step, run,
}
use qscheduler.Iqm.Monitor.Once.{finals, present, registered, run-finals}
use qscheduler.Iqm.Monitor.Wanted.{find_task-append, find_task-change_task}
use qscheduler.Iqm.Backend.{
  SubmitAnswer, request_failed, http_error, unparsable, job_created, submit_task, send_task_error,
  resume_task, cancel_task,
}

finals_fresh :
    (id : ℕ) (m : Monitor) (events : List Event)
    → m.monitored_tasks ≡ []
    → m.messages ≡ []
    → finals id (run m events).messages ≤ registered id events
unfolding finals present
finals_fresh id m events fresh silent =
    let a : finals id m.messages ≡ 0 = rw silent refl in
    let b : present id m.monitored_tasks ≡ 0 = rw fresh refl in
    omega (arith, run-finals id m events, a, b)

-- Whatever the server answers to a submission and to all later requests, and whatever commands
-- for the job come later except one that registers it again, the launcher gets at most one report
-- of the job's end from the submission and a fresh monitor together.
pub submit_task_once :
    (utc now id : ℕ) (answer : SubmitAnswer) (m : Monitor) (events : List Event)
    → m.monitored_tasks ≡ []
    → m.messages ≡ []
    → registered id events ≡ 0
    → finals id (submit_task utc id answer).messages
        + finals id
            (run m (map (command now) (submit_task utc id answer).commands ++ events)).messages
      ≤ 1
unfolding finals present registered submit_task send_task_error
submit_task_once utc now id (request_failed e) m events fresh silent later =
    ground (arith, finals_fresh id m events fresh silent)
submit_task_once utc now id (http_error status body) m events fresh silent later =
    ground (arith, finals_fresh id m events fresh silent)
submit_task_once utc now id (unparsable e) m events fresh silent later =
    ground (arith, finals_fresh id m events fresh silent)
submit_task_once utc now id (job_created job) m events fresh silent later =
    ground (arith, finals_fresh id m (command now (new_task id job) ∷ events) fresh silent, later)

abbrev registered_one : ℕ → ℕ → String → Monitor → Monitor
registered_one id now backend_id m = record m {
  monitored_tasks = m.monitored_tasks ++ new now id backend_id ∷ [];
}

on_new_task-unknown :
    (id now : ℕ) (backend_id : String) (m : Monitor)
    → find_task id m.monitored_tasks ≡ none
    → has_cancel id m.early_cancels ≡ false
    → (on_new_task now m id backend_id ≡ registered_one id now backend_id m)
      × (find_task id (registered_one id now backend_id m).monitored_tasks
          ≡ some (new now id backend_id))
unfolding on_new_task has_cancel new
on_new_task-unknown id now backend_id m unknown none_early = (
  rw (on_new_task, unknown, none_early) refl,
  rw (find_task-append id m.monitored_tasks (new now id backend_id), unknown) ground
      (arith, nat_eq_iff id id),
)

-- A task that is resumed on a running monitor that does not know it, also not by an early cancel of
-- it, whatever early cancels of other jobs it knows, is monitored from now on under its backend id;
-- exactly if it was to be cancelled, a cancel with that id is sent to the server.
pub resume_task_monitored :
    (id now : ℕ) (backend_id : String) (also_cancel : Bool) (m : Monitor)
    → m.stopped ≡ false
    → find_task id m.monitored_tasks ≡ none
    → has_cancel id m.early_cancels ≡ false
    → (find_task id
          (run m (map (command now) (resume_task id backend_id also_cancel))).monitored_tasks
        ≡ some
            (set_cancel (if also_cancel then in_flight else not_requested) (new now id backend_id)))
      × ((run m (map (command now) (resume_task id backend_id also_cancel))).attempts
          ≡ m.attempts ++ (if also_cancel then (id, backend_id) ∷ [] else []))
unfolding resume_task cancel_task run step on_command on_cancel spawn_cancel_attempt new
resume_task_monitored id now backend_id true m alive unknown none_early =
    let (added, found) = on_new_task-unknown id now backend_id m unknown none_early in
    let one = registered_one id now backend_id m in
    let first : step m (command now (new_task id backend_id)) ≡ one = ground (arith, added) in
    let moved =
      find_task-change_task (set_cancel in_flight) id id one.monitored_tasks (λ u. refl) in
    let flying : Monitor = record one {
      monitored_tasks = change_task (set_cancel in_flight) id one.monitored_tasks;
      attempts = m.attempts ++ (id, backend_id) ∷ [];
    } in
    let asked : on_cancel one id backend_id ≡ flying = rw (on_cancel, found) refl in
    let second : step one (command now (cancel id backend_id)) ≡ flying =
      ground (arith, alive, asked) in
    rw (first, second) (ground (arith, moved, found, nat_eq_iff id id), refl)
resume_task_monitored id now backend_id false m alive unknown none_early =
    let (added, found) = on_new_task-unknown id now backend_id m unknown none_early in
    let first : step m (command now (new_task id backend_id)) ≡ registered_one id now backend_id m =
      ground (arith, added) in
    rw first (found, sym (append-nil m.attempts))
