-- ===== src/Iqm/Monitor/Once.antt =====
-- How often the monitor (runner/src/backend_iqm.rs) reports the end of a job.
use qscheduler.Base.{
  ℕ, suc, ◌+◌, ◌≤◌, ◌≡◌, refl, inl, inr, Bool, false, not, ◌&&◌, List, [], ◌∷◌, ◌++◌, nat_eq,
  if◌then◌else◌, Bool-cases, Option-cases, ltb, arith,
}
use qscheduler.Launcher.Message.{
  FromBackendMessage, task_submitted, task_state_change, execution_started,
}
use qscheduler.Iqm.{MonitoredTask, JobStatusResponse, new}
use qscheduler.Iqm as Jobs
use qscheduler.Iqm.Poll.{Poll, process_result, report_start}
use qscheduler.Iqm.Monitor.{
  Monitor, MonitorCommand, Event, command, ticked, new_task, cancel, cancel_done, stop, change_task,
  on_new_task, on_cancel, on_cancel_done, on_command, is_running, attempt_cancel, poll_task,
  poll_if_due, poll_all, tick, step, run, spawn_cancel_attempt, set_cancel,
}
use qscheduler.Iqm.Monitor.Delete.{survivors, tick-survivors}

-- How often a job is monitored.
unfoldable pub present : ℕ → List MonitoredTask → ℕ
present id [] = 0
present id (t ∷ tasks) = (if nat_eq t.task_id id then 1 else 0) + present id tasks

abbrev pub is_final_of : ℕ → FromBackendMessage → Bool
is_final_of id (task_submitted _ _) = false
is_final_of id (task_state_change i state) = nat_eq i id && not (is_running state)
is_final_of id (execution_started _ _ _) = false

-- How often the end of a job has been reported.
unfoldable pub finals : ℕ → List FromBackendMessage → ℕ
finals id [] = 0
finals id (message ∷ messages) = (if is_final_of id message then 1 else 0) + finals id messages

-- How often a job is registered by an event, and by a list of events.
abbrev pub registers : ℕ → Event → ℕ
registers id (ticked _ _) = 0
registers id (command _ (new_task i _)) = if nat_eq i id then 1 else 0
registers id (command _ (cancel _ _)) = 0
registers id (command _ (cancel_done _ _)) = 0
registers id (command _ stop) = 0

unfoldable pub registered : ℕ → List Event → ℕ
registered id [] = 0
registered id (event ∷ events) = registers id event + registered id events

pub finals-append :
    (id : ℕ) (xs ys : List FromBackendMessage) → finals id (xs ++ ys) ≡ finals id xs + finals id ys
unfolding finals
finals-append id [] ys = omega arith
finals-append id (x ∷ xs) ys = omega (arith, finals-append id xs ys)

present-append :
    (id : ℕ) (xs ys : List MonitoredTask) → present id (xs ++ ys) ≡ present id xs + present id ys
unfolding present
present-append id [] ys = omega arith
present-append id (x ∷ xs) ys = omega (arith, present-append id xs ys)

present-change_task :
    (f : MonitoredTask → MonitoredTask) (id i : ℕ) (tasks : List MonitoredTask)
    → ((t : MonitoredTask) → (f t).task_id ≡ t.task_id)
    → present id (change_task f i tasks) ≡ present id tasks
unfolding present change_task
present-change_task f id i [] same = refl
present-change_task f id i (t ∷ tasks) same =
    ground (arith, same t, present-change_task f id i tasks same)

-- A poll keeps the id of its task, and what it reports of the start is no end.
process_result-finals :
    (id : ℕ) (poll : Poll) (t : MonitoredTask)
    → ((process_result t poll).0.task_id ≡ t.task_id) × (finals id (process_result t poll).1 ≡ 0)
unfolding process_result report_start finals
process_result-finals id poll t = (ground arith, ground arith)

attempt_cancel-task_id : (t : MonitoredTask) → (attempt_cancel t).0.task_id ≡ t.task_id
unfolding attempt_cancel
attempt_cancel-task_id t = ground arith

poll_task-finals :
    (id poll_interval now : ℕ) (poll : Poll) (t : MonitoredTask)
    → let p = poll_task poll_interval now poll t in
      (p.task.task_id ≡ t.task_id)
      × (finals id p.messages ≡ (if nat_eq t.task_id id && p.is_over then 1 else 0))
unfolding poll_task finals
poll_task-finals id poll_interval now poll t =
    let attempted = (attempt_cancel t).0 in
    let (same, none_yet) = process_result-finals id poll attempted in
    let kept = attempt_cancel-task_id t in
    let messages = (process_result attempted poll).1 in
    elim (Option-cases (process_result attempted poll).2) [
      | inl e ↦ (ground (arith, same, kept), ground (arith, none_yet))
      | inr (news, e) ↦ elim (Option-cases news) [
        | inl e' ↦ (ground (arith, same, kept), ground (arith, none_yet))
        | inr (state, e') ↦ (
          ground (arith, same, kept),
          ground (
            arith,
            none_yet,
            same,
            kept,
            finals-append id messages
                (task_state_change (process_result attempted poll).0.task_id state ∷ []),
          ),
        )
      ]
    ]

-- A polled task has its end reported exactly if it is over.
pub poll_if_due-finals :
    (id poll_interval now : ℕ) (polls : ℕ → Poll) (t : MonitoredTask)
    → let p = poll_if_due poll_interval now polls t in
      (p.task.task_id ≡ t.task_id)
      × (finals id p.messages ≡ (if nat_eq t.task_id id && p.is_over then 1 else 0))
unfolding poll_if_due finals
poll_if_due-finals id poll_interval now polls t =
    let (a, b) = poll_task-finals id poll_interval now (polls t.task_id) t in
    elim (Bool-cases (ltb now t.next_poll)) [
      | inl ahead ↦ (ground arith, ground arith)
      | inr due ↦ (ground (arith, a), ground (arith, b))
    ]

poll_all-finals :
    (id poll_interval now idx : ℕ) (polls : ℕ → Poll) (tasks : List MonitoredTask)
    → finals id (poll_all poll_interval now polls idx tasks).messages
        + present id (survivors poll_interval now polls tasks)
      ≡ present id tasks
unfolding poll_all survivors finals present
poll_all-finals id poll_interval now idx polls [] = refl
poll_all-finals id poll_interval now idx polls (t ∷ tasks) =
    let p = poll_if_due poll_interval now polls t in
    let (same, counted) = poll_if_due-finals id poll_interval now polls t in
    let split =
      finals-append id p.messages (poll_all poll_interval now polls (suc idx) tasks).messages in
    let ih = poll_all-finals id poll_interval now (suc idx) polls tasks in
    ground (arith, same, counted, split, ih)

tick-finals :
    (id now : ℕ) (polls : ℕ → Poll) (m : Monitor)
    → finals id (tick now polls m).messages + present id (tick now polls m).monitored_tasks
      ≡ finals id m.messages + present id m.monitored_tasks
unfolding tick
tick-finals id now polls m =
    let sent = (poll_all m.poll_interval now polls 0 m.monitored_tasks).messages in
    rw (tick-survivors now polls m) (
      omega (
        arith,
        finals-append id m.messages sent,
        poll_all-finals id m.poll_interval now 0 polls m.monitored_tasks,
      ))

pub on_command-finals :
    (id now : ℕ) (m : Monitor) (c : MonitorCommand)
    → ((on_command now m c).messages ≡ m.messages)
      × (present id (on_command now m c).monitored_tasks
          ≤ present id m.monitored_tasks + registers id (command now c))
unfolding on_command on_new_task on_cancel on_cancel_done spawn_cancel_attempt new present
on_command-finals id now m (new_task i backend_id) =
    let task = new now i backend_id in
    (
      ground arith,
      ground (
        arith,
        present-append id m.monitored_tasks (task ∷ []),
        present-append id m.monitored_tasks (set_cancel Jobs.pending task ∷ []),
      ),
    )
on_command-finals id now m (cancel i backend_id) = (
  ground arith,
  ground
      (arith, present-change_task (set_cancel Jobs.in_flight) id i m.monitored_tasks (λ t. refl)),
)
on_command-finals id now m (cancel_done i ok) = (
  ground arith,
  ground (
    arith,
    present-change_task (set_cancel (if ok then Jobs.sent else Jobs.pending)) id i m.monitored_tasks
        (λ t. refl),
  ),
)
on_command-finals id now m stop = (refl, omega arith)

step-finals :
    (id : ℕ) (m : Monitor) (event : Event)
    → finals id (step m event).messages + present id (step m event).monitored_tasks
      ≤ finals id m.messages + present id m.monitored_tasks + registers id event
unfolding step
step-finals id m (command now c) =
    ground (arith, (on_command-finals id now m c).0, (on_command-finals id now m c).1)
step-finals id m (ticked now polls) = ground (arith, tick-finals id now polls m)

pub run-finals :
    (id : ℕ) (m : Monitor) (events : List Event)
    → finals id (run m events).messages + present id (run m events).monitored_tasks
      ≤ finals id m.messages + present id m.monitored_tasks + registered id events
unfolding run registered
run-finals id m [] = omega arith
run-finals id m (event ∷ events) =
    omega (arith, step-finals id m event, run-finals id (step m event) events)

-- However commands and ticks come in and whatever the server answers, the end of a job that is
-- registered at most once, and that a fresh monitor does not know, is reported at most once, and
-- the job is not monitored any more when it has been.
pub run_once :
    (id : ℕ) (m : Monitor) (events : List Event)
    → m.monitored_tasks ≡ []
    → m.messages ≡ []
    → registered id events ≤ 1
    → (finals id (run m events).messages ≤ 1)
      × (finals id (run m events).messages ≡ 1 → present id (run m events).monitored_tasks ≡ 0)
unfolding finals present
run_once id m events fresh silent once =
    let bound = run-finals id m events in
    let a : finals id m.messages ≡ 0 = rw silent refl in
    let b : present id m.monitored_tasks ≡ 0 = rw fresh refl in
    (omega (arith, bound, a, b), λ reported. omega (arith, bound, a, b, reported))
