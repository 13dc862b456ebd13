-- ===== src/Iqm/Monitor.antt =====
-- runner/src/backend_iqm.rs: the loop of the monitor, one step for each command and each tick.
pub mod Delete
pub mod Once
pub mod Wanted
pub mod Kept
pub mod Retry
use qscheduler.Base.{
  ℕ, zero, suc, ◌+◌, ◌%◌, String, Bool, true, false, not, Option, none, some, List, [], ◌∷◌, ◌++◌,
  ltb, nat_eq, if◌then◌else◌,
}
use qscheduler.User.{u32_mod}
use qscheduler.Task.{TaskState, running, waiting, finished, failed, cancelled}
use qscheduler.Launcher.Message.{FromBackendMessage, task_state_change}
use qscheduler.Iqm.{
  MonitoredTask, CancelState, not_requested, pending, in_flight, sent, new, poll_backoff,
}
use qscheduler.Iqm.Poll.{Poll, process_result}

pub data MonitorCommand : Type 0 where
  new_task : ℕ → String → MonitorCommand
  cancel : ℕ → String → MonitorCommand
  cancel_done : ℕ → Bool → MonitorCommand
  stop : MonitorCommand

-- `early_cancels` is a set. `attempts` are the cancels that have been sent to the server, and
-- `messages` those to the launcher, in order.
pub record Monitor : Type 0 where
  pub poll_interval : ℕ
  pub monitored_tasks : List MonitoredTask
  pub early_cancels : List ℕ
  pub attempts : List (ℕ × String)
  pub messages : List FromBackendMessage
  pub stopped : Bool

unfoldable pub find_task : ℕ → List MonitoredTask → Option MonitoredTask
find_task id [] = none
find_task id (t ∷ tasks) = if nat_eq t.task_id id then some t else find_task id tasks

-- `iter_mut().find` and a change of what it finds.
unfoldable pub change_task :
    (MonitoredTask → MonitoredTask) → ℕ → List MonitoredTask → List MonitoredTask
change_task f id [] = []
change_task f id (t ∷ tasks) =
    if nat_eq t.task_id id then f t ∷ tasks else t ∷ change_task f id tasks

unfoldable pub has_cancel : ℕ → List ℕ → Bool
has_cancel id [] = false
has_cancel id (i ∷ ids) = if nat_eq i id then true else has_cancel id ids

unfoldable pub drop_cancel : ℕ → List ℕ → List ℕ
drop_cancel id [] = []
drop_cancel id (i ∷ ids) = if nat_eq i id then drop_cancel id ids else i ∷ drop_cancel id ids

abbrev pub insert_cancel : ℕ → List ℕ → List ℕ
insert_cancel id ids = if has_cancel id ids then ids else id ∷ ids

abbrev pub set_cancel : CancelState → MonitoredTask → MonitoredTask
set_cancel state task = record task { cancel = state }

abbrev pub is_startable : CancelState → Bool
is_startable not_requested = true
is_startable pending = true
is_startable in_flight = false
is_startable sent = false

abbrev pub is_pending : CancelState → Bool
is_pending not_requested = false
is_pending pending = true
is_pending in_flight = false
is_pending sent = false

abbrev pub is_in_flight : CancelState → Bool
is_in_flight not_requested = false
is_in_flight pending = false
is_in_flight in_flight = true
is_in_flight sent = false

unfoldable pub spawn_cancel_attempt : Monitor → ℕ → String → Monitor
spawn_cancel_attempt m id iqm_task_id = record m { attempts = m.attempts ++ (id, iqm_task_id) ∷ [] }

unfoldable pub on_new_task : ℕ → Monitor → ℕ → String → Monitor
on_new_task now m id backend_id = elim (find_task id m.monitored_tasks) [
  | some _ ↦ m
  | none ↦
      let task = new now id backend_id in
      if has_cancel id m.early_cancels
      then record m {
        early_cancels = drop_cancel id m.early_cancels;
        monitored_tasks = m.monitored_tasks ++ set_cancel pending task ∷ [];
      }
      else record m { monitored_tasks = m.monitored_tasks ++ task ∷ [] }
]

unfoldable pub on_cancel : Monitor → ℕ → String → Monitor
on_cancel m id backend_id = elim (find_task id m.monitored_tasks) [
  | none ↦
      spawn_cancel_attempt (record m { early_cancels = insert_cancel id m.early_cancels }) id
        backend_id
  | some task ↦
      if is_startable task.cancel
      then spawn_cancel_attempt
          (record m { monitored_tasks = change_task (set_cancel in_flight) id m.monitored_tasks })
          id task.iqm_task_id
      else m
]

unfoldable pub on_cancel_done : Monitor → ℕ → Bool → Monitor
on_cancel_done m id ok = elim (find_task id m.monitored_tasks) [
  | none ↦ m
  | some task ↦
      if is_in_flight task.cancel
      then record m {
        monitored_tasks =
            change_task (set_cancel (if ok then sent else pending)) id m.monitored_tasks;
      }
      else m
]

unfoldable pub on_command : ℕ → Monitor → MonitorCommand → Monitor
on_command now m (new_task id backend_id) = on_new_task now m id backend_id
on_command now m (cancel id backend_id) = on_cancel m id backend_id
on_command now m (cancel_done id ok) = on_cancel_done m id ok
on_command now m stop = record m { stopped = true }

abbrev pub is_running : TaskState → Bool
is_running waiting = false
is_running running = true
is_running (finished _) = false
is_running (failed _ _) = false
is_running (cancelled _) = false

-- What the poll of one task gives: the task, whether it is to be deleted, what is sent, and the
-- attempts to cancel.
pub record Polled : Type 0 where
  pub task : MonitoredTask
  pub is_over : Bool
  pub messages : List FromBackendMessage
  pub attempts : List (ℕ × String)

-- A cancel that waits for the poll is attempted.
unfoldable pub attempt_cancel : MonitoredTask → MonitoredTask × List (ℕ × String)
attempt_cancel task =
    if is_pending task.cancel
    then (set_cancel in_flight task, (task.task_id, task.iqm_task_id) ∷ [])
    else (task, [])

abbrev pub back_off : ℕ → ℕ → MonitoredTask → MonitoredTask
back_off poll_interval failed_at task =
    let fails = (task.fails + 1) % u32_mod in
    record task { fails = fails; next_poll = failed_at + poll_backoff poll_interval fails }

abbrev pub reset : ℕ → MonitoredTask → MonitoredTask
reset now task = record task { fails = 0; next_poll = now }

unfoldable pub poll_task : ℕ → ℕ → Poll → MonitoredTask → Polled
poll_task poll_interval now poll task =
    let (attempted, attempts) = attempt_cancel task in
    let (task', messages, news) = process_result attempted poll in
    elim news [
      | none ↦ record {
        task = back_off poll_interval poll.failed_at task';
        is_over = false;
        messages = messages;
        attempts = attempts;
      }
      | some none ↦ record {
        task = reset now task';
        is_over = false;
        messages = messages;
        attempts = attempts;
      }
      | some (some state) ↦ record {
        task = reset now task';
        is_over = not (is_running state);
        messages = messages ++ task_state_change task'.task_id state ∷ [];
        attempts = attempts;
      }
    ]

-- A task whose next poll lies ahead is left alone.
unfoldable pub poll_if_due : ℕ → ℕ → (ℕ → Poll) → MonitoredTask → Polled
poll_if_due poll_interval now polls task =
    if ltb now task.next_poll
    then record { task = task; is_over = false; messages = []; attempts = [] }
    else poll_task poll_interval now (polls task.task_id) task

-- The tasks after a tick, the positions of those to delete, counted from `idx`, what is sent, and
-- the attempts to cancel.
pub record Round : Type 0 where
  pub tasks : List MonitoredTask
  pub to_delete : List ℕ
  pub messages : List FromBackendMessage
  pub attempts : List (ℕ × String)

unfoldable pub poll_all : ℕ → ℕ → (ℕ → Poll) → ℕ → List MonitoredTask → Round
poll_all poll_interval now polls idx [] = record {
  tasks = [];
  to_delete = [];
  messages = [];
  attempts = [];
}
poll_all poll_interval now polls idx (task ∷ tasks) =
    let polled = poll_if_due poll_interval now polls task in
    let rest = poll_all poll_interval now polls (suc idx) tasks in
    record {
      tasks = polled.task ∷ rest.tasks;
      to_delete = if polled.is_over then idx ∷ rest.to_delete else rest.to_delete;
      messages = polled.messages ++ rest.messages;
      attempts = polled.attempts ++ rest.attempts;
    }

-- `Vec::remove`; a position out of range is left out here.
unfoldable pub remove_at {ℓ} : {A : Type ℓ} → ℕ → List A → List A
remove_at n [] = []
remove_at zero (x ∷ xs) = xs
remove_at (suc n) (x ∷ xs) = x ∷ remove_at n xs

-- The loop over the positions in reverse.
unfoldable pub delete_reversed {ℓ} : {A : Type ℓ} → List ℕ → List A → List A
delete_reversed [] xs = xs
delete_reversed (n ∷ positions) xs = remove_at n (delete_reversed positions xs)

unfoldable pub tick : ℕ → (ℕ → Poll) → Monitor → Monitor
tick now polls m =
    let round = poll_all m.poll_interval now polls 0 m.monitored_tasks in
    record m {
      monitored_tasks = delete_reversed round.to_delete round.tasks;
      messages = m.messages ++ round.messages;
      attempts = m.attempts ++ round.attempts;
    }

-- A command, or a tick with what the server answers for each task.
pub data Event : Type 0 where
  command : ℕ → MonitorCommand → Event
  ticked : ℕ → (ℕ → Poll) → Event

-- A monitor that has stopped does nothing any more.
unfoldable pub step : Monitor → Event → Monitor
step m event = elim m.stopped [
  | true ↦ m
  | false ↦ elim event [ command now c ↦ on_command now m c | ticked now polls ↦ tick now polls m ]
]

unfoldable pub run : Monitor → List Event → Monitor
run m [] = m
run m (event ∷ events) = run (step m event) events
