-- ===== src/Iqm/Poll.antt =====
-- runner/src/backend_iqm.rs: what an answer of the server tells of a job.
use qscheduler.Base.{
  ℕ, String, true, false, Option, none, some, List, [], ◌∷◌, if◌then◌else◌, str_eq,
}
use Prim.Native.String.{◌++◌}
use qscheduler.Task.{TaskState, CompletedState, running, finished, failed, cancelled}
use qscheduler.Launcher.Message.{FromBackendMessage, execution_started}
use qscheduler.Iqm.{MonitoredTask, JobStatusResponse, get_exec_time, last_timestamp}
use qscheduler.Iqm as Jobs

-- The outcome of the request: no answer, an answer of another status than success, a body that
-- cannot be parsed, or the parsed body.
pub data Answer : Type 0 where
  request_failed http_error unparsable : Answer
  parsed : JobStatusResponse → Answer

-- An answer and the clocks: `received_at` is local, and so is `failed_at`, from which the next
-- poll counts after a failure; `utc` is the time of day.
pub record Poll : Type 0 where
  pub answer : Answer
  pub received_at : ℕ
  pub failed_at : ℕ
  pub utc : ℕ

-- `join("; ")`.
unfoldable pub join : List String → String
join [] = ""
join (s ∷ []) = s
join (s ∷ t ∷ rest) = s ++ ("; " ++ join (t ∷ rest))

abbrev pub or_now : ℕ → Option ℕ → ℕ
or_now utc none = utc
or_now utc (some t) = t

-- The end and the consumed time; a job that was never executed has consumed nothing.
unfoldable pub completed_state : ℕ → JobStatusResponse → CompletedState
completed_state utc r = elim (get_exec_time r) [
  | none ↦ record { consumed = 0; timestamp = or_now utc (last_timestamp r) }
  | some (ended, exec_time) ↦ record { consumed = exec_time; timestamp = ended }
]

unfoldable pub new_state : ℕ → JobStatusResponse → Option TaskState
new_state utc r =
    let completed = completed_state utc r in
    if str_eq r.status "waiting"
    then none
    else if str_eq r.status "processing"
    then some running
    else if str_eq r.status "completed"
    then some (finished completed)
    else if str_eq r.status "failed"
    then some (failed completed (join r.errors))
    else if str_eq r.status "cancelled"
    then some (cancelled completed)
    else some (failed completed ("Invalid task state: " ++ r.status))

abbrev pub first_report : MonitoredTask → ℕ → Option ℕ → MonitoredTask × List FromBackendMessage
first_report task received_at none = (task, [])
first_report task received_at (some started_at) = (
  record task { start_reported = true },
  execution_started task.task_id started_at received_at ∷ [],
)

-- The start of the execution is reported once.
unfoldable pub report_start :
    MonitoredTask → ℕ → JobStatusResponse → MonitoredTask × List FromBackendMessage
report_start task received_at r = elim task.start_reported [
  | true ↦ (task, [])
  | false ↦ first_report task received_at (Jobs.execution_started r)
]

-- The task, what is sent, and the news of its state; `none` is a failed poll.
unfoldable pub process_result :
    MonitoredTask → Poll → MonitoredTask × List FromBackendMessage × Option (Option TaskState)
process_result task poll = elim poll.answer [
  | request_failed ↦ (task, [], none)
  | http_error ↦ (task, [], none)
  | unparsable ↦ (task, [], none)
  | parsed r ↦
      let (task', messages) = report_start task poll.received_at r in
      (task', messages, some (new_state poll.utc r))
]
