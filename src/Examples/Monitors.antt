-- ===== src/Examples/Monitors.antt =====
-- Jobs at an IQM server, and a monitor of them.
use qscheduler.Base.{
  ℕ, ◌≤◌, ◌<◌, ◌≡◌, ◌⊎◌, refl, false, some, List, [], ◌∷◌, ◌++◌, map, true, ◌+◌, arith,
  if◌then◌else◌, nat_eq,
}
use qscheduler.Iqm.{MonitoredTask, JobStatusResponse, new, in_flight}
use qscheduler.Iqm.Poll.{Poll, parsed, request_failed}
use qscheduler.Iqm.Monitor.{
  has_cancel, Monitor, Event, command, ticked, new_task, cancel, cancel_done, find_task, set_cancel,
  run, tick,
}
use qscheduler.Iqm.Backend.{job_created, submit_task, resume_task}
use qscheduler.Iqm.Backend.Single.{submit_task_once, resume_task_monitored}
use qscheduler.Iqm.Monitor.Delete.{survivors, tick-survivors}
use qscheduler.Iqm.Monitor.Once.{finals, present, registered, run_once}
use qscheduler.Iqm.Monitor.Wanted.{Wanted}
use qscheduler.Iqm.Monitor.Kept.{cancel_kept}
use qscheduler.Iqm.Monitor.Retry.{AreQuiet, attempts_of, cancel_retried}

-- A job that has run from 20 to 50.
abbrev completed_job : JobStatusResponse
completed_job = record {
  status = "completed";
  errors = [];
  timeline =
      record { status = "created"; timestamp = 10 }
      ∷ record { status = "execution_started"; timestamp = 20 }
      ∷ record { status = "execution_ended"; timestamp = 50 }
      ∷ record { status = "completed"; timestamp = 70 }
      ∷ [];
}

abbrev fresh : Monitor
fresh = record {
  poll_interval = 1000000000;
  monitored_tasks = [];
  early_cancels = [];
  attempts = [];
  messages = [];
  stopped = false;
}

-- Job 7 has completed; no other request is answered.
abbrev polls : ℕ → Poll
polls id = record {
  answer = if nat_eq id 7 then parsed completed_job else request_failed;
  received_at = 80;
  failed_at = 80;
  utc = 80;
}

abbrev two_jobs : Monitor
two_jobs = record fresh { monitored_tasks = new 0 7 "a" ∷ new 0 8 "b" ∷ [] }

tick-survivors_example :
    (tick 80 polls two_jobs).monitored_tasks
    ≡ survivors 1000000000 80 polls (new 0 7 "a" ∷ new 0 8 "b" ∷ [])
tick-survivors_example = tick-survivors 80 polls two_jobs

abbrev two_others : Monitor
two_others = record fresh {
  monitored_tasks = new 0 5 "b" ∷ new 0 8 "c" ∷ [];
  early_cancels = 9 ∷ [];
}

-- The job is cancelled before it is registered, ends at the second tick, and is polled no more.
abbrev events : List Event
events =
    command 1 (cancel 7 "a") ∷ command 2 (new_task 7 "a") ∷ ticked 80 polls ∷ ticked 90 polls ∷ []

run_once_example :
    (finals 7 (run fresh events).messages ≤ 1)
    × (finals 7 (run fresh events).messages ≡ 1 → present 7 (run fresh events).monitored_tasks ≡ 0)
unfolding registered
run_once_example = run_once 7 fresh events refl refl (omega arith)

cancel_kept_example : Wanted 7 (run fresh events) ⊎ (0 < finals 7 (run fresh events).messages)
unfolding finals
cancel_kept_example =
    cancel_kept 7 1 "a" fresh (command 2 (new_task 7 "a") ∷ ticked 80 polls ∷ ticked 90 polls ∷ [])
      refl

-- The cancel of job 7 has been sent.
abbrev flying : MonitoredTask
flying = record (new 0 7 "a") { cancel = in_flight }

cancel_retried_example :
    attempts_of 7 []
    < attempts_of 7
        (run
          (record fresh { monitored_tasks = flying ∷ [] })
          (command 50 (cancel_done 7 false)
            ∷ ((command 60 (new_task 8 "b") ∷ []) ++ ticked 80 polls ∷ []))).attempts
unfolding find_task new AreQuiet
cancel_retried_example =
    cancel_retried 7 50 80 polls (record fresh { monitored_tasks = flying ∷ [] }) flying
      (command 60 (new_task 8 "b") ∷ []) refl refl refl (refl, tt) (omega arith)

-- Job 7 is created, and completes at the first tick.
submit_task_once_example :
    finals 7 (submit_task 1 7 (job_created "a")).messages
      + finals 7
          (run fresh (
            map (command 2) (submit_task 1 7 (job_created "a")).commands
            ++ ticked 80 polls ∷ ticked 90 polls ∷ [])).messages
    ≤ 1
unfolding registered
submit_task_once_example =
    submit_task_once 1 2 7 (job_created "a") fresh (ticked 80 polls ∷ ticked 90 polls ∷ []) refl
      refl refl

resume_task_monitored_example :
    (find_task 7 (run two_others (map (command 2) (resume_task 7 "a" true))).monitored_tasks
      ≡ some (set_cancel in_flight (new 2 7 "a")))
    × ((run two_others (map (command 2) (resume_task 7 "a" true))).attempts ≡ (7, "a") ∷ [])
unfolding find_task new has_cancel
resume_task_monitored_example = resume_task_monitored 7 2 "a" true two_others refl refl refl
