-- ===== src/Iqm/Monitor/Retry.antt =====
-- A failed attempt to cancel a job (runner/src/backend_iqm.rs) and the next poll.
use qscheduler.Base.{
  ℕ, ltb, ap, ◌∙◌, true, Option-cases, suc, ◌+◌, ◌≤◌, ◌<◌, ◌≡◌, refl, inl, inr, false, some, List,
  [], ◌∷◌, ◌++◌, String, nat_eq, nat_eq_iff, if◌then◌else◌, Bool-cases, arith,
}
use qscheduler.Iqm.{MonitoredTask, pending, in_flight, sent, new}
use qscheduler.Iqm.Poll.{Poll}
use qscheduler.Iqm.Monitor.{
  Monitor, MonitorCommand, Event, new_task, cancel, stop, is_startable, on_new_task, on_cancel,
  spawn_cancel_attempt, command, ticked, cancel_done, find_task, change_task, on_cancel_done,
  on_command, attempt_cancel, poll_task, poll_if_due, poll_all, tick, step, run, set_cancel,
}
use qscheduler.Iqm.Monitor.Delete.{survivors, tick-survivors}
use qscheduler.Iqm.Monitor.Once.{poll_if_due-finals}
use qscheduler.Iqm.Monitor.Wanted.{find_task-append, find_task-change_task}

-- How often the cancel of a job has been sent to the server.
unfoldable pub attempts_of : ℕ → List (ℕ × String) → ℕ
attempts_of id [] = 0
attempts_of id ((i, _) ∷ attempts) = (if nat_eq i id then 1 else 0) + attempts_of id attempts

attempts_of-append :
    (id : ℕ) (xs ys : List (ℕ × String))
    → attempts_of id (xs ++ ys) ≡ attempts_of id xs + attempts_of id ys
unfolding attempts_of
attempts_of-append id [] ys = omega arith
attempts_of-append id (x ∷ xs) ys = omega (arith, attempts_of-append id xs ys)

poll_if_due-attempts :
    (id poll_interval now : ℕ) (polls : ℕ → Poll) (t : MonitoredTask)
    → t.task_id ≡ id
    → t.cancel ≡ pending
    → t.next_poll ≤ now
    → attempts_of id (poll_if_due poll_interval now polls t).attempts ≡ 1
unfolding poll_if_due poll_task attempt_cancel attempts_of
poll_if_due-attempts id poll_interval now polls t this waits due =
    ground (arith, nat_eq_iff t.task_id id)

find_task-task_id :
    (id : ℕ) (tasks : List MonitoredTask) (t : MonitoredTask)
    → find_task id tasks ≡ some t
    → t.task_id ≡ id
unfolding find_task
find_task-task_id id [] t found = cc
find_task-task_id id (x ∷ tasks) t found =
    ground (arith, nat_eq_iff x.task_id id, find_task-task_id id tasks t)

poll_all-attempts :
    (id poll_interval now idx : ℕ) (polls : ℕ → Poll) (tasks : List MonitoredTask)
    (t : MonitoredTask)
    → find_task id tasks ≡ some t
    → t.cancel ≡ pending
    → t.next_poll ≤ now
    → 0 < attempts_of id (poll_all poll_interval now polls idx tasks).attempts
unfolding find_task poll_all
poll_all-attempts id poll_interval now idx polls [] t found waits due = cc
poll_all-attempts id poll_interval now idx polls (x ∷ tasks) t found waits due =
    let p = poll_if_due poll_interval now polls x in
    let rest = (poll_all poll_interval now polls (suc idx) tasks).attempts in
    let split = attempts_of-append id p.attempts rest in
    elim (Bool-cases (nat_eq x.task_id id)) [
      | inl here ↦
          let is_first : x ≡ t = ground arith in
          let one =
            poll_if_due-attempts id poll_interval now polls x
              (ground (arith, nat_eq_iff x.task_id id)) (rw is_first waits) (rw is_first due) in
          omega (arith, split, one)
      | inr other ↦ omega (
        arith,
        split,
        poll_all-attempts id poll_interval now (suc idx) polls tasks t (ground arith) waits due,
      )
    ]

-- What leaves a job alone that is next due at `next_poll`: ticks before that, and commands for other
-- jobs.
abbrev pub IsQuiet : ℕ → ℕ → Event → Type 0
IsQuiet id next_poll (ticked now polls) = now < next_poll
IsQuiet id next_poll (command at (new_task i backend_id)) = nat_eq i id ≡ false
IsQuiet id next_poll (command at (cancel i backend_id)) = nat_eq i id ≡ false
IsQuiet id next_poll (command at (cancel_done i ok)) = nat_eq i id ≡ false
IsQuiet id next_poll (command at stop) = ⊥

unfoldable pub AreQuiet : ℕ → ℕ → List Event → Type 0
AreQuiet id next_poll [] = Unit
AreQuiet id next_poll (event ∷ events) = IsQuiet id next_poll event × AreQuiet id next_poll events

find_task-survivors_early :
    (id poll_interval now : ℕ) (polls : ℕ → Poll) (tasks : List MonitoredTask) (t : MonitoredTask)
    → find_task id tasks ≡ some t
    → now < t.next_poll
    → find_task id (survivors poll_interval now polls tasks) ≡ some t
unfolding find_task survivors poll_if_due
find_task-survivors_early id poll_interval now polls [] t found early = cc
find_task-survivors_early id poll_interval now polls (x ∷ tasks) t found early =
    let (same, counted) = poll_if_due-finals id poll_interval now polls x in
    elim (Bool-cases (nat_eq x.task_id id)) [
      | inl here ↦
          let is_first : x ≡ t = ground arith in
          let waits : ltb now x.next_poll ≡ true = ground (arith, is_first, early) in
          rw (survivors, poll_if_due, waits, find_task, here) (ap some is_first)
      | inr other ↦
          let rest =
            find_task-survivors_early id poll_interval now polls tasks t (ground (arith, other))
              early in
          elim (Bool-cases (poll_if_due poll_interval now polls x).is_over) [
            | inl over ↦ rw (survivors, over) rest
            | inr going ↦ rw (survivors, going, find_task, same, other) rest
          ]
    ]

-- The monitor runs, and knows the job as it is.
abbrev Knows : ℕ → MonitoredTask → Monitor → Type 0
Knows id t m = (m.stopped ≡ false) × (find_task id m.monitored_tasks ≡ some t)

on_command-Knows :
    (id at : ℕ) (t : MonitoredTask) (m : Monitor) (c : MonitorCommand)
    → Knows id t m
    → IsQuiet id t.next_poll (command at c)
    → Knows id t (on_command at m c)
      × (attempts_of id m.attempts ≤ attempts_of id (on_command at m c).attempts)
unfolding on_command on_new_task on_cancel on_cancel_done spawn_cancel_attempt attempts_of new
on_command-Knows id at t m (new_task i b) (alive, found) other =
    let plain = find_task-append id m.monitored_tasks (new at i b) in
    let asked = find_task-append id m.monitored_tasks (set_cancel pending (new at i b)) in
    ((ground arith, ground (arith, plain, asked)), ground arith)
on_command-Knows id at t m (cancel i b) (alive, found) other =
    let moved = find_task-change_task (set_cancel in_flight) i id m.monitored_tasks (λ u. refl) in
    let grows = λ (b' : String). attempts_of-append id m.attempts ((i, b') ∷ []) in
    elim (Option-cases (find_task i m.monitored_tasks)) [
      | inl unknown ↦ rw (on_cancel, unknown) ((alive, found), omega (arith, grows b))
      | inr (u, known) ↦ elim (Bool-cases (is_startable u.cancel)) [
        | inl startable ↦
            rw (on_cancel, known, startable)
              ((alive, ground (arith, moved)), omega (arith, grows u.iqm_task_id))
        | inr started ↦ rw (on_cancel, known, started) ((alive, found), omega arith)
      ]
    ]
on_command-Knows id at t m (cancel_done i true) (alive, found) other =
    let moved = find_task-change_task (set_cancel sent) i id m.monitored_tasks (λ u. refl) in
    ((ground arith, ground (arith, moved)), ground arith)
on_command-Knows id at t m (cancel_done i false) (alive, found) other =
    let moved = find_task-change_task (set_cancel pending) i id m.monitored_tasks (λ u. refl) in
    ((ground arith, ground (arith, moved)), ground arith)
on_command-Knows id at t m stop knows quiet = absurd quiet

step-Knows :
    (id : ℕ) (t : MonitoredTask) (m : Monitor) (event : Event)
    → Knows id t m
    → IsQuiet id t.next_poll event
    → Knows id t (step m event)
      × (attempts_of id m.attempts ≤ attempts_of id (step m event).attempts)
unfolding step tick
step-Knows id t m (ticked now polls) (alive, found) early =
    let kept =
      ap (find_task id) (tick-survivors now polls m)
      ∙ find_task-survivors_early id m.poll_interval now polls m.monitored_tasks t found early in
    let sent_now = (poll_all m.poll_interval now polls 0 m.monitored_tasks).attempts in
    rw (step, alive) ((alive, kept), omega (arith, attempts_of-append id m.attempts sent_now))
step-Knows id t m (command at c) (alive, found) quiet =
    rw (step, alive) (on_command-Knows id at t m c (alive, found) quiet)

run-Knows :
    (id : ℕ) (t : MonitoredTask) (m : Monitor) (events later : List Event)
    → Knows id t m
    → AreQuiet id t.next_poll events
    → (m' : Monitor) × (run m (events ++ later) ≡ run m' later)
      × Knows id t m'
      × (attempts_of id m.attempts ≤ attempts_of id m'.attempts)
unfolding run AreQuiet
run-Knows id t m [] later knows quiet = (m, refl, knows, omega arith)
run-Knows id t m (event ∷ events) later knows (quiet, rest) =
    let (knows', grows) = step-Knows id t m event knows quiet in
    let (m', runs, kept, grows') = run-Knows id t (step m event) events later knows' rest in
    (m', runs, kept, omega (arith, grows, grows'))

-- When an attempt to cancel a job has failed on a running monitor, the next tick at which the job is
-- due, whatever the server answers, sends the cancel again: also after any earlier ticks, at which
-- the job is not due, and any commands for other jobs.
pub cancel_retried :
    (id at now : ℕ) (polls : ℕ → Poll) (m : Monitor) (t : MonitoredTask) (between : List Event)
    → m.stopped ≡ false
    → find_task id m.monitored_tasks ≡ some t
    → t.cancel ≡ in_flight
    → AreQuiet id t.next_poll between
    → t.next_poll ≤ now
    → attempts_of id m.attempts
      < attempts_of id
          (run m (command at (cancel_done id false) ∷ (between ++ ticked now polls ∷ []))).attempts
unfolding run step on_command tick on_cancel_done
cancel_retried id at now polls m t between alive found flying quiet due =
    let failed_one : Monitor = record m {
      monitored_tasks = change_task (set_cancel pending) id m.monitored_tasks;
    } in
    let moved = find_task-change_task (set_cancel pending) id id m.monitored_tasks (λ u. refl) in
    let done : on_cancel_done m id false ≡ failed_one = rw (on_cancel_done, found, flying) refl in
    let first : step m (command at (cancel_done id false)) ≡ failed_one = ground (arith, done) in
    let knows : Knows id (set_cancel pending t) failed_one =
      (alive, ground (arith, moved, nat_eq_iff id id, found)) in
    let (m', runs, (alive', found'), grows) =
      run-Knows id (set_cancel pending t) failed_one between (ticked now polls ∷ []) knows quiet in
    let again =
      poll_all-attempts id m'.poll_interval now 0 polls m'.monitored_tasks (set_cancel pending t)
        found' refl due in
    let second : step m' (ticked now polls) ≡ tick now polls m' = ground (arith, alive') in
    let longer =
      attempts_of-append id m'.attempts
        (poll_all m'.poll_interval now polls 0 m'.monitored_tasks).attempts in
    rw (run, first, runs, second) (omega (arith, again, longer, grows))
