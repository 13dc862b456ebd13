-- ===== src/Iqm/Monitor/Kept.antt =====
-- A request to cancel a job (runner/src/backend_iqm.rs), over a run of the monitor.
use qscheduler.Base.{
  ℕ, ◌≤◌, ◌<◌, ◌≡◌, ◌⊎◌, inl, inr, false, List, [], ◌∷◌, Bool-cases, String, arith,
}
use qscheduler.Iqm.Monitor.{
  Monitor, Event, command, ticked, cancel, on_cancel, on_command, poll_all, tick, step, run,
}
use qscheduler.Iqm.Monitor.Once.{finals, finals-append, on_command-finals}
use qscheduler.Iqm.Monitor.Wanted.{
  Wanted, tick-Wanted, on_command-Wanted, on_cancel-records, Wanted-same,
}

step-Wanted :
    (id : ℕ) (m : Monitor) (event : Event)
    → Wanted id m
    → Wanted id (step m event) ⊎ (finals id m.messages < finals id (step m event).messages)
unfolding step
step-Wanted id m (command now c) w = elim (Bool-cases m.stopped) [
  | inl halted ↦ inl (Wanted-same id m _ (ground arith) (ground arith) w)
  | inr alive ↦ inl (
      Wanted-same id (on_command now m c) _ (ground arith) (ground arith)
        (on_command-Wanted id now m c w))
]
step-Wanted id m (ticked now polls) w = elim (Bool-cases m.stopped) [
  | inl halted ↦ inl (Wanted-same id m _ (ground arith) (ground arith) w)
  | inr alive ↦ elim (tick-Wanted id now polls m w) [
    | inl still ↦ inl (Wanted-same id (tick now polls m) _ (ground arith) (ground arith) still)
    | inr ended ↦ inr (ground (arith, ended))
  ]
]

step-grows :
    (id : ℕ) (m : Monitor) (event : Event)
    → finals id m.messages ≤ finals id (step m event).messages
unfolding step tick
step-grows id m (command now c) = ground (arith, (on_command-finals id now m c).0)
step-grows id m (ticked now polls) = ground (
  arith,
  finals-append id m.messages (poll_all m.poll_interval now polls 0 m.monitored_tasks).messages,
)

run-grows :
    (id : ℕ) (m : Monitor) (events : List Event)
    → finals id m.messages ≤ finals id (run m events).messages
unfolding run
run-grows id m [] = omega arith
run-grows id m (event ∷ events) =
    omega (arith, step-grows id m event, run-grows id (step m event) events)

run-Wanted :
    (id : ℕ) (m : Monitor) (events : List Event)
    → Wanted id m
    → Wanted id (run m events) ⊎ (finals id m.messages < finals id (run m events).messages)
unfolding run
run-Wanted id m [] w = inl w
run-Wanted id m (event ∷ events) w = elim (step-Wanted id m event w) [
  | inr ended ↦ inr (omega (arith, ended, run-grows id (step m event) events))
  | inl still ↦ elim (run-Wanted id (step m event) events still) [
    | inl w' ↦ inl w'
    | inr ended ↦ inr (omega (arith, ended, step-grows id m event))
  ]
]

-- A request to cancel a job that a running monitor receives stays on record, with the job or, as
-- long as the job is not registered, by itself, through all later commands and ticks, until the
-- end of the job is reported.
pub cancel_kept :
    (id now : ℕ) (backend_id : String) (m : Monitor) (events : List Event)
    → m.stopped ≡ false
    → Wanted id (run m (command now (cancel id backend_id) ∷ events))
      ⊎ (finals id m.messages
          < finals id (run m (command now (cancel id backend_id) ∷ events)).messages)
unfolding run step on_command
cancel_kept id now backend_id m events alive =
    let event = command now (cancel id backend_id) in
    let asked : Wanted id (step m event) =
      Wanted-same id (on_cancel m id backend_id) _ (ground arith) (ground arith)
        (on_cancel-records id backend_id m) in
    elim (run-Wanted id (step m event) events asked) [
      | inl w ↦ inl w
      | inr ended ↦ inr (omega (arith, ended, step-grows id m event))
    ]
