-- ===== src/Iqm/Monitor/Wanted.antt =====
-- Requests to cancel a job (runner/src/backend_iqm.rs), until its end.
use qscheduler.Base.{
  ℕ, suc, ◌<◌, ◌≡◌, ◌⊎◌, refl, ◌∙◌, ap, inl, inr, Bool, true, false, Option, none, some, List, [],
  ◌∷◌, ◌++◌, nat_eq, nat_eq_iff, if◌then◌else◌, Bool-cases, Option-cases, String, arith,
}
use qscheduler.Iqm.{MonitoredTask, CancelState, not_requested, pending, in_flight, sent, new}
use qscheduler.Iqm.Poll.{Poll, process_result, report_start}
use qscheduler.Iqm.Monitor.{
  Monitor, MonitorCommand, new_task, cancel, cancel_done, stop, find_task, change_task, has_cancel,
  drop_cancel, insert_cancel, on_new_task, on_cancel, on_cancel_done, on_command, is_startable,
  is_in_flight, attempt_cancel, poll_task, poll_if_due, poll_all, tick, spawn_cancel_attempt,
  set_cancel,
}
use qscheduler.Iqm.Monitor.Delete.{survivors, tick-survivors}
use qscheduler.Iqm.Monitor.Once.{finals, finals-append, poll_if_due-finals}

abbrev pub is_requested : CancelState → Bool
is_requested not_requested = false
is_requested pending = true
is_requested in_flight = true
is_requested sent = true

-- Where the request to cancel the job `id` is on record: with the job, or by itself while the job is
-- not registered.
pub data Wanted (id : ℕ) (m : Monitor) : Type 0 where
  early : find_task id m.monitored_tasks ≡ none → has_cancel id m.early_cancels ≡ true → Wanted id m
  monitored :
      (t : MonitoredTask)
      → find_task id m.monitored_tasks ≡ some t
      → is_requested t.cancel ≡ true
      → Wanted id m

pub find_task-append :
    (id : ℕ) (tasks : List MonitoredTask) (new_one : MonitoredTask)
    → find_task id (tasks ++ new_one ∷ []) ≡ elim (find_task id tasks) [
      | some t ↦ some t
      | none ↦ if nat_eq new_one.task_id id then some new_one else none
    ]
unfolding find_task
find_task-append id [] new_one = refl
find_task-append id (t ∷ tasks) new_one = ground (arith, find_task-append id tasks new_one)

abbrev changed :
    Bool → (MonitoredTask → MonitoredTask) → Option MonitoredTask → Option MonitoredTask
changed hit f none = none
changed hit f (some t) = some (if hit then f t else t)

pub find_task-change_task :
    (f : MonitoredTask → MonitoredTask) (i id : ℕ) (tasks : List MonitoredTask)
    → ((t : MonitoredTask) → (f t).task_id ≡ t.task_id)
    → find_task id (change_task f i tasks) ≡ changed (nat_eq i id) f (find_task id tasks)
unfolding find_task change_task
find_task-change_task f i id [] same = refl
find_task-change_task f i id (t ∷ tasks) same =
    ground (arith, same t, find_task-change_task f i id tasks same, nat_eq_iff i id)

has_cancel-drop_cancel :
    (i id : ℕ) (ids : List ℕ)
    → nat_eq i id ≡ false
    → has_cancel id (drop_cancel i ids) ≡ has_cancel id ids
unfolding has_cancel drop_cancel
has_cancel-drop_cancel i id [] other = refl
has_cancel-drop_cancel i id (j ∷ ids) other = ground (arith, has_cancel-drop_cancel i id ids other)

-- A poll withdraws no request, and attempts the one that waits.
poll_if_due-requested :
    (poll_interval now : ℕ) (polls : ℕ → Poll) (t : MonitoredTask)
    → is_requested t.cancel ≡ true
    → is_requested (poll_if_due poll_interval now polls t).task.cancel ≡ true
unfolding poll_if_due poll_task attempt_cancel process_result report_start
poll_if_due-requested poll_interval now polls t h = ground arith

find_task-survivors :
    (id poll_interval now idx : ℕ) (polls : ℕ → Poll) (tasks : List MonitoredTask)
    (t : MonitoredTask)
    → find_task id tasks ≡ some t
    → let p = poll_if_due poll_interval now polls t in
      (find_task id (survivors poll_interval now polls tasks) ≡ some p.task)
      ⊎ (0 < finals id (poll_all poll_interval now polls idx tasks).messages)
unfolding find_task survivors poll_all finals
find_task-survivors id poll_interval now idx polls [] t found = cc
find_task-survivors id poll_interval now idx polls (x ∷ tasks) t found =
    let p = poll_if_due poll_interval now polls x in
    let rest = (poll_all poll_interval now polls (suc idx) tasks).messages in
    let (same, counted) = poll_if_due-finals id poll_interval now polls x in
    let split = finals-append id p.messages rest in
    elim (Bool-cases (nat_eq x.task_id id)) [
      | inl here ↦
          let is_first : x ≡ t = ground arith in
          elim (Bool-cases p.is_over) [
            | inl over ↦ inr (ground (arith, counted, split))
            | inr going ↦ inl (rw (going, find_task, same, here, ← is_first) refl)
          ]
      | inr other ↦
          elim (find_task-survivors id poll_interval now (suc idx) polls tasks t (ground arith)) [
            | inl kept ↦ elim (Bool-cases p.is_over) [
              | inl over ↦ inl (rw over kept)
              | inr going ↦ inl (rw (going, find_task, same, other) kept)
            ]
            | inr ended ↦ inr (omega (arith, split, ended))
          ]
    ]

find_task-survivors_none :
    (id poll_interval now : ℕ) (polls : ℕ → Poll) (tasks : List MonitoredTask)
    → find_task id tasks ≡ none
    → find_task id (survivors poll_interval now polls tasks) ≡ none
unfolding find_task survivors
find_task-survivors_none id poll_interval now polls [] absent = refl
find_task-survivors_none id poll_interval now polls (x ∷ tasks) absent =
    let (same, counted) = poll_if_due-finals id poll_interval now polls x in
    let other : nat_eq x.task_id id ≡ false = ground arith in
    let rest = find_task-survivors_none id poll_interval now polls tasks (ground (arith, other)) in
    elim (Bool-cases (poll_if_due poll_interval now polls x).is_over) [
      | inl over ↦ rw over rest
      | inr going ↦ rw (going, find_task, same, other) rest
    ]

pub tick-Wanted :
    (id now : ℕ) (polls : ℕ → Poll) (m : Monitor)
    → Wanted id m
    → Wanted id (tick now polls m) ⊎ (finals id m.messages < finals id (tick now polls m).messages)
unfolding tick
tick-Wanted id now polls m (early absent h) = inl (
    early
      (ap (find_task id) (tick-survivors now polls m)
        ∙ find_task-survivors_none id m.poll_interval now polls m.monitored_tasks absent)
      h)
tick-Wanted id now polls m (monitored t found h) =
    let sent_now = (poll_all m.poll_interval now polls 0 m.monitored_tasks).messages in
    elim (find_task-survivors id m.poll_interval now 0 polls m.monitored_tasks t found) [
      | inl kept ↦ inl (
          monitored (poll_if_due m.poll_interval now polls t).task
            (ap (find_task id) (tick-survivors now polls m) ∙ kept)
            (poll_if_due-requested m.poll_interval now polls t h))
      | inr ended ↦ inr (omega (arith, ended, finals-append id m.messages sent_now))
    ]

on_new_task-Wanted :
    (id now i : ℕ) (backend_id : String) (m : Monitor)
    → Wanted id m
    → Wanted id (on_new_task now m i backend_id)
unfolding on_new_task new
on_new_task-Wanted id now i backend_id m (monitored t found h) =
    let task = new now i backend_id in
    elim (Option-cases (find_task i m.monitored_tasks)) [
      | inr (u, known) ↦ rw (on_new_task, known) (monitored t found h)
      | inl fresh ↦ elim (Bool-cases (has_cancel i m.early_cancels)) [
        | inl was ↦
            rw (on_new_task, fresh, was)
              (monitored t
                (ground (arith, find_task-append id m.monitored_tasks (set_cancel pending task))) h)
        | inr not_so ↦
            rw (on_new_task, fresh, not_so)
              (monitored t (ground (arith, find_task-append id m.monitored_tasks task)) h)
      ]
    ]
on_new_task-Wanted id now i backend_id m (early absent h) =
    let task = new now i backend_id in
    elim (Option-cases (find_task i m.monitored_tasks)) [
      | inr (u, known) ↦ rw (on_new_task, known) (early absent h)
      | inl fresh ↦ elim (Bool-cases (has_cancel i m.early_cancels)) [
        | inr not_so ↦
            rw (on_new_task, fresh, not_so)
              (early
                (ground (
                  arith,
                  find_task-append id m.monitored_tasks task,
                  nat_eq_iff i id,
                  absent,
                  h,
                  not_so,
                ))
                h)
        | inl was ↦ elim (Bool-cases (nat_eq i id)) [
          | inr other ↦
              rw (on_new_task, fresh, was)
                (early
                  (ground (
                    arith,
                    find_task-append id m.monitored_tasks (set_cancel pending task),
                    absent,
                    other,
                  ))
                  (has_cancel-drop_cancel i id m.early_cancels other ∙ h))
          | inl this ↦
              rw (on_new_task, fresh, was)
                (monitored (set_cancel pending task)
                  (ground (
                    arith,
                    find_task-append id m.monitored_tasks (set_cancel pending task),
                    nat_eq_iff i id,
                  ))
                  refl)
        ]
      ]
    ]

pub Wanted-same :
    (id : ℕ) (m m' : Monitor)
    → m'.early_cancels ≡ m.early_cancels
    → m'.monitored_tasks ≡ m.monitored_tasks
    → Wanted id m
    → Wanted id m'
Wanted-same id m m' cancels tasks (early absent h) = early (rw tasks absent) (rw cancels h)
Wanted-same id m m' cancels tasks (monitored t found h) = monitored t (rw tasks found) h

change_task-Wanted :
    (id i : ℕ) (state : CancelState) (m : Monitor)
    → is_requested state ≡ true
    → Wanted id m
    → Wanted id (record m { monitored_tasks = change_task (set_cancel state) i m.monitored_tasks })
change_task-Wanted id i state m asks (early absent h) =
    early
      (ground (
        arith,
        absent,
        find_task-change_task (set_cancel state) i id m.monitored_tasks (λ u. refl),
      ))
      h
change_task-Wanted id i state m asks (monitored t found h) =
    let moved = find_task-change_task (set_cancel state) i id m.monitored_tasks (λ u. refl) in
    elim (Bool-cases (nat_eq i id)) [
      | inl this ↦ monitored (set_cancel state t) (ground (arith, moved)) asks
      | inr other ↦ monitored t (ground (arith, moved)) h
    ]

has_cancel-insert_cancel :
    (id i : ℕ) (ids : List ℕ)
    → has_cancel id ids ≡ true
    → has_cancel id (insert_cancel i ids) ≡ true
unfolding has_cancel
has_cancel-insert_cancel id i ids h = ground arith

has_cancel-insert_self : (id : ℕ) (ids : List ℕ) → has_cancel id (insert_cancel id ids) ≡ true
unfolding has_cancel
has_cancel-insert_self id ids = ground (arith, nat_eq_iff id id)

insert_cancel-Wanted :
    (id i : ℕ) (m : Monitor)
    → Wanted id m
    → Wanted id (record m { early_cancels = insert_cancel i m.early_cancels })
insert_cancel-Wanted id i m (early absent h) =
    early absent (has_cancel-insert_cancel id i m.early_cancels h)
insert_cancel-Wanted id i m (monitored t found h) = monitored t found h

on_cancel-Wanted :
    (id i : ℕ) (backend_id : String) (m : Monitor)
    → Wanted id m
    → Wanted id (on_cancel m i backend_id)
unfolding spawn_cancel_attempt on_cancel
on_cancel-Wanted id i backend_id m w = elim (Option-cases (find_task i m.monitored_tasks)) [
  | inl unknown ↦
      rw (on_cancel, unknown) (Wanted-same id _ _ refl refl (insert_cancel-Wanted id i m w))
  | inr (t, known) ↦ elim (Bool-cases (is_startable t.cancel)) [
    | inl startable ↦
        rw (on_cancel, known, startable)
          (Wanted-same id _ _ refl refl (change_task-Wanted id i in_flight m refl w))
    | inr started ↦ rw (on_cancel, known, started) w
  ]
]

on_cancel_done-Wanted :
    (id i : ℕ) (ok : Bool) (m : Monitor) → Wanted id m → Wanted id (on_cancel_done m i ok)
unfolding on_cancel_done
on_cancel_done-Wanted id i ok m w = elim (Option-cases (find_task i m.monitored_tasks)) [
  | inl unknown ↦ rw (on_cancel_done, unknown) w
  | inr (t, known) ↦ elim (Bool-cases (is_in_flight t.cancel)) [
    | inl flying ↦
        rw (on_cancel_done, known, flying)
          (change_task-Wanted id i (if ok then sent else pending) m (ground arith) w)
    | inr landed ↦ rw (on_cancel_done, known, landed) w
  ]
]

pub on_command-Wanted :
    (id now : ℕ) (m : Monitor) (c : MonitorCommand) → Wanted id m → Wanted id (on_command now m c)
unfolding on_command
on_command-Wanted id now m (new_task i b) w = on_new_task-Wanted id now i b m w
on_command-Wanted id now m (cancel i b) w = on_cancel-Wanted id i b m w
on_command-Wanted id now m (cancel_done i ok) w = on_cancel_done-Wanted id i ok m w
on_command-Wanted id now m stop w = Wanted-same id m (record m { stopped = true }) refl refl w

-- A request is on record as soon as it comes in.
pub on_cancel-records :
    (id : ℕ) (backend_id : String) (m : Monitor) → Wanted id (on_cancel m id backend_id)
unfolding spawn_cancel_attempt on_cancel
on_cancel-records id backend_id m = elim (Option-cases (find_task id m.monitored_tasks)) [
  | inl unknown ↦
      rw (on_cancel, unknown) (early unknown (has_cancel-insert_self id m.early_cancels))
  | inr (t, known) ↦ elim (Bool-cases (is_startable t.cancel)) [
    | inl startable ↦
        rw (on_cancel, known, startable)
          (monitored (set_cancel in_flight t)
            (ground (
              arith,
              known,
              nat_eq_iff id id,
              find_task-change_task (set_cancel in_flight) id id m.monitored_tasks (λ u. refl),
            ))
            refl)
    | inr started ↦ rw (on_cancel, known, started) (monitored t known (ground arith))
  ]
]
