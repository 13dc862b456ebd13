-- ===== src/Iqm/Monitor/Delete.antt =====
-- The deletion of ended jobs by their positions (runner/src/backend_iqm.rs).
use qscheduler.Base.{ℕ, suc, ◌≡◌, refl, ap, inl, inr, List, [], ◌∷◌, map, Bool-cases, if◌then◌else◌}
use qscheduler.Iqm.{MonitoredTask}
use qscheduler.Iqm.Poll.{Poll}
use qscheduler.Iqm.Monitor.{Monitor, poll_if_due, poll_all, remove_at, delete_reversed, tick}

-- The polled tasks that are not over, in order.
unfoldable pub survivors : ℕ → ℕ → (ℕ → Poll) → List MonitoredTask → List MonitoredTask
survivors poll_interval now polls [] = []
survivors poll_interval now polls (task ∷ tasks) =
    let polled = poll_if_due poll_interval now polls task in
    let rest = survivors poll_interval now polls tasks in
    if polled.is_over then rest else polled.task ∷ rest

delete_reversed-cons {ℓ} :
    {A : Type ℓ} (positions : List ℕ) (x : A) (xs : List A)
    → delete_reversed (map suc positions) (x ∷ xs) ≡ x ∷ delete_reversed positions xs
unfolding delete_reversed remove_at
delete_reversed-cons [] x xs = refl
delete_reversed-cons (n ∷ positions) x xs =
    ap (remove_at (suc n)) (delete_reversed-cons positions x xs)

to_delete-shift :
    (poll_interval now idx : ℕ) (polls : ℕ → Poll) (tasks : List MonitoredTask)
    → (poll_all poll_interval now polls (suc idx) tasks).to_delete
      ≡ map suc (poll_all poll_interval now polls idx tasks).to_delete
unfolding poll_all
to_delete-shift poll_interval now idx polls [] = refl
to_delete-shift poll_interval now idx polls (task ∷ tasks) =
    elim (Bool-cases (poll_if_due poll_interval now polls task).is_over) [
      | inl over ↦
          rw over (ap (◌∷◌ (suc idx)) (to_delete-shift poll_interval now (suc idx) polls tasks))
      | inr going ↦ rw going (to_delete-shift poll_interval now (suc idx) polls tasks)
    ]

tasks-shift :
    (poll_interval now idx idx' : ℕ) (polls : ℕ → Poll) (tasks : List MonitoredTask)
    → (poll_all poll_interval now polls idx tasks).tasks
      ≡ (poll_all poll_interval now polls idx' tasks).tasks
unfolding poll_all
tasks-shift poll_interval now idx idx' polls [] = refl
tasks-shift poll_interval now idx idx' polls (task ∷ tasks) =
    ap (◌∷◌ (poll_if_due poll_interval now polls task).task)
      (tasks-shift poll_interval now (suc idx) (suc idx') polls tasks)

delete-survivors :
    (poll_interval now : ℕ) (polls : ℕ → Poll) (tasks : List MonitoredTask)
    → delete_reversed
        (poll_all poll_interval now polls 0 tasks).to_delete
        (poll_all poll_interval now polls 0 tasks).tasks
      ≡ survivors poll_interval now polls tasks
unfolding poll_all survivors delete_reversed remove_at
delete-survivors poll_interval now polls [] = refl
delete-survivors poll_interval now polls (task ∷ tasks) =
    let polled = poll_if_due poll_interval now polls task in
    let rest = poll_all poll_interval now polls 0 tasks in
    let td = to_delete-shift poll_interval now 0 polls tasks in
    let ts = tasks-shift poll_interval now 1 0 polls tasks in
    let skip = delete_reversed-cons rest.to_delete polled.task rest.tasks in
    let ih = delete-survivors poll_interval now polls tasks in
    elim (Bool-cases polled.is_over) [
      | inl over ↦ rw (over, td, ts, skip) ih
      | inr going ↦ rw (going, td, ts, skip) (ap (◌∷◌ polled.task) ih)
    ]

-- Deleting by position in reverse order, while nothing shifts, leaves exactly the jobs that are
-- not over, in order and as they are after their polls.
pub tick-survivors :
    (now : ℕ) (polls : ℕ → Poll) (m : Monitor)
    → (tick now polls m).monitored_tasks ≡ survivors m.poll_interval now polls m.monitored_tasks
unfolding tick
tick-survivors now polls m = delete-survivors m.poll_interval now polls m.monitored_tasks
