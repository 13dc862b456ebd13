-- ===== src/Launcher/Loop/Stays.antt =====
-- What a search for a task (runner/src/launcher.rs) leaves alone while no session may open.
use qscheduler.Base.{
  ℕ, zero, suc, ◌<◌, ◌≡◌, refl, ◌∙◌, ap, inl, inr, false, Option, none, some, List, [], ◌∷◌, length,
  nat_key, Option-cases, >>=-eq-some, arith,
}
use qscheduler.Task.{Task, TaskState}
use qscheduler.Machine.{F64, Machine, QueueItem, UserQueue, task, session}
use qscheduler.Machine.Queue.{pop_queue_item, take_front, pick, entry, is_session_item}
use qscheduler.Machine.Removal.{pop_session_task}
use qscheduler.Launcher.{State, Clock, get_machine, put_machine, notify_task, set_task_state}
use qscheduler.Launcher.Loop.{
  Pick, picked, idle, out_of_fuel, pick_item, pick_popped, or_again, pick_task, next_item,
}

-- A task is in the backend.
abbrev pub IsBusy : {U : Type 0} → State U → Type 0
IsBusy st = 0 < length st.submitted_tasks

module _ {U : Type 0} where
  -- Still a task in the backend, and the same session, if any, is open.
  pub record Stays (st st' : State U) : Type 0 where
    pub session : st'.running_session ≡ st.running_session
    pub busy : IsBusy st → IsBusy st'

  pub notify_task-Stays :
      (st st' : State U) (t : Task) (state : TaskState)
      → notify_task st t state ≡ some st'
      → Stays st st'
  unfolding notify_task
  notify_task-Stays st st' t state told = record {
    session = ground arith;
    busy = λ b. ground arith;
  }

  pub set_task_state-Stays :
      (now : ℕ) (st st' : State U) (id : ℕ) (state : TaskState) (t : Task)
      → set_task_state now st id state ≡ some (st', t)
      → Stays st st'
  unfolding set_task_state
  set_task_state-Stays now st st' id state t set = record {
    session = ground arith;
    busy = λ b. ground arith;
  }

module _ {U : Type 0} ⦃f : F64 U⦄ where
  take_front-task :
      (m m' : Machine U) (u : ℕ) (qu : UserQueue U) (items : List QueueItem) (item : QueueItem)
      → take_front false m u qu items ≡ (some item, m')
      → is_session_item item ≡ false
  take_front-task m m' u qu [] item h = absurd (ground arith)
  take_front-task m m' u qu (first ∷ rest) item h = ground arith

  next_item-task :
      (st : State U) (m m' : Machine U) (item : QueueItem)
      → next_item st false m ≡ (some item, m')
      → is_session_item item ≡ false
  unfolding next_item pop_session_task pop_queue_item
  next_item-task st m m' item h = elim (Option-cases st.running_session) [
    | inr (s, e) ↦ ground arith
    | inl e ↦ elim (Option-cases (pick m.queues)) [
      | inl empty ↦ absurd (ground arith)
      | inr ((u, key), there) ↦
          take_front-task m m' u (entry m u) (entry m u).queue item (ground arith)
    ]
  ]

  pick_item-Stays :
      (clock : Clock) (st st' : State U) (item : QueueItem) (found : Pick)
      → is_session_item item ≡ false
      → pick_item clock st item ≡ some (found, st')
      → Stays st st'
  unfolding pick_item
  pick_item-Stays clock st st' (task id) found is_task picks = record {
    session = ground arith;
    busy = λ b. ground arith;
  }
  pick_item-Stays clock st st' (session id) found is_task picks = absurd cc

  or_again-Stays :
      (again : State U → Option (Pick × State U)) (st st' : State U) (first found : Pick)
      → ((a a' : State U) (r : Pick) → again a ≡ some (r, a') → Stays a a')
      → or_again again (first, st) ≡ some (found, st')
      → Stays st st'
  unfolding or_again
  or_again-Stays again st st' (picked id kind payload) found searches goes = record {
    session = ground arith;
    busy = λ b. ground arith;
  }
  or_again-Stays again st st' idle found searches goes = searches st st' found goes
  or_again-Stays again st st' out_of_fuel found searches goes = searches st st' found goes

  pick_popped-Stays :
      (clock : Clock) (again : State U → Option (Pick × State U)) (st st' : State U)
      (popped : Option QueueItem) (found : Pick)
      → ((a a' : State U) (r : Pick) → again a ≡ some (r, a') → Stays a a')
      → ((item : QueueItem) → popped ≡ some item → is_session_item item ≡ false)
      → pick_popped clock again st popped ≡ some (found, st')
      → Stays st st'
  unfolding pick_popped
  pick_popped-Stays clock again st st' none found searches tasks goes = record {
    session = ground arith;
    busy = λ b. ground arith;
  }
  pick_popped-Stays clock again st st' (some item) found searches tasks goes =
      let ((first, between), picks, rest) = >>=-eq-some (pick_item clock st item) _ goes in
      let a = pick_item-Stays clock st between item first (tasks item refl) picks in
      let b = or_again-Stays again between st' first found searches rest in
      record { session = b.session ∙ a.session; busy = λ h. b.busy (a.busy h) }

  pub pick_task-Stays :
      (fuel : ℕ) (clock : Clock) (st st' : State U) (found : Pick)
      → pick_task fuel clock false st ≡ some (found, st')
      → Stays st st'
  unfolding pick_task
  pick_task-Stays zero clock st st' found picks = record {
    session = ground arith;
    busy = λ b. ground arith;
  }
  pick_task-Stays (suc fuel) clock st st' found picks =
      let (machine, e, rest) = >>=-eq-some (get_machine st) _ picks in
      let (popped, m') = next_item st false machine in
      let a =
        pick_popped-Stays clock (pick_task fuel clock false) (put_machine st m') st' popped found
          (λ before after r. pick_task-Stays fuel clock before after r)
          (λ item e'. next_item-task st machine m' item (ap (λ p. (p, m')) e')) rest in
      record { session = a.session; busy = λ h. a.busy h }
