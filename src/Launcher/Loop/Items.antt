-- ===== src/Launcher/Loop/Items.antt =====
-- The items that wait at a machine (runner/src/machine.rs), which picking and submitting
-- (runner/src/launcher.rs) use up.
use qscheduler.Base.{
  ℕ, suc, ◌+◌, ◌%◌, ◌≡◌, refl, inl, inr, Bool, none, some, List, [], ◌∷◌, length, get, total-insert,
  get-insert_self, nat_key, Option-cases, arith,
}
use qscheduler.User.{u32_mod}
use qscheduler.Session.{Session}
use qscheduler.Task.{Task, TaskState, TaskConfig}
use qscheduler.Machine.{F64, Machine, UserQueue, QueueItem}
use qscheduler.Machine.Queue.{pop_queue_item, take_front, pick, entry, set_entry}
use qscheduler.Machine.Removal.{pop_session_task, start_session}
use qscheduler.Machine.Registry.{set_machine}
use qscheduler.Machine.FairShare.{record_new_task_in_backend}
use qscheduler.Launcher.{
  State, get_machine, put_machine, notify_task, notify_session, set_task_state,
}
use qscheduler.Launcher.Loop.{waiting_items, next_item}

module _ {U : Type 0} where
  pub get_machine-put : (st : State U) (m : Machine U) → get_machine (put_machine st m) ≡ some m
  unfolding set_machine
  get_machine-put st m = get-insert_self st.machine_id m st.core.machine_map.machines

  -- The parts of the state that picking leaves alone.
  pub record Keeps (st st' : State U) : Type 0 where
    pub queue_size : st'.queue_size ≡ st.queue_size
    pub submitted : st'.submitted_tasks ≡ st.submitted_tasks
    pub machine : get_machine st' ≡ get_machine st

  pub notify_task-Keeps :
      (st st' : State U) (t : Task) (state : TaskState)
      → notify_task st t state ≡ some st'
      → Keeps st st'
  unfolding notify_task
  notify_task-Keeps st st' t state told = record {
    queue_size = ground arith;
    submitted = ground arith;
    machine = ground arith;
  }

  pub notify_session-Keeps :
      (st st' : State U) (s : Session) → notify_session st s ≡ some st' → Keeps st st'
  unfolding notify_session
  notify_session-Keeps st st' s told = record {
    queue_size = ground arith;
    submitted = ground arith;
    machine = ground arith;
  }

  pub set_task_state-Keeps :
      (now : ℕ) (st st' : State U) (id : ℕ) (state : TaskState) (t : Task)
      → set_task_state now st id state ≡ some (st', t)
      → Keeps st st'
  unfolding set_task_state
  set_task_state-Keeps now st st' id state t set = record {
    queue_size = ground arith;
    submitted = ground arith;
    machine = ground arith;
  }

module _ {U : Type 0} ⦃f : F64 U⦄ where
  waiting_items-set_entry :
      (m : Machine U) (u : ℕ) (qu : UserQueue U)
      → waiting_items (set_entry m u qu) + length (entry m u).queue
        ≡ waiting_items m + length qu.queue
  unfolding set_entry
  waiting_items-set_entry m u qu = elim (Option-cases (get u m.queues)) [
    | inl e ↦ ground (arith, total-insert (λ q. length q.queue) u qu m.queues)
    | inr (q, e) ↦ ground (arith, total-insert (λ q. length q.queue) u qu m.queues)
  ]

  take_front-fewer :
      (allow : Bool) (m m' : Machine U) (u : ℕ) (item : QueueItem) (items : List QueueItem)
      → (entry m u).queue ≡ items
      → take_front allow m u (entry m u) items ≡ (some item, m')
      → waiting_items m ≡ suc (waiting_items m')
  take_front-fewer allow m m' u item [] e h = absurd (ground arith)
  take_front-fewer allow m m' u item (first ∷ rest) e h =
      let left : UserQueue U = record (entry m u) { queue = rest } in
      ground (arith, waiting_items-set_entry m u left)

  pop_queue_item-fewer :
      (allow : Bool) (m m' : Machine U) (item : QueueItem)
      → pop_queue_item allow m ≡ (some item, m')
      → waiting_items m ≡ suc (waiting_items m')
  unfolding pop_queue_item
  pop_queue_item-fewer allow m m' item h = elim (Option-cases (pick m.queues)) [
    | inl e ↦ absurd (ground arith)
    | inr ((u, key), e) ↦ take_front-fewer allow m m' u item (entry m u).queue refl (ground arith)
  ]

  -- An item that is found has waited.
  pub next_item-fewer :
      (st : State U) (allow : Bool) (m m' : Machine U) (item : QueueItem)
      → next_item st allow m ≡ (some item, m')
      → waiting_items m ≡ suc (waiting_items m')
  unfolding next_item pop_session_task
  next_item-fewer st allow m m' item h = elim (Option-cases st.running_session) [
    | inl e ↦ pop_queue_item-fewer allow m m' item (ground arith)
    | inr (s, e) ↦ ground arith
  ]

  take_front-none :
      (allow : Bool) (m m' : Machine U) (u : ℕ) (qu : UserQueue U) (items : List QueueItem)
      → take_front allow m u qu items ≡ (none, m')
      → m' ≡ m
  take_front-none allow m m' u qu [] h = ground arith
  take_front-none allow m m' u qu (first ∷ rest) h = ground arith

  pub next_item-none :
      (st : State U) (allow : Bool) (m m' : Machine U) → next_item st allow m ≡ (none, m') → m' ≡ m
  unfolding next_item pop_session_task pop_queue_item
  next_item-none st allow m m' h = elim (Option-cases st.running_session) [
    | inr (s, e) ↦ ground arith
    | inl e ↦ elim (Option-cases (pick m.queues)) [
      | inl empty ↦ ground arith
      | inr ((u, key), there) ↦
          take_front-none allow m m' u (entry m u) (entry m u).queue (ground arith)
    ]
  ]

  pub waiting_items-record_new :
      (m : Machine U) (c : TaskConfig)
      → waiting_items (record_new_task_in_backend m c) ≡ waiting_items m
  unfolding record_new_task_in_backend
  waiting_items-record_new m c =
      let qu : UserQueue U = entry m c.user_id in
      ground (
        arith,
        waiting_items-set_entry m c.user_id
            (record qu { submitted_tasks = (qu.submitted_tasks + 1) % u32_mod }),
      )

  pub waiting_items-start_session :
      (m m' : Machine U) (id : ℕ)
      → start_session m id ≡ some m'
      → waiting_items m' ≡ waiting_items m
  unfolding start_session
  waiting_items-start_session m m' id h = ground arith
