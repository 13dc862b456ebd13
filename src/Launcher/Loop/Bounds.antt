-- ===== src/Launcher/Loop/Bounds.antt =====
-- The submissions of a launcher (runner/src/launcher.rs), their rounds, and the size of the backend's
-- queue.
use qscheduler.Base.{
  ℕ, zero, suc, ◌+◌, ◌≤◌, ◌<◌, ◌≡◌, ◌∙◌, inl, inr, Bool, true, false, Option, some, List, [], ◌∷◌,
  Map, length, get, insert, nat_key, Bool-cases, >>=-eq-some, arith,
}
use qscheduler.Task.{Task, TaskState, TaskKind, failed}
use qscheduler.Machine.{F64, Machine}
use qscheduler.Machine.FairShare.{record_new_task_in_backend}
use qscheduler.Launcher.{
  State, Clock, get_machine, notify_task, set_task_state, project_limit_error,
}
use qscheduler.Launcher.Check.{is_project_over, task_project}
use qscheduler.Launcher.Loop.{
  Pick, picked, idle, out_of_fuel, waiting_items, pick_task, submit, reject, hand_over, submit_loop,
  submit_next, submit_found, has_room, no_assignments,
}
use qscheduler.Launcher.Loop.Picking.{spent, suffices, pick_task-Searches}
use qscheduler.Launcher.Loop.Items.{
  get_machine-put, notify_task-Keeps, set_task_state-Keeps, waiting_items-record_new,
}

length-insert : {V : Type 0} (k : ℕ) (v : V) (m : Map ℕ V) → length (insert k v m) ≤ suc (length m)
unfolding insert
length-insert k v [] = omega arith
length-insert k v ((j, u) ∷ m) = ground (arith, length-insert k v m)

module _ {U : Type 0} ⦃f : F64 U⦄ where
  -- Handing over or rejecting a task adds no item, and at most one task to the backend's.
  pub record Hands (m : Machine U) (st st' : State U) : Type 0 where
    pub queue_size : st'.queue_size ≡ st.queue_size
    pub submitted : length st'.submitted_tasks ≤ suc (length st.submitted_tasks)
    pub machine :
        (m' : Machine U) × (get_machine st' ≡ some m') × (waiting_items m' ≤ waiting_items m)

  reject-Hands :
      (clock : Clock) (st st' : State U) (id : ℕ) (t : Task) (m : Machine U)
      → get_machine st ≡ some m
      → reject clock st id t ≡ some st'
      → Hands m st st'
  unfolding reject
  reject-Hands clock st st' id t m there rejects =
      let state : TaskState =
        failed (record { consumed = 0; timestamp = clock.utc }) project_limit_error in
      let (told, heard, rest) = >>=-eq-some (notify_task st t state) _ rejects in
      let ((set, t'), sets, made) =
        >>=-eq-some (set_task_state clock.instant told id state) _ rest in
      let a = notify_task-Keeps st told t state heard in
      let b = set_task_state-Keeps clock.instant told set id state t' sets in
      record {
        queue_size = ground (arith, a.queue_size, b.queue_size, made);
        submitted = ground (arith, a.submitted, b.submitted, made);
        machine = (m, ground (arith, a.machine, b.machine, made), omega arith);
      }

  hand_over-Hands :
      (st st' : State U) (id : ℕ) (t : Task) (kind : TaskKind) (payload : List ℕ) (m : Machine U)
      → get_machine st ≡ some m
      → hand_over st id t kind payload ≡ some st'
      → Hands m st st'
  unfolding hand_over
  hand_over-Hands st st' id t kind payload m there hands =
      let (machine, e, made) = >>=-eq-some (get_machine st) _ hands in
      let m' = record_new_task_in_backend machine t.config in
      record {
        queue_size = ground arith;
        submitted = ground (arith, length-insert id false st.submitted_tasks);
        machine = (
          m',
          ground (arith, get_machine-put st m'),
          ground (arith, waiting_items-record_new machine t.config),
        );
      }

  submit-Hands :
      (clock : Clock) (st st' : State U) (id : ℕ) (kind : TaskKind) (payload : List ℕ)
      (m : Machine U)
      → get_machine st ≡ some m
      → submit clock st id kind payload ≡ some st'
      → Hands m st st'
  unfolding submit
  submit-Hands clock st st' id kind payload m there submits =
      let (t, e, rest) = >>=-eq-some (get id st.core.task_map) _ submits in
      elim (Bool-cases (is_project_over st.core.project_map (task_project (some t)))) [
        | inl over ↦ reject-Hands clock st st' id t m there (ground arith)
        | inr under ↦ hand_over-Hands st st' id t kind payload m there (ground arith)
      ]

  -- Of submissions from any state whose machine has fewer items than `fuel`: they suffice, and the
  -- backend has no more than the size of its queue afterwards, if it had not before.
  abbrev Submits : ℕ → (State U → Option (State U × Bool)) → Type 0
  Submits fuel submissions =
      (st st' : State U) (m : Machine U) (enough : Bool)
      → waiting_items m < fuel
      → get_machine st ≡ some m
      → length st.submitted_tasks ≤ st.queue_size
      → submissions st ≡ some (st', enough)
      → (enough ≡ true)
        × (length st'.submitted_tasks ≤ st'.queue_size)
        × (st'.queue_size ≡ st.queue_size)

  submit_found-Submits :
      (clock : Clock) (again : State U → Option (State U × Bool)) (fuel : ℕ) (st st' : State U)
      (m : Machine U) (found : Pick) (enough : Bool)
      → Submits fuel again
      → suffices found ≡ true
      → waiting_items m + spent found ≤ fuel
      → get_machine st ≡ some m
      → length st.submitted_tasks < st.queue_size
      → submit_found clock again (found, st) ≡ some (st', enough)
      → (enough ≡ true)
        × (length st'.submitted_tasks ≤ st'.queue_size)
        × (st'.queue_size ≡ st.queue_size)
  unfolding submit_found
  submit_found-Submits clock again fuel st st' m idle enough submits ok fewer there room goes =
      (ground arith, ground arith, ground arith)
  submit_found-Submits clock again fuel st st' m out_of_fuel enough submits ok fewer there room
        goes =
      absurd cc
  submit_found-Submits clock again fuel st st' m (picked id kind payload) enough submits ok fewer
        there room goes =
      let (next, e, rest) = >>=-eq-some (submit clock st id kind payload) _ goes in
      let hands = submit-Hands clock st next id kind payload m there e in
      let (m', there', less) = hands.machine in
      let (a, b, c) =
        submits next st' m' enough (omega arith) there'
          (ground (arith, hands.submitted, hands.queue_size)) rest in
      (a, b, c ∙ hands.queue_size)

  submit_next-Submits :
      (clock : Clock) (again : State U → Option (State U × Bool)) (fuel : ℕ) (st st' : State U)
      (m : Machine U) (enough : Bool)
      → Submits fuel again
      → waiting_items m < suc fuel
      → get_machine st ≡ some m
      → length st.submitted_tasks < st.queue_size
      → submit_next clock again st ≡ some (st', enough)
      → (enough ≡ true)
        × (length st'.submitted_tasks ≤ st'.queue_size)
        × (st'.queue_size ≡ st.queue_size)
  unfolding submit_next
  submit_next-Submits clock again fuel st st' m enough submits fewer there room goes =
      let (machine, e, rest) = >>=-eq-some (get_machine st) _ goes in
      let same : machine ≡ m = ground (arith, e, there) in
      let ((found, between), picks, rest') =
        >>=-eq-some (pick_task (suc (waiting_items machine)) clock (no_assignments st) st) _ rest in
      let (ok, uses) =
        pick_task-Searches (suc (waiting_items machine)) clock (no_assignments st) st between
          machine found (omega arith) e picks in
      let (m', there', less) = uses.machine in
      let (a, b, c) =
        submit_found-Submits clock again fuel between st' m' found enough submits ok
          (ground (arith, less, same)) there' (ground (arith, uses.submitted, uses.queue_size))
          rest' in
      (a, b, c ∙ uses.queue_size)

  submit_loop-Submits : (fuel : ℕ) (clock : Clock) → Submits fuel (submit_loop fuel clock)
  unfolding submit_loop
  submit_loop-Submits zero clock st st' m enough fewer there small goes = absurd (omega arith)
  submit_loop-Submits (suc fuel) clock st st' m enough fewer there small goes =
      elim (Bool-cases (has_room st)) [
        | inr full ↦ (ground arith, ground arith, ground arith)
        | inl room ↦
            submit_next-Submits clock (submit_loop fuel clock) fuel st st' m enough
              (submit_loop-Submits fuel clock) fewer there (ground arith) (ground arith)
      ]

  -- More rounds than the machine has waiting items are enough for the submissions. They leave no
  -- more tasks in the backend than the size of its queue, if there were no more before and nothing
  -- panics.
  pub submit_loop-bounded :
      (fuel : ℕ) (clock : Clock) (st st' : State U) (m : Machine U) (enough : Bool)
      → waiting_items m < fuel
      → get_machine st ≡ some m
      → length st.submitted_tasks ≤ st.queue_size
      → submit_loop fuel clock st ≡ some (st', enough)
      → (enough ≡ true)
        × (length st'.submitted_tasks ≤ st'.queue_size)
        × (st'.queue_size ≡ st.queue_size)
  submit_loop-bounded fuel clock = submit_loop-Submits fuel clock
