-- ===== src/Reactor/Work/Answers.antt =====
-- The answers to a request to cancel a task (runner/src/reactor.rs).
use qscheduler.Base.{
  ℕ, ◌≡◌, refl, inl, inr, true, false, none, some, [], ◌∷◌, ◌++◌, get, nat_eq, nat_key, get-insert,
  get-insert_self, Bool-cases, Option-cases, arith,
}
use qscheduler.Error.{sqlx, Result, ok, err, task_already_finished, invalid_task}
use qscheduler.Task.{Task, is_final}
use qscheduler.Machine.{Machine, request_task_cancel, wake_launcher}
use qscheduler.Machine.Registry.{set_machine}
use qscheduler.Core.{Core}
use qscheduler.Db.{Db, TaskRow, Access, served, broken}
use qscheduler.Reactor.Work.{cancel_task, answer_by_row}

module _ {U : Type 0} where
  -- The machine of every unfinished task in memory is in memory.
  abbrev pub HasMachines : Core U → Type 0
  HasMachines c =
      (id : ℕ) (t : Task)
      → get id c.task_map ≡ some t
      → is_final t.state ≡ false
      → (m : Machine U) × (get t.config.machine_id c.machine_map.machines ≡ some m)

  -- The task is unfinished, and the launcher of its machine is woken with a request to cancel it
  -- behind the other requests.
  pub record Requested (c c' : Core U) (id : ℕ) : Type 0 where
    pub task : Task
    pub machine : Machine U
    pub in_memory : get id c.task_map ≡ some task
    pub unfinished : is_final task.state ≡ false
    pub asked :
        get task.config.machine_id c'.machine_map.machines
        ≡ some (record machine {
          task_cancel_requests = machine.task_cancel_requests ++ id ∷ [];
          notified = true;
        })
    pub was : get task.config.machine_id c.machine_map.machines ≡ some machine
    pub others :
        (j : ℕ)
        → nat_eq task.config.machine_id j ≡ false
        → get j c'.machine_map.machines ≡ get j c.machine_map.machines
    pub same_tasks : c'.task_map ≡ c.task_map

  -- What an answer says; nothing has changed but for a request that is accepted.
  pub data Answered (access : Access) (c : Core U) (db : Db) (id : ℕ)
      : Core U → Result (Unit {0}) → Type 0 where
    requested : (c' : Core U) → Requested c c' id → Answered access c db id c' (ok tt)
    finished :
        (t : Task)
        → get id c.task_map ≡ some t
        → is_final t.state ≡ true
        → Answered access c db id c (err (task_already_finished id))
    evicted :
        (row : TaskRow)
        → get id c.task_map ≡ none
        → get id db.tasks ≡ some row
        → access ≡ served
        → Answered access c db id c (err (task_already_finished id))
    unknown :
        get id c.task_map ≡ none
        → get id db.tasks ≡ none
        → access ≡ served
        → Answered access c db id c (err (invalid_task id))
    unreachable : get id c.task_map ≡ none → access ≡ broken → Answered access c db id c (err sqlx)

  absent_task-Answered :
      (access : Access) (c : Core U) (db : Db) (id : ℕ)
      → get id c.task_map ≡ none
      → (c' : Core U) × (r : Result (Unit {0})) × (cancel_task access c db id ≡ some (c', r))
        × Answered access c db id c' r
  unfolding cancel_task
  absent_task-Answered broken c db id absent =
      (c, err sqlx, rw (cancel_task, absent, answer_by_row) refl, unreachable absent refl)
  absent_task-Answered served c db id absent = elim (Option-cases (get id db.tasks)) [
    | inl nowhere ↦ (
      c,
      err (invalid_task id),
      rw (cancel_task, absent, answer_by_row, nowhere) refl,
      unknown absent nowhere refl,
    )
    | inr (row, kept) ↦ (
      c,
      err (task_already_finished id),
      rw (cancel_task, absent, answer_by_row, kept) refl,
      evicted row absent kept refl,
    )
  ]

  -- A request to cancel a task never panics while the machines of the unfinished tasks are in
  -- memory, whether or not the database can be reached. The request is accepted exactly for an
  -- unfinished task in memory, and its launcher is then woken with the request; nothing changes
  -- otherwise. A task in memory that has ended is reported as finished. Of a task that is not in
  -- memory the answer is that it has finished, if the database has it, that it is unknown, if not,
  -- and an error if the database cannot be reached.
  pub cancel_task-Answered :
      (access : Access) (c : Core U) (db : Db) (id : ℕ)
      → HasMachines c
      → (c' : Core U) × (r : Result (Unit {0})) × (cancel_task access c db id ≡ some (c', r))
        × Answered access c db id c' r
  unfolding cancel_task set_machine request_task_cancel wake_launcher
  cancel_task-Answered access c db id machines = elim (Option-cases (get id c.task_map)) [
    | inl absent ↦ absent_task-Answered access c db id absent
    | inr (t, here) ↦ elim (Bool-cases (is_final t.state)) [
      | inl over ↦ (
        c,
        err (task_already_finished id),
        rw (cancel_task, here, over) refl,
        finished t here over,
      )
      | inr going ↦
          let (m, found) = machines id t here going in
          let m' = wake_launcher (request_task_cancel m id) in
          (
            record c { machine_map = set_machine c.machine_map t.config.machine_id m' },
            ok tt,
            rw (cancel_task, here, going, found) refl,
            requested _ (record {
              task = t;
              machine = m;
              in_memory = here;
              unfinished = going;
              asked = get-insert_self t.config.machine_id m' c.machine_map.machines;
              was = found;
              others = λ j other.
                  ground (arith, other, get-insert t.config.machine_id j m' c.machine_map.machines);
              same_tasks = refl;
            }),
          )
    ]
  ]
