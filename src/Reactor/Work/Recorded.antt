-- ===== src/Reactor/Work/Recorded.antt =====
-- Submitted tasks in memory and in the database (runner/src/reactor.rs).
use qscheduler.Base.{
  ℕ, ◌+◌, ◌≤◌, ◌≡◌, refl, ◌⊎◌, inl, inr, false, none, some, get, insert, get-insert, get-remove,
  get-insert_self, nat_eq, nat_eq_iff, nat_key, if◌then◌else◌, Bool-cases, arith,
}
use qscheduler.Error.{RunnerError, ok, err, Result-cases}
use qscheduler.Task.{Task, TaskConfig, insert_task as insert_task_map}
use qscheduler.Task as Tasks
use qscheduler.Machine.{F64}
use qscheduler.Core.{Core}
use qscheduler.Core.Checks.{validate_task_config}
use qscheduler.Core.Submit.{add_task}
use qscheduler.Db.{Db, TaskRow, task_row, Access, served, broken, insert_task, delete_task}
use qscheduler.Reactor.Work.{submit_task}

-- No row has an id that the sequence has yet to give.
abbrev pub IsFresh : Db → Type 0
IsFresh db = (id : ℕ) → db.next_task_id ≤ id → get id db.tasks ≡ none

-- The task is in memory, waiting, and there is a row for it; the other rows are as they were.
pub record Accepted {U : Type 0} (now : ℕ) (config : TaskConfig) (db : Db) (c' : Core U) (db' : Db)
    (id : ℕ) : Type 0 where
  pub in_memory : get id c'.task_map ≡ some (Tasks.new id now config)
  pub in_database : get id db'.tasks ≡ some (task_row now config)
  pub was_unknown : get id db.tasks ≡ none
  pub others : (j : ℕ) → nat_eq id j ≡ false → get j db'.tasks ≡ get j db.tasks

-- The task has left no trace.
pub record Rejected {U : Type 0} (c : Core U) (db : Db) (c' : Core U) (db' : Db) : Type 0 where
  pub same_core : c' ≡ c
  pub same_rows : (j : ℕ) → get j db'.tasks ≡ get j db.tasks

insert_task-row :
    (access : Access) (now : ℕ) (db db' : Db) (config : TaskConfig) (id created_at j : ℕ)
    → insert_task access now db config ≡ ok (db', id, created_at)
    → (get j db'.tasks ≡ (if nat_eq id j then some (task_row now config) else get j db.tasks))
      × (db'.next_task_id ≡ id + 1)
      × (id ≡ db.next_task_id)
      × (created_at ≡ now)
unfolding insert_task
insert_task-row broken now db db' config id created_at j done = cc
insert_task-row served now db db' config id created_at j done =
    let row : TaskRow = task_row now config in
    elim (Bool-cases (nat_eq db.next_task_id 0)) [
      | inl unset ↦ absurd (ground (arith, unset, done))
      | inr set ↦ (
        ground (arith, set, done, get-insert db.next_task_id j row db.tasks),
        ground (arith, set, done),
        ground (arith, set, done),
        ground (arith, set, done),
      )
    ]

insert_task-IsFresh :
    (access : Access) (now : ℕ) (db db' : Db) (config : TaskConfig) (id created_at : ℕ)
    → insert_task access now db config ≡ ok (db', id, created_at)
    → IsFresh db
    → IsFresh db'
insert_task-IsFresh access now db db' config id created_at done fresh j late =
    let row = insert_task-row access now db db' config id created_at j done in
    ground (arith, row.0, row.1, row.2, fresh j, late, nat_eq_iff id j)

-- Inserting a row and deleting it again.
delete_task-insert_task :
    (access : Access) (now : ℕ) (db db' : Db) (config : TaskConfig) (id created_at j : ℕ)
    → insert_task access now db config ≡ ok (db', id, created_at)
    → IsFresh db
    → get j (delete_task served db' id).tasks ≡ get j db.tasks
unfolding delete_task
delete_task-insert_task access now db db' config id created_at j done fresh =
    let row = insert_task-row access now db db' config id created_at j done in
    ground (
      arith,
      row.0,
      row.2,
      get-remove id j db'.tasks,
      fresh id (omega (arith, row.2)),
      nat_eq_iff id j,
    )

delete_task-IsFresh : (db : Db) (id : ℕ) → IsFresh db → IsFresh (delete_task served db id)
unfolding delete_task
delete_task-IsFresh db id fresh j late = ground (arith, get-remove id j db.tasks, fresh j late)

module _ {U : Type 0} ⦃f : F64 U⦄ where
  add_task-in_memory :
      (c c' : Core U) (id id' now : ℕ) (config : TaskConfig)
      → add_task c id now config ≡ ok (c', id')
      → (get id c'.task_map ≡ some (Tasks.new id now config)) × (id' ≡ id)
  unfolding add_task insert_task_map Tasks.new
  add_task-in_memory c c' id id' now config done =
      let same : c'.task_map ≡ insert id (Tasks.new id now config) c.task_map = ground arith in
      (rw same (get-insert_self id (Tasks.new id now config) c.task_map), ground arith)

  -- Whatever happens between the locks of a submission: a task that is accepted is in memory and in
  -- the database, under an id that the database did not know; one that is refused, by a check or by
  -- the database, changes nothing in memory, and leaves no row if its deletion is served.
  pub submit_task-recorded :
      (access undo : Access) (now : ℕ) (begin end : Core U) (db : Db) (config : TaskConfig)
      → IsFresh db
      → undo ≡ served
      → IsFresh (submit_task access undo now begin end db config).1
        × (((id : ℕ) × ((submit_task access undo now begin end db config).2 ≡ ok id)
              × Accepted now config db
                  (submit_task access undo now begin end db config).0
                  (submit_task access undo now begin end db config).1
                  id)
            ⊎ ((e : RunnerError) × ((submit_task access undo now begin end db config).2 ≡ err e)
                × Rejected end db
                    (submit_task access undo now begin end db config).0
                    (submit_task access undo now begin end db config).1))
  unfolding submit_task
  submit_task-recorded access undo now begin end db config fresh again =
      elim (Result-cases (validate_task_config begin config)) [
        | inl (e, invalid) ↦
            rw (submit_task, invalid)
              (fresh, inr (e, refl, record { same_core = refl; same_rows = λ j. refl }))
        | inr (_, valid) ↦ elim (Result-cases (insert_task access now db config)) [
          | inl (e, failed) ↦
              rw (submit_task, valid, failed)
                (fresh, inr (e, refl, record { same_core = refl; same_rows = λ j. refl }))
          | inr ((db', id, at), inserted) ↦ elim (Result-cases (add_task end id at config)) [
            | inl (e, refused) ↦
                rw (submit_task, valid, inserted, refused, again)
                  (
                    delete_task-IsFresh db' id
                        (insert_task-IsFresh access now db db' config id at inserted fresh),
                    inr (
                      e,
                      refl,
                      record {
                        same_core = refl;
                        same_rows = λ j.
                            delete_task-insert_task access now db db' config id at j inserted fresh;
                      },
                    ),
                  )
            | inr ((end', id'), added) ↦
                let row = λ (j : ℕ). insert_task-row access now db db' config id at j inserted in
                let there = add_task-in_memory end end' id id' at config added in
                rw (submit_task, valid, inserted, added)
                  (
                    insert_task-IsFresh access now db db' config id at inserted fresh,
                    inl (
                      id',
                      refl,
                      record {
                        in_memory = ground (arith, there.0, there.1, (row 0).3);
                        in_database = ground (arith, (row id).0, there.1, nat_eq_iff id id);
                        was_unknown = ground (arith, there.1, fresh id, (row 0).2);
                        others = λ j other. ground (arith, (row j).0, there.1, other);
                      },
                    ),
                  )
          ]
        ]
      ]
