-- ===== src/Db/Updates/InSync.antt =====
-- Tasks in memory and their rows, as the launchers write them (runner/src/db.rs).
use qscheduler.Base.{
  ℕ, ◌≡◌, refl, sym, ◌∙◌, inl, inr, false, none, some, List, [], ◌∷◌, ◌++◌, get, insert, get-insert,
  nat_eq, nat_key, Bool-cases, arith, subst, ap, if◌then◌else◌,
}
use qscheduler.Task.{
  Task, TaskMap, TaskState, waiting, running, finished, failed, cancelled, is_final, set_state,
  CompletedState,
}
use qscheduler.User.{UserMap}
use qscheduler.Launcher.{DbUpdate}
use qscheduler.Launcher as Launchers
use qscheduler.Core.Infos.{outcome_of}
use qscheduler.Db.{Db, TaskRow, StoredState, Access, served}
use qscheduler.Db as Rows
use qscheduler.Db.Updates.{
  change_task, write_update, write_updates, ended_row, update_task_finished, update_task_failed,
  update_task_cancelled,
}
use qscheduler.Launcher.Message.{final_update}

abbrev pub stored_state : TaskState → StoredState
stored_state waiting = Rows.waiting
stored_state running = Rows.waiting
stored_state (finished _) = Rows.finished
stored_state (failed _ _) = Rows.failed
stored_state (cancelled _) = Rows.cancelled

-- The row has all that is shown of the task.
pub record Mirrors (t : Task) (row : TaskRow) : Type 0 where
  pub machine_id : row.config.machine_id ≡ t.config.machine_id
  pub parent : row.config.parent ≡ t.config.parent
  pub user_id : row.config.user_id ≡ t.config.user_id
  pub kind : row.config.kind ≡ t.config.kind
  pub time_limit : row.config.time_limit ≡ t.config.time_limit
  pub notifier : row.config.notifier ≡ t.config.notifier
  pub created_at : row.created_at ≡ t.created_at
  pub backend_id : row.backend_id ≡ t.backend_id
  pub started_at : row.started_at ≡ t.started_at
  pub state : row.state ≡ stored_state t.state
  pub finished_at : row.finished_at ≡ (outcome_of t.state).finished_at
  pub exec_time_ms : row.exec_time_ms ≡ (outcome_of t.state).exectime_ms
  pub error : row.error ≡ (outcome_of t.state).error

-- Every task in memory has a row that mirrors it.
abbrev pub InSync : TaskMap → Db → Type 0
InSync tasks db =
    (id : ℕ) (t : Task)
    → get id tasks ≡ some t
    → (t.id ≡ id) × (row : TaskRow) × (get id db.tasks ≡ some row) × Mirrors t row

pub write_updates-append :
    (access : DbUpdate → Access) (now : ℕ) (db : Db) (updates : List DbUpdate) (update : DbUpdate)
    → write_updates access now db (updates ++ update ∷ [])
      ≡ write_update (access update) now (write_updates access now db updates) update
unfolding write_updates
write_updates-append access now db [] update = refl
write_updates-append access now db (first ∷ updates) update =
    write_updates-append access now (write_update (access first) now db first) updates update

get-change_task :
    (db : Db) (id j : ℕ) (change : TaskRow → TaskRow) (row : TaskRow)
    → get id db.tasks ≡ some row
    → get j (change_task db id change).tasks
      ≡ (if nat_eq id j then some (change row) else get j db.tasks)
unfolding change_task
get-change_task db id j change row there =
    rw (there, change_task) (get-insert id j (change row) db.tasks)

-- A task and its row are changed together.
pub change-InSync :
    (tasks : TaskMap) (db : Db) (id : ℕ) (t t' : Task) (change : TaskRow → TaskRow)
    → InSync tasks db
    → get id tasks ≡ some t
    → t'.id ≡ t.id
    → ((row : TaskRow) → Mirrors t row → Mirrors t' (change row))
    → InSync (insert id t' tasks) (change_task db id change)
change-InSync tasks db id t t' change sync there same mirrors j s found =
    let (is_id, row, stored, mirrored) = sync id t there in
    let read = get-change_task db id j change row stored in
    let looked = get-insert id j t' tasks in
    elim (Bool-cases (nat_eq id j)) [
      | inl hit ↦
          let e : t' ≡ s = ground (arith, looked, hit, found) in
          (
            ground (arith, e, same, is_id, hit),
            change row,
            rw (read, hit) refl,
            subst (λ x. Mirrors x (change row)) e (mirrors row mirrored),
          )
      | inr miss ↦
          let (j_id, row', stored', mirrored') = sync j s (ground (arith, looked, miss, found)) in
          (j_id, row', rw (read, miss) stored', mirrored')
    ]

-- A task that is shown as its row has it already.
pub keep-InSync :
    (tasks : TaskMap) (db : Db) (id : ℕ) (t t' : Task)
    → InSync tasks db
    → get id tasks ≡ some t
    → t'.id ≡ t.id
    → ((row : TaskRow) → Mirrors t row → Mirrors t' row)
    → InSync (insert id t' tasks) db
keep-InSync tasks db id t t' sync there same mirrors j s found =
    let looked = get-insert id j t' tasks in
    elim (Bool-cases (nat_eq id j)) [
      | inl hit ↦
          let (is_id, row, stored, mirrored) = sync id t there in
          let e : t' ≡ s = ground (arith, looked, hit, found) in
          (
            ground (arith, e, same, is_id, hit),
            row,
            ground (arith, stored, hit),
            subst (λ x. Mirrors x row) e (mirrors row mirrored),
          )
      | inr miss ↦ sync j s (ground (arith, looked, miss, found))
    ]

-- What a new state leaves as it was.
pub record SameTask (t t' : Task) : Type 0 where
  pub id : t'.id ≡ t.id
  pub machine_id : t'.config.machine_id ≡ t.config.machine_id
  pub parent : t'.config.parent ≡ t.config.parent
  pub user_id : t'.config.user_id ≡ t.config.user_id
  pub kind : t'.config.kind ≡ t.config.kind
  pub time_limit : t'.config.time_limit ≡ t.config.time_limit
  pub notifier : t'.config.notifier ≡ t.config.notifier
  pub created_at : t'.created_at ≡ t.created_at
  pub backend_id : t'.backend_id ≡ t.backend_id
  pub started_at : t'.started_at ≡ t.started_at

pub set_state-SameTask :
    (now : ℕ) (t t' : Task) (state : TaskState) (users users' : UserMap)
    → set_state now t state users ≡ some (t', users')
    → SameTask t t' × (t'.state ≡ state)
unfolding set_state
set_state-SameTask now t t' state users users' set = (ground arith, ground arith)

no_error : (t : Task) (row : TaskRow) → is_final t.state ≡ false → Mirrors t row → row.error ≡ none
unfolding is_final outcome_of
no_error t row going m = ground (arith, m.error)

-- A task that has ended, and its row after the update that is written for it.
module _ (t t' : Task) (row : TaskRow) (same : SameTask t t') (mirrors : Mirrors t row) where
  ended-Mirrors :
      (state : TaskState)
      → t'.state ≡ state
      → (row' : TaskRow) → row'.config ≡ row.config
      → row'.created_at ≡ row.created_at
      → row'.backend_id ≡ row.backend_id
      → row'.started_at ≡ row.started_at
      → row'.state ≡ stored_state state
      → row'.finished_at ≡ (outcome_of state).finished_at
      → row'.exec_time_ms ≡ (outcome_of state).exectime_ms
      → row'.error ≡ (outcome_of state).error
      → Mirrors t' row'
  ended-Mirrors state became row' config created backend started stored finished_at exec error =
      record {
        machine_id = ap (λ c. c.machine_id) config ∙ mirrors.machine_id ∙ sym same.machine_id;
        parent = ap (λ c. c.parent) config ∙ mirrors.parent ∙ sym same.parent;
        user_id = ap (λ c. c.user_id) config ∙ mirrors.user_id ∙ sym same.user_id;
        kind = ap (λ c. c.kind) config ∙ mirrors.kind ∙ sym same.kind;
        time_limit = ap (λ c. c.time_limit) config ∙ mirrors.time_limit ∙ sym same.time_limit;
        notifier = ap (λ c. c.notifier) config ∙ mirrors.notifier ∙ sym same.notifier;
        created_at = created ∙ mirrors.created_at ∙ sym same.created_at;
        backend_id = backend ∙ mirrors.backend_id ∙ sym same.backend_id;
        started_at = started ∙ mirrors.started_at ∙ sym same.started_at;
        state = stored ∙ ap stored_state (sym became);
        finished_at = finished_at ∙ ap (λ s. (outcome_of s).finished_at) (sym became);
        exec_time_ms = exec ∙ ap (λ s. (outcome_of s).exectime_ms) (sym became);
        error = error ∙ ap (λ s. (outcome_of s).error) (sym became);
      }

-- Ending a task in memory and writing the update for it.
pub final-InSync :
    (now : ℕ) (tasks : TaskMap) (db : Db) (id : ℕ) (t t' : Task) (state : TaskState)
    (update : DbUpdate) (completed : CompletedState)
    → InSync tasks db
    → get id tasks ≡ some t
    → SameTask t t'
    → t'.state ≡ state
    → is_final t.state ≡ false
    → final_update id state ≡ some (update, completed)
    → InSync (insert id t' tasks) (write_update served now db update)
unfolding write_update final_update outcome_of update_task_finished update_task_failed
    update_task_cancelled
final-InSync now tasks db id t t' waiting update completed sync there same became going e = cc
final-InSync now tasks db id t t' running update completed sync there same became going e = cc
final-InSync now tasks db id t t' (finished c) update completed sync there same became going e =
    let is_update : Launchers.task_finished id c ≡ update = cc in
    subst (λ u. InSync (insert id t' tasks) (write_update served now db u)) is_update
      (change-InSync tasks db id t t' (ended_row Rows.finished c) sync there same.id (λ row m.
        ended-Mirrors t t' row same m (finished c) became (ended_row Rows.finished c row) refl refl
          refl refl refl refl refl (no_error t row going m)))
final-InSync now tasks db id t t' (failed c reason) update completed sync there same became going
      e =
    let is_update : Launchers.task_failed id c reason ≡ update = cc in
    let change : TaskRow → TaskRow =
      λ row. record (ended_row Rows.failed c row) { error = some reason } in
    subst (λ u. InSync (insert id t' tasks) (write_update served now db u)) is_update
      (change-InSync tasks db id t t' change sync there same.id (λ row m.
        ended-Mirrors t t' row same m (failed c reason) became (change row) refl refl refl refl refl
          refl refl refl))
final-InSync now tasks db id t t' (cancelled c) update completed sync there same became going e =
    let is_update : Launchers.task_cancelled id c ≡ update = cc in
    subst (λ u. InSync (insert id t' tasks) (write_update served now db u)) is_update
      (change-InSync tasks db id t t' (ended_row Rows.cancelled c) sync there same.id (λ row m.
        ended-Mirrors t t' row same m (cancelled c) became (ended_row Rows.cancelled c row) refl
          refl refl refl refl refl refl (no_error t row going m)))
