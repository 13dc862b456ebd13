-- ===== src/Core/Restore/Counted.antt =====
-- A whole restoration (runner/src/core.rs) and the counters of the users.
use qscheduler.Base.{
  ℕ, ◌+◌, ◌<◌, ◌≤◌, ◌≡◌, refl, ◌∙◌, inl, inr, Bool, true, false, ◌&&◌, Option-cases, Option, none,
  some, List, [], ◌∷◌, get, nat_eq, nat_key, length, arith,
}
use qscheduler.Error.{ok}
use qscheduler.User.{u32_mod, u64_mod}
use qscheduler.User.Counts.{items_of, bytes_of}
use qscheduler.Session.{SessionConfig, SessionMap}
use qscheduler.Task.{Task, TaskConfig, TaskMap}
use qscheduler.Machine.{F64}
use qscheduler.Core.{Core}
use qscheduler.Core.Counters.{IsValid}
use qscheduler.Core.Restore.{
  Restored, Loaded, restore_sessions, restore_tasks, restore_rows, restore, wanted_tasks,
  wanted_sessions, starting, woken_up, limit_of_row,
}
use qscheduler.Core.Rows.{RestoredSession, RestoredTask, session_config, task_config}
use qscheduler.Core.Restore.Kept.{Kept}
use qscheduler.Core.Restore.Steps.{KeptIn, is_kept, row_bytes}
use qscheduler.Core.Restore.SessionRows.{restore_session-Step}
use qscheduler.Core.Restore.TaskRows.{restore_task-Step}

-- The id stands in no other row.
abbrev pub IsNoSession : ℕ → List RestoredSession → Type 0
IsNoSession id [] = Unit
IsNoSession id (row ∷ rows) = (nat_eq id row.id ≡ false) × IsNoSession id rows

abbrev pub IsNoTask : ℕ → List RestoredTask → Type 0
IsNoTask id [] = Unit
IsNoTask id (row ∷ rows) = (nat_eq id row.id ≡ false) × IsNoTask id rows

-- The rows of sessions can be read, and are of distinct sessions that are not in memory.
abbrev pub AreNewSessions : SessionMap → List RestoredSession → Type 0
AreNewSessions sessions [] = Unit
AreNewSessions sessions (row ∷ rows) =
    ((config : SessionConfig) × (session_config row ≡ some config))
    × (get row.id sessions ≡ none)
    × IsNoSession row.id rows
    × AreNewSessions sessions rows

-- The rows of tasks can be read, and are of distinct tasks that are not in memory.
abbrev pub AreNewTasks : TaskMap → List RestoredTask → Type 0
AreNewTasks tasks [] = Unit
AreNewTasks tasks (row ∷ rows) =
    ((limit : ℕ) → (config : TaskConfig) × (task_config limit row ≡ some config))
    × (get row.id tasks ≡ none)
    × IsNoTask row.id rows
    × AreNewTasks tasks rows

abbrev pub all_bytes : List RestoredTask → ℕ
all_bytes [] = 0
all_bytes (row ∷ rows) = row_bytes row + all_bytes rows

AreNewSessions-after :
    (id : ℕ) (sessions sessions' : SessionMap) (rows : List RestoredSession)
    → ((j : ℕ) → nat_eq id j ≡ false → get j sessions ≡ none → get j sessions' ≡ none)
    → IsNoSession id rows
    → AreNewSessions sessions rows
    → AreNewSessions sessions' rows
AreNewSessions-after id sessions sessions' [] still apart new = tt
AreNewSessions-after id sessions sessions' (row ∷ rows) still (other, apart)
      (readable, absent, alone, new) =
    (
      readable,
      still row.id other absent,
      alone,
      AreNewSessions-after id sessions sessions' rows still apart new,
    )

AreNewTasks-after :
    (id : ℕ) (tasks tasks' : TaskMap) (rows : List RestoredTask)
    → ((j : ℕ) → nat_eq id j ≡ false → get j tasks ≡ none → get j tasks' ≡ none)
    → IsNoTask id rows
    → AreNewTasks tasks rows
    → AreNewTasks tasks' rows
AreNewTasks-after id tasks tasks' [] still apart new = tt
AreNewTasks-after id tasks tasks' (row ∷ rows) still (other, apart) (readable, absent, alone, new) =
    (
      readable,
      still row.id other absent,
      alone,
      AreNewTasks-after id tasks tasks' rows still apart new,
    )

AreNewTasks-same :
    (tasks tasks' : TaskMap) (rows : List RestoredTask)
    → ((j : ℕ) → get j tasks ≡ none → get j tasks' ≡ none)
    → AreNewTasks tasks rows
    → AreNewTasks tasks' rows
AreNewTasks-same tasks tasks' [] still new = tt
AreNewTasks-same tasks tasks' (row ∷ rows) still (readable, absent, alone, new) =
    (readable, still row.id absent, alone, AreNewTasks-same tasks tasks' rows still new)

nat_eq_comm : (i j : ℕ) → nat_eq j i ≡ nat_eq i j
nat_eq_comm i j = ground arith

abbrev pub are_all_kept : TaskMap → List RestoredTask → Bool
are_all_kept tasks [] = true
are_all_kept tasks (row ∷ rows) = is_kept tasks row && are_all_kept tasks rows

is_kept-later :
    (tasks tasks' : TaskMap) (row : RestoredTask)
    → ((t : Task) → get row.id tasks ≡ some t → get row.id tasks' ≡ some t)
    → is_kept tasks row ≡ true
    → is_kept tasks' row ≡ true
is_kept-later tasks tasks' row stays here = elim (Option-cases (get row.id tasks)) [
  | inl gone ↦ ground (arith, here, gone)
  | inr (t, there) ↦ ground (arith, here, stays t there)
]

module _ {U : Type 0} ⦃f : F64 U⦄ where
  -- No task is restored with the sessions.
  restore_sessions-kept :
      (now utc : ℕ) (r : Restored U) (rows : List RestoredSession)
      → KeptIn r
      → AreNewSessions r.core.session_map rows
      → ((u : ℕ) → items_of r.core.user_map u + length rows < u32_mod)
      → (r' : Restored U) × (restore_sessions now utc r rows ≡ some r')
        × KeptIn r'
        × ((j : ℕ) → get j r.core.task_map ≡ none → get j r'.core.task_map ≡ none)
        × ((u : ℕ) → items_of r'.core.user_map u ≤ items_of r.core.user_map u + length rows)
        × ((u : ℕ) → bytes_of r'.core.user_map u ≤ bytes_of r.core.user_map u)
  unfolding restore_sessions
  restore_sessions-kept now utc r [] kept new room =
      (r, refl, kept, λ j absent. absent, λ u. omega arith, λ u. omega arith)
  restore_sessions-kept now utc r (row ∷ rows) kept ((config, read), absent, alone, new) room =
      let (r1, done, stepped) =
        restore_session-Step now utc r row config kept read absent (λ u. omega (arith, room u)) in
      let (r', rest, kept', no_task, items, bytes) =
        restore_sessions-kept now utc r1 rows stepped.kept
          (AreNewSessions-after row.id r.core.session_map r1.core.session_map rows
            stepped.no_session alone new)
          (λ u. omega (arith, room u, stepped.items u)) in
      (
        r',
        rw done rest,
        kept',
        λ j gone. no_task j (stepped.no_task j refl gone),
        λ u. omega (arith, items u, stepped.items u),
        λ u. omega (arith, bytes u, stepped.bytes u),
      )

  restore_tasks-kept :
      (now : ℕ) (r : Restored U) (rows : List RestoredTask)
      → KeptIn r
      → AreNewTasks r.core.task_map rows
      → ((u : ℕ) → items_of r.core.user_map u + length rows < u32_mod)
      → ((u : ℕ) → bytes_of r.core.user_map u + all_bytes rows < u64_mod)
      → (r' : Restored U) × (restore_tasks now r rows ≡ some r')
        × KeptIn r'
        × ((j : ℕ) (t : Task)
            → IsNoTask j rows
            → get j r.core.task_map ≡ some t
            → get j r'.core.task_map ≡ some t)
        × (are_all_kept r'.core.task_map rows ≡ true)
  unfolding restore_tasks
  restore_tasks-kept now r [] kept new room bytes_room =
      (r, refl, kept, λ j t apart there. there, refl)
  restore_tasks-kept now r (row ∷ rows) kept (readable, absent, alone, new) room bytes_room =
      let (config, read) = readable (limit_of_row r.core.machine_map row) in
      let (r1, done, stepped, here) =
        restore_task-Step now r row config kept read absent (λ u. omega (arith, room u))
          (λ u. omega (arith, bytes_room u)) in
      let (r', rest, kept', stays, all_here) =
        restore_tasks-kept now r1 rows stepped.kept
          (AreNewTasks-after row.id r.core.task_map r1.core.task_map rows stepped.no_task alone new)
          (λ u. omega (arith, room u, stepped.items u))
          (λ u. omega (arith, bytes_room u, stepped.bytes u)) in
      let here' =
        is_kept-later r1.core.task_map r'.core.task_map row (λ t. stays row.id t alone) here in
      (
        r',
        rw done rest,
        kept',
        λ j t (other, apart) there.
            stays j t apart (stepped.stays j t (nat_eq_comm j row.id ∙ other) there),
        rw (here', all_here) refl,
      )

  -- Restoring rows that can be read, of work that is not in memory, into a valid core never panics
  -- and gives a valid core: every user's counters are then exactly the restored work that has not
  -- ended, and the work already in memory. The task of every wanted row whose id is not 0 is then in
  -- memory, except for a row that was not sent to the backend and belongs to a session. No user's
  -- counters overflow by counting all rows.
  pub restore-IsValid :
      (now utc : ℕ) (only : Option ℕ) (c : Core U) (loaded : Loaded)
      → IsValid c
      → AreNewSessions c.session_map (wanted_sessions only loaded.sessions)
      → AreNewTasks c.task_map (wanted_tasks only loaded.tasks)
      → ((u : ℕ)
          → items_of c.user_map u
              + (length (wanted_sessions only loaded.sessions)
                  + length (wanted_tasks only loaded.tasks))
            < u32_mod)
      → ((u : ℕ) → bytes_of c.user_map u + all_bytes (wanted_tasks only loaded.tasks) < u64_mod)
      → (r : Restored U) × (restore now utc only c (ok loaded) ≡ some (ok r))
        × IsValid r.core
        × (are_all_kept r.core.task_map (wanted_tasks only loaded.tasks) ≡ true)
  unfolding restore restore_rows
  restore-IsValid now utc only c loaded valid new_sessions new_tasks room bytes_room =
      let kept : Kept c.task_map c.session_map c.user_map = record {
        counted = valid.counted;
        settled = valid.settled;
        tasks_unique = valid.tasks_unique;
        sessions_unique = valid.sessions_unique;
        users_unique = valid.users_unique;
      } in
      let (r1, done, kept1, no_task, items, bytes) =
        restore_sessions-kept now utc (starting only c loaded)
          (wanted_sessions only loaded.sessions) kept new_sessions (λ u. omega (arith, room u)) in
      let (r2, done', kept2, stays, all_here) =
        restore_tasks-kept now r1 (wanted_tasks only loaded.tasks) kept1
          (AreNewTasks-same c.task_map r1.core.task_map (wanted_tasks only loaded.tasks) no_task
            new_tasks)
          (λ u. omega (arith, room u, items u)) (λ u. omega (arith, bytes_room u, bytes u)) in
      (
        woken_up r2,
        rw (restore, restore_rows, done, done') refl,
        record {
          counted = kept2.counted;
          settled = kept2.settled;
          tasks_unique = kept2.tasks_unique;
          sessions_unique = kept2.sessions_unique;
          users_unique = kept2.users_unique;
        },
        all_here,
      )
