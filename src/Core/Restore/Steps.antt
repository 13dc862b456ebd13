-- ===== src/Core/Restore/Steps.antt =====
-- What a row of a restoration may change (runner/src/core.rs).
use qscheduler.Base.{
  not, ◌&&◌, ◌||◌, ℕ, ◌+◌, ◌≤◌, ◌≡◌, refl, Bool, true, false, Option, none, some, [], get, nat_eq,
  nat_key, length, arith,
}
use qscheduler.User.Counts.{items_of, bytes_of, at}
use qscheduler.Task.{parent_new, Task, TaskMap, TaskConfig, session_id, set_started_at}
use qscheduler.Core.Restore.{Restored}
use qscheduler.Core.Rows.{is_none, try_id, RestoredTask, task_config, started, or_else}
use qscheduler.Core.Restore.Kept.{Kept}

abbrev pub KeptIn : {U : Type 0} → Restored U → Type 0
KeptIn r = Kept r.core.task_map r.core.session_map r.core.user_map

-- What a row may do: it adds no session under other ids than `id`, no task that is not `touched`,
-- and at most `n` items and `b` bytes to a user.
pub record Step {U : Type 0} (r r' : Restored U) (id : ℕ) (touched : ℕ → Bool) (n b : ℕ)
    : Type 0 where
  pub kept : KeptIn r'
  pub no_task :
      (j : ℕ) → touched j ≡ false → get j r.core.task_map ≡ none → get j r'.core.task_map ≡ none
  pub stays :
      (j : ℕ) (t : Task)
      → touched j ≡ false
      → get j r.core.task_map ≡ some t
      → get j r'.core.task_map ≡ some t
  pub no_session :
      (j : ℕ)
      → nat_eq id j ≡ false
      → get j r.core.session_map ≡ none
      → get j r'.core.session_map ≡ none
  pub items : (u : ℕ) → items_of r'.core.user_map u ≤ items_of r.core.user_map u + n
  pub bytes : (u : ℕ) → bytes_of r'.core.user_map u ≤ bytes_of r.core.user_map u + b

abbrev pub row_bytes : RestoredTask → ℕ
row_bytes row = length (or_else row.payload [])

pub task_config-payload :
    (limit : ℕ) (row : RestoredTask) (config : TaskConfig)
    → task_config limit row ≡ some config
    → config.payload ≡ or_else row.payload []
unfolding task_config
task_config-payload limit row config done = ground (arith, done)

pub task_config-session :
    (limit : ℕ) (row : RestoredTask) (config : TaskConfig)
    → task_config limit row ≡ some config
    → session_id config.parent ≡ row.session_id
unfolding task_config try_id parent_new session_id
task_config-session limit row config done = ground (arith, done)

abbrev pub is_in : ℕ → TaskMap → Bool
is_in id tasks = not (is_none (get id tasks))

pub is_in-some :
    (id : ℕ) (tasks : TaskMap) (t : Task) → get id tasks ≡ some t → is_in id tasks ≡ true
is_in-some id tasks t there = rw there refl

-- The task of a row that has an id is in memory, unless it was not sent to the backend and
-- belongs to a session.
abbrev pub is_kept : TaskMap → RestoredTask → Bool
is_kept tasks row =
    nat_eq row.id 0
    || (is_none row.backend_id && not (is_none row.session_id))
    || is_in row.id tasks

-- The time of the start is all that a started task differs in.
pub started-same :
    (t : Task) (started_at : Option ℕ)
    → ((started t started_at).id ≡ t.id)
      × ((started t started_at).config ≡ t.config)
      × ((started t started_at).state ≡ t.state)
      × ((started t started_at).finished_on ≡ t.finished_on)
unfolding set_started_at
started-same t none = (refl, refl, refl, refl)
started-same t (some at) = (refl, refl, refl, refl)
