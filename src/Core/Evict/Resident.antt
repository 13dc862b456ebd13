-- ===== src/Core/Evict/Resident.antt =====
-- Eviction (runner/src/core.rs), and the users of the tasks and sessions that stay in memory.
use qscheduler.Base.{
  ℕ, ◌≡◌, inl, inr, some, get, get-retain, nat_eq_iff, nat_key, Option-cases, arith,
}
use qscheduler.User.{User}
use qscheduler.User.Counts.{loaded_of_items}
use qscheduler.User.Idle.{Covers, evict_idle-Covers}
use qscheduler.Session.{Session, is_recent, evict_closed}
use qscheduler.Task.{Task, evict_finished}
use qscheduler.Task.Final as Final
use qscheduler.Core.{Core}
use qscheduler.Core.Counters.{IsValid, counted_weights}
use qscheduler.Core.Evict.{evict}
use qscheduler.Core.Evict.Counted.{keeps_task, keeps_session}

-- The users of the tasks that have ended, and the owners of the sessions that have closed, are to
-- stay until the time of the end.
pub record IsResident {U : Type 0} (c : Core U) : Type 0 where
  pub tasks :
      (id : ℕ) (t : Task) (ended : ℕ)
      → get id c.task_map ≡ some t
      → t.finished_on ≡ some ended
      → Covers c.user_map t.config.user_id ended
  pub sessions :
      (id : ℕ) (s : Session) (ended : ℕ)
      → get id c.session_map ≡ some s
      → s.closed_on ≡ some ended
      → Covers c.user_map s.config.owner_id ended

-- With one `now` for all, eviction keeps the users of the tasks and sessions that it keeps.
pub evict-IsResident :
    {U : Type 0} (now retention : ℕ) (c : Core U)
    → IsValid c
    → IsResident c
    → IsResident (evict now retention c)
unfolding evict evict_finished evict_closed is_recent
evict-IsResident now retention c valid resident = record {
  tasks = λ id t ended found e.
      evict_idle-Covers now retention c.user_map t.config.user_id ended valid.users_unique
        (ground (arith, get-retain (keeps_task now retention) id c.task_map valid.tasks_unique))
        (resident.tasks id t ended
          (ground (arith, get-retain (keeps_task now retention) id c.task_map valid.tasks_unique))
          e);
  sessions = λ id s ended found e.
      evict_idle-Covers now retention c.user_map s.config.owner_id ended valid.users_unique
        (ground
          (arith, get-retain (keeps_session now retention) id c.session_map valid.sessions_unique))
        (resident.sessions id s ended
          (ground (
            arith,
            get-retain (keeps_session now retention) id c.session_map valid.sessions_unique,
          ))
          e);
}

-- The user of every task in memory is loaded, whatever the task's state.
IsResident-loaded :
    {U : Type 0} (c : Core U) (id : ℕ) (t : Task)
    → IsValid c
    → IsResident c
    → get id c.task_map ≡ some t
    → (u : User) × (get t.config.user_id c.user_map.users ≡ some u)
unfolding Final.item_weight
IsResident-loaded c id t valid resident found = elim (Option-cases t.finished_on) [
  | inl active ↦
      let (u, e, _, _) = loaded_of_items c.user_map t.config.user_id (
        ground (
          arith,
          (counted_weights c.task_map c.session_map c.user_map id t t.config.user_id valid.counted
              found).0,
          valid.settled.tasks_settled id t found,
          nat_eq_iff t.config.user_id t.config.user_id,
        )) in
      (u, e)
  | inr (ended, e) ↦ let (u, e', _) = resident.tasks id t ended found e in (u, e')
]
