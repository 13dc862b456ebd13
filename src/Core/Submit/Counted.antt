-- ===== src/Core/Submit/Counted.antt =====
-- Adding a task or a session (runner/src/core.rs), the users' counters and the configured limits.
use qscheduler.Base.{
  ℕ, ◌+◌, ◌<◌, ◌≤◌, ◌≡◌, refl, inl, inr, none, some, get, get-insert, length, insert-IsUnique,
  nat_eq_iff, nat_key, Option-cases, arith,
}
use qscheduler.Error.{ok}
use qscheduler.User.{User, u32_mod, u64_mod, task_activated, find_user}
use qscheduler.User.Counts.{items_of, bytes_of, task_activated-Added, task_activated-IsUnique}
use qscheduler.Task.{Task, TaskConfig, insert_task, is_final}
use qscheduler.Task
use qscheduler.Task.Final as Final
use qscheduler.Machine.{F64}
use qscheduler.Core.{Core}
use qscheduler.Core.Checks.{check_user_limits, check_limits_of, check_item_limit}
use qscheduler.Core.Counters.{Settled, IsValid, IsWithinLimits, insert-Counted}
use qscheduler.Core.Submit.{add_task}

module _ {U : Type 0} ⦃f : F64 U⦄ where
  -- What an accepted task has passed, and what has become of the maps.
  record Accepted (c c' : Core U) (task_id created_at : ℕ) (config : TaskConfig) : Type 0 where
    user : User
    loaded : get config.user_id c.user_map.users ≡ some user
    item_room : user.active_items < c.max_user_active_items
    byte_room : user.active_payload_bytes + length config.payload ≤ c.max_user_active_payload
    users : task_activated c.user_map config.user_id (length config.payload) ≡ ok c'.user_map
    tasks : c'.task_map ≡ insert_task c.task_map (Task.new task_id created_at config)
    sessions : c'.session_map ≡ c.session_map
    same_items : c'.max_user_active_items ≡ c.max_user_active_items
    same_bytes : c'.max_user_active_payload ≡ c.max_user_active_payload

  add_task-Accepted :
      (c c' : Core U) (task_id created_at id : ℕ) (config : TaskConfig)
      → c.max_user_active_payload + 1 < u64_mod
      → add_task c task_id created_at config ≡ ok (c', id)
      → Accepted c c' task_id created_at config
  unfolding add_task check_user_limits check_limits_of check_item_limit find_user
  add_task-Accepted c c' task_id created_at id config small h =
      elim (Option-cases (get config.user_id c.user_map.users)) [
        | inl e ↦ absurd (ground arith)
        | inr (u, e) ↦ record {
          user = u;
          loaded = e;
          item_room = ground arith;
          byte_room = ground arith;
          users = ground arith;
          tasks = ground arith;
          sessions = ground arith;
          same_items = ground arith;
          same_bytes = ground arith;
        }
      ]

  insert-Settled :
      (c c' : Core U) (task_id created_at : ℕ) (config : TaskConfig)
      → c'.task_map ≡ insert_task c.task_map (Task.new task_id created_at config)
      → c'.session_map ≡ c.session_map
      → Settled c.task_map c.session_map
      → Settled c'.task_map c'.session_map
  unfolding Task.new insert_task is_final
  insert-Settled c c' task_id created_at config tasks sessions h = record {
    tasks_settled = λ id t found. ground (
      arith,
      get-insert task_id id (Task.new task_id created_at config) c.task_map,
      h.tasks_settled id t,
    );
    sessions_settled = λ id s found. ground (arith, h.sessions_settled id s);
  }

  -- An accepted task is counted: the invariant of the core is kept. The configured limits are
  -- below the largest values of their types, and the database hands out an id not in use.
  pub add_task-IsValid :
      (c c' : Core U) (task_id created_at id : ℕ) (config : TaskConfig)
      → c.max_user_active_items < u32_mod
      → c.max_user_active_payload + 1 < u64_mod
      → get task_id c.task_map ≡ none
      → IsValid c
      → add_task c task_id created_at config ≡ ok (c', id)
      → IsValid c'
  unfolding Task.new insert_task Final.item_weight Final.byte_weight is_final items_of bytes_of
  add_task-IsValid c c' task_id created_at id config items_limit bytes_limit fresh valid h =
      let a = add_task-Accepted c c' task_id created_at id config bytes_limit h in
      let (users, made, added) =
        task_activated-Added c.user_map config.user_id (length config.payload) a.user a.loaded
          (ground (arith, a.loaded, a.item_room)) (ground (arith, a.loaded, a.byte_room)) in
      let same : c'.user_map ≡ users = ground (arith, a.users, made) in
      record {
        counted =
            rw (a.tasks, a.sessions, same)
              (insert-Counted c.task_map c.session_map c.user_map users
                (Task.new task_id created_at config) config.user_id 1 (length config.payload) fresh
                (λ u. refl) (λ u. refl) added (ground (arith, a.loaded, a.item_room))
                (ground (arith, a.loaded, a.byte_room)) valid.counted);
        settled = insert-Settled c c' task_id created_at config a.tasks a.sessions valid.settled;
        tasks_unique = rw a.tasks (
            insert-IsUnique task_id (Task.new task_id created_at config) c.task_map
              valid.tasks_unique);
        sessions_unique = rw a.sessions valid.sessions_unique;
        users_unique =
            task_activated-IsUnique c.user_map c'.user_map config.user_id (length config.payload)
              a.users valid.users_unique;
      }

  -- An accepted task leaves no user over the configured limits, if none was before.
  pub add_task-IsWithinLimits :
      (c c' : Core U) (task_id created_at id : ℕ) (config : TaskConfig)
      → c.max_user_active_items < u32_mod
      → c.max_user_active_payload + 1 < u64_mod
      → IsWithinLimits c
      → add_task c task_id created_at config ≡ ok (c', id)
      → IsWithinLimits c'
  unfolding items_of bytes_of
  add_task-IsWithinLimits c c' task_id created_at id config items_limit bytes_limit within h =
      let a = add_task-Accepted c c' task_id created_at id config bytes_limit h in
      let (users, made, added) =
        task_activated-Added c.user_map config.user_id (length config.payload) a.user a.loaded
          (ground (arith, a.loaded, a.item_room)) (ground (arith, a.loaded, a.byte_room)) in
      let same : c'.user_map ≡ users = ground (arith, a.users, made) in
      let here : items_of c.user_map config.user_id ≡ a.user.active_items = rw a.loaded refl in
      let here' : bytes_of c.user_map config.user_id ≡ a.user.active_payload_bytes =
        rw a.loaded refl in
      record {
        items = λ u.
            rw (same, a.same_items)
              (ground (
                arith,
                added.items u,
                within.items u,
                here,
                a.item_room,
                nat_eq_iff config.user_id u,
              ));
        bytes = λ u.
            rw (same, a.same_bytes)
              (ground (
                arith,
                added.bytes u,
                within.bytes u,
                here',
                a.byte_room,
                nat_eq_iff config.user_id u,
              ));
      }
