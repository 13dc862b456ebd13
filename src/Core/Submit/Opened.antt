-- ===== src/Core/Submit/Opened.antt =====
-- Adding a session (runner/src/core.rs): its owner and the users' counters.
use qscheduler.Base.{
  ℕ, ◌+◌, ◌<◌, ◌≡◌, refl, inl, inr, Option, none, some, get, get-insert, IsUnique, insert-IsUnique,
  nat_key, Option-cases, arith,
}
use qscheduler.Error.{Result, ok, err}
use qscheduler.User.{User, UserMap, u32_mod, session_activated, find_user}
use qscheduler.User.Counts.{
  items_of, bytes_of, Added, task_activated-Added, task_activated-IsUnique,
}
use qscheduler.Session.{Session, SessionConfig, insert_session, is_closed}
use qscheduler.Session
use qscheduler.Session.States as States
use qscheduler.Machine.{Machine, F64}
use qscheduler.Machine.Queue.{queue_session}
use qscheduler.Core.{Core}
use qscheduler.Core.Checks.{check_session_owner_limit, check_item_limit}
use qscheduler.Core.Counters.{Settled, IsValid, insert_session-Counted}
use qscheduler.Core.Submit.{add_session, queue_new_session, keep_active_session}

-- What adding a session may result in: a refusal, or a valid core with the new session in it.
abbrev pub SessionAdded :
    {U : Type 0} → Core U → ℕ → ℕ → SessionConfig → Option (Result (Core U × ℕ)) → Type 0
SessionAdded c session_id created_at config none = ⊥
SessionAdded c session_id created_at config (some (err _)) = Unit
SessionAdded c session_id created_at config (some (ok (c', _))) =
    IsValid c'
    × (c'.task_map ≡ c.task_map)
    × (c'.session_map ≡ insert_session c.session_map (Session.new session_id created_at config))

module _ {U : Type 0} ⦃f : F64 U⦄ where
  -- What a queued session has passed.
  record Queued (c : Core U) (session_id created_at : ℕ) (config : SessionConfig) (s : Session)
      : Type 0 where
    owner : User
    loaded : get config.owner_id c.user_map.users ≡ some owner
    room : owner.active_items < c.max_user_active_items
    made : s ≡ Session.new session_id created_at config

  queue_new_session-Queued :
      (c : Core U) (session_id created_at : ℕ) (config : SessionConfig) (m : Machine U)
      (s : Session)
      → queue_new_session c session_id created_at config ≡ ok (m, s)
      → Queued c session_id created_at config s
  unfolding queue_new_session check_session_owner_limit check_item_limit find_user queue_session
  queue_new_session-Queued c session_id created_at config m s h =
      elim (Option-cases (get config.owner_id c.user_map.users)) [
        | inl e ↦ absurd (ground arith)
        | inr (u, e) ↦ record { owner = u; loaded = e; room = ground arith; made = ground arith }
      ]

  -- Keeping the new session succeeds and counts it for its owner.
  keep-Added :
      (c : Core U) (session_id created_at : ℕ) (config : SessionConfig) (s : Session)
      → c.max_user_active_items < u32_mod
      → IsValid c
      → Queued c session_id created_at config s
      → (users : UserMap) × (keep_active_session c.session_map c.user_map s
          ≡ some (insert_session c.session_map (Session.new session_id created_at config), users))
        × Added c.user_map users config.owner_id 1 0
        × IsUnique users.users
        × (items_of c.user_map config.owner_id + 1 < u32_mod)
  unfolding keep_active_session session_activated items_of bytes_of Session.new
  keep-Added c session_id created_at config s limit valid q =
      let room : items_of c.user_map config.owner_id + 1 < u32_mod =
        ground (arith, q.loaded, q.room) in
      let (users, e, added) =
        task_activated-Added c.user_map config.owner_id 0 q.owner q.loaded room
          (ground (arith, valid.counted.bytes_fit config.owner_id)) in
      (
        users,
        ground (arith, q.made, e),
        added,
        task_activated-IsUnique c.user_map users config.owner_id 0 e valid.users_unique,
        room,
      )

  -- Adding a session never panics: it is refused, or it is kept and counted for its owner, and
  -- the invariant of the core holds.
  pub add_session-IsValid :
      (c : Core U) (session_id created_at : ℕ) (config : SessionConfig)
      → c.max_user_active_items < u32_mod
      → get session_id c.session_map ≡ none
      → IsValid c
      → SessionAdded c session_id created_at config (add_session c session_id created_at config)
  unfolding add_session Session.new insert_session is_closed
  add_session-IsValid c session_id created_at config limit fresh valid =
      go (queue_new_session c session_id created_at config) refl
    where
      settled_with :
          Settled c.task_map
            (insert_session c.session_map (Session.new session_id created_at config))
      settled_with =
          unfold Session.new insert_session is_closed in
          record {
            tasks_settled = valid.settled.tasks_settled;
            sessions_settled = λ id s found. ground (
              arith,
              get-insert session_id id (Session.new session_id created_at config) c.session_map,
              valid.settled.sessions_settled id s,
            );
          }

      go :
          (r : Result (Machine U × Session))
          → queue_new_session c session_id created_at config ≡ r
          → SessionAdded c session_id created_at config (add_session c session_id created_at config)
      go (err e) q = rw (q, add_session) tt
      go (ok (m, s)) q =
          let queued = queue_new_session-Queued c session_id created_at config m s q in
          let (users, kept, added, unique, room) =
            keep-Added c session_id created_at config s limit valid queued in
          rw (q, add_session, kept)
            (
              record {
                counted =
                    insert_session-Counted c.task_map c.session_map c.user_map users
                      (Session.new session_id created_at config) config.owner_id 1 fresh
                      (λ u. unfold States.item_weight Session.new is_closed in refl) added room
                      valid.counted;
                settled = settled_with;
                tasks_unique = valid.tasks_unique;
                sessions_unique =
                    insert-IsUnique session_id (Session.new session_id created_at config)
                      c.session_map valid.sessions_unique;
                users_unique = unique;
              },
              refl,
              refl,
            )
