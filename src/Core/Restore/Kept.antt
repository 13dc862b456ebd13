-- ===== src/Core/Restore/Kept.antt =====
-- The counters of the users after a restoration (runner/src/core.rs).
use qscheduler.Base.{
  ℕ, ◌+◌, ◌<◌, ◌≡◌, refl, inl, inr, String, false, none, some, get, get-insert, insert-IsUnique,
  IsUnique, nat_eq_iff, nat_key, length, Option-cases, arith,
}
use qscheduler.Error.{ok}
use qscheduler.User.{
  User, UserMap, u32_mod, u64_mod, insert_user, touched, new_user, task_activated,
  session_activated,
}
use qscheduler.User.Counts.{
  items_of, bytes_of, Added, task_activated-Added, task_activated-IsUnique,
}
use qscheduler.Session.{Session, SessionMap, insert_session, set_restored_closed, is_closed}
use qscheduler.Session.States as States
use qscheduler.Task.{Task, TaskMap, insert_task, is_final}
use qscheduler.Task.Final as Final
use qscheduler.Core.Counters.{Counted, Settled, insert-Counted, insert_session-Counted}
use qscheduler.Core.Submit.{keep_active_session, keep_restored_task}

-- The maps that the counters are about.
pub record Kept (tasks : TaskMap) (sessions : SessionMap) (users : UserMap) : Type 0 where
  pub counted : Counted tasks sessions users
  pub settled : Settled tasks sessions
  pub tasks_unique : IsUnique tasks
  pub sessions_unique : IsUnique sessions
  pub users_unique : IsUnique users.users

-- Loading a user changes no counter.
insert_user-Added :
    (now : ℕ) (m : UserMap) (id : ℕ) (name : String)
    → Added m (insert_user now m id name) id 0 0
      × ((u : User) × (get id (insert_user now m id name).users ≡ some u))
      × (IsUnique m.users → IsUnique (insert_user now m id name).users)
unfolding insert_user items_of bytes_of
insert_user-Added now m id name = elim (Option-cases (get id m.users)) [
  | inl absent ↦
      rw (insert_user, absent)
        (
          record {
            items = λ j.
                ground
                  (arith, get-insert id j (new_user now name) m.users, absent, nat_eq_iff id j);
            bytes = λ j.
                ground
                  (arith, get-insert id j (new_user now name) m.users, absent, nat_eq_iff id j);
          },
          (
            new_user now name,
            ground (arith, get-insert id id (new_user now name) m.users, nat_eq_iff id id),
          ),
          insert-IsUnique id (new_user now name) m.users,
        )
  | inr (u, there) ↦
      rw (insert_user, there)
        (
          record {
            items = λ j.
                ground (arith, get-insert id j (touched now u) m.users, there, nat_eq_iff id j);
            bytes = λ j.
                ground (arith, get-insert id j (touched now u) m.users, there, nat_eq_iff id j);
          },
          (
            touched now u,
            ground (arith, get-insert id id (touched now u) m.users, nat_eq_iff id id),
          ),
          insert-IsUnique id (touched now u) m.users,
        )
]

-- Loading a user and counting an item of the user.
activated-Added :
    (now : ℕ) (m : UserMap) (id size : ℕ) (name : String)
    → items_of m id + 1 < u32_mod
    → bytes_of m id + size < u64_mod
    → IsUnique m.users
    → (m' : UserMap) × (task_activated (insert_user now m id name) id size ≡ ok m')
      × Added m m' id 1 size
      × IsUnique m'.users
activated-Added now m id size name items_room bytes_room unique =
    let (loaded, there, still) = insert_user-Added now m id name in
    let (u, found) = there in
    let m1 = insert_user now m id name in
    let (m', done, added) =
      task_activated-Added m1 id size u found (ground (arith, loaded.items id, items_room))
        (ground (arith, loaded.bytes id, bytes_room)) in
    (
      m',
      done,
      record {
        items = λ j. ground (arith, loaded.items j, added.items j);
        bytes = λ j. ground (arith, loaded.bytes j, added.bytes j);
      },
      task_activated-IsUnique m1 m' id size done (still unique),
    )

-- A restored task that has not ended is kept and counted.
pub keep_restored_task-Kept :
    (now : ℕ) (tasks : TaskMap) (sessions : SessionMap) (users : UserMap) (name : String) (t : Task)
    → Kept tasks sessions users
    → get t.id tasks ≡ none
    → is_final t.state ≡ false
    → t.finished_on ≡ none
    → items_of users t.config.user_id + 1 < u32_mod
    → bytes_of users t.config.user_id + length t.config.payload < u64_mod
    → (users' : UserMap) × (keep_restored_task now tasks users name t
        ≡ some (insert_task tasks t, users'))
      × Kept (insert_task tasks t) sessions users'
      × Added users users' t.config.user_id 1 (length t.config.payload)
unfolding keep_restored_task insert_task Final.item_weight Final.byte_weight is_final
keep_restored_task-Kept now tasks sessions users name t kept fresh going open_one items_room
      bytes_room =
    let (users', done, added, unique) =
      activated-Added now users t.config.user_id (length t.config.payload) name items_room
        bytes_room kept.users_unique in
    (
      users',
      rw (keep_restored_task, done) refl,
      record {
        counted =
            insert-Counted tasks sessions users users' t t.config.user_id 1
              (length t.config.payload) fresh (λ u. rw going refl) (λ u. rw going refl) added
              items_room bytes_room kept.counted;
        settled = record {
          tasks_settled = λ id t' found. ground (
            arith,
            get-insert t.id id t tasks,
            kept.settled.tasks_settled id t',
            found,
            going,
            open_one,
          );
          sessions_settled = kept.settled.sessions_settled;
        };
        tasks_unique = insert-IsUnique t.id t tasks kept.tasks_unique;
        sessions_unique = kept.sessions_unique;
        users_unique = unique;
      },
      added,
    )

-- A restored session that has not been opened is kept and counted.
pub keep_active_session-Kept :
    (now : ℕ) (tasks : TaskMap) (sessions : SessionMap) (users : UserMap) (name : String)
    (s : Session)
    → Kept tasks sessions users
    → get s.id sessions ≡ none
    → is_closed s.state ≡ false
    → s.closed_on ≡ none
    → items_of users s.config.owner_id + 1 < u32_mod
    → (users' : UserMap) × (keep_active_session sessions
          (insert_user now users s.config.owner_id name)
          s
        ≡ some (insert_session sessions s, users'))
      × Kept tasks (insert_session sessions s) users'
      × Added users users' s.config.owner_id 1 0
unfolding keep_active_session session_activated insert_session States.item_weight is_closed
keep_active_session-Kept now tasks sessions users name s kept fresh going open_one items_room =
    let (users', done, added, unique) =
      activated-Added now users s.config.owner_id 0 name items_room
        (ground (arith, kept.counted.bytes_fit s.config.owner_id)) kept.users_unique in
    (
      users',
      rw (keep_active_session, session_activated, done) refl,
      record {
        counted =
            insert_session-Counted tasks sessions users users' s s.config.owner_id 1 fresh
              (λ u. rw going refl) added items_room kept.counted;
        settled = record {
          tasks_settled = kept.settled.tasks_settled;
          sessions_settled = λ id s' found. ground (
            arith,
            get-insert s.id id s sessions,
            kept.settled.sessions_settled id s',
            found,
            going,
            open_one,
          );
        };
        tasks_unique = kept.tasks_unique;
        sessions_unique = insert-IsUnique s.id s sessions kept.sessions_unique;
        users_unique = unique;
      },
      added,
    )

-- A session that was open is kept, closed, and counts for nothing.
pub set_restored_closed-Kept :
    (now : ℕ) (tasks : TaskMap) (sessions : SessionMap) (users : UserMap) (name : String)
    (s : Session) (opened_at closed_at : ℕ)
    → Kept tasks sessions users
    → get s.id sessions ≡ none
    → let (s', users') = set_restored_closed now s opened_at closed_at name users in
      Kept tasks (insert_session sessions s') users'
      × Added users users' s.config.owner_id 0 0
      × (s'.id ≡ s.id)
unfolding set_restored_closed insert_session States.item_weight is_closed
set_restored_closed-Kept now tasks sessions users name s opened_at closed_at kept fresh =
    let (loaded, there, still) = insert_user-Added now users s.config.owner_id name in
    let users' = insert_user now users s.config.owner_id name in
    let s' : Session = (set_restored_closed now s opened_at closed_at name users).0 in
    (
      record {
        counted =
            insert_session-Counted tasks sessions users users' s' s.config.owner_id 0 fresh
              (λ u. ground arith) loaded (ground (arith, kept.counted.items_fit s.config.owner_id))
              kept.counted;
        settled = record {
          tasks_settled = kept.settled.tasks_settled;
          sessions_settled = λ id t found.
              ground
                (arith, get-insert s.id id s' sessions, kept.settled.sessions_settled id t, found);
        };
        tasks_unique = kept.tasks_unique;
        sessions_unique = insert-IsUnique s.id s' sessions kept.sessions_unique;
        users_unique = still kept.users_unique;
      },
      loaded,
      refl,
    )
