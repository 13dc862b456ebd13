-- ===== src/Core/Purge/Counted.antt =====
-- Purging a machine (runner/src/core.rs), and the users' counters.
use qscheduler.Base.{
  ℕ, ◌+◌, ◌<◌, ◌≡◌, refl, inl, inr, Option, some, Bool, [], ◌∷◌, get, total, retain, get-retain,
  keep_if, retain-IsUnique, length, IsUnique, nat_eq_iff, nat_key, Bool-cases, ◌∙◌, arith,
}
use qscheduler.User.{UserMap, u32_mod, u64_mod, session_deactivated}
use qscheduler.User.Counts.{
  items_of, bytes_of, task_deactivated-Added, item_deactivated-Added, task_deactivated-IsUnique,
  item_deactivated-IsUnique,
}
use qscheduler.Session.{Session, SessionMap, is_closed}
use qscheduler.Session.States as States
use qscheduler.Task.{Task, TaskMap, is_final}
use qscheduler.Task.Final as Final
use qscheduler.Machine.{Machine}
use qscheduler.Machine.Registry.{remove_machine}
use qscheduler.Core.{Core}
use qscheduler.Core.Counters.{IsValid, live_items, live_bytes}
use qscheduler.Core.Purge.{
  release_task, release_session, release_tasks, release_sessions, is_elsewhere,
  is_session_elsewhere, purge_machine,
}

-- The counters are `items` and `bytes`, up to what else is counted, and fit their integers.
record Holds (users : UserMap) (items bytes : ℕ → ℕ) : Type 0 where
  items_eq : (u : ℕ) → items_of users u ≡ items u
  bytes_eq : (u : ℕ) → bytes_of users u ≡ bytes u
  items_fit : (u : ℕ) → items_of users u < u32_mod
  bytes_fit : (u : ℕ) → bytes_of users u < u64_mod
  unique : IsUnique users.users

-- One task of weight counted in the users: releasing it leaves the rest.
release_task-Holds :
    (now : ℕ) (t : Task) (users : UserMap) (items bytes : ℕ → ℕ)
    → Holds users (λ u. Final.item_weight u t + items u) (λ u. Final.byte_weight u t + bytes u)
    → (users' : UserMap) × (release_task now t users ≡ some users') × Holds users' items bytes
unfolding Final.item_weight Final.byte_weight
release_task-Holds now t users items bytes h = elim (Bool-cases (is_final t.state)) [
  | inl final ↦ (
    users,
    rw final,
    record {
      items_eq = λ u. ground (arith, h.items_eq u);
      bytes_eq = λ u. ground (arith, h.bytes_eq u);
      items_fit = h.items_fit;
      bytes_fit = h.bytes_fit;
      unique = h.unique;
    },
  )
  | inr active ↦
      let id = t.config.user_id in
      let (users', e, back) =
        task_deactivated-Added now users id (length t.config.payload)
          (ground (arith, h.items_eq id, nat_eq_iff id id)) (h.items_fit id)
          (ground (arith, h.bytes_eq id, nat_eq_iff id id)) (h.bytes_fit id) in
      (
        users',
        rw (active, e),
        record {
          items_eq = λ u. ground (arith, h.items_eq u, back.items u);
          bytes_eq = λ u. ground (arith, h.bytes_eq u, back.bytes u);
          items_fit = λ u. ground (arith, h.items_fit u, back.items u);
          bytes_fit = λ u. ground (arith, h.bytes_fit u, back.bytes u);
          unique =
              task_deactivated-IsUnique now users users' id (length t.config.payload) e h.unique;
        },
      )
]

release_session-Holds :
    (now : ℕ) (s : Session) (users : UserMap) (items bytes : ℕ → ℕ)
    → Holds users (λ u. States.item_weight u s + items u) bytes
    → (users' : UserMap) × (release_session now s users ≡ some users') × Holds users' items bytes
unfolding States.item_weight session_deactivated
release_session-Holds now s users items bytes h = elim (Bool-cases (is_closed s.state)) [
  | inl final ↦ (
    users,
    rw final,
    record {
      items_eq = λ u. ground (arith, h.items_eq u);
      bytes_eq = h.bytes_eq;
      items_fit = h.items_fit;
      bytes_fit = h.bytes_fit;
      unique = h.unique;
    },
  )
  | inr active ↦
      let id = s.config.owner_id in
      let (users', e, back) =
        item_deactivated-Added now users id (ground (arith, h.items_eq id, nat_eq_iff id id))
          (h.items_fit id) in
      (
        users',
        rw (active, e),
        record {
          items_eq = λ u. ground (arith, h.items_eq u, back.items u);
          bytes_eq = λ u. ground (arith, h.bytes_eq u, back.bytes u);
          items_fit = λ u. ground (arith, h.items_fit u, back.items u);
          bytes_fit = λ u. ground (arith, h.bytes_fit u, back.bytes u);
          unique = item_deactivated-IsUnique now users users' id e h.unique;
        },
      )
]

Holds-eq :
    {users : UserMap} (items bytes items' bytes' : ℕ → ℕ)
    → ((u : ℕ) → items u ≡ items' u)
    → ((u : ℕ) → bytes u ≡ bytes' u)
    → Holds users items bytes
    → Holds users items' bytes'
Holds-eq items bytes items' bytes' ei eb h = record {
  items_eq = λ u. h.items_eq u ∙ ei u;
  bytes_eq = λ u. h.bytes_eq u ∙ eb u;
  items_fit = h.items_fit;
  bytes_fit = h.bytes_fit;
  unique = h.unique;
}

abbrev task_items : TaskMap → (ℕ → ℕ) → ℕ → ℕ
task_items tasks items u = total (Final.item_weight u) tasks + items u

abbrev task_bytes : TaskMap → (ℕ → ℕ) → ℕ → ℕ
task_bytes tasks bytes u = total (Final.byte_weight u) tasks + bytes u

release_tasks-Holds :
    (now : ℕ) (keep : Task → Bool) (tasks : TaskMap) (users : UserMap) (items bytes : ℕ → ℕ)
    → Holds users (task_items tasks items) (task_bytes tasks bytes)
    → (users' : UserMap) × (release_tasks now keep tasks users ≡ some users')
      × Holds users' (task_items (retain keep tasks) items) (task_bytes (retain keep tasks) bytes)
unfolding release_tasks retain total
release_tasks-Holds now keep [] users items bytes h = (users, refl, h)
release_tasks-Holds now keep ((id, t) ∷ tasks) users items bytes h = elim (Bool-cases (keep t)) [
  | inl kept ↦
      let (users', e, h') =
        release_tasks-Holds now keep tasks users (λ u. Final.item_weight u t + items u)
          (λ u. Final.byte_weight u t + bytes u)
          (Holds-eq _ _ _ _ (λ u. omega arith) (λ u. omega arith) h) in
      (users', rw kept e, rw kept (Holds-eq _ _ _ _ (λ u. omega arith) (λ u. omega arith) h'))
  | inr gone ↦
      let (released, e, h') =
        release_task-Holds now t users (task_items tasks items) (task_bytes tasks bytes)
          (Holds-eq _ _ _ _ (λ u. omega arith) (λ u. omega arith) h) in
      let (users', e', h'') = release_tasks-Holds now keep tasks released items bytes h' in
      (users', rw (gone, e) e', rw gone h'')
]

abbrev session_items : SessionMap → (ℕ → ℕ) → ℕ → ℕ
session_items sessions items u = total (States.item_weight u) sessions + items u

release_sessions-Holds :
    (now : ℕ) (keep : Session → Bool) (sessions : SessionMap) (users : UserMap)
    (items bytes : ℕ → ℕ)
    → Holds users (session_items sessions items) bytes
    → (users' : UserMap) × (release_sessions now keep sessions users ≡ some users')
      × Holds users' (session_items (retain keep sessions) items) bytes
unfolding release_sessions retain total
release_sessions-Holds now keep [] users items bytes h = (users, refl, h)
release_sessions-Holds now keep ((id, s) ∷ sessions) users items bytes h =
    elim (Bool-cases (keep s)) [
      | inl kept ↦
          let (users', e, h') =
            release_sessions-Holds now keep sessions users (λ u. States.item_weight u s + items u)
              bytes (Holds-eq _ _ _ _ (λ u. omega arith) (λ u. refl) h) in
          (users', rw kept e, rw kept (Holds-eq _ _ _ _ (λ u. omega arith) (λ u. refl) h'))
      | inr gone ↦
          let (released, e, h') =
            release_session-Holds now s users (session_items sessions items) bytes
              (Holds-eq _ _ _ _ (λ u. omega arith) (λ u. refl) h) in
          let (users', e', h'') =
            release_sessions-Holds now keep sessions released items bytes h' in
          (users', rw (gone, e) e', rw gone h'')
    ]

pub purge_machine-IsValid :
    {U : Type 0} (now : ℕ) (c : Core U) (machine_id : ℕ)
    → IsValid c
    → (c' : Core U) × (m : Option (Machine U)) × (purge_machine now c machine_id ≡ some (c', m))
      × IsValid c'
      × ((id : ℕ) → get id c'.task_map ≡ keep_if (is_elsewhere machine_id) (get id c.task_map))
      × ((id : ℕ)
          → get id c'.session_map
            ≡ keep_if (is_session_elsewhere machine_id) (get id c.session_map))
unfolding purge_machine live_items live_bytes
purge_machine-IsValid now c machine_id valid =
    let start : Holds c.user_map (task_items c.task_map (session_items c.session_map (λ _. 0)))
        (task_bytes c.task_map (λ _. 0)) =
      record {
        items_eq = λ u. omega (arith, valid.counted.items u);
        bytes_eq = λ u. omega (arith, valid.counted.bytes u);
        items_fit = valid.counted.items_fit;
        bytes_fit = valid.counted.bytes_fit;
        unique = valid.users_unique;
      } in
    let (users, e, h) =
      release_tasks-Holds now (is_elsewhere machine_id) c.task_map c.user_map _ _ start in
    let tasks = retain (is_elsewhere machine_id) c.task_map in
    let (users', e', h') =
      release_sessions-Holds now (is_session_elsewhere machine_id) c.session_map users
        (λ u. total (Final.item_weight u) tasks) (λ u. total (Final.byte_weight u) tasks)
        (Holds-eq _ _ _ _ (λ u. omega arith) (λ u. omega arith) h) in
    let sessions = retain (is_session_elsewhere machine_id) c.session_map in
    (
      record c {
        machine_map = (remove_machine c.machine_map machine_id).0;
        task_map = tasks;
        session_map = sessions;
        user_map = users';
      },
      (remove_machine c.machine_map machine_id).1,
      ground (arith, e, e'),
      record {
        counted = record {
          items = λ u. omega (arith, h'.items_eq u);
          bytes = h'.bytes_eq;
          items_fit = h'.items_fit;
          bytes_fit = h'.bytes_fit;
        };
        settled = record {
          tasks_settled = λ id t found. valid.settled.tasks_settled id t (
              ground
                (arith, get-retain (is_elsewhere machine_id) id c.task_map valid.tasks_unique));
          sessions_settled = λ id s found. valid.settled.sessions_settled id s (
              ground (
                arith,
                get-retain (is_session_elsewhere machine_id) id c.session_map valid.sessions_unique,
              ));
        };
        tasks_unique = retain-IsUnique (is_elsewhere machine_id) c.task_map valid.tasks_unique;
        sessions_unique =
            retain-IsUnique (is_session_elsewhere machine_id) c.session_map valid.sessions_unique;
        users_unique = h'.unique;
      },
      λ id. get-retain (is_elsewhere machine_id) id c.task_map valid.tasks_unique,
      λ id. get-retain (is_session_elsewhere machine_id) id c.session_map valid.sessions_unique,
    )
