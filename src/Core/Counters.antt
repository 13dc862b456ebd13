-- ===== src/Core/Counters.antt =====
-- The counters of the users (`UserMap` in runner/src/user.rs) against the tasks and the sessions
-- that the core (runner/src/core.rs) keeps in memory.
use qscheduler.Base.{
  ℕ, ◌+◌, ◌<◌, ◌≤◌, ◌≡◌, none, some, get, insert, total, total-insert, IsUnique, get-le-total,
  nat_eq_iff, nat_key, arith,
}
use qscheduler.User.{UserMap, u32_mod, u64_mod}
use qscheduler.User.Counts.{items_of, bytes_of, at, Added}
use qscheduler.Session.{Session, SessionMap}
use qscheduler.Session.States as States
use qscheduler.Task.{Task, TaskMap}
use qscheduler.Task.Final as Final
use qscheduler.Core.{Core}

-- The items and bytes of a user in memory: tasks in no final state and sessions not closed.
unfoldable pub live_items : TaskMap → SessionMap → ℕ → ℕ
live_items tasks sessions u =
    total (Final.item_weight u) tasks + total (States.item_weight u) sessions

unfoldable pub live_bytes : TaskMap → ℕ → ℕ
live_bytes tasks u = total (Final.byte_weight u) tasks

-- Every user's counters are exactly what the user has in memory, and fit their machine integers.
pub record Counted (tasks : TaskMap) (sessions : SessionMap) (users : UserMap) : Type 0 where
  pub items : (u : ℕ) → items_of users u ≡ live_items tasks sessions u
  pub bytes : (u : ℕ) → bytes_of users u ≡ live_bytes tasks u
  pub items_fit : (u : ℕ) → items_of users u < u32_mod
  pub bytes_fit : (u : ℕ) → bytes_of users u < u64_mod

-- The end of a task or a session is recorded exactly if it is in its last state.
pub record Settled (tasks : TaskMap) (sessions : SessionMap) : Type 0 where
  pub tasks_settled : (id : ℕ) (t : Task) → get id tasks ≡ some t → Final.IsSettled t
  pub sessions_settled : (id : ℕ) (s : Session) → get id sessions ≡ some s → States.IsSettled s

-- The invariant of the core.
pub record IsValid {U : Type 0} (c : Core U) : Type 0 where
  pub counted : Counted c.task_map c.session_map c.user_map
  pub settled : Settled c.task_map c.session_map
  pub tasks_unique : IsUnique c.task_map
  pub sessions_unique : IsUnique c.session_map
  pub users_unique : IsUnique c.user_map.users

-- No user is over the limits that the service is configured with.
pub record IsWithinLimits {U : Type 0} (c : Core U) : Type 0 where
  pub items : (u : ℕ) → items_of c.user_map u ≤ c.max_user_active_items
  pub bytes : (u : ℕ) → bytes_of c.user_map u ≤ c.max_user_active_payload

-- A new task that counts for its user, and the users' counters after counting it.
pub insert-Counted :
    (tasks : TaskMap) (sessions : SessionMap) (users users' : UserMap) (t : Task) (id n b : ℕ)
    → get t.id tasks ≡ none
    → ((u : ℕ) → Final.item_weight u t ≡ at id u n)
    → ((u : ℕ) → Final.byte_weight u t ≡ at id u b)
    → Added users users' id n b
    → items_of users id + n < u32_mod
    → bytes_of users id + b < u64_mod
    → Counted tasks sessions users
    → Counted (insert t.id t tasks) sessions users'
unfolding live_items live_bytes
insert-Counted tasks sessions users users' t id n b fresh wi wb added fi fb h = record {
  items = λ u.
      ground
        (arith, h.items u, added.items u, wi u, total-insert (Final.item_weight u) t.id t tasks);
  bytes = λ u.
      ground
        (arith, h.bytes u, added.bytes u, wb u, total-insert (Final.byte_weight u) t.id t tasks);
  items_fit = λ u. ground (arith, added.items u, h.items_fit u, nat_eq_iff id u);
  bytes_fit = λ u. ground (arith, added.bytes u, h.bytes_fit u, nat_eq_iff id u);
}

pub insert_session-Counted :
    (tasks : TaskMap) (sessions : SessionMap) (users users' : UserMap) (s : Session) (id n : ℕ)
    → get s.id sessions ≡ none
    → ((u : ℕ) → States.item_weight u s ≡ at id u n)
    → Added users users' id n 0
    → items_of users id + n < u32_mod
    → Counted tasks sessions users
    → Counted tasks (insert s.id s sessions) users'
unfolding live_items live_bytes
insert_session-Counted tasks sessions users users' s id n fresh wi added fi h = record {
  items = λ u.
      ground (
        arith,
        h.items u,
        added.items u,
        wi u,
        total-insert (States.item_weight u) s.id s sessions,
      );
  bytes = λ u. ground (arith, h.bytes u, added.bytes u);
  items_fit = λ u. ground (arith, added.items u, h.items_fit u, nat_eq_iff id u);
  bytes_fit = λ u. ground (arith, added.bytes u, h.bytes_fit u);
}

-- A task replaced by a later state of it, and the counters that follow it.
pub follow-Counted :
    (tasks : TaskMap) (sessions : SessionMap) (users users' : UserMap) (id : ℕ) (t t' : Task)
    → get id tasks ≡ some t
    → Final.Follows users users' t t'
    → ((u : ℕ) → Final.item_weight u t' ≤ Final.item_weight u t)
    → ((u : ℕ) → Final.byte_weight u t' ≤ Final.byte_weight u t)
    → Counted tasks sessions users
    → Counted (insert id t' tasks) sessions users'
unfolding live_items live_bytes
follow-Counted tasks sessions users users' id t t' found follows wi wb h = record {
  items = λ u.
      ground (arith, h.items u, follows.items u, total-insert (Final.item_weight u) id t' tasks);
  bytes = λ u.
      ground (arith, h.bytes u, follows.bytes u, total-insert (Final.byte_weight u) id t' tasks);
  items_fit = λ u. ground (arith, follows.items u, h.items_fit u, wi u);
  bytes_fit = λ u. ground (arith, follows.bytes u, h.bytes_fit u, wb u);
}

pub follow_session-Counted :
    (tasks : TaskMap) (sessions : SessionMap) (users users' : UserMap) (id : ℕ) (s s' : Session)
    → get id sessions ≡ some s
    → States.Follows users users' s s'
    → ((u : ℕ) → States.item_weight u s' ≤ States.item_weight u s)
    → Counted tasks sessions users
    → Counted tasks (insert id s' sessions) users'
unfolding live_items live_bytes
follow_session-Counted tasks sessions users users' id s s' found follows wi h = record {
  items = λ u.
      ground
        (arith, h.items u, follows.items u, total-insert (States.item_weight u) id s' sessions);
  bytes = λ u. ground (arith, h.bytes u, follows.bytes u);
  items_fit = λ u. ground (arith, follows.items u, h.items_fit u, wi u);
  bytes_fit = λ u. ground (arith, follows.bytes u, h.bytes_fit u);
}

-- What a task in memory counts for is in its user's counters.
pub counted_weights :
    (tasks : TaskMap) (sessions : SessionMap) (users : UserMap) (id : ℕ) (t : Task) (u : ℕ)
    → Counted tasks sessions users
    → get id tasks ≡ some t
    → (Final.item_weight u t ≤ items_of users u) × (Final.byte_weight u t ≤ bytes_of users u)
unfolding live_items live_bytes
counted_weights tasks sessions users id t u h found = (
  ground (arith, h.items u, get-le-total (Final.item_weight u) id tasks),
  ground (arith, h.bytes u, get-le-total (Final.byte_weight u) id tasks),
)

pub counted_session :
    (tasks : TaskMap) (sessions : SessionMap) (users : UserMap) (id : ℕ) (s : Session) (u : ℕ)
    → Counted tasks sessions users
    → get id sessions ≡ some s
    → States.item_weight u s ≤ items_of users u
unfolding live_items
counted_session tasks sessions users id s u h found =
    ground (arith, h.items u, get-le-total (States.item_weight u) id sessions)
