-- ===== src/Core/Evict/Counted.antt =====
-- Eviction (runner/src/core.rs), and the users' counters.
use qscheduler.Base.{
  ℕ, ◌≡◌, refl, inl, inr, Bool, [], ◌∷◌, get, total, total-retain, total-eq-zero, retain,
  get-retain, retain-IsUnique, IsUnique, nat_key, Option-cases, if◌then◌else◌, arith,
}
use qscheduler.User.{UserMap, evict_idle, keeps}
use qscheduler.User.Counts.{items_of, bytes_of}
use qscheduler.Session.{Session, SessionMap, is_recent, evict_closed}
use qscheduler.Session.States as States
use qscheduler.Task.{Task, TaskMap, evict_finished}
use qscheduler.Task.Final as Final
use qscheduler.Core.{Core}
use qscheduler.Core.Counters.{Settled, IsValid, live_items, live_bytes}
use qscheduler.Core.Evict.{evict}

evict_idle-items :
    (now retention : ℕ) (m : UserMap) (u : ℕ)
    → IsUnique m.users
    → items_of (evict_idle now retention m).0 u ≡ items_of m u
unfolding evict_idle items_of keeps
evict_idle-items now retention m u unique = elim (Option-cases (get u m.users)) [
  | inl e ↦ ground (arith, get-retain (keeps now retention) u m.users unique)
  | inr (user, e) ↦ ground (arith, get-retain (keeps now retention) u m.users unique)
]

evict_idle-bytes :
    (now retention : ℕ) (m : UserMap) (u : ℕ)
    → IsUnique m.users
    → (items_of m u ≡ 0 → bytes_of m u ≡ 0)
    → bytes_of (evict_idle now retention m).0 u ≡ bytes_of m u
unfolding evict_idle items_of bytes_of keeps
evict_idle-bytes now retention m u unique idle = elim (Option-cases (get u m.users)) [
  | inl e ↦ ground (arith, get-retain (keeps now retention) u m.users unique)
  | inr (user, e) ↦ ground (arith, get-retain (keeps now retention) u m.users unique)
]

-- No bytes without items.
total-byte_weight :
    (tasks : TaskMap) (u : ℕ)
    → total (Final.item_weight u) tasks ≡ 0
    → total (Final.byte_weight u) tasks ≡ 0
unfolding total Final.item_weight Final.byte_weight
total-byte_weight [] u h = refl
total-byte_weight ((id, t) ∷ tasks) u h = ground (arith, total-byte_weight tasks u)

module _ (now retention : ℕ) where
  abbrev pub keeps_task : Task → Bool
  keeps_task t = is_recent now retention t.finished_on

  abbrev pub keeps_session : Session → Bool
  keeps_session s = is_recent now retention s.closed_on

  -- What is evicted counts for nothing.
  evict_finished-items :
      (tasks : TaskMap) (sessions : SessionMap) (u : ℕ)
      → IsUnique tasks
      → Settled tasks sessions
      → (total (Final.item_weight u) (retain keeps_task tasks) ≡ total (Final.item_weight u) tasks)
        × (total (Final.byte_weight u) (retain keeps_task tasks)
            ≡ total (Final.byte_weight u) tasks)
  unfolding Final.item_weight Final.byte_weight is_recent
  evict_finished-items tasks sessions u unique settled = (
    omega (
      arith,
      total-retain (Final.item_weight u) keeps_task tasks,
      total-eq-zero (λ (v : Task). if keeps_task v then 0 else Final.item_weight u v) tasks unique
          (λ id t found. ground (arith, settled.tasks_settled id t)),
    ),
    omega (
      arith,
      total-retain (Final.byte_weight u) keeps_task tasks,
      total-eq-zero (λ (v : Task). if keeps_task v then 0 else Final.byte_weight u v) tasks unique
          (λ id t found. ground (arith, settled.tasks_settled id t)),
    ),
  )

  evict_closed-items :
      (tasks : TaskMap) (sessions : SessionMap) (u : ℕ)
      → IsUnique sessions
      → Settled tasks sessions
      → total (States.item_weight u) (retain keeps_session sessions)
        ≡ total (States.item_weight u) sessions
  unfolding States.item_weight is_recent
  evict_closed-items tasks sessions u unique settled = omega (
    arith,
    total-retain (States.item_weight u) keeps_session sessions,
    total-eq-zero (λ (v : Session). if keeps_session v then 0 else States.item_weight u v) sessions
        unique (λ id s found. ground (arith, settled.sessions_settled id s)),
  )

valid-bytes :
    {U : Type 0} (now retention : ℕ) (c : Core U) (u : ℕ)
    → IsValid c
    → bytes_of (evict_idle now retention c.user_map).0 u ≡ bytes_of c.user_map u
unfolding live_items live_bytes
valid-bytes now retention c u valid =
    evict_idle-bytes now retention c.user_map u valid.users_unique (λ z. omega (
      arith,
      valid.counted.bytes u,
      total-byte_weight c.task_map u (omega (arith, z, valid.counted.items u)),
    ))

-- Eviction keeps the invariant of the core: the counters need no change, and do not change.
pub evict-IsValid :
    {U : Type 0} (now retention : ℕ) (c : Core U) → IsValid c → IsValid (evict now retention c)
unfolding evict evict_finished evict_closed live_items live_bytes
evict-IsValid now retention c valid = record {
  counted = record {
    items = λ u. omega (
      arith,
      evict_idle-items now retention c.user_map u valid.users_unique,
      valid.counted.items u,
      (evict_finished-items now retention c.task_map c.session_map u valid.tasks_unique
          valid.settled).0,
      evict_closed-items now retention c.task_map c.session_map u valid.sessions_unique
          valid.settled,
    );
    bytes = λ u. omega (
      arith,
      valid-bytes now retention c u valid,
      valid.counted.bytes u,
      (evict_finished-items now retention c.task_map c.session_map u valid.tasks_unique
          valid.settled).1,
    );
    items_fit = λ u.
        rw (evict_idle-items now retention c.user_map u valid.users_unique)
          (valid.counted.items_fit u);
    bytes_fit = λ u. rw (valid-bytes now retention c u valid) (valid.counted.bytes_fit u);
  };
  settled = record {
    tasks_settled = λ id t found.
        valid.settled.tasks_settled id t
          (ground (arith, get-retain (keeps_task now retention) id c.task_map valid.tasks_unique));
    sessions_settled = λ id s found. valid.settled.sessions_settled id s (
        ground
          (arith, get-retain (keeps_session now retention) id c.session_map valid.sessions_unique));
  };
  tasks_unique = retain-IsUnique (keeps_task now retention) c.task_map valid.tasks_unique;
  sessions_unique =
      retain-IsUnique (keeps_session now retention) c.session_map valid.sessions_unique;
  users_unique =
      unfold evict_idle in
      retain-IsUnique (keeps now retention) c.user_map.users valid.users_unique;
}
