-- ===== src/Task/Final.antt =====
-- `Task::set_state` (runner/src/task.rs), and what a task counts for with its user.
use qscheduler.Base.{
  ℕ, ◌+◌, ◌<◌, ◌≤◌, ◌≡◌, refl, inl, inr, Option, none, some, Bool, true, false, length, nat_eq_iff,
  if◌then◌else◌, Bool-cases, arith,
}
use qscheduler.User.{UserMap, u32_mod, u64_mod}
use qscheduler.User.Counts.{items_of, bytes_of, at, task_deactivated-Added}
use qscheduler.Task.{Task, TaskState, is_final, set_state, drop_payload}

-- What a task counts for in the counters of the user `u`.
unfoldable pub item_weight : ℕ → Task → ℕ
item_weight u t = if is_final t.state then 0 else at t.config.user_id u 1

unfoldable pub byte_weight : ℕ → Task → ℕ
byte_weight u t = if is_final t.state then 0 else at t.config.user_id u (length t.config.payload)

abbrev pub is_set : Option ℕ → Bool
is_set none = false
is_set (some _) = true

-- The time of the end is recorded exactly for tasks in a final state.
abbrev pub IsSettled : Task → Type 0
IsSettled t = is_set t.finished_on ≡ is_final t.state

-- The users' counters go from `m` to `m'` as the task goes from `t` to `t'`.
pub record Follows (m m' : UserMap) (t t' : Task) : Type 0 where
  pub items : (u : ℕ) → items_of m' u + item_weight u t ≡ items_of m u + item_weight u t'
  pub bytes : (u : ℕ) → bytes_of m' u + byte_weight u t ≡ bytes_of m u + byte_weight u t'
  pub settled : IsSettled t'
  pub same_id : t'.id ≡ t.id
  pub same_user : t'.config.user_id ≡ t.config.user_id

-- Setting a state succeeds for a task that its user's counters count, unless it would leave a
-- final state; the counters follow the task.
pub set_state-Follows :
    (now : ℕ) (t : Task) (state : TaskState) (m : UserMap)
    → IsSettled t
    → (is_final t.state ≡ true → is_final state ≡ true)
    → item_weight t.config.user_id t ≤ items_of m t.config.user_id
    → byte_weight t.config.user_id t ≤ bytes_of m t.config.user_id
    → items_of m t.config.user_id < u32_mod
    → bytes_of m t.config.user_id < u64_mod
    → (t' : Task) × (m' : UserMap) × (set_state now t state m ≡ some (t', m'))
      × (t'.state ≡ state)
      × Follows m m' t t'
unfolding set_state item_weight byte_weight
set_state-Follows now t state m settled stays hi hb fi fb = elim (Bool-cases (is_final state)) [
  | inr open_ended ↦ (
    record t { state = state },
    m,
    ground arith,
    refl,
    record {
      items = λ u. ground arith;
      bytes = λ u. ground arith;
      settled = ground arith;
      same_id = refl;
      same_user = refl;
    },
  )
  | inl final ↦ elim (Bool-cases (is_final t.state)) [
    | inl was ↦ (
      record t { config = drop_payload t.config; state = state },
      m,
      ground arith,
      refl,
      record {
        items = λ u. ground arith;
        bytes = λ u. ground arith;
        settled = ground arith;
        same_id = refl;
        same_user = refl;
      },
    )
    | inr active ↦
        let (m', e, back) =
          task_deactivated-Added now m t.config.user_id (length t.config.payload)
            (ground (arith, nat_eq_iff t.config.user_id t.config.user_id)) fi
            (ground (arith, nat_eq_iff t.config.user_id t.config.user_id)) fb in
        (
          record t { config = drop_payload t.config; state = state; finished_on = some now },
          m',
          ground arith,
          refl,
          record {
            items = λ u. ground (arith, back.items u);
            bytes = λ u. ground (arith, back.bytes u);
            settled = ground arith;
            same_id = refl;
            same_user = refl;
          },
        )
  ]
]
