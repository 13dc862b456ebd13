-- ===== src/User/Idle.antt =====
-- When `UserMap::evict_idle` (runner/src/user.rs) removes a user: which users stay loaded as long
-- as a task or a session of theirs may still be in memory.
use qscheduler.Base.{
  ℕ, ◌+◌, ◌-◌, ◌%◌, ◌<◌, ◌≤◌, ◌≡◌, inl, inr, ◌⊎◌, some, String, get, insert, get-insert,
  get-insert_self, >>=-eq-some, get-insert_self, get-retain, IsUnique, nat_eq, nat_eq_iff, nat_key,
  Option-cases, Bool-cases, subst, arith,
}
use qscheduler.Error.{ok}
use qscheduler.User.{
  User, UserMap, u32_mod, u64_mod, task_activated, task_deactivated, item_deactivated, insert_user,
  touched, new_user, evict_idle, keeps,
}
use qscheduler.User.Counts.{items_of}

-- The user `id` is loaded, and has an active item or has gone idle at `ended` or later.
abbrev pub Covers : UserMap → ℕ → ℕ → Type 0
Covers m id ended =
    (u : User) × (get id m.users ≡ some u) × ((0 < u.active_items) ⊎ (ended ≤ u.idle_since))

abbrev Stays : ℕ → User → Type 0
Stays ended u = (0 < u.active_items) ⊎ (ended ≤ u.idle_since)

put-Covers :
    (m : UserMap) (id k ended : ℕ) (u' : User)
    → Covers m id ended
    → ((u : User) → get k m.users ≡ some u → Stays ended u → Stays ended u')
    → Covers (record m { users = insert k u' m.users }) id ended
put-Covers m id k ended u' (u, loaded, why) keep = elim (Bool-cases (nat_eq k id)) [
  | inl same ↦
      let e : k ≡ id = (nat_eq_iff k id).0 same in
      (u', rw e (get-insert_self id u' m.users), keep u (rw e loaded) why)
  | inr other ↦ (u, ground (arith, get-insert k id u' m.users), why)
]

-- Counting a task, when the counter does not overflow, keeps every user covered.
pub task_activated-Covers :
    (m m' : UserMap) (k size id ended : ℕ)
    → items_of m k + 1 < u32_mod
    → task_activated m k size ≡ ok m'
    → Covers m id ended
    → Covers m' id ended
unfolding task_activated items_of
task_activated-Covers m m' k size id ended fits h c = elim (Option-cases (get k m.users)) [
  | inl e ↦ absurd (ground arith)
  | inr (u, e) ↦
      let u' : User = record u {
        active_items = (u.active_items + 1) % u32_mod;
        active_payload_bytes = (u.active_payload_bytes + size) % u64_mod;
      } in
      let fits' : u.active_items + 1 < u32_mod = rw e at fits in
      let made : record m { users = insert k u' m.users } ≡ m' = ground arith in
      subst (λ x. Covers x id ended) made
        (put-Covers m id k ended u' c (λ v ev why. inl (omega arith)))
]

-- Uncounting an item at `now` keeps covered every user that was to stay until `now` or earlier.
pub item_deactivated-Covers :
    (now : ℕ) (m m' : UserMap) (k id ended : ℕ)
    → ended ≤ now
    → item_deactivated now m k ≡ some m'
    → Covers m id ended
    → Covers m' id ended
unfolding item_deactivated
item_deactivated-Covers now m m' k id ended past h c = elim (Option-cases (get k m.users)) [
  | inl e ↦ absurd (ground arith)
  | inr (u, e) ↦
      let left : User = record u { active_items = (u.active_items + u32_mod - 1) % u32_mod } in
      let made : record m { users = insert k (touched now left) m.users } ≡ m' = ground arith in
      subst (λ x. Covers x id ended) made
        (put-Covers m id k ended (touched now left) c (λ v ev why. ground arith))
]

pub task_deactivated-Covers :
    (now : ℕ) (m m' : UserMap) (k size id ended : ℕ)
    → ended ≤ now
    → task_deactivated now m k size ≡ some m'
    → Covers m id ended
    → Covers m' id ended
unfolding task_deactivated
task_deactivated-Covers now m m' k size id ended past h c = elim (Option-cases (get k m.users)) [
  | inl e ↦ absurd (ground arith)
  | inr (u, e) ↦
      let left : User = record u {
        active_payload_bytes = (u.active_payload_bytes + u64_mod - size) % u64_mod;
      } in
      item_deactivated-Covers now (record m { users = insert k left m.users }) m' k id ended past
        (rw e at h) (put-Covers m id k ended left c (λ v ev why. ground arith))
]

-- Loading a user, or finding it loaded, at `now`.
pub insert_user-Covers :
    (now : ℕ) (m : UserMap) (k : ℕ) (name : String) (id ended : ℕ)
    → ended ≤ now
    → Covers m id ended
    → Covers (insert_user now m k name) id ended
unfolding insert_user
insert_user-Covers now m k name id ended past c = elim (Option-cases (get k m.users)) [
  | inl e ↦
      rw (e, insert_user) (put-Covers m id k ended (new_user now name) c (λ v ev why. inr past))
  | inr (u, e) ↦
      rw (e, insert_user) (put-Covers m id k ended (touched now u) c (λ v ev why. ground arith))
]

-- A user that has to stay until `ended` is not evicted while `ended` is within the retention.
pub evict_idle-Covers :
    (now retention : ℕ) (m : UserMap) (id ended : ℕ)
    → IsUnique m.users
    → now - ended < retention
    → Covers m id ended
    → Covers (evict_idle now retention m).0 id ended
unfolding evict_idle keeps
evict_idle-Covers now retention m id ended unique recent (u, loaded, why) =
    (u, ground (arith, get-retain (keeps now retention) id m.users unique), why)

-- The user of an item uncounted at `now` stays until `now`.
pub item_deactivated-Covers_self :
    (now : ℕ) (m m' : UserMap) (k : ℕ) → item_deactivated now m k ≡ some m' → Covers m' k now
unfolding item_deactivated
item_deactivated-Covers_self now m m' k h = elim (Option-cases (get k m.users)) [
  | inl e ↦ absurd (ground arith)
  | inr (u, e) ↦
      let left : User = record u { active_items = (u.active_items + u32_mod - 1) % u32_mod } in
      let made : record m { users = insert k (touched now left) m.users } ≡ m' = ground arith in
      subst (λ x. Covers x k now) made
        (touched now left, get-insert_self k (touched now left) m.users, ground arith)
]

pub task_deactivated-Covers_self :
    (now : ℕ) (m m' : UserMap) (k size : ℕ)
    → task_deactivated now m k size ≡ some m'
    → Covers m' k now
unfolding task_deactivated
task_deactivated-Covers_self now m m' k size h =
    let (u, _, rest) = >>=-eq-some (get k m.users) _ h in
    item_deactivated-Covers_self now _ m' k rest
