-- ===== src/User/Counts.antt =====
-- The counters of a user (runner/src/user.rs) as functions of the user's id, and what each call
-- that counts or uncounts an item does to them.
use qscheduler.Base.{
  IsUnique, insert-IsUnique, subst, >>=-eq-some, ℕ, ◌+◌, ◌-◌, ◌%◌, ◌<◌, ◌≤◌, ◌≡◌, inl, inr, some,
  get, insert, get-insert, weight, nat_eq, nat_eq_iff, nat_key, if◌then◌else◌, Option-cases, ap,
  arith,
}
use qscheduler.Error.{ok}
use qscheduler.User.{
  User, UserMap, u32_mod, u64_mod, task_activated, task_deactivated, item_deactivated, touched,
}

-- The items and the bytes counted for a user; a user that is not loaded has none.
unfoldable pub items_of : UserMap → ℕ → ℕ
items_of m id = weight (λ u. u.active_items) (get id m.users)

unfoldable pub bytes_of : UserMap → ℕ → ℕ
bytes_of m id = weight (λ u. u.active_payload_bytes) (get id m.users)

-- `n` at `id`, and nothing elsewhere.
abbrev pub at : ℕ → ℕ → ℕ → ℕ
at id j n = if nat_eq id j then n else 0

-- A user that the map has no entry for before, or the counters of an entry, as they are after
-- the entry of `id` has become `u`.
pub items_of-insert :
    (m : UserMap) (id j : ℕ) (u : User)
    → items_of (record m { users = insert id u m.users }) j
      ≡ (if nat_eq id j then u.active_items else items_of m j)
unfolding items_of
items_of-insert m id j u = ground (arith, get-insert id j u m.users)

pub bytes_of-insert :
    (m : UserMap) (id j : ℕ) (u : User)
    → bytes_of (record m { users = insert id u m.users }) j
      ≡ (if nat_eq id j then u.active_payload_bytes else bytes_of m j)
unfolding bytes_of
bytes_of-insert m id j u = ground (arith, get-insert id j u m.users)

-- What a call that counts `n` items and `b` bytes for `id` leaves; read from right to left, what
-- a call that uncounts them leaves.
pub record Added (m m' : UserMap) (id n b : ℕ) : Type 0 where
  pub items : (j : ℕ) → items_of m' j ≡ items_of m j + at id j n
  pub bytes : (j : ℕ) → bytes_of m' j ≡ bytes_of m j + at id j b

abbrev counted : User → ℕ → ℕ → User
counted u items bytes = record u { active_items = items; active_payload_bytes = bytes }

abbrev put : UserMap → ℕ → User → UserMap
put m id u = record m { users = insert id u m.users }

-- Writing an entry whose counters are larger by `n` and `b`.
put-Added :
    (m : UserMap) (id n b : ℕ) (u u' : User)
    → get id m.users ≡ some u
    → u'.active_items ≡ u.active_items + n
    → u'.active_payload_bytes ≡ u.active_payload_bytes + b
    → Added m (put m id u') id n b
unfolding items_of bytes_of
put-Added m id n b u u' loaded hn hb = record {
  items = λ j. ground (arith, items_of-insert m id j u', nat_eq_iff id j);
  bytes = λ j. ground (arith, bytes_of-insert m id j u', nat_eq_iff id j);
}

put-Removed :
    (m : UserMap) (id n b : ℕ) (u u' : User)
    → get id m.users ≡ some u
    → u.active_items ≡ u'.active_items + n
    → u.active_payload_bytes ≡ u'.active_payload_bytes + b
    → Added (put m id u') m id n b
unfolding items_of bytes_of
put-Removed m id n b u u' loaded hn hb = record {
  items = λ j. ground (arith, items_of-insert m id j u', nat_eq_iff id j);
  bytes = λ j. ground (arith, bytes_of-insert m id j u', nat_eq_iff id j);
}

-- A user with a counted item is loaded.
pub loaded_of_items :
    (m : UserMap) (id : ℕ)
    → 0 < items_of m id
    → (u : User) × (get id m.users ≡ some u)
      × (items_of m id ≡ u.active_items)
      × (bytes_of m id ≡ u.active_payload_bytes)
unfolding items_of bytes_of
loaded_of_items m id h = elim (Option-cases (get id m.users)) [
  | inl e ↦ absurd (omega (arith, ap (weight (λ (u : User). u.active_items)) e))
  | inr (u, e) ↦ (u, e, rw e, rw e)
]

Added-trans :
    {m m' m'' : UserMap} {id : ℕ} (n b n' b' total_n total_b : ℕ)
    → total_n ≡ n + n'
    → total_b ≡ b + b'
    → Added m m' id n b
    → Added m' m'' id n' b'
    → Added m m'' id total_n total_b
Added-trans {id = id} n b n' b' total_n total_b en eb h k = record {
  items = λ j. ground (arith, h.items j, k.items j);
  bytes = λ j. ground (arith, h.bytes j, k.bytes j);
}

-- Counting succeeds for a loaded user whose counters do not overflow.
pub task_activated-Added :
    (m : UserMap) (id size : ℕ) (u : User)
    → get id m.users ≡ some u
    → items_of m id + 1 < u32_mod
    → bytes_of m id + size < u64_mod
    → (m' : UserMap) × (task_activated m id size ≡ ok m') × Added m m' id 1 size
unfolding task_activated items_of bytes_of
task_activated-Added m id size u loaded hi hb =
    let hi' : u.active_items + 1 < u32_mod = rw loaded at hi in
    let hb' : u.active_payload_bytes + size < u64_mod = rw loaded at hb in
    (
      put m id (record u {
        active_items = (u.active_items + 1) % u32_mod;
        active_payload_bytes = (u.active_payload_bytes + size) % u64_mod;
      }),
      ground arith,
      put-Added m id 1 size u _ loaded (omega arith) (omega arith),
    )

-- Uncounting an item succeeds for a user that has one.
pub item_deactivated-Added :
    (now : ℕ) (m : UserMap) (id : ℕ)
    → 0 < items_of m id
    → items_of m id < u32_mod
    → (m' : UserMap) × (item_deactivated now m id ≡ some m') × Added m' m id 1 0
unfolding item_deactivated items_of bytes_of
item_deactivated-Added now m id pos hi =
    let (u, loaded, eq_items, _) = loaded_of_items m id pos in
    let left : User = record u { active_items = (u.active_items + u32_mod - 1) % u32_mod } in
    (
      put m id (touched now left),
      ground arith,
      put-Removed m id 1 0 u (touched now left) loaded (ground arith) (ground arith),
    )

-- Uncounting a task succeeds for a user that has an item and at least its payload.
pub task_deactivated-Added :
    (now : ℕ) (m : UserMap) (id size : ℕ)
    → 0 < items_of m id
    → items_of m id < u32_mod
    → size ≤ bytes_of m id
    → bytes_of m id < u64_mod
    → (m' : UserMap) × (task_deactivated now m id size ≡ some m') × Added m' m id 1 size
unfolding task_deactivated
task_deactivated-Added now m id size pos hi hs hb =
    let (u, loaded, eq_items, eq_bytes) = loaded_of_items m id pos in
    let left : User = record u {
      active_payload_bytes = (u.active_payload_bytes + u64_mod - size) % u64_mod;
    } in
    let freed : Added (put m id left) m id 0 size =
      put-Removed m id 0 size u left loaded (omega arith) (omega arith) in
    let (m', e, gone) =
      item_deactivated-Added now (put m id left) id
        (ground (arith, freed.items id, nat_eq_iff id id))
        (ground (arith, freed.items id, nat_eq_iff id id)) in
    (m', rw loaded e, Added-trans 1 0 0 size 1 size (omega arith) (omega arith) gone freed)

pub task_activated-IsUnique :
    (m m' : UserMap) (id size : ℕ)
    → task_activated m id size ≡ ok m'
    → IsUnique m.users
    → IsUnique m'.users
unfolding task_activated
task_activated-IsUnique m m' id size h unique = elim (Option-cases (get id m.users)) [
  | inl e ↦ absurd (ground arith)
  | inr (u, e) ↦
      let made : insert id
            (record u {
              active_items = (u.active_items + 1) % u32_mod;
              active_payload_bytes = (u.active_payload_bytes + size) % u64_mod;
            })
            m.users
          ≡ m'.users =
        ground arith in
      subst IsUnique made (insert-IsUnique id _ m.users unique)
]

pub item_deactivated-IsUnique :
    (now : ℕ) (m m' : UserMap) (id : ℕ)
    → item_deactivated now m id ≡ some m'
    → IsUnique m.users
    → IsUnique m'.users
unfolding item_deactivated
item_deactivated-IsUnique now m m' id h unique = elim (Option-cases (get id m.users)) [
  | inl e ↦ absurd (ground arith)
  | inr (u, e) ↦
      let left : User = record u { active_items = (u.active_items + u32_mod - 1) % u32_mod } in
      let made : insert id (touched now left) m.users ≡ m'.users = ground arith in
      subst IsUnique made (insert-IsUnique id (touched now left) m.users unique)
]

pub task_deactivated-IsUnique :
    (now : ℕ) (m m' : UserMap) (id size : ℕ)
    → task_deactivated now m id size ≡ some m'
    → IsUnique m.users
    → IsUnique m'.users
unfolding task_deactivated
task_deactivated-IsUnique now m m' id size h unique =
    let (u, _, rest) = >>=-eq-some (get id m.users) _ h in
    item_deactivated-IsUnique now _ m' id rest (insert-IsUnique id _ m.users unique)
