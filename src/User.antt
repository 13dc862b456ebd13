-- ===== src/User.antt =====
-- runner/src/user.rs: the users in memory, with the counters of their active items and payloads.
-- A user id is its number; `Instant::now()` is the argument `now` of each call; the counters
-- wrap like the `u32` and the `u64` of a release build. `none` is a panic.
pub mod Counts
pub mod Idle
use qscheduler.Base.{
  ℕ, ◌+◌, ◌-◌, ◌%◌, String, Bool, ◌||◌, Option, none, some, List, [], ◌∷◌, Map, length, get, insert,
  remove, retain, ltb, nat_eq, if◌then◌else◌, ◌>>=◌, nat_key, string_key,
}
use qscheduler.Error.{Result, ok, err, generic_error, user_not_loaded}

abbrev pub u32_mod : ℕ
u32_mod = 4294967296

abbrev pub u64_mod : ℕ
u64_mod = 18446744073709551616

pub record User : Type 0 where
  pub name : String
  pub active_items : ℕ
  pub active_payload_bytes : ℕ
  pub idle_since : ℕ

pub record UserMap : Type 0 where
  pub users : Map ℕ User
  pub users_by_name : Map String ℕ

unfoldable pub empty : UserMap
empty = record { users = []; users_by_name = [] }

unfoldable pub get_user : UserMap → ℕ → Option User
get_user m id = get id m.users

unfoldable pub find_user : UserMap → ℕ → Option User
find_user m id = get id m.users

unfoldable pub find_by_name : UserMap → String → Option User
find_by_name m name = do id ← get name m.users_by_name; get id m.users

-- A user with no active item is marked as used at `now`.
abbrev pub touched : ℕ → User → User
touched now user = if nat_eq user.active_items 0 then record user { idle_since = now } else user

-- The outer `Option` is the panic, the inner one the result.
unfoldable pub touch_by_name : ℕ → UserMap → String → Option (UserMap × Option ℕ)
touch_by_name now m name = elim (get name m.users_by_name) [
  | none ↦ some (m, none)
  | some id ↦ do
    user ← get id m.users
    some (record m { users = insert id (touched now user) m.users }, some id)
]

abbrev pub new_user : ℕ → String → User
new_user now name = record {
  name = name;
  active_items = 0;
  active_payload_bytes = 0;
  idle_since = now;
}

unfoldable pub insert_user : ℕ → UserMap → ℕ → String → UserMap
insert_user now m id name = elim (get id m.users) [
  | some user ↦ record m { users = insert id (touched now user) m.users }
  | none ↦ record {
    users = insert id (new_user now name) m.users;
    users_by_name = insert name id m.users_by_name;
  }
]

unfoldable pub task_activated : UserMap → ℕ → ℕ → Result UserMap
task_activated m id payload_size = elim (get id m.users) [
  | none ↦ err (generic_error (user_not_loaded id))
  | some user ↦ ok (record m {
    users =
        insert id
          (record user {
            active_items = (user.active_items + 1) % u32_mod;
            active_payload_bytes = (user.active_payload_bytes + payload_size) % u64_mod;
          })
          m.users;
  })
]

unfoldable pub item_deactivated : ℕ → UserMap → ℕ → Option UserMap
item_deactivated now m id = do
  user ← get id m.users
  let left = record user { active_items = (user.active_items + u32_mod - 1) % u32_mod }
  some (record m { users = insert id (touched now left) m.users })

unfoldable pub task_deactivated : ℕ → UserMap → ℕ → ℕ → Option UserMap
task_deactivated now m id payload_size = do
  user ← get id m.users
  let left = record user {
    active_payload_bytes = (user.active_payload_bytes + u64_mod - payload_size) % u64_mod;
  }
  item_deactivated now (record m { users = insert id left m.users }) id

unfoldable pub session_activated : UserMap → ℕ → Result UserMap
session_activated m id = task_activated m id 0

unfoldable pub session_deactivated : ℕ → UserMap → ℕ → Option UserMap
session_deactivated now m id = item_deactivated now m id

-- Durations are in nanoseconds; `now.saturating_duration_since(t)` is the truncated `now - t`.
unfoldable pub keeps : ℕ → ℕ → User → Bool
keeps now retention user = ltb 0 user.active_items || ltb (now - user.idle_since) retention

unfoldable pub drop_names : (User → Bool) → Map ℕ User → Map String ℕ → Map String ℕ
drop_names keep [] names = names
drop_names keep ((id, u) ∷ users) names =
    drop_names keep users (if keep u then names else remove u.name names)

-- The new map and the number of users that left.
unfoldable pub evict_idle : ℕ → ℕ → UserMap → UserMap × ℕ
evict_idle now retention m =
    let kept = retain (keeps now retention) m.users in
    (
      record {
        users = kept;
        users_by_name = drop_names (keeps now retention) m.users m.users_by_name;
      },
      length m.users - length kept,
    )
