-- ===== src/Project.antt =====
-- runner/src/project.rs: a project's budget. Durations are in nanoseconds and do not overflow.

use qscheduler.Base.{
  ℕ, ◌+◌, ◌-◌, ◌*◌, ◌%◌, String, Bool, Option, some, Map, get, insert, leb, ltb, ◌>>=◌, nat_key,
  string_key,
}
use Prim.Native.Nat.{◌/◌}
use qscheduler.User.{u64_mod}

pub record Project : Type 0 where
  pub id : ℕ
  pub name : String
  pub active : Bool
  pub consumed : ℕ
  pub limit : ℕ
  pub in_flight : ℕ

abbrev pub nanos_per_milli : ℕ
nanos_per_milli = 1000000

unfoldable pub update_consumed : Project → ℕ → Project
update_consumed p delta = record p { consumed = p.consumed + delta }

unfoldable pub add_in_flight : Project → ℕ → Project
add_in_flight p delta = record p { in_flight = p.in_flight + delta }

-- Whole milliseconds of a duration, as a duration.
abbrev pub whole_millis : ℕ → ℕ
whole_millis d = d / nanos_per_milli % u64_mod * nanos_per_milli

unfoldable pub settle_in_flight : Project → ℕ → ℕ → Project
settle_in_flight p charged actual = record p {
  in_flight = p.in_flight - charged;
  consumed = p.consumed + whole_millis actual;
}

unfoldable pub is_over_limit : Project → Bool
is_over_limit p = leb p.limit (p.consumed + p.in_flight)

unfoldable pub has_time_for : Project → ℕ → Bool
has_time_for p duration = ltb (p.consumed + p.in_flight + duration) p.limit

pub record ProjectMap : Type 0 where
  pub projects : Map ℕ Project
  pub projects_by_name : Map String ℕ

unfoldable pub find_project : ProjectMap → ℕ → Option Project
find_project m id = get id m.projects

unfoldable pub find_project_id_by_name : ProjectMap → String → Option ℕ
find_project_id_by_name m name = get name m.projects_by_name

unfoldable pub find_project_by_name : ProjectMap → String → Option Project
unfolding find_project_id_by_name
find_project_by_name m name = do id ← find_project_id_by_name m name; get id m.projects

unfoldable pub add_project : ProjectMap → Project → ProjectMap
add_project m project = record {
  projects = insert project.id project m.projects;
  projects_by_name = insert project.name project.id m.projects_by_name;
}

-- `get_project_mut` and a change of what it finds; `none` is the panic of its `unwrap`.
unfoldable pub change_project : ProjectMap → ℕ → (Project → Project) → Option ProjectMap
change_project m id f = do
  project ← get id m.projects
  some (record m { projects = insert id (f project) m.projects })
