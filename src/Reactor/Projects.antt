-- ===== src/Reactor/Projects.antt =====
-- runner/src/reactor.rs: projects, whose cache in memory is filled on demand. A request has the core
-- at each of its locks as an argument. `none` is a panic.
pub mod Agree
pub mod Created
pub mod Fetched
pub mod Updated
pub mod Cached
use qscheduler.Base.{ℕ, String, Bool, Option, none, some, map, ◌>>=◌}
use qscheduler.Error.{Result, ok, err, project_not_found, with_name}
use qscheduler.Project.{
  Project, ProjectMap, add_project, change_project, find_project, find_project_by_name,
  find_project_id_by_name,
}
use qscheduler.Db.{
  Db, Access, insert_project, find_project_row, update_project_row, coalesce, millis,
}

-- The cache is the only part of the core that these requests use.
abbrev pub cache_if_absent : ProjectMap → Project → ProjectMap
cache_if_absent cache project = elim (find_project_by_name cache project.name) [
  | some _ ↦ cache
  | none ↦ add_project cache project
]

unfoldable pub create_project :
    Access → ProjectMap → Db → String → Bool → ℕ → ProjectMap × Db × Result ℕ
create_project access end db name active limit = elim (insert_project access db name active limit) [
  | err e ↦ (end, db, err e)
  | ok (db', id) ↦ (
    cache_if_absent end (record {
      id = id;
      name = name;
      active = active;
      consumed = 0;
      limit = limit;
      in_flight = 0;
    }),
    db',
    ok id,
  )
]

-- A project fetched from the database, unless one got cached meanwhile.
abbrev pub keep_fetched : ProjectMap → String → Project → ProjectMap × Result (Option Project)
keep_fetched end name project = elim (find_project_by_name end name) [
  | some cached ↦ (end, ok (some cached))
  | none ↦ (add_project end project, ok (some project))
]

unfoldable pub get_project_by_name :
    Access → (begin end : ProjectMap) → Db → String → ProjectMap × Result (Option Project)
get_project_by_name access begin end db name = elim (find_project_by_name begin name) [
  | some cached ↦ (end, ok (some cached))
  | none ↦ elim (find_project_row access db name) [
    | err e ↦ (end, err e)
    | ok none ↦ (end, ok none)
    | ok (some project) ↦ keep_fetched end name project
  ]
]

abbrev pub keep_named : ProjectMap → String → Project → ProjectMap
keep_named end name project = elim (find_project_id_by_name end name) [
  | some _ ↦ end
  | none ↦ add_project end project
]

unfoldable pub get_project_id_by_name :
    Access → (begin end : ProjectMap) → Db → String → ProjectMap × Result ℕ
get_project_id_by_name access begin end db name = elim (find_project_id_by_name begin name) [
  | some id ↦ (end, ok id)
  | none ↦ elim (find_project_row access db name) [
    | err e ↦ (end, err e)
    | ok none ↦ (end, err (project_not_found (with_name name)))
    | ok (some project) ↦ (keep_named end name project, ok project.id)
  ]
]

abbrev pub changed : Option Bool → Option ℕ → Project → Project
changed active limit project = record project {
  active = coalesce active project.active;
  limit = coalesce limit project.limit;
}

abbrev pub millis_of : Option ℕ → Option ℕ
millis_of none = none
millis_of (some limit) = some (millis limit)

abbrev pub found : String → ProjectMap × Result (Option Project) → ProjectMap × Result Project
found name (cache, err e) = (cache, err e)
found name (cache, ok none) = (cache, err (project_not_found (with_name name)))
found name (cache, ok (some project)) = (cache, ok project)

-- The cached project, with what is given changed.
abbrev pub change_cached : ProjectMap → ℕ → (Project → Project) → Option (ProjectMap × Project)
change_cached end id change = do
  end' ← change_project end id change
  project ← find_project end' id
  some (end', project)

-- A project that is not cached is looked up again: `late` and `last` are the caches at the locks of
-- that lookup, and `reread` is what others do to the tables before it.
unfoldable pub update_project :
    (access again : Access)
    → (end late last : ProjectMap) → (Db → Db)
    → Db
    → String
    → Option Bool
    → Option ℕ
    → Option (ProjectMap × Db × Result Project)
update_project access again end late last reread db name active limit =
    elim (update_project_row access db name active (millis_of limit)) [
      | err e ↦ some (end, db, err e)
      | ok (db', none) ↦ some (end, db', err (project_not_found (with_name name)))
      | ok (db', some _) ↦ elim (find_project_id_by_name end name) [
        | some id ↦ elim (change_cached end id (changed active limit)) [
          | none ↦ none
          | some (end', project) ↦ some (end', db', ok project)
        ]
        | none ↦
            let later = reread db' in
            let (end', answer) = found name (get_project_by_name again late last later name) in
            some (end', later, answer)
      ]
    ]

-- A request, or the launchers' accounting of a project's time.
pub data Request : Type 0 where
  create : Access → String → Bool → ℕ → Request
  update : (access again : Access) → String → Option Bool → Option ℕ → Request
  by_name : Access → String → Request
  id_by_name : Access → String → Request
  accounted : (project_id consumed in_flight : ℕ) → Request

abbrev pub drop_answer : {A : Type 0} → Option (ProjectMap × Db × A) → Option (ProjectMap × Db)
drop_answer none = none
drop_answer (some (cache, db, _)) = some (cache, db)

abbrev pub beside : Db → Option ProjectMap → Option (ProjectMap × Db)
beside db none = none
beside db (some cache) = some (cache, db)

-- The caches at the locks of a request, and what others do to the tables before its second
-- statement. `begin` is the cache before the first statement, `end` the one after it; `late` and
-- `last` are those of the lookup at the end of an update.
pub record Locks : Type 0 where
  pub begin : ProjectMap
  pub end : ProjectMap
  pub late : ProjectMap
  pub last : ProjectMap
  pub reread : Db → Db

unfoldable pub handle : Locks → Db → Request → Option (ProjectMap × Db)
handle locks db (create access name active limit) =
    drop_answer (some (create_project access locks.end db name active limit))
handle locks db (update access again name active limit) =
    drop_answer (
      update_project access again locks.end locks.late locks.last locks.reread db name active limit)
handle locks db (by_name access name) =
    some ((get_project_by_name access locks.begin locks.end db name).0, db)
handle locks db (id_by_name access name) =
    some ((get_project_id_by_name access locks.begin locks.end db name).0, db)
handle locks db (accounted id consumed in_flight) = beside db (
    change_project locks.end id
      (λ project. record project { consumed = consumed; in_flight = in_flight }))
