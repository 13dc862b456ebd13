-- ===== src/Reactor/Projects/Cached.antt =====
-- The cache of projects and the table (runner/src/reactor.rs).
use qscheduler.Base.{
  ℕ, ◌≡◌, ◌⊎◌, refl, sym, subst, inl, inr, Option, none, some, get, insert, nat_eq, nat_key,
  string_key, if◌then◌else◌, Bool-cases, Option-cases,
}
use qscheduler.Project.{Project, ProjectMap, change_project}
use qscheduler.Error.{ok}
use qscheduler.Db.{Db, update_project_row}
use qscheduler.Reactor.Projects.{
  create_project, get_project_by_name, get_project_id_by_name, Request, create, update, by_name,
  id_by_name, accounted, Locks, handle, millis_of,
}
use qscheduler.Reactor.Projects.Agree.{Agree, IsCached, change_project-IsCached}
use qscheduler.Reactor.Projects.Created.{create_project-IsCached}
use qscheduler.Reactor.Projects.Fetched.{
  get_project_by_name-IsCached, get_project_id_by_name-IsCached,
}
use qscheduler.Reactor.Projects.Updated.{update_project-IsCached}

accounted-IsCached :
    (cache : ProjectMap) (db : Db) (id consumed in_flight : ℕ) (p : Project)
    → IsCached cache db
    → get id cache.projects ≡ some p
    → (cache' : ProjectMap) × (change_project cache id
          (λ q. record q { consumed = consumed; in_flight = in_flight })
        ≡ some cache')
      × IsCached cache' db
unfolding change_project
accounted-IsCached cache db id consumed in_flight p cached here =
    let f : Project → Project = λ q. record q { consumed = consumed; in_flight = in_flight } in
    let cache' : ProjectMap = record cache { projects = insert id (f p) cache.projects } in
    let made : change_project cache id f ≡ some cache' = rw (change_project, here) refl in
    (
      cache',
      made,
      change_project-IsCached cache cache' db db id f cached cached.has_ids made
          (λ n j q s held row agree. (
            s,
            row,
            elim (Bool-cases (nat_eq id j)) [
              | inl same ↦
                  subst (λ b. Agree n j (if b then f q else q) s) (sym same)
                    (record {
                      project_id = agree.project_id;
                      row_id = agree.row_id;
                      project_name = agree.project_name;
                      same_active = agree.same_active;
                      same_limit = agree.same_limit;
                    })
              | inr other ↦ subst (λ b. Agree n j (if b then f q else q) s) (sym other) agree
            ],
          )),
    )

-- For an update: others leave the cache at its last lock in step with the tables that it reads last.
abbrev pub LastIsCached : Locks → Db → Request → Type 0
LastIsCached locks db (create access name active limit) = Unit
LastIsCached locks db (update access again name active limit) =
    (db' : Db) (answer : Option Project)
    → update_project_row access db name active (millis_of limit) ≡ ok (db', answer)
    → IsCached locks.last (locks.reread db')
LastIsCached locks db (by_name access name) = Unit
LastIsCached locks db (id_by_name access name) = Unit
LastIsCached locks db (accounted id consumed in_flight) = Unit

-- A request on projects, whether or not the database is reached, or the accounting of the launchers,
-- leaves the cache in step with the table, whatever the cache was at earlier locks, if the cache at
-- the lock after its statement is in step with the table that the statement has found, so that no
-- other request has changed that in between, and, for an update, the cache at the last lock of the
-- lookup that may follow is in step with the table that this lookup reads. In step means that a
-- cached project has a row of the same id, name and state of activity, and of the same limit in
-- whole milliseconds. Only the accounting of a project that is not cached panics.
pub handle-IsCached :
    (locks : Locks) (db : Db) (request : Request)
    → IsCached locks.end db
    → LastIsCached locks db request
    → ((cache' : ProjectMap) × (db' : Db) × (handle locks db request ≡ some (cache', db'))
        × IsCached cache' db')
      ⊎ ((id : ℕ) × (consumed : ℕ) × (in_flight : ℕ) × (request ≡ accounted id consumed in_flight)
          × (get id locks.end.projects ≡ none))
unfolding handle
handle-IsCached locks db (create access name active limit) cached last = inl (
  (create_project access locks.end db name active limit).0,
  (create_project access locks.end db name active limit).1,
  refl,
  create_project-IsCached access locks.end db name active limit cached,
)
handle-IsCached locks db (update access again name active limit) cached last =
    let (cache', db', answer, made, still) =
      update_project-IsCached access again locks.end locks.late locks.last locks.reread db name
        active limit cached last in
    inl (cache', db', rw made refl, still)
handle-IsCached locks db (by_name access name) cached last = inl (
  (get_project_by_name access locks.begin locks.end db name).0,
  db,
  refl,
  get_project_by_name-IsCached access locks.begin locks.end db name cached,
)
handle-IsCached locks db (id_by_name access name) cached last = inl (
  (get_project_id_by_name access locks.begin locks.end db name).0,
  db,
  refl,
  get_project_id_by_name-IsCached access locks.begin locks.end db name cached,
)
handle-IsCached locks db (accounted id consumed in_flight) cached last =
    elim (Option-cases (get id locks.end.projects)) [
      | inl absent ↦ inr (id, consumed, in_flight, refl, absent)
      | inr (p, here) ↦
          let (cache', made, still) =
            accounted-IsCached locks.end db id consumed in_flight p cached here in
          inl (cache', db, rw made refl, still)
    ]
