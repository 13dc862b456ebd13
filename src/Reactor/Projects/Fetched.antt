-- ===== src/Reactor/Projects/Fetched.antt =====
-- A project fetched on demand (runner/src/reactor.rs).
use qscheduler.Base.{
  ◌≡◌, refl, sym, subst, inl, inr, String, none, some, nat_key, string_key, Option-cases, arith,
}
use qscheduler.Error.{ok, Result-cases}
use qscheduler.Project.{
  Project, ProjectMap, add_project, find_project_by_name, find_project_id_by_name,
}
use qscheduler.Db.{
  Db, Access, served, broken, ProjectRow, row_named, find_project_row, project_of_row,
}
use qscheduler.Reactor.Projects.{
  get_project_by_name, get_project_id_by_name, keep_fetched, keep_named,
}
use qscheduler.Reactor.Projects.Agree.{
  IsCached, row_named-name, project_of_row-Agree, add_project-IsCached,
}

find_project_row-row :
    (access : Access) (db : Db) (name : String) (p : Project)
    → find_project_row access db name ≡ ok (some p)
    → (r : ProjectRow) × (row_named name db.projects ≡ some r) × (p ≡ project_of_row r)
unfolding find_project_row
find_project_row-row broken db name p done = cc
find_project_row-row served db name p done = elim (Option-cases (row_named name db.projects)) [
  | inl absent ↦ absurd (ground (arith, absent, done))
  | inr (r, there) ↦ (r, there, ground (arith, there, done))
]

fetched-IsCached :
    (access : Access) (cache : ProjectMap) (db : Db) (name : String) (p : Project)
    → IsCached cache db
    → find_project_row access db name ≡ ok (some p)
    → IsCached (add_project cache p) db
unfolding project_of_row
fetched-IsCached access cache db name p cached done =
    let (r, there, is_row) = find_project_row-row access db name p done in
    let same = row_named-name name db.projects r there in
    subst (λ q. IsCached (add_project cache q) db) (sym is_row)
      (add_project-IsCached cache db (project_of_row r) r cached
        (subst (λ n. row_named n db.projects ≡ some r) (sym same) there)
        (project_of_row-Agree r.name r refl))

pub get_project_by_name-IsCached :
    (access : Access) (begin end : ProjectMap) (db : Db) (name : String)
    → IsCached end db
    → IsCached (get_project_by_name access begin end db name).0 db
unfolding get_project_by_name
get_project_by_name-IsCached access begin end db name cached =
    elim (Option-cases (find_project_by_name begin name)) [
      | inr (p, there) ↦ rw (get_project_by_name, there) cached
      | inl absent ↦ elim (Result-cases (find_project_row access db name)) [
        | inl (e, failed) ↦ rw (get_project_by_name, absent, failed) cached
        | inr (none, done) ↦ rw (get_project_by_name, absent, done) cached
        | inr (some p, done) ↦ elim (Option-cases (find_project_by_name end name)) [
          | inr (q, got) ↦ rw (get_project_by_name, absent, done, keep_fetched, got) cached
          | inl still ↦
              rw (get_project_by_name, absent, done, keep_fetched, still)
                (fetched-IsCached access end db name p cached done)
        ]
      ]
    ]

pub get_project_id_by_name-IsCached :
    (access : Access) (begin end : ProjectMap) (db : Db) (name : String)
    → IsCached end db
    → IsCached (get_project_id_by_name access begin end db name).0 db
unfolding get_project_id_by_name
get_project_id_by_name-IsCached access begin end db name cached =
    elim (Option-cases (find_project_id_by_name begin name)) [
      | inr (p, there) ↦ rw (get_project_id_by_name, there) cached
      | inl absent ↦ elim (Result-cases (find_project_row access db name)) [
        | inl (e, failed) ↦ rw (get_project_id_by_name, absent, failed) cached
        | inr (none, done) ↦ rw (get_project_id_by_name, absent, done) cached
        | inr (some p, done) ↦ elim (Option-cases (find_project_id_by_name end name)) [
          | inr (q, got) ↦ rw (get_project_id_by_name, absent, done, keep_named, got) cached
          | inl still ↦
              rw (get_project_id_by_name, absent, done, keep_named, still)
                (fetched-IsCached access end db name p cached done)
        ]
      ]
    ]
