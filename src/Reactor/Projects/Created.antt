-- ===== src/Reactor/Projects/Created.antt =====
-- A new project (runner/src/reactor.rs).
use qscheduler.Base.{
  ℕ, ◌+◌, ◌≡◌, refl, sym, inl, inr, String, Bool, false, none, some, str_eq, eq_iff, nat_key,
  string_key, if◌then◌else◌, Bool-cases, Option-cases, arith,
}
use qscheduler.Error.{ok, Result-cases}
use qscheduler.Project.{Project, ProjectMap, find_project_by_name}
use qscheduler.Db.{Db, Access, served, broken, ProjectRow, row_named, insert_project, millis}
use qscheduler.Reactor.Projects.{create_project, cache_if_absent}
use qscheduler.Reactor.Projects.Agree.{HasIds, IsCached, row_named-append, add_project-IsCached}

-- What an insertion adds.
record Inserted (db db' : Db) (name : String) (active : Bool) (limit id : ℕ) : Type 0 where
  row : ProjectRow
  row_id : row.id ≡ id
  same_active : row.active ≡ active
  same_limit : row.limit_ms ≡ millis limit
  is_next : id ≡ db.next_project_id
  next : db'.next_project_id ≡ id + 1
  new : row_named name db.projects ≡ none
  rows :
      (n : String)
      → row_named n db'.projects ≡ (if str_eq name n then some row else row_named n db.projects)

insert_project-Inserted :
    (access : Access) (db db' : Db) (name : String) (active : Bool) (limit id : ℕ)
    → insert_project access db name active limit ≡ ok (db', id)
    → Inserted db db' name active limit id
unfolding insert_project
insert_project-Inserted broken db db' name active limit id done = cc
insert_project-Inserted served db db' name active limit id done =
    let r : ProjectRow = record {
      id = db.next_project_id;
      name = name;
      consumed_ms = 0;
      limit_ms = millis limit;
      active = active;
    } in
    elim (Option-cases (row_named name db.projects)) [
      | inr (old, taken) ↦ absurd (ground (arith, taken, done))
      | inl new ↦ record {
        row = r;
        row_id = ground (arith, new, done);
        same_active = refl;
        same_limit = refl;
        is_next = ground (arith, new, done);
        next = ground (arith, new, done);
        new = new;
        rows = λ n. ground (arith, new, done, row_named-append n db.projects r new);
      }
    ]

insert_project-HasIds :
    (db db' : Db) (name : String) (active : Bool) (limit id : ℕ)
    → Inserted db db' name active limit id
    → HasIds db
    → HasIds db'
insert_project-HasIds db db' name active limit id added ids = record {
  distinct = λ n m r q row row' same. elim (Bool-cases (str_eq name n)) [
    | inl here ↦ elim (Bool-cases (str_eq name m)) [
      | inl here' ↦ ground (arith, eq_iff name n, eq_iff name m, here, here')
      | inr other' ↦ absurd (
          ground (
            arith,
            row,
            row',
            same,
            here,
            other',
            added.rows n,
            added.rows m,
            added.row_id,
            added.is_next,
            ids.below m q,
          ))
    ]
    | inr other ↦ elim (Bool-cases (str_eq name m)) [
      | inl here' ↦ absurd (
          ground (
            arith,
            row,
            row',
            same,
            here',
            other,
            added.rows n,
            added.rows m,
            added.row_id,
            added.is_next,
            ids.below n r,
          ))
      | inr other' ↦
          ids.distinct n m r q (ground (arith, added.rows n, other, row))
            (ground (arith, added.rows m, other', row')) same
    ]
  ];
  below = λ n r row. elim (Bool-cases (str_eq name n)) [
    | inl here ↦ ground (arith, row, here, added.rows n, added.row_id, added.is_next, added.next)
    | inr other ↦ ground (arith, row, other, added.rows n, ids.below n r, added.is_next, added.next)
  ];
}

-- The rows grow by one that is not cached.
insert_project-IsCached :
    (cache : ProjectMap) (db db' : Db) (name : String) (active : Bool) (limit id : ℕ)
    → Inserted db db' name active limit id
    → IsCached cache db
    → IsCached cache db'
insert_project-IsCached cache db db' name active limit id added cached = record {
  has_ids = insert_project-HasIds db db' name active limit id added cached.has_ids;
  agree = λ n j named.
      let (p, r, at, row, agree) = cached.agree n j named in
      let other : str_eq name n ≡ false = ground (arith, row, added.new, eq_iff name n) in
      (p, r, at, ground (arith, added.rows n, other, row), agree);
}

pub create_project-IsCached :
    (access : Access) (cache : ProjectMap) (db : Db) (name : String) (active : Bool) (limit : ℕ)
    → IsCached cache db
    → IsCached
        (create_project access cache db name active limit).0
        (create_project access cache db name active limit).1
unfolding create_project
create_project-IsCached access cache db name active limit cached =
    elim (Result-cases (insert_project access db name active limit)) [
      | inl (e, failed) ↦ rw (create_project, failed) cached
      | inr ((db', id), done) ↦
          let added = insert_project-Inserted access db db' name active limit id done in
          let still = insert_project-IsCached cache db db' name active limit id added cached in
          let p : Project = record {
            id = id;
            name = name;
            active = active;
            consumed = 0;
            limit = limit;
            in_flight = 0;
          } in
          elim (Option-cases (find_project_by_name cache name)) [
            | inr (old, there) ↦ rw (create_project, done, cache_if_absent, there) still
            | inl absent ↦
                rw (create_project, done, cache_if_absent, absent)
                  (add_project-IsCached cache db' p added.row still
                    (ground (arith, added.rows name, eq_iff name name))
                    (record {
                      project_id = refl;
                      row_id = added.row_id;
                      project_name = refl;
                      same_active = sym added.same_active;
                      same_limit = ground (arith, added.same_limit);
                    }))
          ]
    ]
