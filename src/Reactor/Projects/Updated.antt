-- ===== src/Reactor/Projects/Updated.antt =====
-- An update of a project (runner/src/reactor.rs).
use qscheduler.Base.{
  ℕ, ◌%◌, ◌≡◌, refl, sym, ◌∙◌, ap, subst, inl, inr, String, Bool, true, false, Option, none, some,
  get, insert, get-insert, nat_eq, nat_eq_iff, str_eq, eq_iff, nat_key, string_key, if◌then◌else◌,
  Bool-cases, Option-cases, arith,
}
use qscheduler.User.{u64_mod}
use qscheduler.Error.{Result, ok, err, Result-cases, project_not_found, with_name}
use qscheduler.Project.{Project, ProjectMap, change_project, find_project, find_project_id_by_name}
use qscheduler.Db.{
  Db, Access, served, broken, ProjectRow, row_named, update_rows, update_project_row, coalesce,
  updated, millis,
}
use qscheduler.Reactor.Projects.{
  update_project, get_project_by_name, change_cached, changed, millis_of, found,
}
use qscheduler.Reactor.Projects.Agree.{
  HasIds, Agree, IsCached, updated_row, row_named-update_rows, ids_apart, change_project-IsCached,
}
use qscheduler.Reactor.Projects.Fetched.{get_project_by_name-IsCached}

-- An update of the rows of one name.
updated_row-inv :
    (hit : Bool) (active : Option Bool) (limit_ms : Option ℕ) (o : Option ProjectRow)
    (r : ProjectRow)
    → updated_row hit active limit_ms o ≡ some r
    → (q : ProjectRow) × (o ≡ some q) × (r.id ≡ q.id)
updated_row-inv hit active limit_ms none r there = cc
updated_row-inv true active limit_ms (some q) r there = (q, refl, ground (arith, there))
updated_row-inv false active limit_ms (some q) r there = (q, refl, ground (arith, there))

abbrev with_rows : Db → String → Option Bool → Option ℕ → Db
with_rows db name active limit_ms = record db {
  projects = update_rows name active limit_ms db.projects;
}

update_rows-HasIds :
    (db : Db) (name : String) (active : Option Bool) (limit_ms : Option ℕ)
    → HasIds db
    → HasIds (with_rows db name active limit_ms)
update_rows-HasIds db name active limit_ms ids = record {
  distinct = λ n m r q row row' same.
      let (r0, was, ri) =
        updated_row-inv (str_eq name n) active limit_ms (row_named n db.projects) r
          (sym (row_named-update_rows name n active limit_ms db.projects) ∙ row) in
      let (q0, was', qi) =
        updated_row-inv (str_eq name m) active limit_ms (row_named m db.projects) q
          (sym (row_named-update_rows name m active limit_ms db.projects) ∙ row') in
      ids.distinct n m r0 q0 was was' (sym ri ∙ same ∙ qi);
  below = λ n r row.
      let (r0, was, ri) =
        updated_row-inv (str_eq name n) active limit_ms (row_named n db.projects) r
          (sym (row_named-update_rows name n active limit_ms db.projects) ∙ row) in
      omega (arith, ids.below n r0 was, ri);
}

update_rows-IsCached :
    (cache : ProjectMap) (db : Db) (name : String) (active : Option Bool) (limit_ms : Option ℕ)
    → IsCached cache db
    → ((n : String) (j : ℕ) → get n cache.projects_by_name ≡ some j → str_eq name n ≡ false)
    → IsCached cache (with_rows db name active limit_ms)
update_rows-IsCached cache db name active limit_ms cached other = record {
  has_ids = update_rows-HasIds db name active limit_ms cached.has_ids;
  agree = λ n j named.
      let (p, r, at, row, agree) = cached.agree n j named in
      (
        p,
        r,
        at,
        row_named-update_rows name n active limit_ms db.projects ∙ rw (row, other n j named) refl,
        agree,
      );
}

update_project_row-rows :
    (access : Access) (db db' : Db) (name : String) (active : Option Bool) (limit_ms : Option ℕ)
    (answer : Option Project)
    → update_project_row access db name active limit_ms ≡ ok (db', answer)
    → (db' ≡ with_rows db name active limit_ms)
      × (answer ≡ none → row_named name db.projects ≡ none)
unfolding update_project_row
update_project_row-rows broken db db' name active limit_ms answer done = cc
update_project_row-rows served db db' name active limit_ms answer done = (
  ground (arith, done),
  λ missing. elim (Option-cases (row_named name db.projects)) [
    | inl absent ↦ absent
    | inr (r, there) ↦ absurd (
        ground (
          arith,
          row_named-update_rows name name active limit_ms db.projects,
          there,
          eq_iff name name,
          done,
          missing,
        ))
  ],
)

pub update_project_row-HasIds :
    (access : Access) (db db' : Db) (name : String) (active : Option Bool) (limit_ms : Option ℕ)
    (answer : Option Project)
    → update_project_row access db name active limit_ms ≡ ok (db', answer)
    → HasIds db
    → HasIds db'
update_project_row-HasIds access db db' name active limit_ms answer done ids =
    rw (update_project_row-rows access db db' name active limit_ms answer done).0
      (update_rows-HasIds db name active limit_ms ids)

millis-coalesce :
    (limit : Option ℕ) (old : ℕ) (column : ℕ)
    → millis old ≡ column % u64_mod
    → millis (coalesce limit old) ≡ coalesce (millis_of limit) column % u64_mod
millis-coalesce none old column same = same
millis-coalesce (some new) old column same = omega arith

changed-Agree :
    (name : String) (id : ℕ) (p : Project) (r : ProjectRow) (active : Option Bool)
    (limit : Option ℕ)
    → Agree name id p r
    → Agree name id (changed active limit p) (updated active (millis_of limit) r)
changed-Agree name id p r active limit agree = record {
  project_id = agree.project_id;
  row_id = agree.row_id;
  project_name = agree.project_name;
  same_active = ap (coalesce active) agree.same_active;
  same_limit = millis-coalesce limit p.limit r.limit_ms agree.same_limit;
}

found-cache :
    (name : String) (answered : ProjectMap × Result (Option Project))
    → (found name answered).0 ≡ answered.0
found-cache name (cache, err e) = refl
found-cache name (cache, ok none) = refl
found-cache name (cache, ok (some p)) = refl

uncached_row :
    (cache : ProjectMap) (db : Db) (name n : String) (j : ℕ)
    → IsCached cache db
    → row_named name db.projects ≡ none
    → get n cache.projects_by_name ≡ some j
    → str_eq name n ≡ false
uncached_row cache db name n j cached absent named =
    let (p, r, at, row, agree) = cached.agree n j named in
    ground (arith, row, absent, eq_iff name n)

-- A cached project after the change of the one named `name`, which is cached under `id`.
update_one :
    (cache : ProjectMap) (db : Db) (name n : String) (active : Option Bool) (limit : Option ℕ)
    (id j : ℕ) (q : Project) (s : ProjectRow)
    → IsCached cache db
    → get name cache.projects_by_name ≡ some id
    → get n cache.projects_by_name ≡ some j
    → row_named n db.projects ≡ some s
    → Agree n j q s
    → (s' : ProjectRow) × (row_named n (with_rows db name active (millis_of limit)).projects
        ≡ some s')
      × Agree n j (if nat_eq id j then changed active limit q else q) s'
update_one cache db name n active limit id j q s cached named named' row' agree' =
    let limit_ms = millis_of limit in
    let f = changed active limit in
    let after = row_named-update_rows name n active limit_ms db.projects in
    elim (Bool-cases (str_eq name n)) [
      | inl hit ↦
          let same : nat_eq id j ≡ true =
            ground (arith, named, named', hit, eq_iff name n, nat_eq_iff id j) in
          (
            updated active limit_ms s,
            after ∙ rw (row', hit) refl,
            subst (λ b. Agree n j (if b then f q else q) (updated active limit_ms s)) (sym same)
                (changed-Agree n j q s active limit agree'),
          )
      | inr miss ↦
          let (p, r, at, row, agree) = cached.agree name id named in
          let apart =
            ids_apart db name n r s id j cached.has_ids row row' agree.row_id agree'.row_id miss in
          (
            s,
            after ∙ rw (row', miss) refl,
            subst (λ b. Agree n j (if b then f q else q) s) (sym apart) agree',
          )
    ]

-- The cached project of the name, changed together with its row.
update_found :
    (cache : ProjectMap) (db : Db) (name : String) (active : Option Bool) (limit : Option ℕ)
    (id : ℕ)
    → IsCached cache db
    → get name cache.projects_by_name ≡ some id
    → (cache' : ProjectMap) × (p : Project) × (change_cached cache id (changed active limit)
        ≡ some (cache', p))
      × IsCached cache' (with_rows db name active (millis_of limit))
unfolding change_project find_project
update_found cache db name active limit id cached named =
    let (p, r, at, row, agree) = cached.agree name id named in
    let f = changed active limit in
    let cache' : ProjectMap = record cache { projects = insert id (f p) cache.projects } in
    let made : change_project cache id f ≡ some cache' = rw (change_project, at) refl in
    let back : find_project cache' id ≡ some (f p) =
      ground (arith, get-insert id id (f p) cache.projects, nat_eq_iff id id) in
    (
      cache',
      f p,
      rw (change_cached, made, back) refl,
      change_project-IsCached cache cache' db (with_rows db name active (millis_of limit)) id f
          cached (update_rows-HasIds db name active (millis_of limit) cached.has_ids) made
          (λ n j q s named' row' agree'.
            update_one cache db name n active limit id j q s cached named named' row' agree'),
    )

pub update_project-IsCached :
    (access again : Access) (cache late last : ProjectMap) (reread : Db → Db) (db : Db)
    (name : String) (active : Option Bool) (limit : Option ℕ)
    → IsCached cache db
    → ((db' : Db) (answer : Option Project)
        → update_project_row access db name active (millis_of limit) ≡ ok (db', answer)
        → IsCached last (reread db'))
    → (cache' : ProjectMap) × (db' : Db) × (answer : Result Project) × (update_project access again
          cache late last reread db name active limit
        ≡ some (cache', db', answer))
      × IsCached cache' db'
unfolding update_project find_project_id_by_name
update_project-IsCached access again cache late last reread db name active limit cached later =
    elim (Result-cases (update_project_row access db name active (millis_of limit))) [
      | inl (e, failed) ↦ (cache, db, err e, rw (update_project, failed) refl, cached)
      | inr ((db', answer), done) ↦
          let (rows, missing) =
            update_project_row-rows access db db' name active (millis_of limit) answer done in
          elim (Option-cases answer) [
            | inl none_there ↦ (
              cache,
              db',
              err (project_not_found (with_name name)),
              rw (update_project, done, none_there) refl,
              rw rows (
                  update_rows-IsCached cache db name active (millis_of limit) cached (λ n j there.
                    uncached_row cache db name n j cached (missing none_there) there)),
            )
            | inr (p, one_there) ↦ elim (Option-cases (get name cache.projects_by_name)) [
              | inr (id, held) ↦
                  let (cache', q, made, still) =
                    update_found cache db name active limit id cached held in
                  (
                    cache',
                    db',
                    ok q,
                    rw (update_project, done, one_there, held, made) refl,
                    rw rows still,
                  )
              | inl absent ↦
                  let answered = get_project_by_name again late last (reread db') name in
                  (
                    (found name answered).0,
                    reread db',
                    (found name answered).1,
                    rw (update_project, done, one_there, absent) refl,
                    rw (found-cache name answered) (
                        get_project_by_name-IsCached again late last (reread db') name
                          (later db' answer done)),
                  )
            ]
          ]
    ]
