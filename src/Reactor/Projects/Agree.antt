-- ===== src/Reactor/Projects/Agree.antt =====
-- The cache of projects and the table (runner/src/reactor.rs): what agrees.
use qscheduler.Base.{
  ℕ, ◌%◌, ◌<◌, ◌≡◌, refl, ◌∙◌, inl, inr, String, Bool, false, Option, none, some, List, [], ◌∷◌,
  ◌++◌, get, get-insert, nat_eq, nat_eq_iff, str_eq, eq_iff, nat_key, string_key, if◌then◌else◌,
  Bool-cases, arith, >>=-eq-some,
}
use qscheduler.User.{u64_mod}
use qscheduler.Project.{Project, ProjectMap, add_project, change_project}
use qscheduler.Db.{Db, ProjectRow, row_named, update_rows, project_of_row, updated, millis}
use qscheduler.Reactor.Projects.{found}

-- The ids of the rows are distinct and below the next one.
pub record HasIds (db : Db) : Type 0 where
  pub distinct :
      (n m : String) (r q : ProjectRow)
      → row_named n db.projects ≡ some r
      → row_named m db.projects ≡ some q
      → r.id ≡ q.id
      → n ≡ m
  pub below :
      (n : String) (r : ProjectRow) → row_named n db.projects ≡ some r → r.id < db.next_project_id

-- A project in memory and its row.
pub record Agree (name : String) (id : ℕ) (p : Project) (r : ProjectRow) : Type 0 where
  pub project_id : p.id ≡ id
  pub row_id : r.id ≡ id
  pub project_name : p.name ≡ name
  pub same_active : p.active ≡ r.active
  pub same_limit : millis p.limit ≡ r.limit_ms % u64_mod

-- Every cached project agrees with its row.
pub record IsCached (cache : ProjectMap) (db : Db) : Type 0 where
  pub has_ids : HasIds db
  pub agree :
      (name : String) (id : ℕ)
      → get name cache.projects_by_name ≡ some id
      → (p : Project) × (r : ProjectRow) × (get id cache.projects ≡ some p)
        × (row_named name db.projects ≡ some r)
        × Agree name id p r

pub row_named-name :
    (name : String) (rows : List ProjectRow) (r : ProjectRow)
    → row_named name rows ≡ some r
    → r.name ≡ name
unfolding row_named
row_named-name name [] r found = cc
row_named-name name (row ∷ rows) r found = elim (Bool-cases (str_eq row.name name)) [
  | inl hit ↦ ground (arith, hit, found, eq_iff row.name name)
  | inr miss ↦ row_named-name name rows r (ground (arith, miss, found))
]

pub row_named-append :
    (name : String) (rows : List ProjectRow) (r : ProjectRow)
    → row_named r.name rows ≡ none
    → row_named name (rows ++ r ∷ []) ≡ (if str_eq r.name name then some r else row_named name rows)
unfolding row_named
row_named-append name [] r new = refl
row_named-append name (row ∷ rows) r new = ground (
  arith,
  row_named-append name rows r,
  eq_iff row.name name,
  eq_iff r.name name,
  eq_iff row.name r.name,
)

abbrev pub updated_row : Bool → Option Bool → Option ℕ → Option ProjectRow → Option ProjectRow
updated_row hit active limit_ms none = none
updated_row hit active limit_ms (some r) = some (if hit then updated active limit_ms r else r)

pub row_named-update_rows :
    (name j : String) (active : Option Bool) (limit_ms : Option ℕ) (rows : List ProjectRow)
    → row_named j (update_rows name active limit_ms rows)
      ≡ updated_row (str_eq name j) active limit_ms (row_named j rows)
unfolding row_named update_rows
row_named-update_rows name j active limit_ms [] = refl
row_named-update_rows name j active limit_ms (row ∷ rows) =
    elim (Bool-cases (str_eq row.name name)) [
      | inl hit ↦ rw hit ground (
        arith,
        row_named-update_rows name j active limit_ms rows,
        eq_iff row.name name,
        eq_iff row.name j,
        eq_iff name j,
        hit,
      )
      | inr miss ↦ rw miss ground (
        arith,
        row_named-update_rows name j active limit_ms rows,
        eq_iff row.name name,
        eq_iff row.name j,
        eq_iff name j,
        miss,
      )
    ]

millis-project_of_row : (r : ProjectRow) → millis (project_of_row r).limit ≡ r.limit_ms % u64_mod
unfolding project_of_row
millis-project_of_row r = omega arith

pub project_of_row-Agree :
    (name : String) (r : ProjectRow) → r.name ≡ name → Agree name r.id (project_of_row r) r
unfolding project_of_row
project_of_row-Agree name r same = record {
  project_id = refl;
  row_id = refl;
  project_name = same;
  same_active = refl;
  same_limit = millis-project_of_row r;
}

pub ids_apart :
    (db : Db) (n m : String) (r q : ProjectRow) (i j : ℕ)
    → HasIds db
    → row_named n db.projects ≡ some r
    → row_named m db.projects ≡ some q
    → r.id ≡ i
    → q.id ≡ j
    → str_eq n m ≡ false
    → nat_eq i j ≡ false
ids_apart db n m r q i j ids row row' ri qj other = elim (Bool-cases (nat_eq i j)) [
  | inr apart ↦ apart
  | inl same ↦
      let equal = ids.distinct n m r q row row' (ground (arith, ri, qj, same, nat_eq_iff i j)) in
      absurd (ground (arith, equal, eq_iff n m, other))
]

pub add_project-IsCached :
    (cache : ProjectMap) (db : Db) (p : Project) (r : ProjectRow)
    → IsCached cache db
    → row_named p.name db.projects ≡ some r
    → Agree p.name p.id p r
    → IsCached (add_project cache p) db
unfolding add_project
add_project-IsCached cache db p r cached row agrees = record {
  has_ids = cached.has_ids;
  agree = λ name id named. elim (Bool-cases (str_eq p.name name)) [
    | inl same ↦
        let is_id : p.id ≡ id =
          ground (arith, named, same, get-insert p.name name p.id cache.projects_by_name) in
        let is_name : p.name ≡ name = (eq_iff p.name name).0 same in
        (
          p,
          r,
          ground (arith, is_id, get-insert p.id id p cache.projects, nat_eq_iff p.id id),
          ground (arith, row, is_name),
          record {
            project_id = is_id;
            row_id = agrees.row_id ∙ is_id;
            project_name = is_name;
            same_active = agrees.same_active;
            same_limit = agrees.same_limit;
          },
        )
    | inr other ↦
        let before : get name cache.projects_by_name ≡ some id =
          ground (arith, named, other, get-insert p.name name p.id cache.projects_by_name) in
        let (p', r', found, row', agrees') = cached.agree name id before in
        let apart : nat_eq p.id id ≡ false =
          ids_apart db p.name name r r' p.id id cached.has_ids row row' agrees.row_id agrees'.row_id
            other in
        (p', r', ground (arith, found, apart, get-insert p.id id p cache.projects), row', agrees')
  ];
}

-- A change of a cached project together with its row.
pub change_project-IsCached :
    (cache cache' : ProjectMap) (db db' : Db) (id : ℕ) (f : Project → Project)
    → IsCached cache db
    → HasIds db'
    → change_project cache id f ≡ some cache'
    → ((name : String) (j : ℕ) (p : Project) (r : ProjectRow)
        → get name cache.projects_by_name ≡ some j
        → row_named name db.projects ≡ some r
        → Agree name j p r
        → (r' : ProjectRow) × (row_named name db'.projects ≡ some r')
          × Agree name j (if nat_eq id j then f p else p) r')
    → IsCached cache' db'
unfolding change_project
change_project-IsCached cache cache' db db' id f cached ids done agrees =
    let (p0, found, returned) = >>=-eq-some (get id cache.projects) _ done in
    record {
      has_ids = ids;
      agree = λ name j named.
          let before : get name cache.projects_by_name ≡ some j = ground (arith, named, returned) in
          let (p, r, at, row, agree) = cached.agree name j before in
          let (r', row', agree') = agrees name j p r before row agree in
          (
            if nat_eq id j then f p else p,
            r',
            ground (
              arith,
              returned,
              found,
              at,
              get-insert id j (f p0) cache.projects,
              nat_eq_iff id j,
            ),
            row',
            agree',
          );
    }
