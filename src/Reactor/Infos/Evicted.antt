-- ===== src/Reactor/Infos/Evicted.antt =====
-- What the API shows of a task once it has left memory (runner/src/reactor.rs).
use qscheduler.Base.{
  ℕ, ◌≡◌, refl, ◌∙◌, inl, inr, true, Option, none, some, get, nat_key, arith, String, ap,
  Option-cases,
}
use qscheduler.Error.{ok}
use qscheduler.User.{User, get_user}
use qscheduler.Project.{Project, find_project}
use qscheduler.Task.{
  Task, TaskState, waiting, running, finished, failed, cancelled, is_final, project_id, session_id,
}
use qscheduler.Machine.{Machine}
use qscheduler.Callback.{NotifierMap, notifier_name}
use qscheduler.Core.{Core}
use qscheduler.Core.Infos.{
  TaskInfo, name_of, project_of, task_info, build_task_info, kind_of_state, outcome_of,
}
use qscheduler.Db.{Db, TaskRow, served, broken, millis}
use qscheduler.Db.Updates.InSync.{InSync, Mirrors, stored_state}
use qscheduler.Db.Infos.{
  machine_name, user_name, notifier_name_of, project_name_of, find_task_info, task_info_row,
  kind_of_row,
}
use qscheduler.Reactor.Infos.{get_task_info}

-- What has a name in memory has the same name in the database.
pub record SameNames {U : Type 0} (c : Core U) (notifiers : NotifierMap) (db : Db) : Type 0 where
  pub machines :
      (id : ℕ) (m : Machine U)
      → get id c.machine_map.machines ≡ some m
      → machine_name db id ≡ some m.config.name
  pub users : (id : ℕ) (u : User) → get_user c.user_map id ≡ some u → user_name db id ≡ some u.name
  pub projects :
      (id : ℕ) (p : Project)
      → find_project c.project_map id ≡ some p
      → project_name_of (some id) db.projects ≡ some p.name
  pub notifiers_named : (id : Option ℕ) → notifier_name notifiers id ≡ notifier_name_of db id

-- The names that are shown of a task are in memory.
pub record IsLoaded {U : Type 0} (c : Core U) (t : Task) : Type 0 where
  pub machine : (m : Machine U) × (get t.config.machine_id c.machine_map.machines ≡ some m)
  pub user : (u : User) × (get_user c.user_map t.config.user_id ≡ some u)
  pub project :
      (id : ℕ)
      → project_id t.config.parent ≡ some id
      → (p : Project) × (find_project c.project_map id ≡ some p)

same_kind :
    (state : TaskState)
    → is_final state ≡ true
    → kind_of_row (stored_state state) ≡ kind_of_state state
unfolding kind_of_row kind_of_state is_final
same_kind waiting ends = cc
same_kind running ends = cc
same_kind (finished c) ends = refl
same_kind (failed c error) ends = refl
same_kind (cancelled c) ends = refl

-- What is shown of a task.
abbrev info_of : Task → Option String → String → String → Option String → TaskInfo
info_of t project user machine notify = record {
  id = t.id;
  session = session_id t.config.parent;
  project = project;
  user = user;
  kind = t.config.kind;
  backend_id = t.backend_id;
  machine = machine;
  state = kind_of_state t.state;
  created_at = t.created_at;
  time_limit_ms = some (millis t.config.time_limit);
  started_at = t.started_at;
  finished_at = (outcome_of t.state).finished_at;
  exectime_ms = (outcome_of t.state).exectime_ms;
  error = (outcome_of t.state).error;
  notify = notify;
}

info-row :
    (db : Db) (id : ℕ) (t : Task) (row : TaskRow) (user machine : String)
    → t.id ≡ id
    → get id db.tasks ≡ some row
    → Mirrors t row
    → is_final t.state ≡ true
    → machine_name db t.config.machine_id ≡ some machine
    → user_name db t.config.user_id ≡ some user
    → task_info_row db id
      ≡ some (
          info_of t
            (project_name_of (project_id t.config.parent) db.projects)
            user
            machine
            (notifier_name_of db t.config.notifier))
unfolding task_info_row
info-row db id t row user machine is_id stored m ends named named_user =
    let machine' = ap (machine_name db) m.machine_id ∙ named in
    let user' = ap (user_name db) m.user_id ∙ named_user in
    let shown = ap kind_of_row m.state ∙ same_kind t.state ends in
    ground (
      arith, is_id, stored, machine', user', shown, m.parent, m.kind, m.time_limit, m.notifier,
      m.created_at, m.backend_id, m.started_at, m.finished_at, m.exec_time_ms, m.error,
    )

module _ {U : Type 0} where
  same_project :
      (c : Core U) (notifiers : NotifierMap) (db : Db) (t : Task)
      → SameNames c notifiers db
      → IsLoaded c t
      → name_of (project_of c.project_map (project_id t.config.parent))
        ≡ project_name_of (project_id t.config.parent) db.projects
  unfolding project_name_of
  same_project c notifiers db t names loaded = elim (Option-cases (project_id t.config.parent)) [
    | inl none_set ↦ rw (none_set, project_name_of) refl
    | inr (id, has) ↦
        let (p, known) = loaded.project id has in rw (has, known, names.projects id p known) refl
  ]

  -- A task that has ended is shown in the same way after it has left memory, from the database, as
  -- before it did, without the database: if the row mirrors the task, the database has the names
  -- that are in memory, and those of the task were in memory.
  pub get_task_info-evicted :
      (c c' : Core U) (notifiers notifiers' : NotifierMap) (db : Db) (id : ℕ) (t : Task)
      → InSync c.task_map db
      → SameNames c notifiers db
      → IsLoaded c t
      → get id c.task_map ≡ some t
      → is_final t.state ≡ true
      → get id c'.task_map ≡ none
      → (info : TaskInfo) × (get_task_info broken c notifiers db id ≡ some (ok (some info)))
        × (get_task_info served c' notifiers' db id ≡ some (ok (some info)))
  unfolding get_task_info task_info find_task_info build_task_info
  get_task_info-evicted c c' notifiers notifiers' db id t sync names loaded there ends gone =
      let (is_id, row, stored, mirrored) = sync id t there in
      let (m, known) = loaded.machine in
      let (u, user) = loaded.user in
      let from_row =
        info-row db id t row u.name m.config.name is_id stored mirrored ends
          (names.machines t.config.machine_id m known) (names.users t.config.user_id u user) in
      let project = same_project c notifiers db t names loaded in
      (
        info_of t (project_name_of (project_id t.config.parent) db.projects) u.name m.config.name
            (notifier_name_of db t.config.notifier),
        rw
            (
              there,
              known,
              user,
              project,
              names.notifiers_named t.config.notifier,
              get_task_info,
              task_info,
              build_task_info,
            )
            refl,
        rw (gone, from_row, get_task_info, task_info, find_task_info) refl,
      )
