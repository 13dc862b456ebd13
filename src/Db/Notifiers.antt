-- ===== src/Db/Notifiers.antt =====
-- runner/src/db.rs: the statements on notifiers.
use qscheduler.Base.{
  ℕ, ◌+◌, String, Bool, true, false, Option, none, some, List, [], ◌∷◌, Map, get, insert, remove,
  map_values, nat_eq, nat_key, string_key, if◌then◌else◌,
}
use qscheduler.Error.{Result, ok, err, ◌>>◌, sqlx, notifier_already_exists}
use qscheduler.Callback.{NotifierConfiguration, validate_notifier_name}
use qscheduler.Db.{Db, Access, served, broken, TaskRow, SessionRow, NotifierRow}

abbrev pub notifier_row : ℕ → NotifierConfiguration → NotifierRow
notifier_row id config = record { id = id; url = config.url; token = config.token }

-- The names are unique, and the check of the column `id` refuses 0.
unfoldable pub insert_row : Access → Db → NotifierConfiguration → Result (Db × ℕ)
insert_row broken db config = err sqlx
insert_row served db config = elim (get config.name db.notifiers) [
  | some _ ↦ err (notifier_already_exists config.name)
  | none ↦
      if nat_eq db.next_notifier_id 0
      then err sqlx
      else ok (
        record db {
          notifiers = insert config.name (notifier_row db.next_notifier_id config) db.notifiers;
          next_notifier_id = db.next_notifier_id + 1;
        },
        db.next_notifier_id,
      )
]

unfoldable pub insert_notifier : Access → Db → NotifierConfiguration → Result (Db × ℕ)
insert_notifier access db config = validate_notifier_name config.name >> insert_row access db config

-- `ON DELETE SET NULL`.
abbrev pub unless_it : ℕ → Option ℕ → Option ℕ
unless_it id none = none
unless_it id (some other) = if nat_eq other id then none else some other

abbrev pub forget_in_task : ℕ → TaskRow → TaskRow
forget_in_task id row = record row {
  config = record row.config { notifier = unless_it id row.config.notifier };
}

abbrev pub forget_in_session : ℕ → SessionRow → SessionRow
forget_in_session id row = record row {
  config = record row.config { notifier = unless_it id row.config.notifier };
}

-- Whether a row was removed.
unfoldable pub remove_row : Access → Db → String → Result (Db × Bool)
remove_row broken db name = err sqlx
remove_row served db name = elim (get name db.notifiers) [
  | none ↦ ok (db, false)
  | some row ↦ ok (
    record db {
      notifiers = remove name db.notifiers;
      tasks = map_values (forget_in_task row.id) db.tasks;
      sessions = map_values (forget_in_session row.id) db.sessions;
    },
    true,
  )
]

unfoldable pub configs_of : Map String NotifierRow → List (ℕ × NotifierConfiguration)
configs_of [] = []
configs_of ((name, row) ∷ rows) =
    (row.id, record { name = name; url = row.url; token = row.token }) ∷ configs_of rows

-- In the order of the ids, which is the order of insertion.
unfoldable pub load_notifiers : Access → Db → Result (List (ℕ × NotifierConfiguration))
load_notifiers broken db = err sqlx
load_notifiers served db = ok (configs_of db.notifiers)
