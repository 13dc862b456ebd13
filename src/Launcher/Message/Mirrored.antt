-- ===== src/Launcher/Message/Mirrored.antt =====
-- A task that has changed by a message of the backend, and its row (runner/src/launcher.rs,
-- runner/src/db.rs).
use qscheduler.Base.{
  ℕ, ◌≡◌, refl, sym, ◌∙◌, false, none, some, nat_key, arith, String, whole_micros,
}
use qscheduler.Task.{Task, running, is_final, set_backend_id, set_started_at}
use qscheduler.Core.Infos.{outcome_of}
use qscheduler.Core.Rows.{or_else}
use qscheduler.Db.{TaskRow}
use qscheduler.Db.Updates.InSync.{Mirrors, SameTask}

pub submitted-Mirrors :
    (t : Task) (backend_id : String) (row : TaskRow)
    → Mirrors t row
    → Mirrors (set_backend_id t backend_id) (record row { backend_id = some backend_id })
unfolding set_backend_id
submitted-Mirrors t backend_id row m = record {
  machine_id = m.machine_id;
  parent = m.parent;
  user_id = m.user_id;
  kind = m.kind;
  time_limit = m.time_limit;
  notifier = m.notifier;
  created_at = m.created_at;
  backend_id = refl;
  started_at = m.started_at;
  state = m.state;
  finished_at = m.finished_at;
  exec_time_ms = m.exec_time_ms;
  error = m.error;
}

pub started-Mirrors :
    (t : Task) (reported : ℕ) (row : TaskRow)
    → t.started_at ≡ none
    → Mirrors t row
    → Mirrors (set_started_at t (whole_micros reported)) (record row {
      started_at = some (or_else row.started_at (whole_micros (whole_micros reported)));
    })
unfolding set_started_at
started-Mirrors t reported row unset m = record {
  machine_id = m.machine_id;
  parent = m.parent;
  user_id = m.user_id;
  kind = m.kind;
  time_limit = m.time_limit;
  notifier = m.notifier;
  created_at = m.created_at;
  backend_id = m.backend_id;
  started_at = ground (arith, m.started_at, unset);
  state = m.state;
  finished_at = m.finished_at;
  exec_time_ms = m.exec_time_ms;
  error = m.error;
}

pub running-Mirrors :
    (t t' : Task) (row : TaskRow)
    → SameTask t t'
    → t'.state ≡ running
    → is_final t.state ≡ false
    → Mirrors t row
    → Mirrors t' row
unfolding is_final outcome_of
running-Mirrors t t' row same became going m = record {
  machine_id = m.machine_id ∙ sym same.machine_id;
  parent = m.parent ∙ sym same.parent;
  user_id = m.user_id ∙ sym same.user_id;
  kind = m.kind ∙ sym same.kind;
  time_limit = m.time_limit ∙ sym same.time_limit;
  notifier = m.notifier ∙ sym same.notifier;
  created_at = m.created_at ∙ sym same.created_at;
  backend_id = m.backend_id ∙ sym same.backend_id;
  started_at = m.started_at ∙ sym same.started_at;
  state = ground (arith, m.state, became, going);
  finished_at = ground (arith, m.finished_at, became, going);
  exec_time_ms = ground (arith, m.exec_time_ms, became, going);
  error = ground (arith, m.error, became, going);
}
