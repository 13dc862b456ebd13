-- ===== src/Reactor/Machines/Removal.antt =====
-- runner/src/reactor.rs: removing a machine, with what others do at each wait as an argument.
use qscheduler.Base.{
  ℕ, String, Bool, true, false, not, Option, none, some, List, [], ◌∷◌, ◌&&◌, ◌||◌, get, ltb,
  nat_eq, nat_key, string_key, if◌then◌else◌, ◌>>=◌,
}
use qscheduler.Error.{RunnerError, Result, ok, err, machine_has_dependents}
use qscheduler.Task.{TaskMap, is_final}
use qscheduler.Machine.{Machine, F64}
use qscheduler.Config.{BackendConfig, to_configuration}
use qscheduler.Core.{Core}
use qscheduler.Core.Purge.{purge_machine}
use qscheduler.Core.Restore.{Loaded}
use qscheduler.Db.{Db, Access}
use qscheduler.Db.Machines.{count_machine_dependents, RemoveMachineOutcome}
use qscheduler.Db.Machines as Statements
use qscheduler.Reactor.Machines.{
  Others, Service, stop_launcher, set_machine_unavailable, set_machine_available, with_core,
  restart_machine,
}

-- The jobs of the machine that its backend is asked to cancel.
unfoldable pub jobs_of : ℕ → TaskMap → List (ℕ × String)
jobs_of machine_id [] = []
jobs_of machine_id ((_, t) ∷ tasks) =
    let rest = jobs_of machine_id tasks in
    elim t.backend_id [
      | none ↦ rest
      | some backend_id ↦
          if nat_eq t.config.machine_id machine_id && not (is_final t.state)
          then (t.id, backend_id) ∷ rest
          else rest
    ]

abbrev pub jobs_if : Bool → ℕ → TaskMap → List (ℕ × String)
jobs_if false machine_id tasks = []
jobs_if true machine_id tasks = jobs_of machine_id tasks

-- What a removal has done: `jobs` are those that the backend was asked to cancel.
pub record Removal (U : Type 0) : Type 0 where
  pub service : Service U
  pub db : Db
  pub jobs : List (ℕ × String)
  pub answer : Result (ℕ × ℕ)

module _ {U : Type 0} ⦃f : F64 U⦄ where
  -- A removal that has been refused: the machine takes work again.
  abbrev pub kept : Others U → Service U → ℕ → Db → RunnerError → Removal U
  kept others s machine_id db e = record {
    service = set_machine_available (others.at_statement s) machine_id;
    db = db;
    jobs = [];
    answer = err e;
  }

  abbrev pub purged :
      Service U
      → Db
      → List (ℕ × String)
      → ℕ × ℕ
      → Option (Core U × Option (Machine U))
      → Option (Removal U)
  purged s db jobs counts none = none
  purged s db jobs counts (some (c, machine)) =
      some (record { service = with_core s c; db = db; jobs = jobs; answer = ok counts })

  -- A machine whose rows could not be deleted is started again.
  abbrev pub restarted :
      Db
      → List (ℕ × String)
      → RunnerError
      → Option (Service U × Result (Unit {0}))
      → Option (Removal U)
  restarted db jobs e none = none
  restarted db jobs e (some (s, err e')) =
      some (record { service = s; db = db; jobs = jobs; answer = err e' })
  restarted db jobs e (some (s, ok _)) =
      some (record { service = s; db = db; jobs = jobs; answer = err e })

  -- What follows once the launcher has stopped.
  unfoldable pub remove_stopped :
      Access
      → ℕ
      → ℕ
      → Others U
      → Result Loaded
      → BackendConfig
      → Service U
      → ℕ
      → Db
      → String
      → List (ℕ × String)
      → ℕ × ℕ
      → Option (Removal U)
  remove_stopped access now utc others loaded backend s machine_id db name jobs counts =
      elim (Statements.remove_machine access db name true) [
        | ok (db', _) ↦ purged s db' jobs counts (purge_machine now s.core machine_id)
        | err e ↦ do
          machine ← get machine_id s.core.machine_map.machines
          restarted db jobs e (
              restart_machine now utc others.loading others.writing loaded s machine_id
                (to_configuration backend machine.config))
      ]

  -- `flush` is what the launcher writes before it has stopped.
  unfoldable pub remove_marked :
      (counting deleting : Access)
      → ℕ
      → ℕ
      → Others U
      → (Db → Db)
      → Result Loaded
      → BackendConfig
      → Service U
      → ℕ
      → Db
      → String
      → Bool
      → Option (Removal U)
  remove_marked counting deleting now utc others flush loaded backend s machine_id db name force =
      elim (count_machine_dependents counting db machine_id) [
        | err e ↦ some (kept others s machine_id db e)
        | ok (tasks, sessions) ↦
            if (ltb 0 tasks || ltb 0 sessions) && not force
            then some (kept others s machine_id db (machine_has_dependents name tasks sessions))
            else (let counted = others.at_statement s in
                let stopped = others.at_stop (stop_launcher counted machine_id) in
                remove_stopped deleting now utc others loaded backend stopped machine_id (flush db)
                  name (jobs_if force machine_id counted.core.task_map) (tasks, sessions))
      ]

  unfoldable pub remove_machine :
      (counting deleting : Access)
      → ℕ
      → ℕ
      → Others U
      → (Db → Db)
      → Result Loaded
      → BackendConfig
      → Service U
      → Db
      → String
      → Bool
      → Option (Removal U)
  remove_machine counting deleting now utc others flush loaded backend s db name force =
      elim (set_machine_unavailable s name) [
        | none ↦ none
        | some (err e) ↦ some (record { service = s; db = db; jobs = []; answer = err e })
        | some (ok (s', machine_id)) ↦
            remove_marked counting deleting now utc others flush loaded backend s' machine_id db
              name force
      ]
