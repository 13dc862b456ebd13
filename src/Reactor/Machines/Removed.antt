-- ===== src/Reactor/Machines/Removed.antt =====
-- What removing a machine leaves (runner/src/reactor.rs, runner/src/db.rs).
use qscheduler.Base.{
  if◌then◌else◌, str_eq, nat_eq, ℕ, ◌≡◌, Bool, false, not, ◌||◌, none, some, [], get, keep_if, ltb,
  nat_key, string_key, String,
}
use qscheduler.Error.{err, machine_has_dependents}
use qscheduler.Machine.{Machine, F64}
use qscheduler.Machine.Registry.{find_machine, set_machine}
use qscheduler.Machine.Registry as Registry
use qscheduler.Core.{Core}
use qscheduler.Core.Counters.{IsValid}
use qscheduler.Core.Purge.{is_elsewhere, is_session_elsewhere}
use qscheduler.Db.{Db, active_of}
use qscheduler.Db.Machines.{is_dependent, is_of_machine}
use qscheduler.Db.Machines as Statements
use qscheduler.Reactor.Machines.{Service}
use qscheduler.Reactor.Machines.Removal.{Removal}
use qscheduler.Reactor.Machines.Restarted.{Stands}

abbrev pub has_work : ℕ × ℕ → Bool
has_work counts = ltb 0 counts.0 || ltb 0 counts.1

module _ {U : Type 0} where
  -- Others keep the machine's name; only these requests, one of which runs at a time, start and stop
  -- its launcher.
  pub record KeepsName (machine_id : ℕ) (others : Service U → Service U) : Type 0 where
    pub named :
        (s : Service U) (m : Machine U)
        → get machine_id s.core.machine_map.machines ≡ some m
        → (m' : Machine U) × (get machine_id (others s).core.machine_map.machines ≡ some m')
          × (m'.config.name ≡ m.config.name)
    pub launchers :
        (s : Service U) → get machine_id (others s).launchers ≡ get machine_id s.launchers

  -- No work, row or active suspension of the machine is left; others are as they were.
  pub record IsGone (machine_id : ℕ) (name : String) (s : Service U) (db : Db) (r : Removal U)
      : Type 0 where
    pub valid : IsValid r.service.core
    pub machines :
        (j : ℕ)
        → get j r.service.core.machine_map.machines
          ≡ (if nat_eq machine_id j then none else get j s.core.machine_map.machines)
    pub names :
        (n : String)
        → get n r.service.core.machine_map.machines_by_name
          ≡ (if str_eq name n then none else get n s.core.machine_map.machines_by_name)
    pub no_launcher : get machine_id r.service.launchers ≡ none
    pub tasks :
        (id : ℕ)
        → get id r.service.core.task_map
          ≡ keep_if (is_elsewhere machine_id) (get id s.core.task_map)
    pub sessions :
        (id : ℕ)
        → get id r.service.core.session_map
          ≡ keep_if (is_session_elsewhere machine_id) (get id s.core.session_map)
    pub task_rows :
        (id : ℕ)
        → get id r.db.tasks
          ≡ keep_if (λ row. not (is_dependent machine_id db.sessions row)) (get id db.tasks)
    pub session_rows :
        (id : ℕ)
        → get id r.db.sessions
          ≡ keep_if (λ row. not (is_of_machine machine_id row)) (get id db.sessions)
    pub rows :
        (n : String) → get n r.db.machines ≡ (if str_eq name n then none else get n db.machines)
    pub suspensions :
        (j : ℕ)
        → active_of j r.db.suspensions
          ≡ (if nat_eq machine_id j then none else active_of j db.suspensions)

module _ {U : Type 0} ⦃f : F64 U⦄ where
  -- A removal that was refused because of the machine's work: it takes work again.
  pub record IsRefused (machine_id : ℕ) (name : String) (counts : ℕ × ℕ) (db : Db) (r : Removal U)
      : Type 0 where
    pub valid : IsValid r.service.core
    pub stands : Stands r.service machine_id false
    pub answer : r.answer ≡ err (machine_has_dependents name counts.0 counts.1)
    pub same_db : r.db ≡ db
    pub no_jobs : r.jobs ≡ []
