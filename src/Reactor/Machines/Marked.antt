-- ===== src/Reactor/Machines/Marked.antt =====
-- A machine that is marked as unavailable, and one that takes work again (runner/src/reactor.rs).
use qscheduler.Base.{
  ℕ, ◌≡◌, refl, inl, inr, Bool, true, false, some, get, get-insert_self, nat_key, string_key,
  String,
}
use qscheduler.Error.{ok, Result-cases}
use qscheduler.Machine.{Machine, set_unavailable}
use qscheduler.Machine.Registry.{find_machine, find_machine_by_name, set_machine}
use qscheduler.Core.Counters.{IsValid}
use qscheduler.Reactor.Machines.{
  Others, stop_launcher, Service, set_machine_unavailable, set_machine_available, with_core,
  with_machines,
}
use qscheduler.Reactor.Machines.Restarted.{Stands, IsValid-machines}

module _ {U : Type 0} where
  pub available-Stands :
      (s : Service U) (machine_id : ℕ) (unavailable : Bool)
      → Stands s machine_id unavailable
      → Stands (set_machine_available s machine_id) machine_id false
  unfolding set_machine_available find_machine set_machine set_unavailable
  available-Stands s machine_id unavailable (m, there, flag) =
      let same : get machine_id (set_machine_available s machine_id).core.machine_map.machines
          ≡ some (set_unavailable m false) =
        rw (set_machine_available, find_machine, there)
          (get-insert_self machine_id (set_unavailable m false) s.core.machine_map.machines) in
      (set_unavailable m false, same, refl)

  pub IsValid-available :
      (s : Service U) (machine_id : ℕ)
      → IsValid s.core
      → IsValid (set_machine_available s machine_id).core
  unfolding set_machine_available
  IsValid-available s machine_id valid =
      elim (Result-cases (find_machine s.core.machine_map machine_id)) [
        | inl (e, unknown) ↦ rw (set_machine_available, unknown) valid
        | inr (machine, known) ↦
            rw (set_machine_available, known)
              (IsValid-machines s.core
                (set_machine s.core.machine_map machine_id (set_unavailable machine false)) valid)
      ]

  pub marked-Stands :
      (s : Service U) (machine_id : ℕ) (name : String) (m : Machine U)
      → find_machine_by_name s.core.machine_map name ≡ ok machine_id
      → get machine_id s.core.machine_map.machines ≡ some m
      → IsValid s.core
      → (s' : Service U) × (set_machine_unavailable s name ≡ some (ok (s', machine_id)))
        × IsValid s'.core
        × (get machine_id s'.core.machine_map.machines ≡ some (set_unavailable m true))
        × Stands s' machine_id true
  unfolding set_machine_unavailable set_machine set_unavailable
  marked-Stands s machine_id name m named there valid =
      let m' = set_unavailable m true in
      let machines = set_machine s.core.machine_map machine_id m' in
      let standing : Stands (with_core s (with_machines s.core machines)) machine_id true =
        (m', get-insert_self machine_id m' s.core.machine_map.machines, refl) in
      (
        with_core s (with_machines s.core machines),
        rw (set_machine_unavailable, named, there) refl,
        IsValid-machines s.core machines valid,
        get-insert_self machine_id m' s.core.machine_map.machines,
        standing,
      )

  -- The service when the launcher has stopped, after it was `marked` as unavailable.
  abbrev pub at_rest : Others U → Service U → ℕ → Service U
  at_rest others marked machine_id =
      others.at_stop (stop_launcher (others.at_statement marked) machine_id)
