-- ===== src/Reactor/Machines/Restarted.antt =====
-- What a restart of a machine leaves (runner/src/reactor.rs).
use qscheduler.Base.{
  ℕ, ◌⊎◌, ◌↔◌, ◌+◌, ◌<◌, ◌≡◌, refl, Bool, true, false, Option, none, some, get, get-insert_self,
  length, nat_key, List, [], ◌∷◌, Map, ap,
}
use qscheduler.Error.{ok}
use qscheduler.User.{u32_mod, u64_mod}
use qscheduler.User.Counts.{items_of, bytes_of}
use qscheduler.Machine.{Machine, F64, new, set_unavailable, inherit_cancel_requests}
use qscheduler.Machine.{UserQueue}
use qscheduler.Machine.Queue.{set_entry}
use qscheduler.Machine.FairShare.{inherit_all, inherit_usage}
use qscheduler.Machine.Registry.{MachineMap, insert_machine, set_machine}
use qscheduler.Config.{MachineConfiguration, machine_config}
use qscheduler.Core.{Core}
use qscheduler.Core.Counters.{IsValid}
use qscheduler.Core.Purge.Counted.{purge_machine-IsValid}
use qscheduler.Core.Rows.{ResumeTask}
use qscheduler.Core.Restore.{Restored, Loaded, restore, wanted_sessions, wanted_tasks}
use qscheduler.Core.Restore.Counted.{AreNewSessions, AreNewTasks, all_bytes, are_all_kept}
use qscheduler.Reactor.Machines.{
  Service, with_core, with_machines, create_machine, inheriting, rebuild,
}

-- The value is in the list.
unfoldable pub IsIn : {A : Type 0} → A → List A → Type 0
IsIn a [] = ⊥
IsIn a (b ∷ list) = (a ≡ b) ⊎ IsIn a list

module _ {U : Type 0} where
  -- The machine is there, and takes work or not.
  abbrev pub Stands : Service U → ℕ → Bool → Type 0
  Stands s machine_id unavailable =
      (m : Machine U) × (get machine_id s.core.machine_map.machines ≡ some m)
      × (m.unavailable ≡ unavailable)

  -- Others keep the core valid and the machine; only these requests change its availability.
  pub record Minds (machine_id : ℕ) (others : Service U → Service U) : Type 0 where
    pub valid : (s : Service U) → IsValid s.core → IsValid (others s).core
    pub stands :
        (s : Service U) (unavailable : Bool)
        → Stands s machine_id unavailable
        → Stands (others s) machine_id unavailable

  -- The rows can be read and are of work that is not in memory, and no counter overflows by them.
  pub record IsRestorable (c : Core U) (only : Option ℕ) (loaded : Loaded) : Type 0 where
    pub sessions : AreNewSessions c.session_map (wanted_sessions only loaded.sessions)
    pub tasks : AreNewTasks c.task_map (wanted_tasks only loaded.tasks)
    pub room :
        (u : ℕ)
        → items_of c.user_map u
            + (length (wanted_sessions only loaded.sessions)
                + length (wanted_tasks only loaded.tasks))
          < u32_mod
    pub bytes_room :
        (u : ℕ) → bytes_of c.user_map u + all_bytes (wanted_tasks only loaded.tasks) < u64_mod

  pub IsValid-machines :
      (c : Core U) (machines : MachineMap U) → IsValid c → IsValid (with_machines c machines)
  IsValid-machines c machines valid = record {
    counted = valid.counted;
    settled = valid.settled;
    tasks_unique = valid.tasks_unique;
    sessions_unique = valid.sessions_unique;
    users_unique = valid.users_unique;
  }

module _ {U : Type 0} ⦃f : F64 U⦄ where
  inherit_all-same :
      (queues : Map ℕ (UserQueue U)) (m : Machine U)
      → inherit_all m queues ≡ record m { queues = (inherit_all m queues).queues }
  unfolding inherit_all set_entry
  inherit_all-same [] m = refl
  inherit_all-same ((user_id, qu) ∷ queues) m = inherit_all-same queues _

  inheriting-unavailable :
      (now : ℕ) (m : Machine U) (old : Option (Machine U))
      → (inheriting now m old).unavailable ≡ true
  unfolding inherit_usage inherit_cancel_requests set_unavailable
  inheriting-unavailable now m none = refl
  inheriting-unavailable now m (some old) =
      ap (λ (x : Machine U). x.unavailable) (inherit_all-same _ _)

  inheriting-config :
      (now : ℕ) (m : Machine U) (old : Option (Machine U))
      → (inheriting now m old).config ≡ m.config
  unfolding inherit_usage inherit_cancel_requests set_unavailable
  inheriting-config now m none = refl
  inheriting-config now m (some old) = ap (λ (x : Machine U). x.config) (inherit_all-same _ _)

  pub rebuild-Stands :
      (now : ℕ) (s : Service U) (machine_id : ℕ) (config : MachineConfiguration)
      → IsValid s.core
      → (s' : Service U) × (rebuild now s machine_id config ≡ some s')
        × IsValid s'.core
        × ((m : Machine U) × (get machine_id s'.core.machine_map.machines ≡ some m)
            × (m.config ≡ machine_config config))
        × Stands s' machine_id true
  unfolding rebuild create_machine insert_machine set_machine new
  rebuild-Stands now s machine_id config valid =
      let (c, old, done, valid', tasks, sessions) =
        purge_machine-IsValid now s.core machine_id valid in
      let created = create_machine now c machine_id config in
      let fresh : Machine U = new now machine_id (machine_config config) in
      let there = get-insert_self machine_id fresh c.machine_map.machines in
      let m = inheriting now fresh old in
      let machines = set_machine created.machine_map machine_id m in
      let standing : Stands (with_core s (with_machines created machines)) machine_id true = (
        m,
        get-insert_self machine_id m created.machine_map.machines,
        inheriting-unavailable now fresh old,
      ) in
      (
        with_core s (with_machines created machines),
        rw (rebuild, done, there) refl,
        IsValid-machines c machines valid',
        (
          m,
          get-insert_self machine_id m created.machine_map.machines,
          inheriting-config now fresh old,
        ),
        standing,
      )

  -- `s'` is `s` after a restart of the machine: it was rebuilt from the configuration, the rows were
  -- `restored` into the core that others had left while they were loaded, and the work in memory is
  -- what others have left of that core since; the launcher attaches the tasks that the restoration
  -- asks for.
  pub record IsRestarted (now utc : ℕ) (loading writing : Service U → Service U) (s : Service U)
      (machine_id : ℕ) (config : MachineConfiguration) (loaded : Loaded) (s' : Service U)
      : Type 0 where
    pub rebuilt : Service U
    pub builds : rebuild now s machine_id config ≡ some rebuilt
    pub configured :
        (m : Machine U) × (get machine_id rebuilt.core.machine_map.machines ≡ some m)
        × (m.config ≡ machine_config config)
    pub restored : Restored U
    pub restores :
        restore now utc (some machine_id) (loading rebuilt).core (ok loaded) ≡ some (ok restored)
    pub kept :
        are_all_kept restored.core.task_map (wanted_tasks (some machine_id) loaded.tasks) ≡ true
    pub tasks :
        s'.core.task_map ≡ (writing (with_core (loading rebuilt) restored.core)).core.task_map
    pub sessions :
        s'.core.session_map ≡ (writing (with_core (loading rebuilt) restored.core)).core.session_map
    pub users :
        s'.core.user_map ≡ (writing (with_core (loading rebuilt) restored.core)).core.user_map
    pub valid : IsValid s'.core
    pub stands : Stands s' machine_id false
    pub launched :
        (tasks : List ResumeTask) × (get machine_id s'.launchers ≡ some tasks)
        × ((task : ResumeTask) → IsIn (machine_id, task) restored.resume_tasks ↔ IsIn task tasks)
