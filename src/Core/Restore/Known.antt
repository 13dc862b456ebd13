-- ===== src/Core/Restore/Known.antt =====
-- A restoration (runner/src/core.rs) forgets no machine.
use qscheduler.Base.{
  ℕ, ◌≡◌, refl, ◌∙◌, inl, inr, Option, some, List, [], ◌∷◌, get, get-insert, nat_eq, nat_key,
  Bool-cases, Option-cases, arith, subst, sym, String, >>=-eq-some,
}
use qscheduler.Error.{Result, ok, Result-cases}
use qscheduler.Session.{Session}
use qscheduler.Task.{Task, TaskConfig, session_id}
use qscheduler.Task as Tasks
use qscheduler.User.{insert_user}
use qscheduler.Machine.{Machine, F64, wake_launcher, set_suspension}
use qscheduler.Machine.Queue.{queue_session, queue_task}
use qscheduler.Machine.FairShare.{record_closed_session, record_new_task_in_backend}
use qscheduler.Machine.Registry.{MachineMap, find_machine, set_machine}
use qscheduler.Suspension.{Suspension}
use qscheduler.Core.Rows.{
  RestoredSession, RestoredTask, session_config, task_config, is_none, session_of_row,
}
use qscheduler.Core.Submit.{keep_active_session}
use qscheduler.Core.{Core}
use qscheduler.Core.Restore.{
  Restored, Loaded, change_known, queued, requeue, restore_opened, restore_waiting, restore_session,
  restore_submitted, restore_queued, restore_task, restore_sessions, restore_tasks,
  restore_suspensions, wake_all, restore_rows, limit_of_row, wanted, starting, restore,
  wanted_tasks, wanted_sessions,
}

module _ {U : Type 0} where
  -- Every machine of the first map is in the second.
  abbrev pub Known : MachineMap U → MachineMap U → Type 0
  Known a b =
      (id : ℕ) (m : Machine U)
      → get id a.machines ≡ some m
      → (m' : Machine U) × (get id b.machines ≡ some m')

  Known-trans : (a b c : MachineMap U) → Known a b → Known b c → Known a c
  Known-trans a b c first second id m found =
      let (m', found') = first id m found in second id m' found'

  pub set_machine-Known :
      (a : MachineMap U) (machine_id : ℕ) (machine : Machine U)
      → Known a (set_machine a machine_id machine)
  unfolding set_machine
  set_machine-Known a machine_id machine id m found = elim (Bool-cases (nat_eq machine_id id)) [
    | inl hit ↦ (machine, ground (arith, hit, get-insert machine_id id machine a.machines))
    | inr miss ↦ (m, ground (arith, miss, found, get-insert machine_id id machine a.machines))
  ]

  change_known-Known :
      (a : MachineMap U) (machine_id : ℕ) (change : Machine U → Machine U)
      → Known a (change_known a machine_id change)
  change_known-Known a machine_id change = elim (Result-cases (find_machine a machine_id)) [
    | inl (e, unknown) ↦ rw (unknown, change_known) (λ id m found. (m, found))
    | inr (machine, known) ↦
        rw (known, change_known) (set_machine-Known a machine_id (change machine))
  ]

  requeue-Known :
      (queue : Machine U → Result (Machine U)) (a : MachineMap U) (woken : List ℕ) (machine_id : ℕ)
      → Known a (requeue queue a woken machine_id).0
  requeue-Known queue a woken machine_id = elim (Result-cases (find_machine a machine_id)) [
    | inl (e, unknown) ↦ rw (unknown, requeue) (λ id m found. (m, found))
    | inr (machine, known) ↦ elim (Result-cases (queue machine)) [
      | inl (e, full) ↦ rw (known, requeue, full, queued) (λ id m found. (m, found))
      | inr (machine', fits) ↦
          rw (known, requeue, fits, queued) (set_machine-Known a machine_id machine')
    ]
  ]

  wake_all-Known : (a : MachineMap U) (woken : List ℕ) → Known a (wake_all a woken)
  unfolding wake_all
  wake_all-Known a [] id m found = (m, found)
  wake_all-Known a (machine_id ∷ woken) id m found =
      let next = change_known a machine_id wake_launcher in
      Known-trans a next (wake_all next woken) (change_known-Known a machine_id wake_launcher)
        (wake_all-Known next woken) id m found

  restore_suspensions-Known :
      (only : Option ℕ) (a : MachineMap U) (suspensions : List (ℕ × Suspension))
      → Known a (restore_suspensions only a suspensions)
  unfolding restore_suspensions
  restore_suspensions-Known only a [] id m found = (m, found)
  restore_suspensions-Known only a ((machine_id, s) ∷ suspensions) id m found =
      let set = change_known a machine_id (λ (x : Machine U). set_suspension x (some s)) in
      elim (Bool-cases (wanted only machine_id)) [
        | inl hit ↦
            rw (hit, restore_suspensions)
              (Known-trans a set (restore_suspensions only set suspensions)
                (change_known-Known a machine_id (λ (x : Machine U). set_suspension x (some s)))
                (restore_suspensions-Known only set suspensions) id m found)
        | inr miss ↦
            rw (miss, restore_suspensions) (restore_suspensions-Known only a suspensions id m found)
      ]

  abbrev pub KnownIn : Restored U → Restored U → Type 0
  KnownIn r r' = Known r.core.machine_map r'.core.machine_map

  -- What an equation says of the result, said of another name of it.
  by_result :
      (r r' next : Restored U) {call : Option (Restored U)}
      → call ≡ some r'
      → call ≡ some next
      → KnownIn r next
      → KnownIn r r'
  by_result r r' next done is known =
      let same : next ≡ r' = ground (arith, done, is) in subst (KnownIn r) same known

module _ {U : Type 0} ⦃f : F64 U⦄ where
  restore_opened-Known :
      (now utc : ℕ) (r : Restored U) (row : RestoredSession) (s : Session) (opened_at : ℕ)
      → KnownIn r (restore_opened now utc r row s opened_at)
  unfolding restore_opened
  restore_opened-Known now utc r row s opened_at = elim (Bool-cases (is_none row.closed_at)) [
    | inl open_still ↦
        rw (restore_opened, open_still)
          (change_known-Known r.core.machine_map s.config.machine_id
            (λ (m : Machine U). record_closed_session m s.config.owner_id s.consumed))
    | inr was_closed ↦ rw (restore_opened, was_closed) (λ id m found. (m, found))
  ]

  restore_waiting-Known :
      (now : ℕ) (r r' : Restored U) (row : RestoredSession) (s : Session)
      → restore_waiting now r row s ≡ some r'
      → KnownIn r r'
  unfolding restore_waiting
  restore_waiting-Known now r r' row s done =
      elim (Option-cases (
        keep_active_session r.core.session_map
          (insert_user now r.core.user_map s.config.owner_id row.owner) s)) [
            | inl panics ↦ absurd (ground (arith, done, panics))
            | inr ((sessions, users), kept) ↦
                let again =
                  requeue-Known (λ (m : Machine U). queue_session m s) r.core.machine_map r.woken
                    s.config.machine_id in
                let same : (requeue (λ (m : Machine U). queue_session m s) r.core.machine_map
                      r.woken s.config.machine_id).0
                    ≡ r'.core.machine_map =
                  ground (arith, done, kept) in
                subst (Known r.core.machine_map) same again
          ]

  restore_session-Known :
      (now utc : ℕ) (r r' : Restored U) (row : RestoredSession)
      → restore_session now utc r row ≡ some r'
      → KnownIn r r'
  unfolding restore_session restore_waiting restore_opened
  restore_session-Known now utc r r' row done = elim (Bool-cases (nat_eq row.id 0)) [
    | inl unset ↦
        by_result r r' r done (rw (restore_session, unset) refl) (λ id m found. (m, found))
    | inr set ↦ elim (Option-cases (session_config row)) [
      | inl unreadable ↦ absurd (ground (arith, done, set, unreadable))
      | inr (config, read) ↦ elim (Option-cases row.opened_at) [
        | inr (opened_at, opened) ↦
            by_result r r' (restore_opened now utc r row (session_of_row row config) opened_at) done
              (rw (restore_session, set, read, opened) refl)
              (restore_opened-Known now utc r row (session_of_row row config) opened_at)
        | inl waits ↦
            let same : restore_session now utc r row
                ≡ restore_waiting now r row (session_of_row row config) =
              rw (restore_session, set, read, waits) refl in
            restore_waiting-Known now r r' row (session_of_row row config) (sym same ∙ done)
      ]
    ]
  ]

  restore_submitted-Known :
      (now : ℕ) (r r' : Restored U) (row : RestoredTask) (config : TaskConfig) (backend_id : String)
      → restore_submitted now r row config backend_id ≡ some r'
      → KnownIn r r'
  unfolding restore_submitted
  restore_submitted-Known now r r' row config backend_id done =
      let again =
        change_known-Known r.core.machine_map config.machine_id
          (λ (m : Machine U). record_new_task_in_backend m config) in
      let same : change_known r.core.machine_map config.machine_id
            (λ (m : Machine U). record_new_task_in_backend m config)
          ≡ r'.core.machine_map =
        ground (arith, done) in
      subst (Known r.core.machine_map) same again

  restore_queued-Known :
      (now : ℕ) (r r' : Restored U) (row : RestoredTask) (config : TaskConfig)
      → restore_queued now r row config ≡ some r'
      → KnownIn r r'
  unfolding restore_queued
  restore_queued-Known now r r' row config done = elim (Option-cases (session_id config.parent)) [
    | inr (s_id, in_session) ↦
        let same : r.core.machine_map ≡ r'.core.machine_map = ground (arith, done, in_session) in
        subst (Known r.core.machine_map) same (λ id m found. (m, found))
    | inl alone ↦
        let task = Tasks.new row.id row.created_at config in
        let again =
          requeue-Known (λ (m : Machine U). queue_task m task) r.core.machine_map r.woken
            config.machine_id in
        let same : (requeue (λ (m : Machine U). queue_task m task) r.core.machine_map r.woken
              config.machine_id).0
            ≡ r'.core.machine_map =
          ground (arith, done, alone) in
        subst (Known r.core.machine_map) same again
  ]

  restore_task-Known :
      (now : ℕ) (r r' : Restored U) (row : RestoredTask)
      → restore_task now r row ≡ some r'
      → KnownIn r r'
  unfolding restore_task restore_queued restore_submitted
  restore_task-Known now r r' row done = elim (Bool-cases (nat_eq row.id 0)) [
    | inl unset ↦ by_result r r' r done (rw (restore_task, unset) refl) (λ id m found. (m, found))
    | inr set ↦ elim (Option-cases (task_config (limit_of_row r.core.machine_map row) row)) [
      | inl unreadable ↦ absurd (ground (arith, done, set, unreadable))
      | inr (config, read) ↦ elim (Option-cases row.backend_id) [
        | inr (backend_id, sent) ↦
            let same : restore_task now r row ≡ restore_submitted now r row config backend_id =
              rw (restore_task, set, read, sent) refl in
            restore_submitted-Known now r r' row config backend_id (sym same ∙ done)
        | inl unsent ↦
            let same : restore_task now r row ≡ restore_queued now r row config =
              rw (restore_task, set, read, unsent) refl in
            restore_queued-Known now r r' row config (sym same ∙ done)
      ]
    ]
  ]

  restore_sessions-Known :
      (now utc : ℕ) (r r' : Restored U) (rows : List RestoredSession)
      → restore_sessions now utc r rows ≡ some r'
      → KnownIn r r'
  unfolding restore_sessions
  restore_sessions-Known now utc r r' [] done =
      by_result r r' r done refl (λ id m found. (m, found))
  restore_sessions-Known now utc r r' (row ∷ rows) done =
      let (r1, first, rest) = >>=-eq-some (restore_session now utc r row) _ done in
      Known-trans r.core.machine_map r1.core.machine_map r'.core.machine_map
        (restore_session-Known now utc r r1 row first)
        (restore_sessions-Known now utc r1 r' rows rest)

  restore_tasks-Known :
      (now : ℕ) (r r' : Restored U) (rows : List RestoredTask)
      → restore_tasks now r rows ≡ some r'
      → KnownIn r r'
  unfolding restore_tasks
  restore_tasks-Known now r r' [] done = by_result r r' r done refl (λ id m found. (m, found))
  restore_tasks-Known now r r' (row ∷ rows) done =
      let (r1, first, rest) = >>=-eq-some (restore_task now r row) _ done in
      Known-trans r.core.machine_map r1.core.machine_map r'.core.machine_map
        (restore_task-Known now r r1 row first) (restore_tasks-Known now r1 r' rows rest)

  -- Every machine is still there after a restoration.
  pub restore-Known :
      (now utc : ℕ) (only : Option ℕ) (c : Core U) (loaded : Loaded) (r : Restored U)
      → restore now utc only c (ok loaded) ≡ some (ok r)
      → Known c.machine_map r.core.machine_map
  unfolding restore restore_rows
  restore-Known now utc only c loaded r done =
      elim (Option-cases (
        restore_sessions now utc (starting only c loaded) (wanted_sessions only loaded.sessions))) [
          | inl panics ↦ absurd (ground (arith, done, panics))
          | inr (r1, sessions) ↦
              elim (Option-cases (restore_tasks now r1 (wanted_tasks only loaded.tasks))) [
                | inl panics ↦ absurd (ground (arith, done, sessions, panics))
                | inr (r2, tasks) ↦
                    let same : wake_all r2.core.machine_map r2.woken ≡ r.core.machine_map =
                      ground (arith, done, sessions, tasks) in
                    let first = (starting only c loaded).core.machine_map in
                    subst (Known c.machine_map) same (
                      Known-trans c.machine_map first (wake_all r2.core.machine_map r2.woken)
                        (restore_suspensions-Known only c.machine_map loaded.suspensions)
                        (Known-trans first r1.core.machine_map
                          (wake_all r2.core.machine_map r2.woken)
                          (restore_sessions-Known now utc (starting only c loaded) r1
                            (wanted_sessions only loaded.sessions) sessions)
                          (Known-trans r1.core.machine_map r2.core.machine_map
                            (wake_all r2.core.machine_map r2.woken)
                            (restore_tasks-Known now r1 r2 (wanted_tasks only loaded.tasks) tasks)
                            (wake_all-Known r2.core.machine_map r2.woken))))
              ]
        ]
