-- ===== src/Launcher/Message/Tracked.antt =====
-- A task that a launcher tracks (runner/src/launcher.rs), and the calls that handle its end.
use qscheduler.Base.{
  ℕ, ◌<◌, ◌≤◌, ◌≡◌, refl, inl, inr, ◌&&◌, Option, none, some, List, get, insert, nat_eq, nat_key,
  IsUnique, Option-cases, Bool-cases, arith,
}
use qscheduler.User.{User, UserMap, get_user, u32_mod, u64_mod}
use qscheduler.User.Counts.{items_of, bytes_of}
use qscheduler.Project.{Project, ProjectMap, settle_in_flight, change_project}
use qscheduler.Task.{Task, TaskState, project_id, set_state}
use qscheduler.Task.Final.{item_weight, byte_weight, IsSettled}
use qscheduler.Machine.{F64, Machine}
use qscheduler.Machine.FairShare.Backend.{submitted_of, in_backend, record_finished-submitted}
use qscheduler.Launcher.{
  State, Clock, NotifyEvent, get_machine, put_machine, notify_task, set_task_state, notifier_of,
  tell,
}
use qscheduler.Launcher.Fail.{settle, leave_backend}

module _ {U : Type 0} where
  -- The task `t`, tracked by the launcher, is counted everywhere where it should be: for its user,
  -- who is loaded, and in the backend of the launcher's machine; its project is in memory.
  pub record IsTracked (st : State U) (id : ℕ) (t : Task) (m : Machine U) : Type 0 where
    pub known : get id st.core.task_map ≡ some t
    pub settled : IsSettled t
    pub items : item_weight t.config.user_id t ≤ items_of st.core.user_map t.config.user_id
    pub bytes : byte_weight t.config.user_id t ≤ bytes_of st.core.user_map t.config.user_id
    pub items_fit : items_of st.core.user_map t.config.user_id < u32_mod
    pub bytes_fit : bytes_of st.core.user_map t.config.user_id < u64_mod
    pub user : (u : User) × (get_user st.core.user_map t.config.user_id ≡ some u)
    pub machine : get_machine st ≡ some m
    pub queues_unique : IsUnique m.queues
    pub counted : in_backend t.config.user_id t.config ≤ submitted_of m t.config.user_id
    pub counts_fit : submitted_of m t.config.user_id < u32_mod
    pub project :
        (p : ℕ)
        → project_id t.config.parent ≡ some p
        → (q : Project) × (get p st.core.project_map.projects ≡ some q)

  -- What is tracked, written and asked for does not matter.
  pub IsTracked-same :
      (st st' : State U) (id : ℕ) (t : Task) (m : Machine U)
      → st'.core ≡ st.core
      → get_machine st' ≡ get_machine st
      → IsTracked st id t m
      → IsTracked st' id t m
  IsTracked-same st st' id t m core machine h = record {
    known = rw core h.known;
    settled = h.settled;
    items = rw core h.items;
    bytes = rw core h.bytes;
    items_fit = rw core h.items_fit;
    bytes_fit = rw core h.bytes_fit;
    user = rw core h.user;
    machine = rw machine h.machine;
    queues_unique = h.queues_unique;
    counted = h.counted;
    counts_fit = h.counts_fit;
    project = rw core h.project;
  }

  -- Only the events differ.
  pub notify_task-total :
      (st : State U) (t : Task) (state : TaskState) (u : User)
      → get_user st.core.user_map t.config.user_id ≡ some u
      → (events : List NotifyEvent) × (notify_task st t state
          ≡ some (record st { events = events }))
  unfolding notify_task
  notify_task-total st t state u loaded = elim (Option-cases (notifier_of st t.config.notifier)) [
    | inl e ↦ (st.events, ground arith)
    | inr ((n, name), e) ↦ ((tell st (NotifyEvent.task_event n t.id state)).events, ground arith)
  ]

  pub set_task_state-some :
      (now : ℕ) (st : State U) (id : ℕ) (t t' : Task) (state : TaskState) (users : UserMap)
      → get id st.core.task_map ≡ some t
      → set_state now t state st.core.user_map ≡ some (t', users)
      → set_task_state now st id state
        ≡ some (
          record st {
            core = record st.core { task_map = insert id t' st.core.task_map; user_map = users };
          },
          t',
        )
  unfolding set_task_state
  set_task_state-some now st id t t' state users known sets = rw (known, sets) refl

  pub settle-total :
      (st : State U) (p : Option ℕ) (charged consumed : ℕ)
      → ((id : ℕ) → p ≡ some id → (q : Project) × (get id st.core.project_map.projects ≡ some q))
      → (projects : ProjectMap) × (settle st p charged consumed
          ≡ some (record st { core = record st.core { project_map = projects } }))
  unfolding settle change_project
  settle-total st none charged consumed known = (st.core.project_map, refl)
  settle-total st (some id) charged consumed known =
      elim (Bool-cases (nat_eq consumed 0 && nat_eq charged 0)) [
        | inl nothing ↦ (st.core.project_map, ground arith)
        | inr some_time ↦
            let (q, e) = known id refl in
            (
              record st.core.project_map {
                projects =
                    insert id (settle_in_flight q charged consumed) st.core.project_map.projects;
              },
              ground arith,
            )
      ]

module _ {U : Type 0} ⦃f : F64 U⦄ where
  pub leave_backend-total :
      (clock : Clock) (st : State U) (id : ℕ) (t : Task) (m : Machine U) (exec_time : ℕ)
      → IsTracked st id t m
      → (m' : Machine U) × (leave_backend clock st id exec_time ≡ some (put_machine st m'))
  unfolding leave_backend
  leave_backend-total clock st id t m exec_time h =
      let (m', e, _) =
        record_finished-submitted clock.instant exec_time m t.config h.queues_unique h.counted
          h.counts_fit in
      (m', rw (h.known, h.machine, e) refl)
