-- ===== src/Launcher/Loop.antt =====
-- runner/src/launcher.rs: a round of the launcher's loop: an event, the machine's requests, and
-- the tasks that are handed to the backend. `none` is a panic.
pub mod Items
pub mod Picking
pub mod Bounds
pub mod Stays
pub mod Sessions
use qscheduler.Base.{
  ℕ, zero, suc, ◌+◌, Bool, true, false, not, ◌&&◌, Option, none, some, List, [], ◌∷◌, Map, get,
  insert, ltb, length, total, if◌then◌else◌, nat_key, ◌>>=◌,
}
use qscheduler.Project.{ProjectMap, settle_in_flight, change_project}
use qscheduler.Session.{Session, open_since}
use qscheduler.Task.{Task, TaskKind, CompletedState, failed}
use qscheduler.Machine.{F64, Machine, QueueItem, task, session}
use qscheduler.Machine.Queue.{pop_queue_item}
use qscheduler.Machine.Removal.{pop_session_task, start_session}
use qscheduler.Machine.FairShare.{record_new_task_in_backend}
use qscheduler.Launcher.{
  State, Clock, RunningSession, RunningTask, session_exec_time, session_opened, submit_task,
  project_limit_error, ask, tell_db, get_machine, put_machine, put_session, notify_task,
  notify_session, set_task_state,
}
use qscheduler.Launcher as Launchers
use qscheduler.Launcher.Check.{check_running_tasks, is_project_over, task_project}
use qscheduler.Launcher.Close.{close_running_session, session_queue}
use qscheduler.Launcher.Message.{FromBackendMessage, handle_message}
use qscheduler.Launcher.Requests.{consume, handle_requests}

pub data LauncherEvent : Type 0 where
  notified session_end periodic_check shutdown : LauncherEvent
  backend_message : FromBackendMessage → LauncherEvent

-- What a pick returns: a task for the backend with what is submitted of it, nothing, or that the
-- rounds given did not suffice.
pub data Pick : Type 0 where
  picked : ℕ → TaskKind → List ℕ → Pick
  idle : Pick
  out_of_fuel : Pick

-- The estimate of a running task is dropped from its project, if that is in memory.
unfoldable pub drop_estimate : RunningTask → ProjectMap → ProjectMap
drop_estimate rt projects = elim rt.project_id [
  | none ↦ projects
  | some id ↦ elim (change_project projects id (λ p. settle_in_flight p rt.charged 0)) [
    | none ↦ projects
    | some projects' ↦ projects'
  ]
]

unfoldable pub drop_estimates : Map ℕ RunningTask → ProjectMap → ProjectMap
drop_estimates [] projects = projects
drop_estimates ((_, rt) ∷ running) projects = drop_estimates running (drop_estimate rt projects)

abbrev pub opened : Clock → Session → Session
opened clock s = record s { state = open_since clock.utc }

module _ {U : Type 0} where
  -- The session's time is on record, in the launcher, in memory and in the database.
  unfoldable pub checkpoint : State U → RunningSession → ℕ → Option (State U)
  checkpoint st s exec_time = do
    kept ← get s.session_id st.core.session_map
    let noted = record st { running_session = some (record s { exec_time = exec_time }) }
    some (
        tell_db (put_session noted s.session_id (record kept { consumed = exec_time }))
          (session_exec_time s.session_id exec_time))

  unfoldable pub shut_down : Clock → State U → Option (State U)
  shut_down clock st =
      let dropped = record st {
        shutting_down = true;
        core = record st.core { project_map = drop_estimates st.running_tasks st.core.project_map };
      } in
      elim st.running_session [
        | none ↦ some dropped
        | some s ↦ do (st', exec_time) ← consume clock.instant dropped s; checkpoint st' s exec_time
      ]

  abbrev pub waiting_items : Machine U → ℕ
  waiting_items m = total (λ qu. length qu.queue) m.queues + length (session_queue m)

module _ {U : Type 0} ⦃f : F64 U⦄ where
  unfoldable pub check_session : Bool → Clock → State U → RunningSession → Option (State U)
  check_session periodic clock st s = do
    (st', exec_time) ← consume clock.instant st s
    if periodic && not (is_project_over st'.core.project_map (some s.project_id))
        then checkpoint st' s exec_time
        else do
          closed ← close_running_session clock st' s exec_time
          some (record closed { running_session = none })

  unfoldable pub check_open_session : Bool → Clock → State U → Option (State U)
  check_open_session periodic clock st = elim st.running_session [
    | none ↦ some st
    | some s ↦ check_session periodic clock st s
  ]

  -- The event; the Boolean says whether the round goes on.
  unfoldable pub handle_event : Clock → State U → LauncherEvent → Option (State U × Bool)
  handle_event clock st notified = some (st, true)
  handle_event clock st shutdown = do st' ← shut_down clock st; some (st', true)
  handle_event clock st session_end = do st' ← check_open_session false clock st; some (st', true)
  handle_event clock st periodic_check = do
    st' ← check_open_session true clock st
    st'' ← check_running_tasks clock.instant st'
    some (st'', true)
  handle_event clock st (backend_message message) = handle_message clock st message

  -- The session is the launcher's.
  abbrev pub with_session : Clock → State U → ℕ → Session → State U
  with_session clock st session_id s = record (put_session st session_id (opened clock s)) {
    running_session = some (record {
      session_id = session_id;
      project_id = s.config.project_id;
      deadline = clock.instant + s.config.time_limit;
      opened_at = clock.instant;
      exec_time = 0;
    });
  }

  -- A session, gone from its queue, opens.
  unfoldable pub open_session : Clock → State U → ℕ → Session → Option (State U)
  open_session clock st session_id s = do
    machine ← get_machine st
    started ← start_session machine session_id
    told ←
        notify_session (with_session clock (put_machine st started) session_id s) (opened clock s)
    some (tell_db told (session_opened session_id clock.utc))

  -- What becomes of an item, gone from its queue: a task that is picked, or the state in which
  -- the search goes on. An item that is no longer in memory is left out.
  unfoldable pub pick_item : Clock → State U → QueueItem → Option (Pick × State U)
  pick_item clock st (task id) = elim (get id st.core.task_map) [
    | none ↦ some (idle, st)
    | some t ↦ some (picked id t.config.kind t.config.payload, st)
  ]
  pick_item clock st (session id) = elim (get id st.core.session_map) [
    | none ↦ some (idle, st)
    | some s ↦ do st' ← open_session clock st id s; some (idle, st')
  ]

  -- The next item of the open session, or of the users' queues if none is open.
  unfoldable pub next_item : State U → Bool → Machine U → Option QueueItem × Machine U
  next_item st no_assignments machine = elim st.running_session [
    | none ↦ pop_queue_item no_assignments machine
    | some _ ↦
        let (popped, machine') = pop_session_task machine in
        elim popped [ none ↦ (none, machine') | some id ↦ (some (task id), machine') ]
  ]

  unfoldable pub or_again :
      (State U → Option (Pick × State U)) → Pick × State U → Option (Pick × State U)
  or_again again (picked id kind payload, st) = some (picked id kind payload, st)
  or_again again (idle, st) = again st
  or_again again (out_of_fuel, st) = again st

  -- With what was popped: `again` goes on with the search.
  unfoldable pub pick_popped :
      Clock
      → (State U → Option (Pick × State U))
      → State U
      → Option QueueItem
      → Option (Pick × State U)
  pick_popped clock again st none = some (idle, st)
  pick_popped clock again st (some item) = do found ← pick_item clock st item; or_again again found

  unfoldable pub pick_task : ℕ → Clock → Bool → State U → Option (Pick × State U)
  pick_task zero clock no_assignments st = some (out_of_fuel, st)
  pick_task (suc fuel) clock no_assignments st = do
    machine ← get_machine st
    let (popped, machine') = next_item st no_assignments machine
    pick_popped clock (pick_task fuel clock no_assignments) (put_machine st machine') popped

  unfoldable pub reject : Clock → State U → ℕ → Task → Option (State U)
  reject clock st id t = do
    let completed : CompletedState = record { consumed = 0; timestamp = clock.utc }
    told ← notify_task st t (failed completed project_limit_error)
    (st', _) ← set_task_state clock.instant told id (failed completed project_limit_error)
    some (tell_db st' (Launchers.task_failed id completed project_limit_error))

  unfoldable pub hand_over : State U → ℕ → Task → TaskKind → List ℕ → Option (State U)
  hand_over st id t kind payload = do
    machine ← get_machine st
    let st' = put_machine st (record_new_task_in_backend machine t.config)
    let asked = ask st' (submit_task id kind payload)
    some (record asked { submitted_tasks = insert id false asked.submitted_tasks })

  -- A picked task of a project that is over its limit fails, and the others go to the backend.
  unfoldable pub submit : Clock → State U → ℕ → TaskKind → List ℕ → Option (State U)
  submit clock st id kind payload = do
    t ← get id st.core.task_map
    if is_project_over st.core.project_map (task_project (some t))
        then reject clock st id t
        else hand_over st id t kind payload

  abbrev pub no_assignments : State U → Bool
  no_assignments st = elim st.submitted_tasks [ [] ↦ true | _ ∷ _ ↦ false ]

  abbrev pub has_room : State U → Bool
  has_room st = not st.shutting_down && ltb (length st.submitted_tasks) st.queue_size

  -- With what was picked: `again` goes on with the submissions.
  unfoldable pub submit_found :
      Clock → (State U → Option (State U × Bool)) → Pick × State U → Option (State U × Bool)
  submit_found clock again (idle, st) = some (st, true)
  submit_found clock again (out_of_fuel, st) = some (st, false)
  submit_found clock again (picked id kind payload, st) = do
    st' ← submit clock st id kind payload
    again st'

  unfoldable pub submit_next :
      Clock → (State U → Option (State U × Bool)) → State U → Option (State U × Bool)
  submit_next clock again st = do
    machine ← get_machine st
    found ← pick_task (suc (waiting_items machine)) clock (no_assignments st) st
    submit_found clock again found

  -- Submissions up to the size of the backend's queue. The Boolean says whether the rounds given
  -- sufficed.
  unfoldable pub submit_loop : ℕ → Clock → State U → Option (State U × Bool)
  submit_loop zero clock st = some (st, false)
  submit_loop (suc fuel) clock st = elim (has_room st) [
    | false ↦ some (st, true)
    | true ↦ submit_next clock (submit_loop fuel clock) st
  ]

  unfoldable pub requests_and_submissions : Clock → State U → Option (State U × Bool)
  requests_and_submissions clock st = do
    st' ← handle_requests clock st
    machine ← get_machine st'
    submit_loop (suc (waiting_items machine)) clock st'

  -- A whole round at one time of the clock.
  unfoldable pub round : Clock → State U → LauncherEvent → Option (State U × Bool)
  round clock st event = do
    (st', goes_on) ← handle_event clock st event
    if goes_on then requests_and_submissions clock st' else some (st', true)
