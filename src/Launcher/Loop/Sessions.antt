-- ===== src/Launcher/Loop/Sessions.antt =====
-- The submissions of a launcher (runner/src/launcher.rs) and its open session.
use qscheduler.Base.{
  ℕ, zero, suc, ◌<◌, ◌≡◌, ◌∙◌, subst, inl, inr, Bool, false, Option, some, List, [], ◌∷◌, Map,
  length, get, insert, nat_key, Bool-cases, >>=-eq-some, arith,
}
use qscheduler.Task.{TaskState, TaskKind, failed}
use qscheduler.Machine.{F64}
use qscheduler.Launcher.{
  State, Clock, get_machine, notify_task, set_task_state, project_limit_error,
}
use qscheduler.Launcher.Check.{is_project_over, task_project}
use qscheduler.Launcher.Loop.{
  Pick, picked, idle, out_of_fuel, waiting_items, pick_task, submit, reject, hand_over, submit_loop,
  submit_next, submit_found, has_room, no_assignments,
}
use qscheduler.Launcher.Loop.Stays.{
  IsBusy, Stays, notify_task-Stays, set_task_state-Stays, pick_task-Stays,
}

length-insert_pos : {V : Type 0} (k : ℕ) (v : V) (m : Map ℕ V) → 0 < length (insert k v m)
unfolding insert
length-insert_pos k v [] = omega arith
length-insert_pos k v ((j, u) ∷ m) = ground arith

module _ {U : Type 0} ⦃f : F64 U⦄ where
  submit-Stays :
      (clock : Clock) (st st' : State U) (id : ℕ) (kind : TaskKind) (payload : List ℕ)
      → submit clock st id kind payload ≡ some st'
      → Stays st st'
  unfolding submit reject hand_over
  submit-Stays clock st st' id kind payload submits =
      let (t, e, rest) = >>=-eq-some (get id st.core.task_map) _ submits in
      elim (Bool-cases (is_project_over st.core.project_map (task_project (some t)))) [
        | inl over ↦
            let state : TaskState =
              failed (record { consumed = 0; timestamp = clock.utc }) project_limit_error in
            let rejects : reject clock st id t ≡ some st' = ground arith in
            let (told, heard, next) = >>=-eq-some (notify_task st t state) _ rejects in
            let ((set, t'), sets, made) =
              >>=-eq-some (set_task_state clock.instant told id state) _ next in
            let a = notify_task-Stays st told t state heard in
            let b = set_task_state-Stays clock.instant told set id state t' sets in
            record {
              session = ground (arith, a.session, b.session, made);
              busy = λ h. ground (arith, b.busy (a.busy h), made);
            }
        | inr under ↦
            let hands : hand_over st id t kind payload ≡ some st' = ground arith in
            let (machine, there, made) = >>=-eq-some (get_machine st) _ hands in
            record {
              session = ground arith;
              busy = λ h. ground (arith, length-insert_pos id false st.submitted_tasks);
            }
      ]

  submit_found-Stays :
      (clock : Clock) (again : State U → Option (State U × Bool)) (st st' : State U) (found : Pick)
      (enough : Bool)
      → IsBusy st
      → ((a a' : State U) (r : Bool) → IsBusy a → again a ≡ some (a', r) → Stays a a')
      → submit_found clock again (found, st) ≡ some (st', enough)
      → Stays st st'
  unfolding submit_found
  submit_found-Stays clock again st st' idle enough busy submits goes = record {
    session = ground arith;
    busy = λ b. ground arith;
  }
  submit_found-Stays clock again st st' out_of_fuel enough busy submits goes = record {
    session = ground arith;
    busy = λ b. ground arith;
  }
  submit_found-Stays clock again st st' (picked id kind payload) enough busy submits goes =
      let (next, e, rest) = >>=-eq-some (submit clock st id kind payload) _ goes in
      let a = submit-Stays clock st next id kind payload e in
      let b = submits next st' enough (a.busy busy) rest in
      record { session = b.session ∙ a.session; busy = λ h. b.busy (a.busy h) }

  submit_next-Stays :
      (clock : Clock) (again : State U → Option (State U × Bool)) (st st' : State U) (enough : Bool)
      → IsBusy st
      → ((a a' : State U) (r : Bool) → IsBusy a → again a ≡ some (a', r) → Stays a a')
      → submit_next clock again st ≡ some (st', enough)
      → Stays st st'
  unfolding submit_next
  submit_next-Stays clock again st st' enough busy submits goes =
      let (machine, e, rest) = >>=-eq-some (get_machine st) _ goes in
      let ((found, between), picks, rest') =
        >>=-eq-some (pick_task (suc (waiting_items machine)) clock (no_assignments st) st) _ rest in
      let none_free : no_assignments st ≡ false = ground arith in
      let a = pick_task-Stays (suc (waiting_items machine)) clock st between found (
        subst (λ b. pick_task (suc (waiting_items machine)) clock b st ≡ some (found, between))
          none_free picks) in
      let b = submit_found-Stays clock again between st' found enough (a.busy busy) submits rest' in
      record { session = b.session ∙ a.session; busy = λ h. b.busy (a.busy h) }

  submit_loop-Stays :
      (fuel : ℕ) (clock : Clock) (st st' : State U) (enough : Bool)
      → IsBusy st
      → submit_loop fuel clock st ≡ some (st', enough)
      → Stays st st'
  unfolding submit_loop
  submit_loop-Stays zero clock st st' enough busy goes = record {
    session = ground arith;
    busy = λ b. ground arith;
  }
  submit_loop-Stays (suc fuel) clock st st' enough busy goes = elim (Bool-cases (has_room st)) [
    | inr full ↦ record { session = ground arith; busy = λ b. ground arith }
    | inl room ↦
        submit_next-Stays clock (submit_loop fuel clock) st st' enough busy
          (λ a a' r. submit_loop-Stays fuel clock a a' r) (ground arith)
  ]

  -- While a task is in the backend, submissions open no session, however many there are: if they
  -- do not panic, the same session, if any, is open after them.
  pub submit_loop-running_session :
      (fuel : ℕ) (clock : Clock) (st st' : State U) (enough : Bool)
      → IsBusy st
      → submit_loop fuel clock st ≡ some (st', enough)
      → st'.running_session ≡ st.running_session
  submit_loop-running_session fuel clock st st' enough busy goes =
      (submit_loop-Stays fuel clock st st' enough busy goes).session
