-- ===== src/Launcher/Check/Limits.antt =====
-- Which tasks the periodic check (runner/src/launcher.rs) cancels, and why.
use qscheduler.Base.{
  ◌≤◌, ◌+◌, ◌++◌, List, sym, Bool-cases, ℕ, String, ◌≡◌, refl, inl, inr, ◌∙◌, Bool, true, false,
  ◌||◌, Option, none, some, [], ◌∷◌, Map, get, get-insert, nat_eq, nat_eq_iff, nat_key, IsUnique,
  if◌then◌else◌, Option-cases, arith,
}
use mathlib.Core.List.{append-nil, append_assoc}
use qscheduler.Project.{Project, find_project, is_over_limit}
use qscheduler.Task.{Task, TaskMap, project_id}
use qscheduler.Launcher.{
  State, RunningTask, Request, cancel_task, task_time_limit_error, project_limit_error,
}
use qscheduler.Launcher.Estimate.{elapsed, is_over_time_limit}
use qscheduler.Launcher.Check.{
  is_task_over, is_project_over, fail_reason, check_task, check_tasks, request_backend_cancel,
}

-- The task has run for its time limit.
abbrev pub IsOverTime : {U : Type 0} → ℕ → State U → ℕ → Type 0
IsOverTime now st id =
    (rt : RunningTask) × (get id st.running_tasks ≡ some rt) × (rt.time_limit ≤ elapsed now rt)

-- The project of the task has used up its limit, with the time in flight.
abbrev pub IsOverBudget : {U : Type 0} → State U → ℕ → Type 0
IsOverBudget st id =
    (t : Task) × (i : ℕ) × (p : Project) × (get id st.core.task_map ≡ some t)
    × (project_id t.config.parent ≡ some i)
    × (find_project st.core.project_map i ≡ some p)
    × (p.limit ≤ p.consumed + p.in_flight)

-- Why a task is to fail, if it is.
pub data Reason {U : Type 0} (now : ℕ) (st : State U) (id : ℕ) : Option String → Type 0 where
  over_time : IsOverTime now st id → Reason now st id (some task_time_limit_error)
  over_budget :
      ¬ IsOverTime now st id → IsOverBudget st id → Reason now st id (some project_limit_error)
  within : ¬ IsOverTime now st id → ¬ IsOverBudget st id → Reason now st id none

-- What the backend is asked to cancel of a task: nothing if it is being cancelled, is not to fail
-- or has no backend id yet.
abbrev pub cancel_of : ℕ → Bool → Option String → Option Task → List Request
cancel_of id true found task = []
cancel_of id false none task = []
cancel_of id false (some reason) none = []
cancel_of id false (some reason) (some t) = elim t.backend_id [
  | none ↦ []
  | some backend_id ↦ cancel_task id backend_id ∷ []
]

-- The same of all submitted tasks, in order.
unfoldable pub cancels : (ℕ → Option String) → TaskMap → Map ℕ Bool → List Request
cancels found tasks [] = []
cancels found tasks ((id, cancelling) ∷ submitted) =
    cancel_of id cancelling (found id) (get id tasks) ++ cancels found tasks submitted

cancels-same :
    (found found' : ℕ → Option String) (tasks : TaskMap) (submitted : Map ℕ Bool)
    → ((id : ℕ) → found id ≡ found' id)
    → cancels found tasks submitted ≡ cancels found' tasks submitted
unfolding cancels
cancels-same found found' tasks [] same = refl
cancels-same found found' tasks ((id, cancelling) ∷ submitted) same =
    rw (same id, cancels-same found found' tasks submitted same) refl

-- The reason on record for a task after the check: the found one, for a task that was not being
-- cancelled, or the old one.
abbrev pub recorded : Option Bool → Option String → Option String → Option String
recorded none found old = old
recorded (some true) found old = old
recorded (some false) none old = old
recorded (some false) (some reason) old = some reason

abbrev pub is_found : Option String → Bool
is_found none = false
is_found (some _) = true

-- Whether a submitted task is being cancelled after the check.
abbrev pub cancelled_after : Option Bool → Option String → Option Bool
cancelled_after none found = none
cancelled_after (some cancelling) found = some (cancelling || is_found found)

module _ {U : Type 0} where
  fail_reason-same :
      (now : ℕ) (st st' : State U) (id : ℕ)
      → st'.core ≡ st.core
      → st'.running_tasks ≡ st.running_tasks
      → fail_reason now st' id ≡ fail_reason now st id
  unfolding fail_reason
  fail_reason-same now st st' id c r = rw (c, r)

  check_task-core :
      (now : ℕ) (st : State U) (id : ℕ) (cancelling : Bool)
      → ((check_task now st id cancelling).0.core ≡ st.core)
        × ((check_task now st id cancelling).0.running_tasks ≡ st.running_tasks)
  unfolding check_task request_backend_cancel
  check_task-core now st id true = (refl, refl)
  check_task-core now st id false = (ground arith, ground arith)

  fail_reason-over_budget :
      (now : ℕ) (st : State U) (id : ℕ)
      → ¬ IsOverTime now st id
      → is_task_over now (get id st.running_tasks) ≡ false
      → Reason now st id (fail_reason now st id)
  unfolding fail_reason is_over_limit
  fail_reason-over_budget now st id early not_over = elim (Option-cases (get id st.core.task_map)) [
    | inl gone ↦
        rw (fail_reason, not_over, gone)
          (within early (λ (t, i, p, there, of_project, known, over). ground arith))
    | inr (t, there) ↦ elim (Option-cases (project_id t.config.parent)) [
      | inl alone ↦
          rw (fail_reason, not_over, there, alone)
            (within early (λ (t', i, p, there', of_project, known, over). ground arith))
      | inr (i, of_project) ↦ elim (Option-cases (find_project st.core.project_map i)) [
        | inl unknown ↦
            rw (fail_reason, not_over, there, of_project, is_project_over, unknown)
              (within early (λ (t', i', p, there', of_project', known, over). ground arith))
        | inr (p, known) ↦ elim (Bool-cases (is_over_limit p)) [
          | inl over ↦
              rw (fail_reason, not_over, there, of_project, is_project_over, known, over)
                (over_budget early (t, i, p, there, of_project, known, ground (arith, over)))
          | inr below ↦
              rw (fail_reason, not_over, there, of_project, is_project_over, known, below)
                (within early
                  (λ (t', i', p', there', of_project', known', over). ground (arith, below)))
        ]
      ]
    ]
  ]

  fail_reason-Reason : (now : ℕ) (st : State U) (id : ℕ) → Reason now st id (fail_reason now st id)
  unfolding fail_reason is_over_time_limit
  fail_reason-Reason now st id = elim (Option-cases (get id st.running_tasks)) [
    | inl idle ↦
        fail_reason-over_budget now st id (λ (rt, running, over). ground arith) (ground arith)
    | inr (rt, running) ↦ elim (Bool-cases (is_over_time_limit now rt)) [
      | inl over ↦ rw (fail_reason, running, over) (over_time (rt, running, ground (arith, over)))
      | inr below ↦
          fail_reason-over_budget now st id (λ (rt', running', over). ground (arith, below))
            (ground (arith, below))
    ]
  ]

  check_task-requests :
      (now : ℕ) (st : State U) (id : ℕ) (cancelling : Bool)
      → (check_task now st id cancelling).0.requests
        ≡ st.requests ++ cancel_of id cancelling (fail_reason now st id) (get id st.core.task_map)
  unfolding check_task request_backend_cancel
  check_task-requests now st id true = sym (append-nil st.requests)
  check_task-requests now st id false = elim (Option-cases (fail_reason now st id)) [
    | inl e ↦ rw (check_task, e) (sym (append-nil st.requests))
    | inr (reason, e) ↦ elim (Option-cases (get id st.core.task_map)) [
      | inl gone ↦ rw (check_task, e, request_backend_cancel, gone) (sym (append-nil st.requests))
      | inr (t, there) ↦ elim (Option-cases t.backend_id) [
        | inl unknown ↦
            rw (check_task, e, request_backend_cancel, there, unknown)
              (sym (append-nil st.requests))
        | inr (b, known) ↦ rw (check_task, e, request_backend_cancel, there, known) refl
      ]
    ]
  ]

  check_tasks-requests :
      (now : ℕ) (st : State U) (submitted : Map ℕ Bool)
      → (check_tasks now st submitted).0.requests
        ≡ st.requests ++ cancels (fail_reason now st) st.core.task_map submitted
  unfolding check_tasks cancels
  check_tasks-requests now st [] = sym (append-nil st.requests)
  check_tasks-requests now st ((j, cancelling) ∷ submitted) =
      let st' = (check_task now st j cancelling).0 in
      let (core, running) = check_task-core now st j cancelling in
      let first = cancel_of j cancelling (fail_reason now st j) (get j st.core.task_map) in
      let rest = cancels (fail_reason now st) st.core.task_map submitted in
      let same : cancels (fail_reason now st') st'.core.task_map submitted ≡ rest = rw core (
        cancels-same (fail_reason now st') (fail_reason now st) st.core.task_map submitted
          (λ id. fail_reason-same now st st' id core running)) in
      check_tasks-requests now st' submitted
      ∙ rw (same, check_task-requests now st j cancelling) (append_assoc st.requests first rest)

  check_task-reasons :
      (now : ℕ) (st : State U) (id j : ℕ) (cancelling : Bool)
      → ((check_task now st id cancelling).1 ≡ cancelling || is_found (fail_reason now st id))
        × (get j (check_task now st id cancelling).0.fail_reasons ≡ (
            if nat_eq id j
            then recorded (some cancelling) (fail_reason now st id) (get j st.fail_reasons)
            else get j st.fail_reasons))
  unfolding check_task request_backend_cancel
  check_task-reasons now st id j true = (refl, ground arith)
  check_task-reasons now st id j false = elim (Option-cases (fail_reason now st id)) [
    | inl e ↦ (ground arith, ground arith)
    | inr (reason, e) ↦
        (ground arith, ground (arith, get-insert id j reason st.fail_reasons, nat_eq_iff id j))
  ]

  check_tasks-marks :
      (now : ℕ) (st : State U) (submitted : Map ℕ Bool)
      → IsUnique submitted
      → ((check_tasks now st submitted).0.core ≡ st.core)
        × ((id : ℕ)
            → (get id (check_tasks now st submitted).1
                ≡ cancelled_after (get id submitted) (fail_reason now st id))
              × (get id (check_tasks now st submitted).0.fail_reasons
                  ≡ recorded (get id submitted) (fail_reason now st id) (get id st.fail_reasons)))
  unfolding check_tasks get
  check_tasks-marks now st [] unique = (refl, λ id. (refl, refl))
  check_tasks-marks now st ((j, cancelling) ∷ submitted) unique =
      let st' = (check_task now st j cancelling).0 in
      let same = check_task-core now st j cancelling in
      let (core, rest) = check_tasks-marks now st' submitted unique.1 in
      (
        core ∙ same.0,
        λ id. (
          ground (
            arith,
            (rest id).0,
            (check_task-reasons now st j id cancelling).0,
            (check_task-reasons now st j id cancelling).1,
            fail_reason-same now st st' id same.0 same.1,
            nat_eq_iff j id,
            unique.0,
          ),
          ground (
            arith,
            (rest id).1,
            (check_task-reasons now st j id cancelling).0,
            (check_task-reasons now st j id cancelling).1,
            fail_reason-same now st st' id same.0 same.1,
            nat_eq_iff j id,
            unique.0,
          ),
        ),
      )

  -- The check cancels exactly the submitted tasks that were being cancelled before, have run for
  -- their time limit by the estimate or are of a project that has used up its limit, and records the
  -- reason for those that it cancels; the backend is asked to cancel, in order, just those of them
  -- that it knows by a backend id; the check changes nothing in the core. The submitted tasks have
  -- distinct ids.
  pub check_tasks-exact :
      (now : ℕ) (st : State U) (submitted : Map ℕ Bool)
      → IsUnique submitted
      → (found : ℕ → Option String) × ((id : ℕ) → Reason now st id (found id))
        × ((check_tasks now st submitted).0.core ≡ st.core)
        × ((check_tasks now st submitted).0.requests
            ≡ st.requests ++ cancels found st.core.task_map submitted)
        × ((id : ℕ)
            → (get id (check_tasks now st submitted).1
                ≡ cancelled_after (get id submitted) (found id))
              × (get id (check_tasks now st submitted).0.fail_reasons
                  ≡ recorded (get id submitted) (found id) (get id st.fail_reasons)))
  check_tasks-exact now st submitted unique =
      let (core, marks) = check_tasks-marks now st submitted unique in
      (
        fail_reason now st,
        fail_reason-Reason now st,
        core,
        check_tasks-requests now st submitted,
        marks,
      )
