-- ===== src/Error.antt =====
-- runner/src/error.rs: the errors of the service. A text that the source formats is a constructor of
-- `Message`; what a database error says is outside the model.
use qscheduler.Base.{ℕ, String, ◌≡◌, ◌⊎◌, inl, inr, refl}

pub data Message : Type 0 where
  user_not_loaded : ℕ → Message
  restoration_failed : Message
  invalid_suspend_cancel : String → Message
  invalid_id_from_db : Message
  cannot_parse_stored_config : Message
  unsupported_config_version : ℕ → Message
  must_not_be_empty : Message
  too_many_characters : ℕ → ℕ → Message
  literal : String → Message

-- How an error names a project.
pub data ProjectName : Type 0 where
  of_id : ℕ → ProjectName
  with_name : String → ProjectName

pub data RunnerError : Type 0 where
  invalid_machine_name : String → RunnerError
  invalid_machine_id : ℕ → RunnerError
  invalid_session : ℕ → RunnerError
  invalid_task : ℕ → RunnerError
  non_running_session : ℕ → RunnerError
  task_already_finished : ℕ → RunnerError
  task_not_submitted : ℕ → RunnerError
  unknown_artifact : String → RunnerError
  session_already_closed : ℕ → RunnerError
  task_fail : String → RunnerError
  machine_already_exists : String → RunnerError
  invalid_machine_config : Message → RunnerError
  machine_unavailable : String → RunnerError
  machine_has_dependents : String → ℕ → ℕ → RunnerError
  project_already_exists : String → RunnerError
  project_not_found : ProjectName → RunnerError
  project_limit_exceeded : String → RunnerError
  project_not_active : String → RunnerError
  session_duration_exceeds_limit : String → ℕ → ℕ → RunnerError
  task_time_limit_exceeds_max : String → ℕ → ℕ → RunnerError
  machine_suspended : String → String → RunnerError
  pulse_access_denied : String → RunnerError
  machine_already_suspended : String → RunnerError
  machine_not_suspended : String → RunnerError
  invalid_suspension_message : Message → RunnerError
  unknown_notifier : String → RunnerError
  notifier_already_exists : String → RunnerError
  invalid_notifier_name : Message → RunnerError
  invalid_notifier_url : String → RunnerError
  notifier_not_found : String → RunnerError
  user_active_item_limit_exceeded : String → ℕ → RunnerError
  user_payload_limit_exceeded : String → ℕ → ℕ → ℕ → RunnerError
  sqlx : RunnerError
  generic_error : Message → RunnerError

-- `crate::Result`.
pub data Result (T : Type 0) : Type 0 where
  err : RunnerError → Result T
  ok : T → Result T

-- The `?` operator.
infixl 5 ◌>>=◌ ◌>>◌
abbrev pub ◌>>=◌ : {T R : Type 0} → Result T → (T → Result R) → Result R
err failure >>= next = err failure
ok value >>= next = next value

-- A check before the rest.
abbrev pub ◌>>◌ : {R : Type 0} → Result (Unit {0}) → Result R → Result R
err failure >> next = err failure
ok _ >> next = next

pub Result-cases :
    {T : Type 0} (r : Result T) → ((e : RunnerError) × (r ≡ err e)) ⊎ ((t : T) × (r ≡ ok t))
Result-cases (err e) = inl (e, refl)
Result-cases (ok t) = inr (t, refl)

-- A request that has not failed, taken apart.
pub >>=-eq-ok :
    {T R : Type 0} (call : Result T) (next : T → Result R) {r : R}
    → (call >>= next) ≡ ok r
    → (value : T) × (call ≡ ok value) × (next value ≡ ok r)
>>=-eq-ok (err e) next returned = cc
>>=-eq-ok (ok value) next returned = (value, refl, returned)

pub >>-eq-ok :
    {R : Type 0} (check : Result (Unit {0})) (next : Result R) {r : R}
    → (check >> next) ≡ ok r
    → next ≡ ok r
>>-eq-ok (err e) next returned = cc
>>-eq-ok (ok _) next returned = returned
