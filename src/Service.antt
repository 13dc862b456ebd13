-- ===== src/Service.antt =====
-- service/src: what guards and answers the requests of the HTTP service. A text is its bytes where
-- the source compares bytes; the decoding of requests is outside.
pub mod Bytes
pub mod Auth
use Prim.Native.Nat.{bit_or, bit_xor}
use qscheduler.Base.{
  ℕ, zero, suc, String, Bool, true, false, Option, none, some, List, [], ◌∷◌, ◌&&◌, length, nat_eq,
  ltb, if◌then◌else◌,
}
use qscheduler.Error.{
  RunnerError, invalid_session, non_running_session, pulse_access_denied, project_limit_exceeded,
  project_not_active, user_payload_limit_exceeded, user_active_item_limit_exceeded,
  machine_suspended, machine_unavailable, session_duration_exceeds_limit, invalid_machine_name,
  machine_already_exists, invalid_machine_config,
}

-- The status codes that the handlers answer errors with.
pub data StatusCode : Type 0 where
  unauthorized payment_required forbidden not_found conflict payload_too_large : StatusCode
  unprocessable_entity too_many_requests internal_server_error : StatusCode

-- service/src/tasks.rs.
unfoldable pub submit_error : RunnerError → StatusCode
submit_error (invalid_session _) = unprocessable_entity
submit_error (non_running_session _) = unprocessable_entity
submit_error (pulse_access_denied _) = unprocessable_entity
submit_error (project_limit_exceeded _) = payment_required
submit_error (project_not_active _) = payment_required
submit_error (user_payload_limit_exceeded _ requested _ limit) =
    if ltb limit requested then payload_too_large else too_many_requests
submit_error (user_active_item_limit_exceeded _ _) = too_many_requests
submit_error (machine_suspended _ _) = conflict
submit_error (machine_unavailable _) = conflict
submit_error _ = internal_server_error

-- service/src/sessions.rs.
unfoldable pub create_session_error : RunnerError → StatusCode
create_session_error (project_limit_exceeded _) = payment_required
create_session_error (project_not_active _) = payment_required
create_session_error (session_duration_exceeds_limit _ _ _) = unprocessable_entity
create_session_error (user_active_item_limit_exceeded _ _) = too_many_requests
create_session_error (machine_suspended _ _) = conflict
create_session_error (machine_unavailable _) = conflict
create_session_error _ = internal_server_error

-- service/src/machines.rs.
unfoldable pub machine_config_error : RunnerError → StatusCode
machine_config_error (invalid_machine_name _) = not_found
machine_config_error (machine_already_exists _) = conflict
machine_config_error (invalid_machine_config _) = unprocessable_entity
machine_config_error _ = internal_server_error

-- The fold over the pairs of bytes, as far as both texts go.
unfoldable pub differences : ℕ → List ℕ → List ℕ → ℕ
differences acc [] bs = acc
differences acc (a ∷ rest) [] = acc
differences acc (a ∷ rest) (b ∷ bs) = differences (bit_or acc (bit_xor a b)) rest bs

unfoldable pub constant_time_eq : List ℕ → List ℕ → Bool
constant_time_eq a b = nat_eq (length a) (length b) && nat_eq (differences 0 a b) 0

-- `strip_prefix`.
unfoldable pub strip_prefix : List ℕ → List ℕ → Option (List ℕ)
strip_prefix [] text = some text
strip_prefix (p ∷ prefix) [] = none
strip_prefix (p ∷ prefix) (t ∷ text) =
    let rest = strip_prefix prefix text in if nat_eq p t then rest else none

-- "Bearer ".
abbrev pub bearer : List ℕ
bearer = 66 ∷ 101 ∷ 97 ∷ 114 ∷ 101 ∷ 114 ∷ 32 ∷ []

pub data Access : Type 0 where
  admitted : Access
  rejected : StatusCode → Access

abbrev pub check_token : Option (List ℕ) → List ℕ → Access
check_token none expected = rejected unauthorized
check_token (some token) expected =
    if constant_time_eq token expected then admitted else rejected unauthorized

abbrev pub provided : Option (List ℕ) → Option (List ℕ)
provided none = none
provided (some header) = strip_prefix bearer header

-- `AdminAuth`, by the configured token and the header `Authorization`, if it is text.
unfoldable pub admin_auth : (admin_token authorization : Option (List ℕ)) → Access
admin_auth none authorization = rejected forbidden
admin_auth (some expected) authorization = check_token (provided authorization) expected
