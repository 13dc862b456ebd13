-- ===== src/Examples/Services.antt =====
-- A notifier, a configuration and an admin token.
use qscheduler.Base.{
  ℕ, ◌≡◌, ◌↔◌, refl, Bool, true, false, some, List, [], ◌∷◌, ◌++◌, map, leb, is_blank,
  is_white_space, arith,
}
use qscheduler.Error.{ok}
use qscheduler.Callback.{notify_worker, max_notify_fails}
use qscheduler.Callback.Worker.{outcome, notify_worker_ends}
use qscheduler.Config.{
  MachineConfiguration, Serde, test, validate, machine_config, to_configuration, to_stored,
  from_stored,
}
use qscheduler.Config.Usable.{IsUsable, Fits, from_stored-to_stored}
use qscheduler.Service.{bearer, admitted, admin_auth}
use qscheduler.Service.Auth.{admin_auth_iff}

-- The first event succeeds at the third attempt, the second never.
abbrev answers : Bool → ℕ → Bool
answers true i = leb 2 i
answers false i = false

notify_worker_ends_example :
    notify_worker answers (true ∷ false ∷ [])
    ≡ some (map (λ event. outcome (answers event) 0 max_notify_fails) (true ∷ false ∷ []))
notify_worker_ends_example = notify_worker_ends answers (true ∷ false ∷ [])

abbrev pub configuration : MachineConfiguration
configuration = record {
  name = "m";
  queue_size = 4;
  limit_check_interval_ms = 2000;
  max_session_time_ms = 7200000;
  default_task_time_limit_ms = 900000;
  max_task_time_limit_ms = 900000;
  max_clock_skew_ms = 4000;
  decay_half_time_ms = 5400000;
  pulse_access = false;
  backend = test;
}

-- What is kept is only this configuration, at any version.
abbrev pub one_text : Serde
one_text = record {
  to_string = λ version c. "";
  version = λ stored. some (some 1);
  config = λ stored. some configuration;
}

configuration-Fits : Fits configuration
configuration-Fits = record {
  limit_check_interval = omega arith;
  max_session_time = omega arith;
  default_task_time_limit = omega arith;
  max_task_time_limit = omega arith;
  max_clock_skew = omega arith;
  decay_half_time = omega arith;
}

from_stored-to_stored_example :
    (from_stored one_text (to_stored one_text configuration) ≡ ok (configuration, false))
    × IsUsable (machine_config configuration)
    × (to_configuration test (machine_config configuration) ≡ configuration)
unfolding validate is_blank is_white_space
from_stored-to_stored_example =
    from_stored-to_stored one_text configuration refl refl configuration-Fits refl

-- The token "key".
admin_auth_iff_example :
    (admin_auth (some (107 ∷ 101 ∷ 121 ∷ [])) (some (bearer ++ 107 ∷ 101 ∷ 122 ∷ [])) ≡ admitted)
    ↔ ((expected : List ℕ) × (some (107 ∷ 101 ∷ 121 ∷ []) ≡ some expected)
        × (some (bearer ++ 107 ∷ 101 ∷ 122 ∷ []) ≡ some (bearer ++ expected)))
admin_auth_iff_example =
    admin_auth_iff (some (107 ∷ 101 ∷ 121 ∷ [])) (some (bearer ++ 107 ∷ 101 ∷ 122 ∷ []))
