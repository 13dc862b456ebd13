-- ===== src/Config.antt =====
-- runner/src/config.rs: the configuration of a machine. How it is written as JSON and read again is
-- the parameter `Serde`. A duration of the IQM backend is in nanoseconds.
pub mod Usable
use qscheduler.Base.{
  ℕ, ◌*◌, ◌%◌, max, String, Bool, true, false, ◌&&◌, Option, none, some, ltb, nat_eq, is_blank,
  if◌then◌else◌,
}
use Prim.Native.Nat.{◌/◌}
use qscheduler.Error.{
  Result, ok, err, ◌>>=◌, generic_error, invalid_machine_config, literal,
  cannot_parse_stored_config, unsupported_config_version,
}
use qscheduler.User.{u32_mod, u64_mod}
use qscheduler.Project.{nanos_per_milli}
use qscheduler.Machine.{MachineConfig}
use qscheduler.Iqm.Backend.{IqmBackendConfig}

-- runner/src/backend.rs.
pub data BackendConfig : Type 0 where
  iqm : IqmBackendConfig → BackendConfig
  test : BackendConfig

pub record MachineConfiguration : Type 0 where
  pub name : String
  pub queue_size : ℕ
  pub limit_check_interval_ms : ℕ
  pub max_session_time_ms : ℕ
  pub default_task_time_limit_ms : ℕ
  pub max_task_time_limit_ms : ℕ
  pub max_clock_skew_ms : ℕ
  pub decay_half_time_ms : ℕ
  pub pulse_access : Bool
  pub backend : BackendConfig

abbrev pub default_task_time_limit_ms : ℕ
default_task_time_limit_ms = 900000

abbrev pub machine_config_version : ℕ
machine_config_version = 1

-- `poll_interval.is_zero()` of an IQM backend.
abbrev pub never_polls : BackendConfig → Bool
never_polls (iqm config) = nat_eq config.poll_interval 0
never_polls test = false

abbrev pub invalid : String → Result (Unit {0})
invalid msg = err (invalid_machine_config (literal msg))

unfoldable pub validate : MachineConfiguration → Result (Unit {0})
validate c =
    if is_blank c.name
    then invalid "name must not be empty"
    else if nat_eq c.queue_size 0
    then invalid "queue_size must be at least 1"
    else if nat_eq c.limit_check_interval_ms 0
    then invalid "limit_check_interval must be positive"
    else if nat_eq c.decay_half_time_ms 0
    then invalid "decay_half_time must be at least 1 ms"
    else if ltb c.max_task_time_limit_ms c.default_task_time_limit_ms
    then invalid "default_task_time_limit must not exceed max_task_time_limit"
    else if never_polls c.backend
    then invalid "poll_interval must be positive"
    else ok tt

unfoldable pub upgrade_legacy : MachineConfiguration → MachineConfiguration
upgrade_legacy c = record c {
  default_task_time_limit_ms = default_task_time_limit_ms;
  max_task_time_limit_ms = max c.max_task_time_limit_ms default_task_time_limit_ms;
}

-- What is read from a stored text: `none` is an error, and so is a version that cannot be read.
pub record Serde : Type 0 where
  pub to_string : ℕ → MachineConfiguration → String
  pub version : String → Option (Option ℕ)
  pub config : String → Option MachineConfiguration

abbrev pub parsed : {A : Type 0} → Option A → Result A
parsed none = err (generic_error cannot_parse_stored_config)
parsed (some a) = ok a

unfoldable pub to_stored : Serde → MachineConfiguration → String
to_stored serde c = serde.to_string machine_config_version c

-- The configuration of a version.
abbrev pub of_version : Serde → String → Option ℕ → Result (MachineConfiguration × Bool)
of_version serde stored none = do c ← parsed (serde.config stored); ok (upgrade_legacy c, true)
of_version serde stored (some version) =
    let read = parsed (serde.config stored) in
    if nat_eq version machine_config_version
    then (do c ← read; ok (c, false))
    else err (generic_error (unsupported_config_version version))

-- The configuration, and whether it was upgraded.
unfoldable pub from_stored : Serde → String → Result (MachineConfiguration × Bool)
from_stored serde stored = do
  version ← parsed (serde.version stored)
  of_version serde stored version

abbrev pub of_millis : ℕ → ℕ
of_millis ms = ms * nanos_per_milli

-- runner/src/core.rs: the configuration that `create_machine` gives a machine.
unfoldable pub machine_config : MachineConfiguration → MachineConfig
machine_config c = record {
  name = c.name;
  queue_size = c.queue_size;
  decay_half_time = of_millis c.decay_half_time_ms;
  limit_check_interval = of_millis c.limit_check_interval_ms;
  max_session_time = of_millis c.max_session_time_ms;
  default_task_time_limit = of_millis c.default_task_time_limit_ms;
  max_task_time_limit = of_millis c.max_task_time_limit_ms;
  max_clock_skew = of_millis c.max_clock_skew_ms;
  pulse_access = c.pulse_access;
}

abbrev pub as_millis : ℕ → ℕ
as_millis duration = duration / nanos_per_milli % u64_mod

-- runner/src/machine.rs: the configuration as stored, of a machine with the backend.
unfoldable pub to_configuration : BackendConfig → MachineConfig → MachineConfiguration
to_configuration backend c = record {
  name = c.name;
  queue_size = c.queue_size;
  limit_check_interval_ms = c.limit_check_interval / nanos_per_milli % u32_mod;
  max_session_time_ms = as_millis c.max_session_time;
  default_task_time_limit_ms = as_millis c.default_task_time_limit;
  max_task_time_limit_ms = as_millis c.max_task_time_limit;
  max_clock_skew_ms = as_millis c.max_clock_skew;
  decay_half_time_ms = as_millis c.decay_half_time;
  pulse_access = c.pulse_access;
  backend = backend;
}
