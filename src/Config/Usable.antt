-- ===== src/Config/Usable.antt =====
-- Configurations that pass their checks (runner/src/config.rs).
use qscheduler.Base.{◌<◌, ◌≤◌, ◌≡◌, refl, false, some, is_blank, arith}
use qscheduler.Error.{ok}
use qscheduler.User.{u32_mod, u64_mod}
use qscheduler.Machine.{MachineConfig}
use qscheduler.Config.{
  MachineConfiguration, Serde, validate, machine_config, to_configuration, to_stored, from_stored,
  machine_config_version,
}

-- What a machine needs of its configuration. Durations are in nanoseconds.
pub record IsUsable (c : MachineConfig) : Type 0 where
  pub is_named : is_blank c.name ≡ false
  pub has_room : 0 < c.queue_size
  pub checks : 1000000 ≤ c.limit_check_interval
  pub decays : 1000000 ≤ c.decay_half_time
  pub limits_ordered : c.default_task_time_limit ≤ c.max_task_time_limit

-- The numbers fit the types of their fields.
pub record Fits (c : MachineConfiguration) : Type 0 where
  pub limit_check_interval : c.limit_check_interval_ms < u32_mod
  pub max_session_time : c.max_session_time_ms < u64_mod
  pub default_task_time_limit : c.default_task_time_limit_ms < u64_mod
  pub max_task_time_limit : c.max_task_time_limit_ms < u64_mod
  pub max_clock_skew : c.max_clock_skew_ms < u64_mod
  pub decay_half_time : c.decay_half_time_ms < u64_mod

-- A configuration that passes its checks is written with the current version and read back as it
-- was, if JSON keeps it and the version; the machine made from it is usable: it has
-- a name that is not blank, room for a task, checks its limits and decays usage no more often than
-- each millisecond, and its default time limit is at most the largest; and the configuration of
-- that machine, as used when it is restarted, is the same again.
pub from_stored-to_stored :
    (serde : Serde) (c : MachineConfiguration)
    → serde.version (serde.to_string machine_config_version c) ≡ some (some machine_config_version)
    → serde.config (serde.to_string machine_config_version c) ≡ some c
    → Fits c
    → validate c ≡ ok tt
    → (from_stored serde (to_stored serde c) ≡ ok (c, false))
      × IsUsable (machine_config c)
      × (to_configuration c.backend (machine_config c) ≡ c)
unfolding validate machine_config to_configuration to_stored from_stored
from_stored-to_stored serde c same_version same_config fits valid = (
  rw (from_stored, to_stored, same_version, same_config) refl,
  record {
    is_named = ground (arith, valid);
    has_room = ground (arith, valid);
    checks = ground (arith, valid);
    decays = ground (arith, valid);
    limits_ordered = ground (arith, valid);
  },
  ground (arith, fits),
)
