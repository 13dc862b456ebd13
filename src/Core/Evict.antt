-- ===== src/Core/Evict.antt =====
-- runner/src/core.rs: one round of `start_eviction`, under one lock and with one `now`.
pub mod Counted
pub mod Resident
use qscheduler.Base.{ℕ}
use qscheduler.User.{evict_idle}
use qscheduler.Session.{evict_closed}
use qscheduler.Task.{evict_finished}
use qscheduler.Core.{Core}

unfoldable pub evict : {U : Type 0} → ℕ → ℕ → Core U → Core U
evict now retention c = record c {
  task_map = (evict_finished now retention c.task_map).0;
  session_map = (evict_closed now retention c.session_map).0;
  user_map = (evict_idle now retention c.user_map).0;
}
