-- ===== src/Machine.antt =====
-- runner/src/machine.rs: a machine's state. Usage is an `f64` of the source: its type `U` and its
-- arithmetic are the parameter `F64`; the overflow of a usage to infinity, at which
-- `Usage::new` panics, is outside the model. The backend is outside too: what the launcher asks
-- of it is an output there. `Notify` is the flag `notified`, its stored permit.
pub mod Queue
pub mod FairShare
pub mod Pick
pub mod Removal
pub mod Registry
use qscheduler.Base.{
  ℕ, ◌≡◌, String, Bool, true, false, Option, none, some, List, [], ◌∷◌, ◌++◌, Map,
}
use qscheduler.Suspension.{SuspendCancel, Suspension}
use qscheduler.Error.{Result, ok, err, machine_unavailable, machine_suspended}

-- The operations on `f64` that the scheduler uses. `decimal m k` is the literal `m` with `k`
-- digits behind the point; `secs` is `Duration::as_secs_f64` of nanoseconds.
pub record F64 (U : Type 0) : Type 0 where
  pub decimal : ℕ → ℕ → U
  pub of_nat : ℕ → U
  pub secs : ℕ → U
  pub add : U → U → U
  pub sub : U → U → U
  pub mul : U → U → U
  pub div : U → U → U
  pub neg : U → U
  pub exp2 : U → U
  pub lt : U → U → Bool

-- `PositiveFinite` implements `Ord`: its comparison is a total order.
pub record IsOrder {U : Type 0} (f : F64 U) : Type 0 where
  pub lt_asymm : (a b : U) → f.lt a b ≡ true → f.lt b a ≡ false
  pub le_trans : (a b c : U) → f.lt b a ≡ false → f.lt c b ≡ false → f.lt c a ≡ false
  pub le_antisymm : (a b : U) → f.lt a b ≡ false → f.lt b a ≡ false → a ≡ b

pub data QueueItem : Type 0 where
  task : ℕ → QueueItem
  session : ℕ → QueueItem

pub record MachineConfig : Type 0 where
  pub name : String
  pub queue_size : ℕ
  pub decay_half_time : ℕ
  pub limit_check_interval : ℕ
  pub max_session_time : ℕ
  pub default_task_time_limit : ℕ
  pub max_task_time_limit : ℕ
  pub max_clock_skew : ℕ
  pub pulse_access : Bool

pub record RunningSession : Type 0 where
  pub session_id : ℕ
  pub queue : List ℕ

pub record UserQueue (U : Type 0) : Type 0 where
  pub usage : U
  pub average_usage : Option U
  pub submitted_tasks : ℕ
  pub queue : List QueueItem

pub record Machine (U : Type 0) : Type 0 where
  pub machine_id : ℕ
  pub queues : Map ℕ (UserQueue U)
  pub last_decay_update : ℕ
  pub running_session : Option RunningSession
  pub config : MachineConfig
  pub notified : Bool
  pub task_cancel_requests : List ℕ
  pub session_cancel_requests : List ℕ
  pub suspension : Option Suspension
  pub suspend_cancel_requests : List (SuspendCancel × String)
  pub unavailable : Bool

module _ {U : Type 0} where
  unfoldable pub new : ℕ → ℕ → MachineConfig → Machine U
  new now machine_id config = record {
    machine_id = machine_id;
    queues = [];
    last_decay_update = now;
    running_session = none;
    config = config;
    notified = false;
    task_cancel_requests = [];
    session_cancel_requests = [];
    suspension = none;
    suspend_cancel_requests = [];
    unavailable = false;
  }

  unfoldable pub set_unavailable : Machine U → Bool → Machine U
  set_unavailable m unavailable = record m { unavailable = unavailable }

  unfoldable pub set_suspension : Machine U → Option Suspension → Machine U
  set_suspension m suspension = record m { suspension = suspension }

  unfoldable pub check_not_suspended : Machine U → Result (Unit {0})
  check_not_suspended m = elim m.unavailable [
    | true ↦ err (machine_unavailable m.config.name)
    | false ↦ elim m.suspension [
      | some s ↦ err (machine_suspended m.config.name s.message)
      | none ↦ ok tt
    ]
  ]

  unfoldable pub wake_launcher : Machine U → Machine U
  wake_launcher m = record m { notified = true }

  unfoldable pub request_task_cancel : Machine U → ℕ → Machine U
  request_task_cancel m id = record m { task_cancel_requests = m.task_cancel_requests ++ id ∷ [] }

  unfoldable pub request_session_cancel : Machine U → ℕ → Machine U
  request_session_cancel m id = record m {
    session_cancel_requests = m.session_cancel_requests ++ id ∷ [];
  }

  unfoldable pub request_suspend_cancel : Machine U → SuspendCancel → String → Machine U
  request_suspend_cancel m cancel error = record m {
    suspend_cancel_requests = m.suspend_cancel_requests ++ (cancel, error) ∷ [];
  }

  -- The requests and the machine without them.
  unfoldable pub take_task_cancel_requests : Machine U → List ℕ × Machine U
  take_task_cancel_requests m = (m.task_cancel_requests, record m { task_cancel_requests = [] })

  unfoldable pub take_session_cancel_requests : Machine U → List ℕ × Machine U
  take_session_cancel_requests m =
      (m.session_cancel_requests, record m { session_cancel_requests = [] })

  unfoldable pub take_suspend_cancel_requests :
      Machine U → List (SuspendCancel × String) × Machine U
  take_suspend_cancel_requests m =
      (m.suspend_cancel_requests, record m { suspend_cancel_requests = [] })

  -- The new machine and the old one, whose requests it has taken.
  unfoldable pub inherit_cancel_requests : Machine U → Machine U → Machine U × Machine U
  inherit_cancel_requests m old = (
    record m {
      task_cancel_requests = m.task_cancel_requests ++ old.task_cancel_requests;
      session_cancel_requests = m.session_cancel_requests ++ old.session_cancel_requests;
    },
    record old { task_cancel_requests = []; session_cancel_requests = [] },
  )
