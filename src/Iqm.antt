-- ===== src/Iqm.antt =====
-- runner/src/backend_iqm.rs: the monitor of the jobs at an IQM server. What the server answers is an
-- input, `Poll`, and so are the clocks. A request to cancel a job that is sent to the server is an
-- output. Times and durations are in nanoseconds.
pub mod Poll
pub mod Monitor
pub mod Backoff
pub mod Timeline
pub mod Backend
use qscheduler.Base.{
  ℕ, ◌-◌, ◌*◌, String, Bool, false, Option, none, some, List, [], ◌∷◌, min, max, ◌||◌,
  if◌then◌else◌, str_eq,
}
use Prim.Native.Nat.{◌^◌}

pub data CancelState : Type 0 where
  not_requested pending in_flight sent : CancelState

pub record MonitoredTask : Type 0 where
  pub task_id : ℕ
  pub iqm_task_id : String
  pub fails : ℕ
  pub next_poll : ℕ
  pub start_reported : Bool
  pub cancel : CancelState

unfoldable pub new : ℕ → ℕ → String → MonitoredTask
new now task_id iqm_task_id = record {
  task_id = task_id;
  iqm_task_id = iqm_task_id;
  fails = 0;
  next_poll = now;
  start_reported = false;
  cancel = not_requested;
}

pub record TimelineEntry : Type 0 where
  pub status : String
  pub timestamp : ℕ

pub record JobStatusResponse : Type 0 where
  pub status : String
  pub errors : List String
  pub timeline : List TimelineEntry

abbrev pub is_start : TimelineEntry → Bool
is_start e = str_eq e.status "execution_started"

abbrev pub is_end : TimelineEntry → Bool
is_end e =
    str_eq e.status "execution_ended" || (str_eq e.status "cancelled" || str_eq e.status "failed")

-- `find` of an iterator.
unfoldable pub find_entry : (TimelineEntry → Bool) → List TimelineEntry → Option TimelineEntry
find_entry wanted [] = none
find_entry wanted (e ∷ timeline) = if wanted e then some e else find_entry wanted timeline

-- The entries from the first that is wanted on, split there.
unfoldable pub position :
    (TimelineEntry → Bool) → List TimelineEntry → Option (TimelineEntry × List TimelineEntry)
position wanted [] = none
position wanted (e ∷ timeline) = if wanted e then some (e, timeline) else position wanted timeline

unfoldable pub execution_started : JobStatusResponse → Option ℕ
execution_started r = elim (find_entry is_start r.timeline) [
  | none ↦ none
  | some e ↦ some e.timestamp
]

abbrev pub later : ℕ → Option ℕ → ℕ
later t none = t
later t (some u) = max t u

unfoldable pub last_of : List TimelineEntry → Option ℕ
last_of [] = none
last_of (e ∷ timeline) = some (later e.timestamp (last_of timeline))

unfoldable pub last_timestamp : JobStatusResponse → Option ℕ
last_timestamp r = last_of r.timeline

abbrev pub ended_after : TimelineEntry → Option TimelineEntry → Option (ℕ × ℕ)
ended_after started none = none
ended_after started (some ended) = some (ended.timestamp, ended.timestamp - started.timestamp)

-- The end of the execution, and how long it took: no time if the end lies before the start.
unfoldable pub get_exec_time : JobStatusResponse → Option (ℕ × ℕ)
get_exec_time r = elim (position is_start r.timeline) [
  | none ↦ none
  | some (started, rest) ↦ ended_after started (find_entry is_end rest)
]

abbrev pub nanos_per_sec : ℕ
nanos_per_sec = 1000000000

-- `Duration::MAX`.
abbrev pub max_duration : ℕ
max_duration = 2 ^ 64 * nanos_per_sec - 1

abbrev pub max_poll_backoff : ℕ
max_poll_backoff = 60 * nanos_per_sec

-- The shift of a `u32` by at most 16 places keeps all of it.
unfoldable pub poll_backoff : ℕ → ℕ → ℕ
poll_backoff poll_interval fails =
    min (min (poll_interval * 2 ^ min (fails - 1) 16) max_duration) max_poll_backoff
