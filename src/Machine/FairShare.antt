-- ===== src/Machine/FairShare.antt =====
-- runner/src/machine.rs: the users' usage on a machine. Times are in nanoseconds, `now` is
-- `Instant::now()`; a difference of instants stops at 0. The count of a user's tasks in the
-- backend wraps like the `u32` of a release build; `none` is a panic.
pub mod Backend
use qscheduler.Base.{
  ℕ, ◌+◌, ◌-◌, ◌%◌, Bool, true, false, not, ◌||◌, Option, none, some, List, [], ◌∷◌, Map, get,
  insert, map_values, retain, ltb, nat_eq, if◌then◌else◌, nat_key, ◌>>=◌,
}
use qscheduler.User.{u32_mod}
use qscheduler.Machine.{F64, QueueItem, UserQueue, Machine}
use qscheduler.Machine.Queue.{entry, set_entry, or_else, default_queue}
use qscheduler.Task.{TaskConfig, session_id}

abbrev pub is_empty : List QueueItem → Bool
is_empty [] = true
is_empty (_ ∷ _) = false

module _ {U : Type 0} ⦃f : F64 U⦄ where
  abbrev pub decayed : U → UserQueue U → UserQueue U
  decayed factor qu = record qu { usage = f.mul qu.usage factor }

  -- What `decay_update` retains: queued items, tasks in the backend, or usage left.
  unfoldable pub is_kept : UserQueue U → Bool
  is_kept qu =
      not (is_empty qu.queue) || (ltb 0 qu.submitted_tasks || f.lt (f.decimal 1 4) qu.usage)

  unfoldable pub decay_update : ℕ → Machine U → Machine U
  decay_update now m =
      let diff = f.secs (now - m.last_decay_update) in
      let factor = f.exp2 (f.div (f.neg diff) (f.secs m.config.decay_half_time)) in
      if f.lt diff (f.decimal 1 5) then m else record m {
        last_decay_update = now;
        queues = retain is_kept (map_values (decayed factor) m.queues);
      }

  abbrev inherit : Machine U → ℕ → UserQueue U → Machine U
  inherit m user_id old_qu =
      set_entry m user_id
        (record (entry m user_id) { usage = old_qu.usage; average_usage = old_qu.average_usage })

  unfoldable pub inherit_all : Machine U → Map ℕ (UserQueue U) → Machine U
  inherit_all m [] = m
  inherit_all m ((user_id, old_qu) ∷ queues) = inherit_all (inherit m user_id old_qu) queues

  -- The new machine and the old one, decayed to `now`.
  unfoldable pub inherit_usage : ℕ → Machine U → Machine U → Machine U × Machine U
  inherit_usage now m old =
      let old' = decay_update now old in
      (inherit_all (record m { last_decay_update = old'.last_decay_update }) old'.queues, old')

  unfoldable pub record_closed_session : Machine U → ℕ → ℕ → Machine U
  record_closed_session m owner_id held_time =
      let qu = entry m owner_id in
      set_entry m owner_id (record qu { usage = f.add qu.usage (f.secs held_time) })

  unfoldable pub record_new_task_in_backend : Machine U → TaskConfig → Machine U
  record_new_task_in_backend m c = elim (session_id c.parent) [
    | some _ ↦ m
    | none ↦
        let qu = entry m c.user_id in
        set_entry m c.user_id (record qu { submitted_tasks = (qu.submitted_tasks + 1) % u32_mod })
  ]

  -- `TASK_AVERAGE_ALPHA` is 0.1.
  abbrev pub blend : U → Option U → U
  blend exec_time none = exec_time
  blend exec_time (some a) =
      f.add (f.mul (f.decimal 1 1) exec_time) (f.mul (f.sub (f.decimal 10 1) (f.decimal 1 1)) a)

  -- A task of `exec_time` has left the backend; none of zero time changes the usage.
  abbrev pub finished_one : UserQueue U → ℕ → UserQueue U
  finished_one qu exec_time =
      let left = record qu { submitted_tasks = (qu.submitted_tasks + u32_mod - 1) % u32_mod } in
      if nat_eq exec_time 0 then left else record left {
        average_usage = some (blend (f.secs exec_time) qu.average_usage);
        usage = f.add qu.usage (f.secs exec_time);
      }

  unfoldable pub record_finished_task_in_backend : Machine U → TaskConfig → ℕ → Option (Machine U)
  record_finished_task_in_backend m c exec_time = elim (session_id c.parent) [
    | some _ ↦ some m
    | none ↦ do
      qu ← get c.user_id m.queues
      some (set_entry m c.user_id (finished_one qu exec_time))
  ]
