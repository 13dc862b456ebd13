-- ===== src/Machine/FairShare/Backend.antt =====
-- runner/src/machine.rs: decay and the count of each user's tasks in the backend.
use qscheduler.Base.{
  ℕ, ◌+◌, ◌-◌, ◌%◌, ◌<◌, ◌≤◌, ◌≡◌, inl, inr, Option, none, some, List, [], get, get-insert,
  get-retain, keep_if, map_values, retain, weight, nat_eq_iff, nat_key, IsUnique, get-map_values,
  map_values-IsUnique, Option-cases, ◌∙◌, arith,
}
use qscheduler.User.{u32_mod}
use qscheduler.User.Counts.{at}
use qscheduler.Machine.{F64, QueueItem, UserQueue, Machine}
use qscheduler.Machine.Queue.{entry, set_entry}
use qscheduler.Machine.FairShare.{
  decay_update, is_kept, decayed, record_new_task_in_backend, record_finished_task_in_backend,
  finished_one,
}
use qscheduler.Task.{TaskConfig, session_id}

module _ {U : Type 0} where
  -- The tasks of a user in the backend, and the user's queued items.
  unfoldable pub submitted_of : Machine U → ℕ → ℕ
  submitted_of m u = weight (λ qu. qu.submitted_tasks) (get u m.queues)

  unfoldable pub queued_of : Machine U → ℕ → List QueueItem
  queued_of m u = elim (get u m.queues) [ none ↦ [] | some qu ↦ qu.queue ]

-- What a task counts for in its user's count of tasks in the backend.
unfoldable pub in_backend : ℕ → TaskConfig → ℕ
in_backend u c = elim (session_id c.parent) [ some _ ↦ 0 | none ↦ at c.user_id u 1 ]

-- A task of configuration `c` has left the backend: its user's count is one less, if it counted.
abbrev pub Uncounts : {U : Type 0} → Machine U → TaskConfig → Option (Machine U) → Type 0
Uncounts {U} m c r =
    (m' : Machine U) × (r ≡ some m')
    × ((u : ℕ) → submitted_of m' u + in_backend u c ≡ submitted_of m u)

module _ {U : Type 0} ⦃f : F64 U⦄ where
  -- Decay drops no user that has a queued item or a task in the backend, at whatever usage, and
  -- changes neither the queues nor the counts.
  pub decay_update-keeps :
      (now : ℕ) (m : Machine U) (u : ℕ)
      → IsUnique m.queues
      → (submitted_of (decay_update now m) u ≡ submitted_of m u)
        × (queued_of (decay_update now m) u ≡ queued_of m u)
  unfolding decay_update submitted_of queued_of is_kept
  decay_update-keeps now m u unique =
      let factor : U =
        f.exp2
          (f.div (f.neg (f.secs (now - m.last_decay_update))) (f.secs m.config.decay_half_time)) in
      let kept : get u (retain is_kept (map_values (decayed factor) m.queues))
          ≡ keep_if is_kept (get u (map_values (decayed factor) m.queues)) =
        get-retain is_kept u _ (map_values-IsUnique (decayed factor) m.queues unique) in
      elim (Option-cases (get u m.queues)) [
        | inl e ↦ (
          ground (arith, kept, get-map_values (decayed factor) u m.queues),
          ground (arith, kept, get-map_values (decayed factor) u m.queues),
        )
        | inr (qu, e) ↦ (
          ground (arith, kept, get-map_values (decayed factor) u m.queues),
          ground (arith, kept, get-map_values (decayed factor) u m.queues),
        )
      ]

  -- Handing a task to the backend adds to its user's count of tasks in the backend one if the task
  -- is outside a session, and changes no other count, unless the count would overflow.
  record_new-submitted :
      (m : Machine U) (c : TaskConfig) (u : ℕ)
      → submitted_of m c.user_id + 1 < u32_mod
      → submitted_of (record_new_task_in_backend m c) u ≡ submitted_of m u + in_backend u c
  unfolding record_new_task_in_backend submitted_of set_entry in_backend
  record_new-submitted m c u fits =
      let qu : UserQueue U = entry m c.user_id in
      ground (
        arith,
        get-insert c.user_id u (record qu { submitted_tasks = (qu.submitted_tasks + 1) % u32_mod })
            m.queues,
        nat_eq_iff c.user_id u,
      )

  record_finished_here :
      (exec_time : ℕ) (m : Machine U) (c : TaskConfig)
      → in_backend c.user_id c ≤ submitted_of m c.user_id
      → submitted_of m c.user_id < u32_mod
      → Uncounts m c (record_finished_task_in_backend m c exec_time)
  unfolding record_finished_task_in_backend submitted_of set_entry in_backend
  record_finished_here exec_time m c counted fits = elim (Option-cases (session_id c.parent)) [
    | inr (s, e) ↦ (m, ground arith, λ u. ground arith)
    | inl e ↦ elim (Option-cases (get c.user_id m.queues)) [
      | inl missing ↦ absurd (ground (arith, nat_eq_iff c.user_id c.user_id))
      | inr (qu, found) ↦ (
        set_entry m c.user_id (finished_one qu exec_time),
        ground arith,
        λ u. ground (
          arith,
          get-insert c.user_id u (finished_one qu exec_time) m.queues,
          nat_eq_iff c.user_id u,
          nat_eq_iff c.user_id c.user_id,
        ),
      )
    ]
  ]

  -- A counted task leaves the backend without a panic, also after a decay, and is uncounted.
  pub record_finished-submitted :
      (now exec_time : ℕ) (m : Machine U) (c : TaskConfig)
      → IsUnique m.queues
      → in_backend c.user_id c ≤ submitted_of m c.user_id
      → submitted_of m c.user_id < u32_mod
      → Uncounts m c (record_finished_task_in_backend (decay_update now m) c exec_time)
  record_finished-submitted now exec_time m c unique counted fits =
      let same = λ (u : ℕ). (decay_update-keeps now m u unique).0 in
      let (m', e, gone) =
        record_finished_here exec_time (decay_update now m) c (rw (same c.user_id) counted)
          (rw (same c.user_id) fits) in
      (m', e, λ u. gone u ∙ same u)
