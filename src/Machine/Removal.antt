-- ===== src/Machine/Removal.antt =====
-- runner/src/machine.rs: a machine's session queue, and the removal of queued items. What changes
-- the machine returns it.
use qscheduler.Base.{
  ℕ, Bool, true, false, not, ◌&&◌, ◌||◌, Option, none, some, List, [], ◌∷◌, ◌++◌, Map, get, insert,
  map_values, remove_first, ltb, nat_eq, if◌then◌else◌, nat_key,
}
use qscheduler.Machine.{QueueItem, task, session, RunningSession, UserQueue, Machine}
use qscheduler.Machine.Queue.{is_session_item, item_number}

abbrev is_task : ℕ → QueueItem → Bool
is_task n (task t) = nat_eq t n
is_task n (session _) = false

abbrev is_session : ℕ → QueueItem → Bool
is_session n (task _) = false
is_session n (session s) = nat_eq s n

-- `sort_unstable_by_key` with the key: a task before a session, then the id.
unfoldable pub item_le : QueueItem → QueueItem → Bool
item_le a b =
    if is_session_item a
    then is_session_item b && not (ltb (item_number b) (item_number a))
    else is_session_item b || not (ltb (item_number b) (item_number a))

unfoldable pub insert_sorted : QueueItem → List QueueItem → List QueueItem
insert_sorted a [] = a ∷ []
insert_sorted a (b ∷ items) = if item_le a b then a ∷ b ∷ items else b ∷ insert_sorted a items

unfoldable pub sort_items : List QueueItem → List QueueItem
sort_items [] = []
sort_items (a ∷ items) = insert_sorted a (sort_items items)

-- `start_session` and `close_session`; `none` is a failed `assert`.
module _ {U : Type 0} where
  unfoldable pub start_session : Machine U → ℕ → Option (Machine U)
  start_session m session_id = elim m.running_session [
    | some _ ↦ none
    | none ↦
        some (record m { running_session = some (record { session_id = session_id; queue = [] }) })
  ]

  unfoldable pub close_session : Machine U → Option (Machine U)
  close_session m = elim m.running_session [
    | none ↦ none
    | some _ ↦ some (record m { running_session = none })
  ]

  abbrev pop_front : Machine U → RunningSession → List ℕ → Option ℕ × Machine U
  pop_front m s [] = (none, m)
  pop_front m s (id ∷ rest) =
      (some id, record m { running_session = some (record s { queue = rest }) })

  unfoldable pub pop_session_task : Machine U → Option ℕ × Machine U
  pop_session_task m = elim m.running_session [ none ↦ (none, m) | some s ↦ pop_front m s s.queue ]

  unfoldable pub running_session_id : Machine U → Option ℕ
  running_session_id m = elim m.running_session [ none ↦ none | some s ↦ some s.session_id ]

  -- The user's queue without the first item that is `wanted`, if there is one.
  unfoldable pub remove_from_user : Machine U → ℕ → (QueueItem → Bool) → Machine U × Bool
  remove_from_user m user_id wanted = elim (get user_id m.queues) [
    | none ↦ (m, false)
    | some qu ↦ elim (remove_first wanted qu.queue) [
      | none ↦ (m, false)
      | some rest ↦
          (record m { queues = insert user_id (record qu { queue = rest }) m.queues }, true)
    ]
  ]

  abbrev from_session : Machine U → ℕ → Option (RunningSession × List ℕ)
  from_session m task_id = elim m.running_session [
    | none ↦ none
    | some s ↦ elim (remove_first (λ t. nat_eq t task_id) s.queue) [
      | none ↦ none
      | some rest ↦ some (s, rest)
    ]
  ]

  unfoldable pub remove_queued_task : Machine U → ℕ → ℕ → Machine U × Bool
  remove_queued_task m task_id user_id = elim (from_session m task_id) [
    | some (s, rest) ↦ (record m { running_session = some (record s { queue = rest }) }, true)
    | none ↦ remove_from_user m user_id (is_task task_id)
  ]

  unfoldable pub remove_queued_session : Machine U → ℕ → ℕ → Machine U × Bool
  remove_queued_session m session_id user_id = remove_from_user m user_id (is_session session_id)

  unfoldable pub all_items : Map ℕ (UserQueue U) → List QueueItem
  all_items [] = []
  all_items ((_, qu) ∷ queues) = qu.queue ++ all_items queues

  abbrev pub emptied : UserQueue U → UserQueue U
  emptied qu = record qu { queue = [] }

  -- Every queued item, sorted, and the machine with empty queues.
  unfoldable pub take_queued_items : Machine U → List QueueItem × Machine U
  take_queued_items m =
      (sort_items (all_items m.queues), record m { queues = map_values emptied m.queues })
