-- ===== src/Machine/Queue.antt =====
-- runner/src/machine.rs: the queues of a machine. What changes the machine returns it.
use qscheduler.Base.{
  ℕ, Bool, true, false, not, ◌&&◌, ◌||◌, Option, none, some, List, [], ◌∷◌, ◌++◌, Map, get, insert,
  ltb, nat_eq, if◌then◌else◌, nat_key,
}
use qscheduler.Error.{Result, ok, err, non_running_session}
use qscheduler.Machine.{F64, QueueItem, task, session, UserQueue, Machine}
use qscheduler.Task.{Task}
use qscheduler.Task as TaskModule
use qscheduler.Session.{Session}

-- What orders the users: the usage, a task before a session, the older id.
pub record FrontKey (U : Type 0) : Type 0 where
  pub usage : U
  pub is_session : Bool
  pub item_id : ℕ

abbrev pub is_session_item : QueueItem → Bool
is_session_item (task _) = false
is_session_item (session _) = true

abbrev pub item_number : QueueItem → ℕ
item_number (task n) = n
item_number (session n) = n

abbrev pub or_else {ℓ} : {A : Type ℓ} → A → Option A → A
or_else d none = d
or_else d (some a) = a

module _ {U : Type 0} ⦃f : F64 U⦄ where
  -- `UserQueue::default`.
  abbrev pub default_queue : UserQueue U
  default_queue = record {
    usage = f.decimal 0 0;
    average_usage = none;
    submitted_tasks = 0;
    queue = [];
  }

  abbrev pub entry : Machine U → ℕ → UserQueue U
  entry m user_id = or_else default_queue (get user_id m.queues)

  unfoldable pub set_entry : Machine U → ℕ → UserQueue U → Machine U
  set_entry m user_id qu = record m { queues = insert user_id qu m.queues }

  unfoldable pub effective_usage : UserQueue U → U
  effective_usage qu =
      f.add qu.usage
        (f.mul (or_else (f.decimal 10 0) qu.average_usage) (f.of_nat qu.submitted_tasks))

  unfoldable pub push_back : Machine U → ℕ → QueueItem → Machine U
  push_back m user_id item =
      let qu = entry m user_id in set_entry m user_id (record qu { queue = qu.queue ++ item ∷ [] })

  unfoldable pub queue_task : Machine U → Task → Result (Machine U)
  queue_task m t = elim (TaskModule.session_id t.config.parent) [
    | none ↦ ok (push_back m t.config.user_id (task t.id))
    | some s_id ↦ elim m.running_session [
      | none ↦ err (non_running_session s_id)
      | some s ↦
          if nat_eq s_id s.session_id
          then ok (record m { running_session = some (record s { queue = s.queue ++ t.id ∷ [] }) })
          else err (non_running_session s_id)
    ]
  ]

  unfoldable pub queue_session : Machine U → Session → Result (Machine U)
  queue_session m s = ok (push_back m s.config.owner_id (session s.id))

  unfoldable pub front_key : UserQueue U → List QueueItem → Option (FrontKey U)
  front_key qu [] = none
  front_key qu (item ∷ _) = some (record {
    usage = effective_usage qu;
    is_session = is_session_item item;
    item_id = item_number item;
  })

  -- The lexicographic order of the keys.
  unfoldable pub key_lt : FrontKey U → FrontKey U → Bool
  key_lt a b =
      f.lt a.usage b.usage
      || not (f.lt b.usage a.usage)
        && (not a.is_session && b.is_session
            || (not (a.is_session && not b.is_session) && ltb a.item_id b.item_id))

  -- The first of the least keys of a first queue and of the others.
  unfoldable pub least : ℕ → Option (FrontKey U) → Option (ℕ × FrontKey U) → Option (ℕ × FrontKey U)
  least user_id none rest = rest
  least user_id (some key) none = some (user_id, key)
  least user_id (some key) (some (other_id, other)) =
      if key_lt other key then some (other_id, other) else some (user_id, key)

  -- `min_by_key` over the non-empty queues: the user of the first least key.
  unfoldable pub pick : Map ℕ (UserQueue U) → Option (ℕ × FrontKey U)
  pick [] = none
  pick ((user_id, qu) ∷ queues) = least user_id (front_key qu qu.queue) (pick queues)

  abbrev pub take_front :
      Bool → Machine U → ℕ → UserQueue U → List QueueItem → Option QueueItem × Machine U
  take_front allow_sessions m user_id qu [] = (none, m)
  take_front allow_sessions m user_id qu (item ∷ rest) =
      if not allow_sessions && is_session_item item
      then (none, m)
      else (some item, set_entry m user_id (record qu { queue = rest }))

  unfoldable pub pop_queue_item : Bool → Machine U → Option QueueItem × Machine U
  pop_queue_item allow_sessions m = elim (pick m.queues) [
    | none ↦ (none, m)
    | some (user_id, _) ↦
        let qu = entry m user_id in take_front allow_sessions m user_id qu qu.queue
  ]
