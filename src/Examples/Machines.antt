-- ===== src/Examples/Machines.antt =====
-- Fair share on a machine with two users.
use qscheduler.Base.{ℕ, ◌≡◌, refl, some, true, false, [], ◌∷◌, get, nat_key, IsUnique, arith}
use qscheduler.User.Counts.{items_of, bytes_of}
use qscheduler.User.{UserMap}
use qscheduler.Session as Sessions
use qscheduler.Session.States as States
use qscheduler.Task as Tasks
use qscheduler.Task.Final as Final
use qscheduler.Machine.{Machine, task, session}
use qscheduler.Machine.Queue.{pop_queue_item, front_key, pick, least, key_lt, effective_usage}
use qscheduler.Machine.Pick.{Pops, AreDistinct, pop_queue_item-Pops, pop_queue_item-order_free}
use qscheduler.Examples.Data.{
  whole, whole-IsOrder, machine_with, queue_of, task_config, session_config, users, user_with,
}

-- User 1 waits with a session and has used more; user 2 waits with a task.
abbrev waiting : Machine ℕ
waiting =
    machine_with
      ((1, queue_of 9 0 (session 3 ∷ [])) ∷ (2, queue_of 4 0 (task 8 ∷ task 9 ∷ [])) ∷ [])

waiting-IsUnique : IsUnique waiting.queues
unfolding get
waiting-IsUnique = (refl, (refl, tt))

pops_task : (pop_queue_item false waiting).0 ≡ some (task 8)
unfolding pop_queue_item get pick least front_key key_lt effective_usage
pops_task = refl

pop_queue_item-Pops_example : Pops false waiting (pop_queue_item false waiting)
pop_queue_item-Pops_example = pop_queue_item-Pops whole-IsOrder false waiting waiting-IsUnique

-- The same queues in the other order.
abbrev swapped : Machine ℕ
swapped =
    machine_with
      ((2, queue_of 4 0 (task 8 ∷ task 9 ∷ [])) ∷ (1, queue_of 9 0 (session 3 ∷ [])) ∷ [])

swapped-IsUnique : IsUnique swapped.queues
unfolding get
swapped-IsUnique = (refl, (refl, tt))

waiting-AreDistinct : AreDistinct waiting.queues
unfolding get front_key
waiting-AreDistinct u v qu qv a b fu fv ea eb es ei = ground arith

same_queues : (u : ℕ) → get u waiting.queues ≡ get u swapped.queues
unfolding get
same_queues u = ground arith

pop_queue_item-order_free_example :
    (pop_queue_item true waiting).0 ≡ (pop_queue_item true swapped).0
pop_queue_item-order_free_example =
    pop_queue_item-order_free whole-IsOrder true waiting swapped.queues waiting-IsUnique
      swapped-IsUnique waiting-AreDistinct same_queues

-- User 1 has a task in the backend and no usage.
abbrev running : Machine ℕ
running = machine_with ((1, queue_of 0 1 []) ∷ [])

running-IsUnique : IsUnique running.queues
unfolding get
running-IsUnique = (refl, tt)

-- Alice has one task of three bytes, and bob a session.
abbrev counted : UserMap
counted = record users { users = (1, user_with "alice" 1 3 5) ∷ (2, user_with "bob" 1 0 7) ∷ [] }

set_state-Follows_example :
    (t' : Tasks.Task) × (m' : UserMap) × (Tasks.set_state 20
        (Tasks.new 4 9 task_config)
        (Tasks.TaskState.failed (record { consumed = 0; timestamp = 20 }) "x")
        counted
      ≡ some (t', m'))
    × (t'.state ≡ Tasks.TaskState.failed (record { consumed = 0; timestamp = 20 }) "x")
    × Final.Follows counted m' (Tasks.new 4 9 task_config) t'
unfolding items_of bytes_of Final.item_weight Final.byte_weight Tasks.is_final Tasks.new get
set_state-Follows_example =
    Final.set_state-Follows 20 (Tasks.new 4 9 task_config)
      (Tasks.TaskState.failed (record { consumed = 0; timestamp = 20 }) "x") counted refl
      (λ h. refl) (omega arith) (omega arith) (omega arith) (omega arith)

close-Follows_example :
    (s' : Sessions.Session) × (m' : UserMap) × (Sessions.close 20
        (Sessions.new 3 9 session_config)
        25
        counted
      ≡ some (s', m'))
    × (s'.state ≡ Sessions.closed (States.opening Sessions.waiting) 25)
    × States.Follows counted m' (Sessions.new 3 9 session_config) s'
unfolding items_of get Sessions.new Sessions.is_closed
close-Follows_example =
    States.close-Follows 20 25 (Sessions.new 3 9 session_config) counted refl (omega arith)
      (omega arith)
