-- ===== src/Launcher/Loop/Picking.antt =====
-- `pick_task` (runner/src/launcher.rs): its rounds, and the items that it uses up.
use qscheduler.Base.{
  ℕ, zero, suc, ◌+◌, ◌≤◌, ◌<◌, ◌≡◌, refl, ◌∙◌, inl, inr, Bool, true, false, Option, none, some, get,
  nat_key, Option-cases, >>=-eq-some, arith,
}
use qscheduler.Session.{Session}
use qscheduler.Machine.{F64, Machine, QueueItem, task, session}
use qscheduler.Machine.Removal.{start_session}
use qscheduler.Launcher.{State, Clock, get_machine, put_machine, notify_session}
use qscheduler.Launcher.Loop.{
  Pick, picked, idle, out_of_fuel, waiting_items, open_session, pick_item, pick_popped, or_again,
  pick_task, next_item, opened, with_session,
}
use qscheduler.Launcher.Loop.Items.{
  get_machine-put, notify_session-Keeps, next_item-fewer, next_item-none,
  waiting_items-start_session,
}

-- The items that a pick has used up for its result, and whether its rounds sufficed.
abbrev pub spent : Pick → ℕ
spent (picked _ _ _) = 1
spent idle = 0
spent out_of_fuel = 0

abbrev pub suffices : Pick → Bool
suffices (picked _ _ _) = true
suffices idle = true
suffices out_of_fuel = false

spent-le : (found : Pick) → spent found ≤ 1
spent-le (picked _ _ _) = omega arith
spent-le idle = omega arith
spent-le out_of_fuel = omega arith

module _ {U : Type 0} ⦃f : F64 U⦄ where
  -- From a state whose machine is `m`: what the backend has is as before, and at least `used` of
  -- the machine's items are gone.
  pub record Uses (m : Machine U) (used : ℕ) (st st' : State U) : Type 0 where
    pub queue_size : st'.queue_size ≡ st.queue_size
    pub submitted : st'.submitted_tasks ≡ st.submitted_tasks
    pub machine :
        (m' : Machine U) × (get_machine st' ≡ some m') × (waiting_items m' + used ≤ waiting_items m)

  open_session-Uses :
      (clock : Clock) (st st' : State U) (id : ℕ) (s : Session) (m : Machine U)
      → get_machine st ≡ some m
      → open_session clock st id s ≡ some st'
      → Uses m 0 st st'
  unfolding open_session
  open_session-Uses clock st st' id s m there opens =
      let (machine, e, rest) = >>=-eq-some (get_machine st) _ opens in
      let (started, begun, rest') = >>=-eq-some (start_session machine id) _ rest in
      let noted : State U = with_session clock (put_machine st started) id s in
      let (told, heard, made) = >>=-eq-some (notify_session noted (opened clock s)) _ rest' in
      let keeps = notify_session-Keeps noted told (opened clock s) heard in
      record {
        queue_size = ground (arith, keeps.queue_size, made);
        submitted = ground (arith, keeps.submitted, made);
        machine = (
          started,
          ground (arith, keeps.machine, made, get_machine-put st started),
          ground (arith, waiting_items-start_session machine started id begun, e, there),
        );
      }

  pick_item-Uses :
      (clock : Clock) (st st' : State U) (item : QueueItem) (m : Machine U) (found : Pick)
      → get_machine st ≡ some m
      → pick_item clock st item ≡ some (found, st')
      → (suffices found ≡ true) × Uses m 0 st st'
  unfolding pick_item
  pick_item-Uses clock st st' (task id) m found there picks = (
    ground arith,
    record {
      queue_size = ground arith;
      submitted = ground arith;
      machine = (m, ground arith, omega arith);
    },
  )
  pick_item-Uses clock st st' (session id) m found there picks =
      elim (Option-cases (get id st.core.session_map)) [
        | inl e ↦ (
          ground arith,
          record {
            queue_size = ground arith;
            submitted = ground arith;
            machine = (m, ground arith, omega arith);
          },
        )
        | inr (s, e) ↦ elim (Option-cases (open_session clock st id s)) [
          | inl fails ↦ absurd (ground arith)
          | inr (st'', opens) ↦
              let uses = open_session-Uses clock st st'' id s m there opens in
              let same : st' ≡ st'' = ground arith in (ground arith, rw same uses)
        ]
      ]

  -- Of the search for a task from any state whose machine has fewer items than `fuel`: it
  -- suffices, and a picked task has been one of the items.
  abbrev pub Searches : ℕ → (State U → Option (Pick × State U)) → Type 0
  Searches fuel search =
      (st st' : State U) (m : Machine U) (found : Pick)
      → waiting_items m < fuel
      → get_machine st ≡ some m
      → search st ≡ some (found, st')
      → (suffices found ≡ true) × Uses m (spent found) st st'

  or_again-Uses :
      (again : State U → Option (Pick × State U)) (fuel : ℕ) (st st' : State U) (m : Machine U)
      (first found : Pick)
      → Searches fuel again
      → suffices first ≡ true
      → waiting_items m < fuel
      → get_machine st ≡ some m
      → or_again again (first, st) ≡ some (found, st')
      → (suffices found ≡ true) × Uses m 0 st st'
  unfolding or_again
  or_again-Uses again fuel st st' m (picked id kind payload) found searches ok fewer there goes = (
    ground arith,
    record {
      queue_size = ground arith;
      submitted = ground arith;
      machine = (m, ground arith, omega arith);
    },
  )
  or_again-Uses again fuel st st' m idle found searches ok fewer there goes =
      let (enough, uses) = searches st st' m found fewer there goes in
      let (m', e, less) = uses.machine in
      (
        enough,
        record {
          queue_size = uses.queue_size;
          submitted = uses.submitted;
          machine = (m', e, omega arith);
        },
      )
  or_again-Uses again fuel st st' m out_of_fuel found searches ok fewer there goes = absurd (cc)

  pick_popped-Uses :
      (clock : Clock) (again : State U → Option (Pick × State U)) (fuel : ℕ) (st st' : State U)
      (m : Machine U) (found : Pick) (item : QueueItem)
      → Searches fuel again
      → waiting_items m < fuel
      → get_machine st ≡ some m
      → pick_popped clock again st (some item) ≡ some (found, st')
      → (suffices found ≡ true) × Uses m 0 st st'
  unfolding pick_popped
  pick_popped-Uses clock again fuel st st' m found item searches fewer there goes =
      let ((first, between), picks, rest) = >>=-eq-some (pick_item clock st item) _ goes in
      let (ok, uses) = pick_item-Uses clock st between item m first there picks in
      let (m', e, less) = uses.machine in
      let (enough, more) =
        or_again-Uses again fuel between st' m' first found searches ok (omega arith) e rest in
      let (m'', e', less') = more.machine in
      (
        enough,
        record {
          queue_size = more.queue_size ∙ uses.queue_size;
          submitted = more.submitted ∙ uses.submitted;
          machine = (m'', e', omega arith);
        },
      )

  after_pop-Uses :
      (clock : Clock) (again : State U → Option (Pick × State U)) (fuel : ℕ) (allow : Bool)
      (st st' : State U) (m m' : Machine U) (found : Pick) (popped : Option QueueItem)
      → Searches fuel again
      → waiting_items m < suc fuel
      → next_item st allow m ≡ (popped, m')
      → pick_popped clock again (put_machine st m') popped ≡ some (found, st')
      → (suffices found ≡ true) × Uses m (spent found) st st'
  unfolding pick_popped
  after_pop-Uses clock again fuel allow st st' m m' found none searches fewer pops goes =
      let unchanged = next_item-none st allow m m' pops in
      (
        ground arith,
        record {
          queue_size = ground arith;
          submitted = ground arith;
          machine = (m', ground (arith, get_machine-put st m'), ground (arith, unchanged));
        },
      )
  after_pop-Uses clock again fuel allow st st' m m' found (some item) searches fewer pops goes =
      let less = next_item-fewer st allow m m' item pops in
      let (enough, uses) =
        pick_popped-Uses clock again fuel (put_machine st m') st' m' found item searches
          (omega arith) (get_machine-put st m') goes in
      let (m'', e, more) = uses.machine in
      (
        enough,
        record {
          queue_size = uses.queue_size;
          submitted = uses.submitted;
          machine = (m'', e, omega (arith, spent-le found));
        },
      )

  pub pick_task-Searches :
      (fuel : ℕ) (clock : Clock) (allow : Bool) → Searches fuel (pick_task fuel clock allow)
  unfolding pick_task
  pick_task-Searches zero clock allow st st' m found fewer there picks = absurd (omega arith)
  pick_task-Searches (suc fuel) clock allow st st' m found fewer there picks =
      let (machine, e, rest) = >>=-eq-some (get_machine st) _ picks in
      let same : machine ≡ m = ground (arith, e, there) in
      let (popped, m') = next_item st allow machine in
      after_pop-Uses clock (pick_task fuel clock allow) fuel allow st st' m
        (next_item st allow machine).1 found (next_item st allow machine).0
        (pick_task-Searches fuel clock allow) fewer (rw same refl) rest
