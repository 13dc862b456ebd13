-- ===== src/Machine/Pick.antt =====
-- runner/src/machine.rs: which item `pop_queue_item` takes.
use qscheduler.Base.{
  ℕ, ◌<◌, ◌≡◌, refl, inl, inr, Bool, true, false, not, ◌&&◌, Option, none, some, List, [], ◌∷◌, Map,
  get, nat_eq_iff, nat_key, IsUnique, Option-cases, Bool-cases, sym, ◌∙◌, arith,
}
use qscheduler.Machine.{F64, IsOrder, QueueItem, task, session, UserQueue, Machine}
use qscheduler.Machine.Queue.{
  FrontKey, front_key, key_lt, pick, least, take_front, is_session_item, pop_queue_item, set_entry,
  entry, effective_usage, item_number,
}

module _ {U : Type 0} ⦃f : F64 U⦄ where
  abbrev Least : Map ℕ (UserQueue U) → Option (ℕ × FrontKey U) → Type 0
  Least queues none =
      (u : ℕ) (qu : UserQueue U) → get u queues ≡ some qu → front_key qu qu.queue ≡ none
  Least queues (some (v, key)) =
      ((qu : UserQueue U) × (get v queues ≡ some qu) × (front_key qu qu.queue ≡ some key))
      × ((u : ℕ) (qu : UserQueue U) (other : FrontKey U)
          → get u queues ≡ some qu
          → front_key qu qu.queue ≡ some other
          → key_lt other key ≡ false)

  abbrev pub expected_average : Option U → U
  expected_average none = f.decimal 10 0
  expected_average (some average) = average

  -- The effective usage: what was used, and an average task for each in the backend.
  abbrev pub expected_usage : UserQueue U → U
  expected_usage qu =
      f.add qu.usage (f.mul (expected_average qu.average_usage) (f.of_nat qu.submitted_tasks))

  expected_usage-same : (qu : UserQueue U) → expected_usage qu ≡ effective_usage qu
  unfolding effective_usage
  expected_usage-same qu = elim (Option-cases qu.average_usage) [
    | inl unset ↦ rw (unset, effective_usage) refl
    | inr (a, has) ↦ rw (has, effective_usage) refl
  ]

  -- The first item `b` of a queue has to be taken before the first item `a` of another.
  pub data Before (other : UserQueue U) (b : QueueItem) (qu : UserQueue U) (a : QueueItem)
      : Type 0 where
    less_used : f.lt (expected_usage other) (expected_usage qu) ≡ true → Before other b qu a
    task_first :
        (i j : ℕ)
        → f.lt (expected_usage qu) (expected_usage other) ≡ false
        → b ≡ task i
        → a ≡ session j
        → Before other b qu a
    older_task :
        (i j : ℕ)
        → f.lt (expected_usage qu) (expected_usage other) ≡ false
        → b ≡ task i
        → a ≡ task j
        → i < j
        → Before other b qu a
    older_session :
        (i j : ℕ)
        → f.lt (expected_usage qu) (expected_usage other) ≡ false
        → b ≡ session i
        → a ≡ session j
        → i < j
        → Before other b qu a

  -- `item` stands first in the queue `qu` of the user `u`, and no user's first item comes before
  -- it: by usage, then a task before a session, then by id.
  pub record IsNext (m : Machine U) (u : ℕ) (qu : UserQueue U) (item : QueueItem)
      (rest : List QueueItem) : Type 0 where
    pub found : get u m.queues ≡ some qu
    pub front : qu.queue ≡ item ∷ rest
    pub least :
        (v : ℕ) (other : UserQueue U) (b : QueueItem) (behind : List QueueItem)
        → get v m.queues ≡ some other
        → other.queue ≡ b ∷ behind
        → ¬ Before other b qu item

  -- What a pop may return: nothing when every queue is empty, nothing when the next item is a
  -- session and sessions are not allowed, and the next item, gone from its queue, otherwise.
  pub data Pops (allow_sessions : Bool) (m : Machine U)
      : Option QueueItem × Machine U → Type 0 where
    idle :
        ((u : ℕ) (qu : UserQueue U) → get u m.queues ≡ some qu → qu.queue ≡ [])
        → Pops allow_sessions m (none, m)
    held :
        (u : ℕ) (qu : UserQueue U) (item : QueueItem) (rest : List QueueItem)
        → IsNext m u qu item rest
        → is_session_item item ≡ true
        → allow_sessions ≡ false
        → Pops allow_sessions m (none, m)
    taken :
        (u : ℕ) (qu : UserQueue U) (item : QueueItem) (rest : List QueueItem)
        → IsNext m u qu item rest
        → (is_session_item item ≡ true → allow_sessions ≡ true)
        → Pops allow_sessions m (some item, set_entry m u (record qu { queue = rest }))

  front_key-none :
      (qu : UserQueue U) (items : List QueueItem) → front_key qu items ≡ none → items ≡ []
  unfolding front_key
  front_key-none qu [] h = refl
  front_key-none qu (_ ∷ _) h = cc

  front_key-some :
      (qu : UserQueue U) (items : List QueueItem) (key : FrontKey U)
      → front_key qu items ≡ some key
      → (item : QueueItem) × (rest : List QueueItem) × (items ≡ item ∷ rest)
  unfolding front_key
  front_key-some qu [] key h = cc
  front_key-some qu (item ∷ rest) key h = (item, rest, refl)

  -- No two users have the same item first.
  abbrev pub AreDistinct : Map ℕ (UserQueue U) → Type 0
  AreDistinct queues =
      (u v : ℕ) (qu qv : UserQueue U) (a b : FrontKey U)
      → get u queues ≡ some qu
      → get v queues ≡ some qv
      → front_key qu qu.queue ≡ some a
      → front_key qv qv.queue ≡ some b
      → a.is_session ≡ b.is_session
      → a.item_id ≡ b.item_id
      → u ≡ v

module _ {U : Type 0} ⦃f : F64 U⦄ (order : IsOrder f) where
  -- A least key: `b` does not come before `a`.
  key_le_trans : (a b c : FrontKey U) → key_lt b a ≡ false → key_lt c b ≡ false → key_lt c a ≡ false
  unfolding key_lt
  key_le_trans a b c h k = ground (
    arith,
    order.le_trans a.usage b.usage c.usage,
    order.le_trans b.usage c.usage a.usage,
    order.le_trans c.usage a.usage b.usage,
  )

  key_lt_asymm : (a b : FrontKey U) → key_lt a b ≡ true → key_lt b a ≡ false
  unfolding key_lt
  key_lt_asymm a b h =
      ground (arith, order.lt_asymm a.usage b.usage, order.lt_asymm b.usage a.usage)

  least-Least :
      (v : ℕ) (qu : UserQueue U) (queues : Map ℕ (UserQueue U))
      → IsUnique {V = UserQueue U} ((v, qu) ∷ queues)
      → (fk : Option (FrontKey U)) → front_key qu qu.queue ≡ fk
      → (r : Option (ℕ × FrontKey U)) → Least queues r
      → Least ((v, qu) ∷ queues) (least v fk r)
  unfolding get least
  least-Least v qu queues unique none e none h = λ u qu' found. ground (arith, h u qu')
  least-Least v qu queues unique none e (some (w, key)) h = (
    (h.0.0, ground (arith, nat_eq_iff v w, unique.0, h.0.1), h.0.2),
    λ u qu' other found fe. ground (arith, h.1 u qu' other),
  )
  least-Least v qu queues unique (some key) e none h = (
    (qu, ground (arith, nat_eq_iff v v), e),
    λ u qu' other found fe. ground (arith, h u qu', key_lt_asymm key key),
  )
  least-Least v qu queues unique (some key) e (some (w, other)) h =
      elim (Bool-cases (key_lt other key)) [
        | inl before ↦ rw before (
          (h.0.0, ground (arith, nat_eq_iff v w, unique.0, h.0.1), h.0.2),
          λ u qu' third found fe. ground (arith, h.1 u qu' third, key_lt_asymm other key),
        )
        | inr after ↦ rw after (
          (qu, ground (arith, nat_eq_iff v v), e),
          λ u qu' third found fe.
              ground (arith, h.1 u qu' third, key_lt_asymm key key, key_le_trans key other third),
        )
      ]

  -- A non-empty queue of least key is picked, if there is one.
  pick-Least : (queues : Map ℕ (UserQueue U)) → IsUnique queues → Least queues (pick queues)
  unfolding pick get
  pick-Least [] unique = λ u qu h. cc
  pick-Least ((v, qu) ∷ queues) unique =
      least-Least v qu queues unique (front_key qu qu.queue) refl (pick queues)
        (pick-Least queues unique.1)

  abbrev key_of : UserQueue U → QueueItem → FrontKey U
  key_of qu item = record {
    usage = effective_usage qu;
    is_session = is_session_item item;
    item_id = item_number item;
  }

  -- What has to be taken before has a key that comes before.
  Before-key_lt :
      (other qu : UserQueue U) (b a : QueueItem) (behind rest : List QueueItem) (key : FrontKey U)
      → other.queue ≡ b ∷ behind
      → qu.queue ≡ a ∷ rest
      → front_key qu qu.queue ≡ some key
      → Before other b qu a
      → ((k : FrontKey U) → front_key other other.queue ≡ some k → key_lt k key ≡ false)
      → ⊥
  unfolding front_key key_lt
  Before-key_lt other qu b a behind rest key ahead ie fe (less_used lt) low = ground (
    arith,
    low (key_of other b) (rw ahead refl),
    expected_usage-same other,
    expected_usage-same qu,
  )
  Before-key_lt other qu b a behind rest key ahead ie fe (task_first i j le is_task is_session)
        low =
      ground (
        arith,
        low (key_of other b) (rw ahead refl),
        expected_usage-same other,
        expected_usage-same qu,
      )
  Before-key_lt other qu b a behind rest key ahead ie fe (older_task i j le is_task is_other lt)
        low =
      ground (
        arith,
        low (key_of other b) (rw ahead refl),
        expected_usage-same other,
        expected_usage-same qu,
      )
  Before-key_lt other qu b a behind rest key ahead ie fe
        (older_session i j le is_session is_other lt) low =
      ground (
        arith,
        low (key_of other b) (rw ahead refl),
        expected_usage-same other,
        expected_usage-same qu,
      )

  take_front-Pops :
      (allow_sessions : Bool) (m : Machine U) (u : ℕ) (qu : UserQueue U) (item : QueueItem)
      (rest : List QueueItem)
      → IsNext m u qu item rest
      → Pops allow_sessions m (take_front allow_sessions m u qu (item ∷ rest))
  take_front-Pops allow_sessions m u qu item rest next =
      elim (Bool-cases (not allow_sessions && is_session_item item)) [
        | inl stop ↦ rw stop (held u qu item rest next (ground arith) (ground arith))
        | inr go ↦ rw go (taken u qu item rest next (λ s. ground arith))
      ]

  -- On a machine whose queues have distinct users, and with a total order of usages, a pop takes
  -- the first item of a user of least effective usage, with a task before a session and the lower
  -- id at equal usage, and takes it from the front of that queue; when that item is a session and
  -- sessions are not allowed it takes nothing, so no item overtakes the held session; when every
  -- queue is empty there is nothing to take.
  pub pop_queue_item-Pops :
      (allow_sessions : Bool) (m : Machine U)
      → IsUnique m.queues
      → Pops allow_sessions m (pop_queue_item allow_sessions m)
  unfolding pop_queue_item
  pop_queue_item-Pops allow_sessions m unique = go (pick m.queues) refl (pick-Least m.queues unique)
    where
      go :
          (r : Option (ℕ × FrontKey U))
          → pick m.queues ≡ r
          → Least m.queues r
          → Pops allow_sessions m (pop_queue_item allow_sessions m)
      go none e h =
          rw (e, pop_queue_item) (idle (λ u qu found. front_key-none qu qu.queue (h u qu found)))
      go (some (u, key)) e ((qu, found, fe), smallest) =
          let (item, rest, ie) = front_key-some qu qu.queue key fe in
          rw (e, pop_queue_item, found, ie)
            (take_front-Pops allow_sessions m u qu item rest (record {
              found = found;
              front = ie;
              least = λ v other b behind vf ahead before.
                  Before-key_lt other qu b item behind rest key ahead ie fe before
                    (λ k ke. smallest v other k vf ke);
            }))

  key_eq : (a b : FrontKey U) → key_lt a b ≡ false → key_lt b a ≡ false → a ≡ b
  unfolding key_lt
  key_eq a b h k = ground (arith, order.le_antisymm a.usage b.usage)

  Least-unique :
      (queues others : Map ℕ (UserQueue U))
      → AreDistinct queues
      → ((u : ℕ) → get u queues ≡ get u others)
      → (r s : Option (ℕ × FrontKey U)) → Least queues r
      → Least others s
      → r ≡ s
  Least-unique queues others distinct same none none h k = refl
  Least-unique queues others distinct same none (some (v, b)) h ((qv, found, fe), _) =
      absurd (ground (arith, h v qv, same v))
  Least-unique queues others distinct same (some (u, a)) none ((qu, found, fe), _) k =
      absurd (ground (arith, k u qu, same u))
  Least-unique queues others distinct same (some (u, a)) (some (v, b)) ((qu, fu, ae), low)
        ((qv, fv, be), low') =
      let e : a ≡ b =
        key_eq a b (low' u qu a (sym (same u) ∙ fu) ae) (low v qv b (same v ∙ fv) be) in
      ground (arith, distinct u v qu qv a b, same v)

  -- The order in which the `HashMap` of queues is iterated over does not change what is popped.
  pub pop_queue_item-order_free :
      (allow_sessions : Bool) (m : Machine U) (others : Map ℕ (UserQueue U))
      → IsUnique m.queues
      → IsUnique others
      → AreDistinct m.queues
      → ((u : ℕ) → get u m.queues ≡ get u others)
      → (pop_queue_item allow_sessions m).0
        ≡ (pop_queue_item allow_sessions (record m { queues = others })).0
  unfolding pop_queue_item
  pop_queue_item-order_free allow_sessions m others unique unique' distinct same =
      let e : pick m.queues ≡ pick others =
        Least-unique m.queues others distinct same (pick m.queues) (pick others)
          (pick-Least m.queues unique) (pick-Least others unique') in
      go (pick others) e refl
    where
      other : Machine U
      other = record m { queues = others }

      front :
          (u : ℕ) (qu : UserQueue U) (items : List QueueItem)
          → (take_front allow_sessions m u qu items).0
            ≡ (take_front allow_sessions other u qu items).0
      front u qu [] = refl
      front u qu (item ∷ rest) = ground arith

      go :
          (r : Option (ℕ × FrontKey U))
          → pick m.queues ≡ r
          → pick others ≡ r
          → (pop_queue_item allow_sessions m).0 ≡ (pop_queue_item allow_sessions other).0
      go none e e' = rw (e, e', pop_queue_item)
      go (some (u, key)) e e' =
          rw (e, e', pop_queue_item, same u) (front u (entry other u) (entry other u).queue)
