-- ===== src/Callback.antt =====
-- runner/src/callback.rs: the notifiers. A `Notifier` here has no channel: what its worker does with
-- the events of its queue is `notify_worker`, for which the answers of the notifier are an input.
-- Times are in nanoseconds.
pub mod Worker
use Prim.Native.String.{count, compare}
use Prim.Native.Nat.{Ordering, ◌^◌}
use qscheduler.Base.{
  ℕ, zero, suc, ◌*◌, String, Bool, true, false, Option, none, some, List, [], ◌∷◌, ◌||◌, ◌>>=◌, Map,
  get, insert, remove, min, ltb, leb, nat_eq, nat_key, string_key, if◌then◌else◌,
}
use qscheduler.Error.{Result, ok, err, unknown_notifier, invalid_notifier_name, too_many_characters}

abbrev pub max_notifier_name_len : ℕ
max_notifier_name_len = 512

unfoldable pub validate_notifier_name : String → Result (Unit {0})
validate_notifier_name name =
    let len = count name in
    if nat_eq len 0 || ltb max_notifier_name_len len
    then err (invalid_notifier_name (too_many_characters len max_notifier_name_len))
    else ok tt

-- runner/src/config.rs.
pub record NotifierConfiguration : Type 0 where
  pub name : String
  pub url : String
  pub token : Option String

pub record Notifier : Type 0 where
  pub name : String
  pub url : String
  pub has_token : Bool

pub record NotifierMap : Type 0 where
  pub notifiers : Map ℕ Notifier
  pub notifiers_by_name : Map String ℕ

abbrev pub has : Option String → Bool
has none = false
has (some _) = true

unfoldable pub add : NotifierMap → ℕ → NotifierConfiguration → NotifierMap
add m notifier_id config = record {
  notifiers =
      insert notifier_id
        (record { name = config.name; url = config.url; has_token = has config.token }) m.notifiers;
  notifiers_by_name = insert config.name notifier_id m.notifiers_by_name;
}

unfoldable pub add_all : NotifierMap → List (ℕ × NotifierConfiguration) → NotifierMap
add_all m [] = m
add_all m ((notifier_id, config) ∷ configs) = add_all (add m notifier_id config) configs

unfoldable pub start : List (ℕ × NotifierConfiguration) → NotifierMap
start configs = add_all (record { notifiers = []; notifiers_by_name = [] }) configs

-- The map without the notifier, and its id if it was there.
unfoldable pub remove_notifier : NotifierMap → String → NotifierMap × Option ℕ
remove_notifier m name = elim (get name m.notifiers_by_name) [
  | none ↦ (m, none)
  | some notifier_id ↦ (
    record {
      notifiers = remove notifier_id m.notifiers;
      notifiers_by_name = remove name m.notifiers_by_name;
    },
    some notifier_id,
  )
]

unfoldable pub find_notifier_by_name : NotifierMap → String → Result ℕ
find_notifier_by_name m name = elim (get name m.notifiers_by_name) [
  | none ↦ err (unknown_notifier name)
  | some notifier_id ↦ ok notifier_id
]

unfoldable pub get_notifier : NotifierMap → Option ℕ → Option Notifier
get_notifier m notifier_id = do id ← notifier_id; get id m.notifiers

unfoldable pub notifier_name : NotifierMap → Option ℕ → Option String
notifier_name m notifier_id = do notifier ← get_notifier m notifier_id; some notifier.name

abbrev pub is_before : Notifier → Notifier → Bool
is_before a b = elim (compare a.name b.name) [
  | Ordering.lt ↦ true
  | Ordering.eq ↦ false
  | Ordering.gt ↦ false
]

-- `sort_by` the names, which is stable.
unfoldable pub insert_sorted : Notifier → List Notifier → List Notifier
insert_sorted n [] = n ∷ []
insert_sorted n (m ∷ notifiers) =
    if is_before m n then m ∷ insert_sorted n notifiers else n ∷ m ∷ notifiers

unfoldable pub sorted : Map ℕ Notifier → List Notifier
sorted [] = []
sorted ((_, n) ∷ notifiers) = insert_sorted n (sorted notifiers)

unfoldable pub list_notifiers : NotifierMap → List Notifier
list_notifiers m = sorted m.notifiers

abbrev pub max_notify_fails : ℕ
max_notify_fails = 16

abbrev pub first_delay : ℕ
first_delay = 100000000

abbrev pub max_delay : ℕ
max_delay = 30000000000

-- Whether an event was delivered, and the delays waited for.
pub record Delivery : Type 0 where
  pub delivered : Bool
  pub delays : List ℕ

abbrev pub after_delay : ℕ → Option Delivery → Option Delivery
after_delay delay none = none
after_delay delay (some d) = some (record d { delays = delay ∷ d.delays })

-- The loop of attempts; `answers` says whether an attempt, counted by the failures before it,
-- succeeds, and `none` is a loop that is out of `fuel`.
unfoldable pub deliver : ℕ → (ℕ → Bool) → (fail_count delay : ℕ) → Option Delivery
deliver zero answers fail_count delay = none
deliver (suc fuel) answers fail_count delay =
    let again = deliver fuel answers (suc fail_count) (min (delay * 2) max_delay) in
    if answers fail_count
    then some (record { delivered = true; delays = [] })
    else if leb max_notify_fails (suc fail_count)
    then some (record { delivered = false; delays = [] })
    else after_delay delay again

-- The worker, event by event, until its queue is closed.
unfoldable pub notify_worker : {E : Type 0} → (E → ℕ → Bool) → List E → Option (List Delivery)
notify_worker answers [] = some []
notify_worker answers (event ∷ events) = do
  d ← deliver max_notify_fails (answers event) 0 first_delay
  rest ← notify_worker answers events
  some (d ∷ rest)
