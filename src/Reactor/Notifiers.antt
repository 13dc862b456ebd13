-- ===== src/Reactor/Notifiers.antt =====
-- runner/src/reactor.rs: adding and removing notifiers. The notifiers are the only part of the core
-- that these requests use: `end` are those at the last lock.
pub mod Registered
pub mod Handled
use qscheduler.Base.{
  ℕ, String, Bool, true, false, Option, none, some, List, [], ◌∷◌, not, ◌&&◌, ◌||◌, nat_eq, codes,
  if◌then◌else◌,
}
use qscheduler.Error.{Result, ok, err, ◌>>=◌, invalid_notifier_url, notifier_not_found}
use qscheduler.Callback.{NotifierConfiguration, NotifierMap, Notifier, has, add}
use qscheduler.Callback as Callbacks
use qscheduler.Db.{Db, Access}
use qscheduler.Db.Notifiers.{insert_notifier, remove_row}

abbrev pub is_prefix : List ℕ → List ℕ → Bool
is_prefix [] text = true
is_prefix (p ∷ prefix) [] = false
is_prefix (p ∷ prefix) (c ∷ text) = nat_eq p c && is_prefix prefix text

-- `starts_with`.
abbrev pub starts_with : String → String → Bool
starts_with text prefix = is_prefix (codes prefix) (codes text)

abbrev pub is_url : String → Bool
is_url url = starts_with url "http://" || starts_with url "https://"

-- `NotifierInfo`, which the source has beside `Notifier`.
abbrev pub info_of : NotifierConfiguration → Notifier
info_of config = record { name = config.name; url = config.url; has_token = has config.token }

-- A notifier of the name that is still loaded is replaced.
unfoldable pub add_notifier :
    Access → NotifierMap → Db → NotifierConfiguration → NotifierMap × Db × Result Notifier
add_notifier access end db config =
    if not (is_url config.url)
    then (end, db, err (invalid_notifier_url config.url))
    else elim (insert_notifier access db config) [
      | err e ↦ (end, db, err e)
      | ok (db', notifier_id) ↦ (
        add (Callbacks.remove_notifier end config.name).0 notifier_id config,
        db',
        ok (info_of config),
      )
    ]

abbrev pub was_there : {A : Type 0} → Option A → Bool
was_there none = false
was_there (some _) = true

unfoldable pub remove_notifier :
    Access → NotifierMap → Db → String → NotifierMap × Db × Result (Unit {0})
remove_notifier access end db name = elim (remove_row access db name) [
  | err e ↦ (end, db, err e)
  | ok (db', removed) ↦
      let (end', loaded) = Callbacks.remove_notifier end name in
      (
        end',
        db',
        if not removed && not (was_there loaded) then err (notifier_not_found name) else ok tt,
      )
]

-- The two requests, and the name that one is about.
pub data Request : Type 0 where
  adding : NotifierConfiguration → Request
  removing : String → Request

abbrev pub without_info : NotifierMap × Db × Result Notifier → NotifierMap × Db × Result (Unit {0})
without_info (end, db, err e) = (end, db, err e)
without_info (end, db, ok _) = (end, db, ok tt)

abbrev pub handle : Access → NotifierMap → Db → Request → NotifierMap × Db × Result (Unit {0})
handle access end db (adding config) = without_info (add_notifier access end db config)
handle access end db (removing name) = remove_notifier access end db name
