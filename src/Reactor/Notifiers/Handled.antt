-- ===== src/Reactor/Notifiers/Handled.antt =====
-- What a request does to the notifiers and their table (runner/src/reactor.rs, runner/src/callback.rs).
use qscheduler.Base.{
  ℕ, ◌+◌, ◌≡◌, refl, sym, inl, inr, ◌⊎◌, String, true, false, Option, none, some, get, insert,
  remove, get-insert, get-remove, nat_eq, str_eq, nat_key, string_key, if◌then◌else◌, Bool-cases,
  Option-cases, arith, subst, map_values,
}
use qscheduler.Error.{
  RunnerError, Result, ok, err, Result-cases, sqlx, notifier_already_exists, notifier_not_found,
  invalid_notifier_url,
}
use qscheduler.Callback.{
  NotifierConfiguration, NotifierMap, Notifier, add, has, validate_notifier_name,
}
use qscheduler.Callback as Callbacks
use qscheduler.Db.{Db, Access, served, broken}
use qscheduler.Db.Notifiers.{
  insert_notifier, insert_row, remove_row, notifier_row, forget_in_task, forget_in_session,
}
use qscheduler.Reactor.Notifiers.{
  Request, adding, removing, handle, add_notifier, remove_notifier, is_url,
}
use qscheduler.Reactor.Notifiers.Registered.{IsRegistered, add-IsRegistered, remove-IsRegistered}

-- The ids that the names have after a request that succeeds.
abbrev pub name_after : Request → ℕ → String → Option ℕ → Option ℕ
name_after (adding config) next name old = if str_eq config.name name then some next else old
name_after (removing removed) next name old = if str_eq removed name then none else old

-- What a request has done: it has failed and changed nothing, or it has succeeded.
abbrev pub Outcome : NotifierMap → Db → Request → NotifierMap × Db × Result (Unit {0}) → Type 0
Outcome m db request (m', db', answer) =
    IsRegistered m' db'
    × (((e : RunnerError) × (answer ≡ err e) × (m' ≡ m) × (db' ≡ db))
        ⊎ ((answer ≡ ok tt)
            × ((name : String)
                → get name m'.notifiers_by_name
                  ≡ name_after request db.next_notifier_id name (get name m.notifiers_by_name))))

module _ (m : NotifierMap) (db : Db) (h : IsRegistered m db) where
  failed :
      (request : Request) (e : RunnerError) (result : NotifierMap × Db × Result (Unit {0}))
      → result ≡ (m, db, err e)
      → Outcome m db request result
  failed request e result same =
      subst (Outcome m db request) (sym same) (h, inl (e, refl, refl, refl))

  no_notifier :
      (name : String) → get name db.notifiers ≡ none → Callbacks.remove_notifier m name ≡ (m, none)
  unfolding Callbacks.remove_notifier
  no_notifier name absent =
      let unknown : get name m.notifiers_by_name ≡ none = ground (arith, h.by_name name, absent) in
      rw (unknown, Callbacks.remove_notifier) refl

  added :
      (config : NotifierConfiguration)
      → is_url config.url ≡ true
      → validate_notifier_name config.name ≡ ok tt
      → get config.name db.notifiers ≡ none
      → nat_eq db.next_notifier_id 0 ≡ false
      → Outcome m db (adding config) (handle served m db (adding config))
  unfolding add_notifier insert_notifier insert_row add
  added config url valid new set =
      let db' : Db = record db {
        notifiers = insert config.name (notifier_row db.next_notifier_id config) db.notifiers;
        next_notifier_id = db.next_notifier_id + 1;
      } in
      let m' = add m db.next_notifier_id config in
      let same : handle served m db (adding config) ≡ (m', db', ok tt) =
        rw
          (
            add_notifier,
            url,
            insert_notifier,
            valid,
            insert_row,
            new,
            set,
            no_notifier config.name new,
          )
          refl in
      subst (Outcome m db (adding config)) (sym same) (
        add-IsRegistered m db h config new,
        inr (refl, λ name. get-insert config.name name db.next_notifier_id m.notifiers_by_name),
      )

  add_notifier-Outcome :
      (access : Access) (config : NotifierConfiguration)
      → Outcome m db (adding config) (handle access m db (adding config))
  unfolding add_notifier insert_notifier insert_row
  add_notifier-Outcome access config = elim (Bool-cases (is_url config.url)) [
    | inr url ↦
        failed (adding config) (invalid_notifier_url config.url) _ (rw (add_notifier, url) refl)
    | inl url ↦ elim (Result-cases (validate_notifier_name config.name)) [
      | inl (e, bad) ↦
          failed (adding config) e _ (rw (add_notifier, url, insert_notifier, bad) refl)
      | inr (_, valid) ↦ valid_name access url valid
    ]
  ]
    where
      valid_name :
          (access' : Access)
          → is_url config.url ≡ true
          → validate_notifier_name config.name ≡ ok tt
          → Outcome m db (adding config) (handle access' m db (adding config))
      valid_name broken url valid =
          failed (adding config) sqlx _
            (rw (add_notifier, url, insert_notifier, valid, insert_row) refl)
      valid_name served url valid = elim (Option-cases (get config.name db.notifiers)) [
        | inr (row, taken) ↦
            failed (adding config) (notifier_already_exists config.name) _
              (rw (add_notifier, url, insert_notifier, valid, insert_row, taken) refl)
        | inl new ↦ elim (Bool-cases (nat_eq db.next_notifier_id 0)) [
          | inl unset ↦
              failed (adding config) sqlx _
                (rw (add_notifier, url, insert_notifier, valid, insert_row, new, unset) refl)
          | inr set ↦ added config url valid new set
        ]
      ]

  remove_notifier-Outcome :
      (access : Access) (name : String)
      → Outcome m db (removing name) (handle access m db (removing name))
  unfolding remove_notifier remove_row Callbacks.remove_notifier
  remove_notifier-Outcome broken name = failed (removing name) sqlx _ refl
  remove_notifier-Outcome served name = elim (Option-cases (get name db.notifiers)) [
    | inl absent ↦
        failed (removing name) (notifier_not_found name) _
          (rw (remove_notifier, remove_row, absent, no_notifier name absent) refl)
    | inr (row, there) ↦
        let db' : Db = record db {
          notifiers = remove name db.notifiers;
          tasks = map_values (forget_in_task row.id) db.tasks;
          sessions = map_values (forget_in_session row.id) db.sessions;
        } in
        let known : get name m.notifiers_by_name ≡ some row.id =
          ground (arith, h.by_name name, there) in
        let same : handle served m db (removing name)
            ≡ ((Callbacks.remove_notifier m name).0, db', ok tt) =
          rw (remove_notifier, remove_row, there, Callbacks.remove_notifier, known) refl in
        subst (Outcome m db (removing name)) (sym same) (
          remove-IsRegistered m db h name row db' there refl refl,
          inr (
            refl,
            λ j. rw (Callbacks.remove_notifier, known) (get-remove name j m.notifiers_by_name),
          ),
        )
  ]

  -- Adding or removing a notifier, when those in memory are those of the table, either fails and
  -- changes neither, or succeeds: then the name has the new row's id, or none any more, and other
  -- names have theirs. In both cases the notifiers in memory are those of the table afterwards.
  pub handle-IsRegistered :
      (access : Access) (request : Request) → Outcome m db request (handle access m db request)
  handle-IsRegistered access (adding config) = add_notifier-Outcome access config
  handle-IsRegistered access (removing name) = remove_notifier-Outcome access name
