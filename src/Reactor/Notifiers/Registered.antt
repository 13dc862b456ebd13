-- ===== src/Reactor/Notifiers/Registered.antt =====
-- The notifiers in memory and their table (runner/src/reactor.rs, runner/src/callback.rs).
use qscheduler.Base.{
  ℕ, ◌+◌, ◌<◌, ◌≡◌, inl, inr, String, false, Option, none, some, get, insert, remove, get-insert,
  get-remove, on_value, nat_eq, nat_eq_iff, str_eq, eq_iff, nat_key, string_key, if◌then◌else◌,
  Bool-cases, Option-cases, arith,
}
use qscheduler.Callback.{
  NotifierConfiguration, NotifierMap, Notifier, add, has, validate_notifier_name,
}
use qscheduler.Callback as Callbacks
use qscheduler.Db.{Db, NotifierRow}
use qscheduler.Db.Notifiers.{notifier_row}

abbrev pub row_id : NotifierRow → ℕ
row_id row = row.id

-- The notifiers in memory are those of the table, under the same ids, and their two maps agree.
pub record IsRegistered (m : NotifierMap) (db : Db) : Type 0 where
  pub by_name :
      (name : String) → get name m.notifiers_by_name ≡ on_value row_id (get name db.notifiers)
  pub loaded :
      (name : String) (id : ℕ)
      → get name m.notifiers_by_name ≡ some id
      → (n : Notifier) × (get id m.notifiers ≡ some n) × (n.name ≡ name)
  pub listed :
      (id : ℕ) (n : Notifier)
      → get id m.notifiers ≡ some n
      → get n.name m.notifiers_by_name ≡ some id
  pub below :
      (name : String) (row : NotifierRow)
      → get name db.notifiers ≡ some row
      → row.id < db.next_notifier_id

module _ (m : NotifierMap) (db : Db) (h : IsRegistered m db) where
  -- The next id is in nobody's use.
  next_free : (n : Notifier) → get db.next_notifier_id m.notifiers ≡ some n → ⊥
  next_free n there =
      let named = h.listed db.next_notifier_id n there in
      elim (Option-cases (get n.name db.notifiers)) [
        | inl absent ↦ absurd (ground (arith, named, h.by_name n.name, absent))
        | inr (row, found) ↦
            absurd (ground (arith, named, h.by_name n.name, found, h.below n.name row found))
      ]

  get_other :
      (j : ℕ) (k : Notifier) (looked new : Option Notifier)
      → get j m.notifiers ≡ some k
      → looked ≡ (if nat_eq db.next_notifier_id j then new else get j m.notifiers)
      → looked ≡ some k
  get_other j k looked new there looks = elim (Bool-cases (nat_eq db.next_notifier_id j)) [
    | inl hit ↦
        let next : get db.next_notifier_id m.notifiers ≡ some k =
          ground (arith, there, hit, nat_eq_iff db.next_notifier_id j) in
        absurd (next_free k next)
    | inr miss ↦ ground (arith, looks, miss, there)
  ]

  pub add-IsRegistered :
      (config : NotifierConfiguration)
      → get config.name db.notifiers ≡ none
      → IsRegistered (add m db.next_notifier_id config) (record db {
        notifiers = insert config.name (notifier_row db.next_notifier_id config) db.notifiers;
        next_notifier_id = db.next_notifier_id + 1;
      })
  unfolding add
  add-IsRegistered config new =
      let id = db.next_notifier_id in
      let row = notifier_row id config in
      let n : Notifier = record {
        name = config.name;
        url = config.url;
        has_token = has config.token;
      } in
      record {
        by_name = λ name. ground (
          arith,
          h.by_name name,
          get-insert config.name name id m.notifiers_by_name,
          get-insert config.name name row db.notifiers,
        );
        loaded = λ name j found. elim (Bool-cases (str_eq config.name name)) [
          | inl hit ↦ (
            n,
            ground (
              arith,
              hit,
              found,
              get-insert config.name name id m.notifiers_by_name,
              get-insert id j n m.notifiers,
              nat_eq_iff id j,
            ),
            (eq_iff config.name name).0 hit,
          )
          | inr miss ↦
              let old : get name m.notifiers_by_name ≡ some j =
                ground (arith, miss, found, get-insert config.name name id m.notifiers_by_name) in
              let (k, there, named) = h.loaded name j old in
              (
                k,
                get_other j k (get j (insert id n m.notifiers)) (some n) there
                    (get-insert id j n m.notifiers),
                named,
              )
        ];
        listed = λ j k found. elim (Bool-cases (nat_eq id j)) [
          | inl hit ↦
              let is_new : n ≡ k = ground (arith, hit, found, get-insert id j n m.notifiers) in
              ground (
                arith,
                is_new,
                hit,
                nat_eq_iff id j,
                eq_iff config.name k.name,
                get-insert config.name k.name id m.notifiers_by_name,
              )
          | inr miss ↦
              let old : get j m.notifiers ≡ some k =
                ground (arith, miss, found, get-insert id j n m.notifiers) in
              ground (
                arith,
                new,
                h.listed j k old,
                h.by_name config.name,
                eq_iff config.name k.name,
                get-insert config.name k.name id m.notifiers_by_name,
              )
        ];
        below = λ name r found.
            ground (arith, found, get-insert config.name name row db.notifiers, h.below name r);
      }

  pub remove-IsRegistered :
      (name : String) (row : NotifierRow) (db' : Db)
      → get name db.notifiers ≡ some row
      → db'.notifiers ≡ remove name db.notifiers
      → db'.next_notifier_id ≡ db.next_notifier_id
      → IsRegistered (Callbacks.remove_notifier m name).0 db'
  unfolding Callbacks.remove_notifier
  remove-IsRegistered name row db' there fewer same_next =
      let known : get name m.notifiers_by_name ≡ some row.id =
        ground (arith, h.by_name name, there) in
      rw (known, Callbacks.remove_notifier)
        (record {
          by_name = λ j. ground (
            arith,
            fewer,
            h.by_name j,
            get-remove name j m.notifiers_by_name,
            get-remove name j db.notifiers,
          );
          loaded = λ j id found.
              let apart : str_eq name j ≡ false =
                ground (arith, found, get-remove name j m.notifiers_by_name) in
              let old : get j m.notifiers_by_name ≡ some id =
                ground (arith, found, apart, get-remove name j m.notifiers_by_name) in
              let (n, is_there, named) = h.loaded j id old in
              let (n', is_there', named') = h.loaded name row.id known in
              (
                n,
                ground (
                  arith,
                  is_there,
                  is_there',
                  named,
                  named',
                  apart,
                  eq_iff name j,
                  nat_eq_iff row.id id,
                  get-remove row.id id m.notifiers,
                ),
                named,
              );
          listed = λ id n found.
              let old : get id m.notifiers ≡ some n =
                ground (arith, found, get-remove row.id id m.notifiers) in
              let named = h.listed id n old in
              ground (
                arith,
                found,
                named,
                known,
                eq_iff name n.name,
                nat_eq_iff row.id id,
                get-remove row.id id m.notifiers,
                get-remove name n.name m.notifiers_by_name,
              );
          below = λ j r found.
              ground (arith, fewer, same_next, found, get-remove name j db.notifiers, h.below j r);
        })
