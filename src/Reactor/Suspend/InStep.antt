-- ===== src/Reactor/Suspend/InStep.antt =====
-- The suspensions in memory and in the database (runner/src/reactor.rs).
use qscheduler.Base.{
  ℕ, ◌≡◌, refl, inl, inr, String, Option, none, some, List, [], ◌∷◌, ◌++◌, get, get-insert, nat_eq,
  nat_eq_iff, nat_key, if◌then◌else◌, Bool-cases, Option-cases, arith,
}
use qscheduler.Error.{Result, ok, err, Result-cases, machine_not_suspended, >>=-eq-ok, >>-eq-ok}
use qscheduler.Suspension.{SuspendCancel, Suspension}
use qscheduler.Suspension as Suspensions
use qscheduler.Machine.{Machine, set_suspension, request_suspend_cancel, wake_launcher}
use qscheduler.Machine.Registry.{find_machine, set_machine}
use qscheduler.Core.{Core}
use qscheduler.Db.{
  Db, Access, served, broken, SuspensionRow, is_active, active_of, end_active, insert_suspension,
  end_suspension,
}
use qscheduler.Reactor.Suspend.{
  suspend_begin, suspended, suspend_machine, resume_machine, check_message, check_unsuspended,
}

active_of-append :
    (j i : ℕ) (rows : List SuspensionRow) (s : Suspension)
    → s.resumed_at ≡ none
    → active_of i rows ≡ none
    → active_of j (rows ++ record { machine_id = i; suspension = s } ∷ [])
      ≡ (if nat_eq i j then some s else active_of j rows)
unfolding active_of is_active
active_of-append j i [] s open_one idle = ground arith
active_of-append j i (row ∷ rows) s open_one idle =
    ground (arith, active_of-append j i rows s open_one, nat_eq_iff i j)

active_of-end_active :
    (now i j : ℕ) (rows : List SuspensionRow)
    → active_of j (end_active now i rows) ≡ (if nat_eq i j then none else active_of j rows)
unfolding active_of is_active end_active
active_of-end_active now i j [] = ground arith
active_of-end_active now i j (row ∷ rows) =
    ground (arith, active_of-end_active now i j rows, nat_eq_iff i j)

insert_suspension-active :
    (access : Access) (now : ℕ) (db db' : Db) (id : ℕ) (name message : String)
    (cancel : SuspendCancel) (s : Suspension) (j : ℕ)
    → insert_suspension access now db id name message cancel ≡ ok (db', s)
    → active_of j db'.suspensions ≡ (if nat_eq id j then some s else active_of j db.suspensions)
unfolding insert_suspension
insert_suspension-active broken now db db' id name message cancel s j done = cc
insert_suspension-active served now db db' id name message cancel s j done =
    let opened : Suspension = record {
      message = message;
      cancel = cancel;
      suspended_at = now;
      resumed_at = none;
    } in
    elim (Option-cases (active_of id db.suspensions)) [
      | inr (old, active) ↦ ground (arith, active, done)
      | inl idle ↦ ground (arith, idle, done, active_of-append j id db.suspensions opened refl idle)
    ]

end_suspension-active :
    (access : Access) (now : ℕ) (db db' : Db) (id : ℕ) (s : Option Suspension) (j : ℕ)
    → end_suspension access now db id ≡ ok (db', s)
    → (active_of j db'.suspensions ≡ (if nat_eq id j then none else active_of j db.suspensions))
      × (s ≡ none → active_of id db.suspensions ≡ none)
unfolding end_suspension
end_suspension-active broken now db db' id s j done = cc
end_suspension-active served now db db' id s j done =
    elim (Option-cases (active_of id db.suspensions)) [
      | inr (old, active) ↦ (
        ground (arith, done, active_of-end_active now id j db.suspensions),
        λ gone. ground (arith, active, done, gone),
      )
      | inl idle ↦
          (ground (arith, done, active_of-end_active now id j db.suspensions), λ gone. idle)
    ]

module _ {U : Type 0} where
  -- A machine is suspended in memory exactly if it is in the database, by the same suspension.
  unfoldable pub IsInStep : Core U → Db → Type 0
  IsInStep c db =
      (id : ℕ) (m : Machine U)
      → get id c.machine_map.machines ≡ some m
      → m.suspension ≡ active_of id db.suspensions

  suspended-suspension :
      (m : Machine U) (s : Suspension) (cancel : SuspendCancel) (message : String)
      → (suspended m s cancel message).suspension ≡ some s
  unfolding suspended set_suspension request_suspend_cancel wake_launcher
  suspended-suspension m s Suspensions.none message = refl
  suspended-suspension m s Suspensions.waiting message = refl
  suspended-suspension m s Suspensions.all message = refl

  set_machine-IsInStep :
      (c : Core U) (db db' : Db) (id : ℕ) (m' : Machine U)
      → IsInStep c db
      → ((j : ℕ)
          → active_of j db'.suspensions
            ≡ (if nat_eq id j then m'.suspension else active_of j db.suspensions))
      → IsInStep (record c { machine_map = set_machine c.machine_map id m' }) db'
  unfolding IsInStep set_machine
  set_machine-IsInStep c db db' id m' in_step moved j m found = elim (Bool-cases (nat_eq id j)) [
    | inl same ↦ ground (arith, get-insert id j m' c.machine_map.machines, moved j, found, same)
    | inr other ↦
        ground
          (arith, get-insert id j m' c.machine_map.machines, moved j, found, other, in_step j m)
  ]

  -- What the first part of a suspension has done.
  suspend_begin-active :
      (access : Access) (now : ℕ) (c : Core U) (db db' : Db) (id : ℕ) (message : String)
      (cancel : SuspendCancel) (s : Suspension) (j : ℕ)
      → suspend_begin access now c db id message cancel ≡ ok (db', s)
      → active_of j db'.suspensions ≡ (if nat_eq id j then some s else active_of j db.suspensions)
  unfolding suspend_begin
  suspend_begin-active access now c db db' id message cancel s j done =
      let rest = >>-eq-ok (check_message message) _ done in
      let (machine, found, unsuspended) = >>=-eq-ok (find_machine c.machine_map id) _ rest in
      let (name, free, inserted) = >>=-eq-ok (check_unsuspended machine) _ unsuspended in
      insert_suspension-active access now db db' id name message cancel s j inserted

  -- When the machine is still there at the last lock, a request to suspend it returns, and memory
  -- and database agree on the suspensions of all machines afterwards as they did before.
  pub suspend_machine-IsInStep :
      (access : Access) (now : ℕ) (begin end : Core U) (db : Db) (id : ℕ) (message : String)
      (cancel : SuspendCancel) (m : Machine U)
      → IsInStep end db
      → get id end.machine_map.machines ≡ some m
      → (c' : Core U) × (db' : Db) × (r : Result Suspension) × (suspend_machine access now begin end
            db id message cancel
          ≡ some (c', db', r))
        × IsInStep c' db'
  unfolding suspend_machine
  suspend_machine-IsInStep access now begin end db id message cancel m in_step found =
      elim (Result-cases (suspend_begin access now begin db id message cancel)) [
        | inl (e, failed) ↦ (end, db, err e, rw (suspend_machine, failed) refl, in_step)
        | inr ((db', s), done) ↦ (
          record end {
            machine_map = set_machine end.machine_map id (suspended m s cancel message);
          },
          db',
          ok s,
          rw (suspend_machine, done, found) refl,
          set_machine-IsInStep end db db' id (suspended m s cancel message) in_step (λ j. ground (
            arith,
            suspended-suspension m s cancel message,
            suspend_begin-active access now begin db db' id message cancel s j done,
          )),
        )
      ]

  pub resume_machine-IsInStep :
      (access : Access) (now : ℕ) (begin end : Core U) (db : Db) (id : ℕ) (m : Machine U)
      → IsInStep end db
      → get id end.machine_map.machines ≡ some m
      → (c' : Core U) × (db' : Db) × (r : Result Suspension) × (resume_machine access now begin end
            db id
          ≡ some (c', db', r))
        × IsInStep c' db'
  unfolding resume_machine IsInStep set_suspension
  resume_machine-IsInStep access now begin end db id m in_step found =
      elim (Result-cases (find_machine begin.machine_map id)) [
        | inl (e, unknown) ↦ (end, db, err e, rw (resume_machine, unknown) refl, in_step)
        | inr (named, known) ↦ elim (Result-cases (end_suspension access now db id)) [
          | inl (e, failed) ↦ (end, db, err e, rw (resume_machine, known, failed) refl, in_step)
          | inr ((db', none), idle) ↦ (
            end,
            db',
            err (machine_not_suspended named.config.name),
            rw (resume_machine, known, idle) refl,
            λ j m' at.
                let (after, before) = end_suspension-active access now db db' id none j idle in
                ground (arith, in_step j m' at, after, before refl, nat_eq_iff id j),
          )
          | inr ((db', some s), was) ↦ (
            record end { machine_map = set_machine end.machine_map id (set_suspension m none) },
            db',
            ok s,
            rw (resume_machine, known, was, found) refl,
            set_machine-IsInStep end db db' id (set_suspension m none) in_step
                (λ j. (end_suspension-active access now db db' id (some s) j was).0),
          )
        ]
      ]
