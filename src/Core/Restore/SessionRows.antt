-- ===== src/Core/Restore/SessionRows.antt =====
-- The restoration of one session (runner/src/core.rs).
use qscheduler.Base.{
  ℕ, ◌+◌, ◌<◌, ◌≡◌, refl, ◌∙◌, inl, inr, false, none, some, get, insert, get-insert, nat_eq,
  nat_key, Bool-cases, Option-cases, arith,
}
use qscheduler.User.{u32_mod}
use qscheduler.User.Counts.{items_of}
use qscheduler.Session.{
  Session, SessionConfig, SessionMap, insert_session, set_restored_closed, is_closed,
}
use qscheduler.Session as Sessions
use qscheduler.Machine.{F64}
use qscheduler.Machine.Queue.{queue_session}
use qscheduler.Core.Restore.{Restored, restore_opened, restore_waiting, restore_session, requeue}
use qscheduler.Core.Rows.{RestoredSession, session_config, session_of_row, or_else}
use qscheduler.Core.Restore.Kept.{keep_active_session-Kept, set_restored_closed-Kept}
use qscheduler.Core.Restore.Steps.{KeptIn, Step}

module _ {U : Type 0} ⦃f : F64 U⦄ where
  restore_opened-Step :
      (now utc : ℕ) (r : Restored U) (row : RestoredSession) (s : Session) (opened_at : ℕ)
      → KeptIn r
      → get s.id r.core.session_map ≡ none
      → Step r (restore_opened now utc r row s opened_at) s.id (λ j. false) 1 0
  unfolding restore_opened insert_session
  restore_opened-Step now utc r row s opened_at kept fresh =
      let closed_at = or_else row.closed_at (or_else row.updated_at utc) in
      let (after, added, same) =
        set_restored_closed-Kept now r.core.task_map r.core.session_map r.core.user_map row.owner s
          opened_at closed_at kept fresh in
      let s' = (set_restored_closed now s opened_at closed_at row.owner r.core.user_map).0 in
      record {
        kept = after;
        no_task = λ j other absent. absent;
        stays = λ j t other there. there;
        no_session = λ j other absent.
            ground (arith, same, other, absent, get-insert s'.id j s' r.core.session_map);
        items = λ u. ground (arith, added.items u);
        bytes = λ u. ground (arith, added.bytes u);
      }

  restore_waiting-Step :
      (now : ℕ) (r : Restored U) (row : RestoredSession) (s : Session)
      → KeptIn r
      → get s.id r.core.session_map ≡ none
      → is_closed s.state ≡ false
      → s.closed_on ≡ none
      → ((u : ℕ) → items_of r.core.user_map u + 1 < u32_mod)
      → (r' : Restored U) × (restore_waiting now r row s ≡ some r')
        × Step r r' s.id (λ j. false) 1 0
  unfolding restore_waiting insert_session
  restore_waiting-Step now r row s kept fresh going open_one room =
      let (users', done, after, added) =
        keep_active_session-Kept now r.core.task_map r.core.session_map r.core.user_map row.owner s
          kept fresh going open_one (room s.config.owner_id) in
      let (machines, woken) =
        requeue (λ m. queue_session m s) r.core.machine_map r.woken s.config.machine_id in
      (
        record r {
          core = record r.core {
            machine_map = machines;
            session_map = insert s.id s r.core.session_map;
            user_map = users';
          };
          woken = woken;
        },
        rw (restore_waiting, done) refl,
        record {
          kept = after;
          no_task = λ j other absent. absent;
          stays = λ j t other there. there;
          no_session = λ j other absent.
              ground (arith, other, absent, get-insert s.id j s r.core.session_map);
          items = λ u. ground (arith, added.items u);
          bytes = λ u. ground (arith, added.bytes u);
        },
      )

  pub restore_session-Step :
      (now utc : ℕ) (r : Restored U) (row : RestoredSession) (config : SessionConfig)
      → KeptIn r
      → session_config row ≡ some config
      → get row.id r.core.session_map ≡ none
      → ((u : ℕ) → items_of r.core.user_map u + 1 < u32_mod)
      → (r' : Restored U) × (restore_session now utc r row ≡ some r')
        × Step r r' row.id (λ j. false) 1 0
  unfolding restore_session Sessions.new is_closed restore_waiting restore_opened
  restore_session-Step now utc r row config kept readable fresh room =
      elim (Bool-cases (nat_eq row.id 0)) [
        | inl unset ↦ (
          r,
          rw (restore_session, unset) refl,
          record {
            kept = kept;
            no_task = λ j other absent. absent;
            stays = λ j t other there. there;
            no_session = λ j other absent. absent;
            items = λ u. omega arith;
            bytes = λ u. omega arith;
          },
        )
        | inr set ↦ elim (Option-cases row.opened_at) [
          | inr (opened_at, opened) ↦ (
            restore_opened now utc r row (session_of_row row config) opened_at,
            rw (restore_session, set, readable, opened) refl,
            restore_opened-Step now utc r row (session_of_row row config) opened_at kept fresh,
          )
          | inl waits ↦
              let (r', done, stepped) =
                restore_waiting-Step now r row (session_of_row row config) kept fresh refl refl
                  room in
              let same : restore_session now utc r row
                  ≡ restore_waiting now r row (session_of_row row config) =
                rw (restore_session, set, readable, waits) refl in
              (r', same ∙ done, stepped)
        ]
      ]
