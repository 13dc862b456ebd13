-- ===== src/Core/Restore/TaskRows.antt =====
-- The restoration of one task (runner/src/core.rs).
use qscheduler.Base.{
  get-insert_self, ℕ, ◌+◌, ◌<◌, ◌≡◌, refl, sym, ap, subst, ◌∙◌, inl, inr, String, true, false, none,
  some, [], ◌∷◌, ◌++◌, get, insert, get-insert, nat_eq, nat_key, length, Bool-cases, Option-cases,
  arith,
}
use qscheduler.User.{u32_mod, u64_mod}
use qscheduler.User.Counts.{items_of, bytes_of}
use qscheduler.Task.{
  TaskMap, parent_new, Task, TaskMap, TaskConfig, insert_task, is_final, running, session_id,
  set_state, set_backend_id, set_started_at,
}
use qscheduler.Task as Tasks
use qscheduler.Machine.{F64}
use qscheduler.Machine.Queue.{queue_task}
use qscheduler.Core.Restore.{
  Restored, restore_submitted, restore_queued, restore_task, with_submitted, limit_of_row, requeue,
}
use qscheduler.Core.Rows.{RestoredTask, task_config, started}
use qscheduler.Core.Restore.Kept.{keep_restored_task-Kept}
use qscheduler.Core.Restore.Steps.{
  KeptIn, Step, row_bytes, task_config-payload, task_config-session, is_in, is_in-some, is_kept,
  started-same,
}

module _ {U : Type 0} ⦃f : F64 U⦄ where
  restore_queued-Step :
      (now : ℕ) (r : Restored U) (row : RestoredTask) (config : TaskConfig)
      → KeptIn r
      → get row.id r.core.task_map ≡ none
      → ((u : ℕ) → items_of r.core.user_map u + 1 < u32_mod)
      → ((u : ℕ) → bytes_of r.core.user_map u + length config.payload < u64_mod)
      → (r' : Restored U) × (restore_queued now r row config ≡ some r')
        × Step r r' row.id (nat_eq row.id) 1 (length config.payload)
        × (session_id config.parent ≡ none → is_in row.id r'.core.task_map ≡ true)
  unfolding restore_queued Tasks.new insert_task is_final
  restore_queued-Step now r row config kept fresh room bytes_room =
      elim (Option-cases (session_id config.parent)) [
        | inr (s_id, in_session) ↦ (
          record r { orphan_cancels = r.orphan_cancels ++ row.id ∷ [] },
          rw (restore_queued, in_session) refl,
          record {
            kept = kept;
            no_task = λ j other absent. absent;
            stays = λ j t other there. there;
            no_session = λ j other absent. absent;
            items = λ u. omega arith;
            bytes = λ u. omega arith;
          },
          λ alone. absurd (ground (arith, alone, in_session)),
        )
        | inl alone ↦
            let task = Tasks.new row.id row.created_at config in
            let (users', done, after, added) =
              keep_restored_task-Kept now r.core.task_map r.core.session_map r.core.user_map
                row.user_name task kept fresh refl refl (room config.user_id)
                (bytes_room config.user_id) in
            let (machines, woken) =
              requeue (λ m. queue_task m task) r.core.machine_map r.woken config.machine_id in
            (
              record r {
                core = record r.core {
                  machine_map = machines;
                  task_map = insert row.id task r.core.task_map;
                  user_map = users';
                };
                woken = woken;
              },
              rw (restore_queued, alone, done) refl,
              record {
                kept = after;
                no_task = λ j other absent.
                    ground (arith, other, absent, get-insert row.id j task r.core.task_map);
                stays = λ j t other there.
                    ground (arith, other, there, get-insert row.id j task r.core.task_map);
                no_session = λ j other absent. absent;
                items = λ u. ground (arith, added.items u);
                bytes = λ u. ground (arith, added.bytes u);
              },
              λ alone'. is_in-some row.id _ task (get-insert_self row.id task r.core.task_map),
            )
      ]

  restore_submitted-Step :
      (now : ℕ) (r : Restored U) (row : RestoredTask) (config : TaskConfig) (backend_id : String)
      → KeptIn r
      → get row.id r.core.task_map ≡ none
      → ((u : ℕ) → items_of r.core.user_map u + 1 < u32_mod)
      → ((u : ℕ) → bytes_of r.core.user_map u + length config.payload < u64_mod)
      → (r' : Restored U) × (restore_submitted now r row config backend_id ≡ some r')
        × Step r r' row.id (nat_eq row.id) 1 (length config.payload)
        × (is_in row.id r'.core.task_map ≡ true)
  unfolding restore_submitted Tasks.new insert_task is_final set_state set_backend_id set_started_at
  restore_submitted-Step now r row config backend_id kept fresh room bytes_room =
      let t0 =
        set_backend_id (record (Tasks.new row.id row.created_at config) { state = running })
          backend_id in
      let t = started t0 row.started_at in
      let (same_id, same_config, same_state, same_end) = started-same t0 row.started_at in
      let (users', done, after, added) =
        keep_restored_task-Kept now r.core.task_map r.core.session_map r.core.user_map row.user_name
          t kept (subst (λ i. get i r.core.task_map ≡ none) (sym same_id) fresh)
          (subst (λ st. is_final st ≡ false) (sym same_state) refl) same_end (room t.config.user_id)
          (subst (λ c. bytes_of r.core.user_map t.config.user_id + length c.payload < u64_mod)
            (sym same_config) (bytes_room t.config.user_id)) in
      let bytes_added = ap (λ c. length c.payload) same_config in
      (
        with_submitted r row config backend_id (insert t.id t r.core.task_map) users',
        rw (restore_submitted, done) refl,
        record {
          kept = after;
          no_task = λ j other absent.
              ground (arith, same_id, other, absent, get-insert t.id j t r.core.task_map);
          stays = λ j t' other there.
              ground (arith, same_id, other, there, get-insert t.id j t r.core.task_map);
          no_session = λ j other absent. absent;
          items = λ u. ground (arith, added.items u);
          bytes = λ u. ground (arith, added.bytes u, bytes_added);
        },
        is_in-some row.id _ t (
            subst (λ i. get i (insert t.id t r.core.task_map) ≡ some t) same_id
              (get-insert_self t.id t r.core.task_map)),
      )

  pub restore_task-Step :
      (now : ℕ) (r : Restored U) (row : RestoredTask) (config : TaskConfig)
      → KeptIn r
      → task_config (limit_of_row r.core.machine_map row) row ≡ some config
      → get row.id r.core.task_map ≡ none
      → ((u : ℕ) → items_of r.core.user_map u + 1 < u32_mod)
      → ((u : ℕ) → bytes_of r.core.user_map u + row_bytes row < u64_mod)
      → (r' : Restored U) × (restore_task now r row ≡ some r')
        × Step r r' row.id (nat_eq row.id) 1 (row_bytes row)
        × (is_kept r'.core.task_map row ≡ true)
  unfolding restore_task restore_queued restore_submitted
  restore_task-Step now r row config kept readable fresh room bytes_room =
      let same = task_config-payload (limit_of_row r.core.machine_map row) row config readable in
      let size : length config.payload ≡ row_bytes row = ap length same in
      let bytes_room' : (u : ℕ) → bytes_of r.core.user_map u + length config.payload < u64_mod =
        λ u. subst (λ n. bytes_of r.core.user_map u + n < u64_mod) (sym size) (bytes_room u) in
      elim (Bool-cases (nat_eq row.id 0)) [
        | inl unset ↦ (
          r,
          rw (restore_task, unset) refl,
          record {
            kept = kept;
            no_task = λ j other absent. absent;
            stays = λ j t other there. there;
            no_session = λ j other absent. absent;
            items = λ u. omega arith;
            bytes = λ u. omega arith;
          },
          ground (arith, unset),
        )
        | inr set ↦ elim (Option-cases row.backend_id) [
          | inr (backend_id, sent) ↦
              let (r', done, stepped, here) =
                restore_submitted-Step now r row config backend_id kept fresh room bytes_room' in
              let which : restore_task now r row ≡ restore_submitted now r row config backend_id =
                rw (restore_task, set, readable, sent) refl in
              (
                r',
                which ∙ done,
                subst (Step r r' row.id (nat_eq row.id) 1) size stepped,
                ground (arith, here, sent),
              )
          | inl waits ↦
              let (r', done, stepped, here) =
                restore_queued-Step now r row config kept fresh room bytes_room' in
              let which : restore_task now r row ≡ restore_queued now r row config =
                rw (restore_task, set, readable, waits) refl in
              (
                r',
                which ∙ done,
                subst (Step r r' row.id (nat_eq row.id) 1) size stepped,
                ground (
                  arith,
                  here,
                  waits,
                  task_config-session (limit_of_row r.core.machine_map row) row config readable,
                ),
              )
        ]
      ]
