-- ===== src/Manager/Restore.antt =====
-- The loop of restore (backend/internal/download/persistence.go).
pub mod Filed
pub mod Coherent
pub mod Stranded
use downpeed_fluter.Base.{
  ◌^◌, dec_lt, on_test, All, ◌↔◌, Text-discrete, if_pos, if_neg, ite, Option-cases, is_some, any,
  all, map, ltb_ℤ, leb_ℤ, eqb_ℤ, Table, lookup, insert, delete, Member, length-append, ℕ, zero, suc,
  ◌+◌, ◌-◌, ◌*◌, ◌/◌, ◌%◌, ◌≤◌, ◌<◌, ◌≡◌, ◌≢◌, ◌∙◌, ◌⊎◌, inl, inr, refl, sym, ap, subst, arith,
  Bool, true, false, not, ◌&&◌, ◌||◌, List, [], ◌∷◌, ◌++◌, length, Option, none, some, Text, text,
  if◌then◌else◌, Outcome, ok, err, Bool-cases, ltb, leb, ◌==◌, pos, negsuc, ℤ,
}
use downpeed_fluter.Task.{StoredTask, Task, is_queued, BtTransferRequest, is_bt}
use downpeed_fluter.Manager.State.{Manager, removed, TaskStore}
use downpeed_fluter.Manager.Restoring.{Recovered}
use downpeed_fluter.Manager.Stored.{Startup, reconcile_stored_bt_task, Loaded, reconcile_stored}
use downpeed_fluter.Manager.Scheduler.{refresh_schedule_timer_locked, is_after, enqueue_locked}
use downpeed_fluter.Errors.{DownloadError, task_persistence, unnamed}
use downpeed_fluter.Manager.Runs.{with_effect}
use downpeed_fluter.Manager.Persist.{
  persisted, save, stored_task, stored_bt_task, new_bt_diagnostics,
}

-- The error of a store is returned as it is.
abbrev pub stored_or_fails : Manager → TaskStore × Bool → Manager × Option DownloadError
stored_or_fails m (store, true) = (record m { store = some store }, none)
stored_or_fails m (store, false) = (record m { store = some store }, some unnamed)

-- Save, where there is a store.
abbrev pub save_record : StoredTask → Option TaskStore → Manager → Manager × Option DownloadError
save_record stored none m = (m, none)
save_record stored (some store) m = stored_or_fails m (save stored store)

abbrev pub restore_bt_task :
    Manager → Outcome DownloadError (Task × BtTransferRequest) → Manager × Option DownloadError
restore_bt_task m (err e) = (m, some e)
restore_bt_task m (ok (task, request)) =
    if is_some (lookup task.id m.tasks)
    then (m, some task_persistence)
    else save_record (stored_bt_task task request) m.store (record m {
      tasks = insert task.id task m.tasks;
      bt_requests = insert task.id request m.bt_requests;
      bt_diagnostics = insert task.id (new_bt_diagnostics task request) m.bt_diagnostics;
    })

abbrev pub enqueue_planned :
    ℕ → Task → Manager × Option DownloadError → Manager × Option DownloadError
enqueue_planned later task (m, some e) = (m, some e)
enqueue_planned later task (m, none) =
    if is_queued task.state && is_after task.scheduled_at later
    then (enqueue_locked task.id m, none)
    else (m, none)

-- The partial file is removed before the record is filed.
abbrev pub clean_up : Recovered → Manager → Manager
clean_up r m = if r.removes then with_effect (removed r.request.work_path) m else m

abbrev pub restore_task :
    ℕ → Manager → Outcome DownloadError Recovered → Manager × Option DownloadError
restore_task later m (err e) = (m, some e)
restore_task later m (ok r) =
    let m' = clean_up r m in
    if is_some (lookup r.task.id m.tasks)
    then (m', some task_persistence)
    else enqueue_planned later r.task (
        save_record (stored_task r.task r.request) m'.store (record m' {
          tasks = insert r.task.id r.task m'.tasks;
          requests = insert r.task.id r.request m'.requests;
        }))

abbrev pub restore_record : Startup → Manager → Loaded → Manager × Option DownloadError
restore_record start m loaded =
    if is_bt loaded.stored.task.protocol
    then restore_bt_task m (reconcile_stored_bt_task loaded.now loaded.stored)
    else restore_task loaded.later m (reconcile_stored start loaded.now loaded.stored)

-- The loop over the records. An error ends it.
unfoldable pub restore_records :
    Startup → List Loaded → Manager × Option DownloadError → Manager × Option DownloadError
unfolding reconcile_stored_bt_task reconcile_stored save stored_bt_task stored_task
    new_bt_diagnostics enqueue_locked
restore_records start records (m, some e) = (m, some e)
restore_records start [] (m, none) = (m, none)
restore_records start (loaded ∷ rest) (m, none) =
    restore_records start rest (restore_record start m loaded)

abbrev pub refreshed : ℕ → Manager × Option DownloadError → Manager × Option DownloadError
refreshed now (m, some e) = (m, some e)
refreshed now (m, none) = (refresh_schedule_timer_locked now m, none)

-- What Load answers, and the clock at the end.
unfoldable pub restore :
    Startup → Outcome DownloadError (List Loaded) → ℕ → Manager → Manager × Option DownloadError
unfolding restore_records refresh_schedule_timer_locked
restore start (err e) now m = (m, some e)
restore start (ok records) now m = refreshed now (restore_records start records (m, none))
