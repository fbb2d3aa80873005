-- ===== src/Manager/Closing.antt =====
-- Close (backend/internal/download/manager.go). It waits for the runs, so it is two steps: up to the
-- wait, and what follows it.
pub mod Stops
use downpeed_fluter.Base.{
  ℕ, suc, Bool, true, false, not, ◌&&◌, ◌||◌, [], ◌∷◌, Option, none, some, pos, Text, Table, lookup,
  insert, delete, if◌then◌else◌, eqb_ℤ, Outcome, ok, err, ℤ, is_some,
}
use downpeed_fluter.Errors.{
  DownloadError, task_invalid_state, task_not_found, transfer_canceled, task_file_delete,
}
use downpeed_fluter.Task.{
  TaskState, Task, TransferRequest, BtTransferRequest, is_queued, is_bt, is_downloading, is_paused,
  is_retrying, is_completed, is_terminal_state, canceled,
}
use downpeed_fluter.Paths.{is_abs, join, text_eq}
use downpeed_fluter.Manager.State.{
  Manager, TaskRun, TaskStore, no_request, no_bt_request, or_zero, Stat, found, not_exist,
  stat_failed, FileInfo, Files, cancelled, waited, removed, removed_all, cleaned_up, Removal,
  removed_file, task_removed,
}
use downpeed_fluter.Manager.Persist.{
  persist_task_locked, publish, publish_event, mark_bt_diagnostics_stopped_locked, answered,
  persisted,
}
use downpeed_fluter.Manager.Scheduler.{
  remove_from_queue_locked, refresh_schedule_timer_locked, is_after,
}
use downpeed_fluter.Manager.Runs.{with_effect}
use downpeed_fluter.Manager.Pausing.{paused_task, reconciled_partial_progress}
use downpeed_fluter.Manager.Resuming.{remove_failed}
use downpeed_fluter.Manager.Removing.{
  Canceling, canceled_task, set_canceled, cancel_run, begun, can_cancel, cancel_known, cancel_begin,
  await, report_canceled, cancel_finish,
}

-- A queued task that has not started and is planned for later keeps its plan.
abbrev pub keeps_plan : ℕ → Task → Bool
keeps_plan now task =
    is_queued task.state && is_after task.scheduled_at now && eqb_ℤ task.downloaded (pos 0)

abbrev pub close_task : ℕ → Text → Task → Manager → Manager
close_task now id task m =
    if keeps_plan now task
    then (persist_task_locked task m).0
    else if is_downloading task.state || is_queued task.state || is_retrying task.state
    then (let task' = paused_task now task in
        (persist_task_locked task' (
          mark_bt_diagnostics_stopped_locked task'
            (record m { tasks = insert id task' m.tasks }))).0)
    else m

unfoldable pub close_tasks : ℕ → Table Task → Manager → Manager
unfolding persist_task_locked mark_bt_diagnostics_stopped_locked
close_tasks now [] m = m
close_tasks now ((id, task) ∷ rest) m = close_tasks now rest (close_task now id task m)

-- Close up to its wait for the runs. A second call does nothing.
unfoldable pub close_begin : ℕ → Manager → Manager
unfolding close_tasks
close_begin now m =
    if m.closed
    then m
    else let stopped = record m {
      closed = true;
      schedule_generation = suc m.schedule_generation;
      schedule_timer = none;
    } in
      let swept = close_tasks now m.tasks stopped in record swept { queue = [] }

abbrev pub first_error : Option DownloadError → Option DownloadError → Option DownloadError
first_error none e = e
first_error (some e) later = some e

abbrev pub settle_size : ℕ → Text → Task → Outcome DownloadError ℤ → Manager → Manager × Task
settle_size now id task (err e) m = (m, task)
settle_size now id task (ok downloaded) m =
    let task' = record task { downloaded = downloaded; updated_at = now } in
    (record m { tasks = insert id task' m.tasks }, task')

abbrev pub persist_settled : Manager × Task → Manager × Option DownloadError
persist_settled (m, task) = persist_task_locked task m

abbrev pub settle_task : Files → ℕ → Text → Task → Manager → Manager × Option DownloadError
settle_task files now id task m =
    if not (is_paused task.state)
    then (m, none)
    else if is_bt task.protocol
    then persist_task_locked task m
    else persist_settled (
        settle_size now id task
          (reconciled_partial_progress files task (or_zero no_request (lookup id m.requests))) m)

unfoldable pub settle_tasks :
    Files → ℕ → Table Task → Option DownloadError → Manager → Manager × Option DownloadError
unfolding persist_task_locked reconciled_partial_progress
settle_tasks files now [] close_error m = (m, close_error)
settle_tasks files now ((id, task) ∷ rest) close_error m =
    let (m', e) = settle_task files now id task m in
    settle_tasks files now rest (first_error close_error e) m'

-- What Close does when all runs are done; `store_close` is the answer of the store's Close.
unfoldable pub close_finish :
    Files → ℕ → Option DownloadError → Manager → Manager × Option DownloadError
unfolding settle_tasks
close_finish files now store_close m =
    let (m', e) = settle_tasks files now m.tasks none m in
    (m', if is_some m.store then first_error e store_close else e)
