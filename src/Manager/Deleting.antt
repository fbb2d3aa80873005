-- ===== src/Manager/Deleting.antt =====
-- Delete and removeBTOutput (backend/internal/download/manager.go).
pub mod Deleted
use downpeed_fluter.Base.{
  ℕ, suc, Bool, true, false, not, ◌&&◌, ◌||◌, [], ◌∷◌, Option, none, some, pos, Text, Table, lookup,
  insert, delete, if◌then◌else◌, eqb_ℤ, Outcome, ok, err, ℤ, is_some,
}
use downpeed_fluter.Errors.{
  DownloadError, task_invalid_state, task_not_found, transfer_canceled, task_file_delete,
}
use downpeed_fluter.Task.{
  TaskState, Task, TransferRequest, BtTransferRequest, is_queued, is_bt, is_downloading, is_paused,
  is_retrying, is_completed, is_terminal_state, canceled,
}
use downpeed_fluter.Paths.{is_abs, join, text_eq}
use downpeed_fluter.Manager.State.{
  Manager, TaskRun, TaskStore, no_request, no_bt_request, or_zero, Stat, found, not_exist,
  stat_failed, FileInfo, Files, cancelled, waited, removed, removed_all, cleaned_up, Removal,
  removed_file, task_removed,
}
use downpeed_fluter.Manager.Persist.{
  persist_task_locked, publish, publish_event, mark_bt_diagnostics_stopped_locked, answered,
  persisted,
}
use downpeed_fluter.Manager.Scheduler.{
  remove_from_queue_locked, refresh_schedule_timer_locked, is_after,
}
use downpeed_fluter.Manager.Runs.{with_effect}
use downpeed_fluter.Manager.Pausing.{paused_task, reconciled_partial_progress}
use downpeed_fluter.Manager.Resuming.{remove_failed}
use downpeed_fluter.Manager.Removing.{
  Canceling, canceled_task, set_canceled, cancel_run, begun, can_cancel, cancel_known, cancel_begin,
  await, report_canceled, cancel_finish,
}
use downpeed_fluter.Manager.Closing.{
  keeps_plan, close_task, close_tasks, close_begin, first_error, settle_size, persist_settled,
  settle_task, settle_tasks, close_finish,
}

-- What Delete does with the file of a completed task: fail, or say whether it was deleted.
abbrev pub deletion : Removal → Outcome DownloadError Bool
deletion removed_file = ok true
deletion _ = err task_file_delete

-- removeBTOutput, where `stat` tells of the file and `removal` is the answer of RemoveAll, which is
-- not asked where it returns earlier.
unfoldable pub remove_bt_output : Stat → Removal → Task → Bool × Outcome DownloadError Bool
unfolding is_abs join
remove_bt_output stat removal task =
    if not (is_bt task.protocol)
      || not (is_abs task.save_directory)
      || not (text_eq task.file_path (join task.save_directory task.file_name))
    then (false, err task_file_delete)
    else elim stat [
      | found info ↦
          if info.is_symlink
          then (false, err task_file_delete)
          else (true, if remove_failed removal then err task_file_delete else ok true)
      | not_exist ↦ (false, err task_file_delete)
      | stat_failed ↦ (false, err task_file_delete)
    ]

abbrev pub remove_bt : Files → Task → Manager → Manager × Outcome DownloadError Bool
remove_bt files task m =
    let (asked, result) =
      remove_bt_output (files.lstat task.file_path) (files.remove task.file_path) task in
    (if asked then with_effect (removed_all task.file_path) m else m, result)

abbrev pub delete_found : Files → Task → Manager → FileInfo → Manager × Outcome DownloadError Bool
delete_found files task m info =
    if is_bt task.protocol && (info.is_regular || info.is_dir)
    then remove_bt files task m
    else if info.is_regular
    then (with_effect (removed task.file_path) m, deletion (files.remove task.file_path))
    else (m, err task_file_delete)

abbrev pub delete_at : Files → Task → Manager → Stat → Manager × Outcome DownloadError Bool
delete_at files task m not_exist = (m, ok false)
delete_at files task m stat_failed = (m, err task_file_delete)
delete_at files task m (found info) = delete_found files task m info

unfoldable pub delete_output : Files → Bool → Task → Manager → Manager × Outcome DownloadError Bool
unfolding remove_bt_output
delete_output files delete_file task m =
    if delete_file && is_completed task.state
    then delete_at files task m (files.lstat task.file_path)
    else (m, ok false)

pub record DeleteTaskResult : Type 0 where
  pub id : Text
  pub file_deleted : Bool

abbrev pub forget : Text → Manager → Manager
forget id m = record m {
  tasks = delete id m.tasks;
  requests = delete id m.requests;
  bt_requests = delete id m.bt_requests;
  bt_diagnostics = delete id m.bt_diagnostics;
}

abbrev pub delete_stored : Text → Manager → Option TaskStore → Manager × Option DownloadError
delete_stored id m none = (m, none)
delete_stored id m (some store) =
    persisted m (answered store.answers (delete id store.records) store)

abbrev pub delete_finish :
    Text
    → Task
    → Bool
    → Manager × Option DownloadError
    → Manager × Outcome DownloadError DeleteTaskResult
delete_finish id task file_deleted (m, some e) = (m, err e)
delete_finish id task file_deleted (m, none) = (
  publish_event task_removed task (remove_from_queue_locked id (forget id m)),
  ok (record { id = id; file_deleted = file_deleted }),
)

abbrev pub delete_rest :
    Text
    → Task
    → Manager × Outcome DownloadError Bool
    → Manager × Outcome DownloadError DeleteTaskResult
delete_rest id task (m, err e) = (m, err e)
delete_rest id task (m, ok file_deleted) =
    delete_finish id task file_deleted (delete_stored id m m.store)

abbrev pub delete_known :
    Files → Text → Bool → Manager → Option Task → Manager × Outcome DownloadError DeleteTaskResult
delete_known files id delete_file m none = (m, err task_not_found)
delete_known files id delete_file m (some task) =
    if is_terminal_state task.state
    then delete_rest id task (delete_output files delete_file task m)
    else (m, err task_invalid_state)

unfoldable pub delete_task :
    Files → Text → Bool → Manager → Manager × Outcome DownloadError DeleteTaskResult
unfolding delete_output remove_from_queue_locked publish_event
delete_task files id delete_file m =
    if m.closed
    then (m, err task_invalid_state)
    else delete_known files id delete_file m (lookup id m.tasks)
