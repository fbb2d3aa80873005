-- ===== src/Manager/Pausing.antt =====
-- Pause (backend/internal/download/manager.go). It lets go of the lock while it waits for the run to
-- end, so it is two steps with others in between: pause_begin, and pause_finish once the run is done.
pub mod OnDisk
pub mod Paused
use downpeed_fluter.Base.{
  ℕ, Bool, false, ◌&&◌, ◌||◌, [], Option, none, some, ℤ, pos, Text, lookup, insert, if◌then◌else◌,
  is_some, ltb_ℤ, eqb_ℤ, Outcome, ok, err,
}
use downpeed_fluter.Errors.{
  DownloadError, task_invalid_state, task_not_found, partial_file_changed, transfer_paused,
}
use downpeed_fluter.Checkpoint.{TransferCheckpoint, validate_transfer_checkpoint}
use downpeed_fluter.Task.{
  other_protocol, other_state, Task, TransferRequest, is_queued, is_bt, is_downloading, is_paused,
  is_retrying, paused,
}
use downpeed_fluter.Manager.State.{
  Manager, TaskRun, no_request, or_zero, Stat, found, not_exist, Files, cancelled, waited,
}
use downpeed_fluter.Manager.Persist.{
  persist_task_locked, publish, mark_bt_diagnostics_stopped_locked,
}
use downpeed_fluter.Manager.Scheduler.{remove_from_queue_locked, refresh_schedule_timer_locked}
use downpeed_fluter.Manager.Runs.{partial_file_size, with_effect}

-- The zero value of a Task.
abbrev pub no_task : Task
no_task = record {
  id = [];
  protocol = other_protocol [];
  url = [];
  final_url = [];
  file_name = [];
  save_directory = [];
  file_path = [];
  state = other_state [];
  scheduled_at = none;
  downloaded = pos 0;
  total = pos 0;
  speed_bps = pos 0;
  connections = 0;
  retry_count = 0;
  next_retry_at = none;
  error = none;
  created_at = 0;
  updated_at = 0;
  completed_at = none;
}

abbrev pub checked_size : Task → Outcome DownloadError ℤ → Outcome DownloadError ℤ
checked_size task (err e) = err e
checked_size task (ok size) =
    if ltb_ℤ (pos 0) task.total && ltb_ℤ task.total size then err partial_file_changed else ok size

abbrev pub nothing_yet : Stat → Outcome DownloadError ℤ
nothing_yet not_exist = ok (pos 0)
nothing_yet _ = err partial_file_changed

abbrev pub holds : TransferCheckpoint → Stat → Bool
holds checkpoint (found info) = info.is_regular && eqb_ℤ info.size checkpoint.total
holds checkpoint _ = false

abbrev pub checked_against :
    TransferCheckpoint → Stat → Outcome DownloadError ℤ → Outcome DownloadError ℤ
checked_against checkpoint stat (err e) = err e
checked_against checkpoint stat (ok downloaded) =
    if holds checkpoint stat then ok downloaded else err partial_file_changed

abbrev pub progress_on_disk :
    Stat → Task → TransferRequest → Option TransferCheckpoint → Outcome DownloadError ℤ
progress_on_disk stat task request none =
    if request.allow_segments then nothing_yet stat else checked_size task (partial_file_size stat)
progress_on_disk stat task request (some checkpoint) =
    checked_against checkpoint stat (validate_transfer_checkpoint (some checkpoint) task.total)

unfoldable pub reconciled_partial_progress :
    Files → Task → TransferRequest → Outcome DownloadError ℤ
unfolding partial_file_size
reconciled_partial_progress files task request =
    progress_on_disk (files.lstat request.work_path) task request request.checkpoint

-- What a step of an operation comes to: it is over, or it waits for a run.
pub data Pausing : Type 0 where
  over : Outcome DownloadError Task → Pausing
  waiting : TaskRun → Task → Pausing

abbrev pub paused_task : ℕ → Task → Task
paused_task now task = record task {
  state = paused;
  speed_bps = pos 0;
  connections = 0;
  next_retry_at = none;
  updated_at = now;
  completed_at = none;
}

-- The task is paused, out of the queue and saved (a failure to save it is passed over).
unfoldable pub set_paused : ℕ → Text → Task → Manager → Manager
unfolding remove_from_queue_locked refresh_schedule_timer_locked mark_bt_diagnostics_stopped_locked
    persist_task_locked
set_paused now id task m =
    let task' = paused_task now task in
    let unqueued = refresh_schedule_timer_locked now (remove_from_queue_locked id m) in
    let stored =
      mark_bt_diagnostics_stopped_locked task'
        (record unqueued { tasks = insert id task' unqueued.tasks }) in
    (persist_task_locked task' stored).0

abbrev pub stop_run : Task → Option TaskRun → Manager → Manager × Pausing
stop_run task none m = (publish task m, over (ok task))
stop_run task (some run) m = (with_effect (cancelled run transfer_paused) m, waiting run task)

abbrev pub can_pause : Task → Option TaskRun → Bool
can_pause task run =
    (is_downloading task.state && is_some run) || is_queued task.state || is_retrying task.state

abbrev pub pause_known : ℕ → Text → Manager → Option Task → Manager × Pausing
pause_known now id m none = (m, over (err task_not_found))
pause_known now id m (some task) =
    if can_pause task (lookup id m.runs)
    then stop_run (paused_task now task) (lookup id m.runs) (set_paused now id task m)
    else (m, over (err task_invalid_state))

unfoldable pub pause_begin : ℕ → Text → Manager → Manager × Pausing
unfolding set_paused publish
pause_begin now id m =
    if m.closed
    then (m, over (err task_invalid_state))
    else pause_known now id m (lookup id m.tasks)

abbrev pub publish_saved :
    Task → Manager × Option DownloadError → Manager × Outcome DownloadError Task
publish_saved task (m, none) = (publish task m, ok task)
publish_saved task (m, some e) = (m, err e)

abbrev pub pause_at :
    ℕ → Text → Manager → Task → Outcome DownloadError ℤ → Manager × Outcome DownloadError Task
pause_at now id m task (err e) = (m, err e)
pause_at now id m task (ok downloaded) =
    if is_paused task.state
    then (let task' = record task { downloaded = downloaded; updated_at = now } in
        publish_saved task'
          (persist_task_locked task' (record m { tasks = insert id task' m.tasks })))
    else (publish task m, ok task)

-- What is left of Pause when the run is done, with the task as pause_begin left it.
unfoldable pub pause_finish :
    Files → ℕ → Text → TaskRun → Task → Manager → Manager × Outcome DownloadError Task
unfolding reconciled_partial_progress publish persist_task_locked
pause_finish files now id run task m =
    let m' = with_effect (waited run) m in
    if is_bt task.protocol
    then (publish task m', ok task)
    else pause_at now id m' (or_zero no_task (lookup id m.tasks))
        (reconciled_partial_progress files task (or_zero no_request (lookup id m.requests)))
