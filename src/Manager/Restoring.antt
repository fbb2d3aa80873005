-- ===== src/Manager/Restoring.antt =====
-- What becomes of a stored HTTP task when the engine starts: reconcileStoredTask behind its checks,
-- reconcileScheduledTask and reconcileInterruptedTask (backend/internal/download/persistence.go).
pub mod Resumes
pub mod States
pub mod Plans
use Prim.Native.String.{String}
use downpeed_fluter.Base.{
  ℕ, Bool, true, false, not, ◌&&◌, ◌||◌, ◌==◌, Option, none, some, ℤ, pos, if◌then◌else◌, is_some,
  ltb_ℤ, eqb_ℤ, Outcome, ok, err,
}
use downpeed_fluter.Errors.{DownloadError, task_persistence}
use downpeed_fluter.Checkpoint.{TransferCheckpoint, validate_transfer_checkpoint}
use downpeed_fluter.Task.{
  Task, TransferRequest, TaskState, queued, downloading, retrying, paused, completed, failed,
  canceled, other_state, is_queued,
}
use downpeed_fluter.Validator.{if_range_value}
use downpeed_fluter.Strings.{is_empty}
use downpeed_fluter.Manager.State.{Files, FileInfo, Stat, found, not_exist, stat_failed}
use downpeed_fluter.Manager.Failures.{task_error}
use downpeed_fluter.Manager.Scheduler.{is_after}

-- The task and its request as they are restored, and whether the partial file is removed.
pub record Recovered : Type 0 where
  pub task : Task
  pub request : TransferRequest
  pub removes : Bool

unfoldable pub mark_recovered_task_failed : String → String → Task → Task
mark_recovered_task_failed code message task = record task {
  state = failed;
  speed_bps = pos 0;
  completed_at = some task.updated_at;
  error = some (task_error code message false);
}

abbrev pub without_checkpoint : TransferRequest → TransferRequest
without_checkpoint request = record request { checkpoint = none }

abbrev pub gives_up : String → String → Task → TransferRequest → Bool → Recovered
gives_up code message task request removes = record {
  task = mark_recovered_task_failed code message task;
  request = request;
  removes = removes;
}

abbrev pub same_file : FileInfo → Stat → Bool
same_file final_info (found info) = info.is_regular && info.inode == final_info.inode
same_file final_info _ = false

unfoldable pub completed_file_matches : Task → FileInfo → Stat → Bool
completed_file_matches task final_info work =
    if ltb_ℤ (pos 0) task.total then eqb_ℤ final_info.size task.total else same_file final_info work

abbrev pub at_final : ℕ → Task → TransferRequest → FileInfo → Stat → Recovered
at_final now task request info work =
    if info.is_regular && completed_file_matches task info work
    then record {
      task = record task {
        state = completed;
        downloaded = info.size;
        total = info.size;
        completed_at = some now;
        error = none;
      };
      request = without_checkpoint request;
      removes = true;
    }
    else gives_up "destination_exists" "A file already exists at the selected destination." task
        (without_checkpoint request) true

abbrev pub from_checkpoint :
    Task → TransferRequest → FileInfo → TransferCheckpoint → Outcome DownloadError ℤ → Recovered
from_checkpoint task request info checkpoint (err e) =
    gives_up "partial_file_changed"
      "The segmented download checkpoint or partial file changed outside Downpeed." task
      (without_checkpoint request) false
from_checkpoint task request info checkpoint (ok downloaded) =
    if not (eqb_ℤ info.size checkpoint.total)
    then gives_up "partial_file_changed"
        "The segmented download checkpoint or partial file changed outside Downpeed." task
        (without_checkpoint request) false
    else record {
      task = record task { downloaded = downloaded; total = checkpoint.total; error = none };
      request = request;
      removes = false;
    }

abbrev pub from_start : Task → TransferRequest → Recovered
from_start task request =
    if eqb_ℤ task.downloaded (pos 0)
    then record {
      task = record task { error = none };
      request = record request {
        allow_segments =
            if is_empty (if_range_value request.validator) then false else request.allow_segments;
      };
      removes = true;
    }
    else gives_up "partial_file_changed" "The segmented download checkpoint is missing." task
        request true

abbrev pub from_size : Task → TransferRequest → FileInfo → Recovered
from_size task request info =
    if ltb_ℤ (pos 0) task.total && ltb_ℤ task.total info.size
    then gives_up "partial_file_changed" "The partial download file changed outside Downpeed." task
        request false
    else record {
      task = record task { downloaded = info.size; error = none };
      request = request;
      removes = false;
    }

abbrev pub at_partial : Task → TransferRequest → FileInfo → Option TransferCheckpoint → Recovered
at_partial task request info (some checkpoint) =
    from_checkpoint task request info checkpoint
      (validate_transfer_checkpoint (some checkpoint) task.total)
at_partial task request info none =
    if request.allow_segments then from_start task request else from_size task request info

abbrev pub at_work : Task → TransferRequest → Stat → Recovered
at_work task request not_exist =
    if ltb_ℤ (pos 0) task.downloaded || is_some request.checkpoint
    then gives_up "partial_file_changed" "The partial download file is missing." task
        (without_checkpoint request) false
    else record {
      task = record task { downloaded = pos 0; error = none };
      request = request;
      removes = false;
    }
at_work task request stat_failed =
    gives_up "partial_file_changed" "The partial download file changed outside Downpeed." task
      (without_checkpoint request) false
at_work task request (found info) =
    if not info.is_regular
    then gives_up "partial_file_changed" "The partial download file changed outside Downpeed." task
        (without_checkpoint request) false
    else at_partial task request info request.checkpoint

abbrev pub at_files : ℕ → Task → TransferRequest → Stat → Stat → Recovered
at_files now task request (found info) work = at_final now task request info work
at_files now task request stat_failed work =
    gives_up "invalid_destination" "The selected download destination is unavailable." task request
      false
at_files now task request not_exist work = at_work task request work

abbrev pub interrupted : ℕ → Task → Task
interrupted now task = record task {
  state = paused;
  speed_bps = pos 0;
  next_retry_at = none;
  completed_at = none;
  updated_at = now;
}

unfoldable pub reconcile_interrupted_task : Files → ℕ → Task → TransferRequest → Recovered
unfolding mark_recovered_task_failed completed_file_matches validate_transfer_checkpoint
    if_range_value
reconcile_interrupted_task files now task request =
    at_files now (interrupted now task) request (files.lstat task.file_path)
      (files.lstat request.work_path)

abbrev pub planned_work : Task → Stat → Option Task
planned_work task (found info) = none
planned_work task stat_failed = some (
    mark_recovered_task_failed "partial_file_changed"
      "The partial download file changed outside Downpeed." task)
planned_work task not_exist =
    some
      (record task { speed_bps = pos 0; next_retry_at = none; completed_at = none; error = none })

abbrev pub planned_final : Task → Stat → Stat → Option Task
planned_final task (found info) work = some (
    mark_recovered_task_failed "destination_exists"
      "A file already exists at the selected destination." task)
planned_final task stat_failed work = some (
    mark_recovered_task_failed "invalid_destination"
      "The selected download destination is unavailable." task)
planned_final task not_exist work = planned_work task work

-- The task, where the code returns true.
unfoldable pub reconcile_scheduled_task : Files → ℕ → Task → TransferRequest → Option Task
unfolding mark_recovered_task_failed
reconcile_scheduled_task files now task request =
    if not (is_after task.scheduled_at now)
      || not (eqb_ℤ task.downloaded (pos 0))
      || is_some request.checkpoint
    then none
    else planned_final task (files.lstat task.file_path) (files.lstat request.work_path)

abbrev pub ended : Task → TransferRequest → Recovered
ended task request = record {
  task = record task { speed_bps = pos 0; next_retry_at = none };
  request = without_checkpoint request;
  removes = true;
}

abbrev pub planned_or_interrupted : Files → ℕ → Task → TransferRequest → Option Task → Recovered
planned_or_interrupted files now task request (some planned) = record {
  task = planned;
  request = request;
  removes = false;
}
planned_or_interrupted files now task request none =
    reconcile_interrupted_task files now task request

-- The switch on the state.
abbrev pub reconcile_state :
    Files → ℕ → Task → TransferRequest → TaskState → Outcome DownloadError Recovered
reconcile_state files now task request queued = ok (
    planned_or_interrupted files now task request (reconcile_scheduled_task files now task request))
reconcile_state files now task request completed = ok (ended task request)
reconcile_state files now task request failed = ok (ended task request)
reconcile_state files now task request canceled = ok (ended task request)
reconcile_state files now task request (other_state name) = err task_persistence
reconcile_state files now task request _ = ok (reconcile_interrupted_task files now task request)

-- Segments need a validator.
abbrev pub without_segments : TransferRequest → TransferRequest
without_segments request =
    if not (is_some request.checkpoint) && is_empty (if_range_value request.validator)
    then record request { allow_segments = false }
    else request

abbrev pub settle_segments : Outcome DownloadError Recovered → Outcome DownloadError Recovered
settle_segments (err e) = err e
settle_segments (ok r) = ok (record r { request = without_segments r.request })

-- reconcileStoredTask for a task that has passed its checks, with the request made for it.
unfoldable pub reconcile_stored_task :
    Files → ℕ → Task → TransferRequest → Outcome DownloadError Recovered
unfolding reconcile_interrupted_task reconcile_scheduled_task if_range_value
reconcile_stored_task files now task request =
    settle_segments (reconcile_state files now task request task.state)
