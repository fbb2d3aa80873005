-- ===== src/Manager/Runs.antt =====
-- Runs in the table, and the retries of failed ones: partialFileSize of
-- backend/internal/download/manager.go, scheduleRetryLocked and waitForRetry of scheduler.go.
pub mod Delays
pub mod Retries
use downpeed_fluter.Base.{
  ℕ, zero, suc, ◌+◌, ◌*◌, Bool, true, false, not, ◌&&◌, ◌||◌, [], ◌∷◌, ◌++◌, Option, none, some, ℤ,
  pos, Text, lookup, insert, delete, length, ltb, leb, if◌then◌else◌, ◌==◌, is_some, ltb_ℤ, eqb_ℤ,
  Outcome, ok, err,
}
use downpeed_fluter.Errors.{
  DownloadError, TransferError, context_canceled, invalid_destination, partial_file_changed,
}
use downpeed_fluter.Checkpoint.{TransferCheckpoint, validate_transfer_checkpoint}
use downpeed_fluter.Task.{
  Task, TransferRequest, BtTransferRequest, TransferProgress, BtTransferProgress, TransferResult,
  is_downloading, is_paused, is_retrying, queued, retrying, completed, failed, canceled,
}
use downpeed_fluter.Validator.{if_range_value}
use downpeed_fluter.Strings.{is_empty}
use downpeed_fluter.Manager.State.{
  Manager, TaskRun, no_request, or_zero, Stat, found, not_exist, stat_failed, Files, Effect,
  removed, retry_after, cleaned_up,
}
use downpeed_fluter.Manager.Persist.{
  persist_task_locked, publish, publish_all, mark_bt_diagnostics_stopped_locked,
  bt_policy_diagnostics,
}
use downpeed_fluter.Manager.Scheduler.{
  enqueue_locked, fill_available_slots_locked, fill_and_publish, contains_task,
}
use downpeed_fluter.Manager.Failures.{is_retryable_transfer_error, task_error_for}

-- 30 s, in nanoseconds.
abbrev pub default_retry_max_delay : ℕ
default_retry_max_delay = 30000000000

-- The delay doubles once for each retry that was made, up to the greatest.
unfoldable pub retry_delay : ℕ → ℕ → ℕ
retry_delay zero delay = delay
retry_delay (suc retries) delay = elim (ltb delay default_retry_max_delay) [
  | false ↦ delay
  | true ↦
      retry_delay retries
        (if ltb default_retry_max_delay (delay * 2) then default_retry_max_delay else delay * 2)
]

unfoldable pub partial_file_size : Stat → Outcome DownloadError ℤ
partial_file_size not_exist = ok (pos 0)
partial_file_size stat_failed = err invalid_destination
partial_file_size (found info) = if info.is_regular then ok info.size else err partial_file_changed

abbrev pub with_effect : Effect → Manager → Manager
with_effect effect m = record m { effects = m.effects ++ effect ∷ [] }

-- The partial file that a retry goes on from: its size, and whether it is removed.
abbrev pub usable_size : TransferRequest → Outcome DownloadError ℤ → ℤ × Bool
usable_size request (err e) = (pos 0, true)
usable_size request (ok size) =
    if ltb_ℤ (pos 0) size && is_empty (if_range_value request.validator)
    then (pos 0, true)
    else (size, false)

abbrev pub retry_point : Files → TransferRequest → ℤ × Bool
retry_point files request =
    if is_some request.checkpoint
    then (pos 0, true)
    else usable_size request (partial_file_size (files.lstat request.work_path))

abbrev pub retrying_task : ℕ → ℕ → TransferError → ℤ → Task → Task
retrying_task now delay error downloaded task = record task {
  downloaded = downloaded;
  state = retrying;
  speed_bps = pos 0;
  retry_count = suc task.retry_count;
  next_retry_at = some (now + delay);
  completed_at = none;
  error = some (task_error_for error);
  updated_at = now;
}

unfoldable pub schedule_retry_locked :
    Files → ℕ → Text → Task → TransferError → Manager → Manager × Option Task
unfolding partial_file_size if_range_value retry_delay persist_task_locked task_error_for
    is_retryable_transfer_error
schedule_retry_locked files now id task error m =
    if not (is_retryable_transfer_error error) || leb m.max_retries task.retry_count
    then (m, none)
    else let request = or_zero no_request (lookup id m.requests) in
      let (size, drops) = retry_point files request in
      let m' = if drops then with_effect (removed request.work_path) m else m in
      let delay = retry_delay task.retry_count m.retry_base_delay in
      let retried = retrying_task now delay error size task in
      let stored = record m' {
        requests = insert id (record request { checkpoint = none; offset = size }) m'.requests;
        tasks = insert id retried m'.tasks;
      } in
      (
        with_effect (retry_after id (now + delay)) (persist_task_locked retried stored).0,
        some retried,
      )

-- m.runs[id] == run
abbrev pub is_run : ℕ → Option TaskRun → Bool
is_run number none = false
is_run number (some run) = run.number == number

unfoldable pub release_run : Text → ℕ → Manager → Manager
release_run id number m =
    if is_run number (lookup id m.runs) then record m { runs = delete id m.runs } else m

abbrev pub equal_time : ℕ → Option ℕ → Bool
equal_time at none = false
equal_time at (some other) = other == at

abbrev pub requeue : ℕ → Text → ℕ → Manager → Option Task → Manager
requeue now id retry_at m none = m
requeue now id retry_at m (some task) =
    if is_retrying task.state && equal_time retry_at task.next_retry_at
    then (let task' = record task { state = queued; next_retry_at = none; updated_at = now } in
        let stored = (persist_task_locked task' (record m { tasks = insert id task' m.tasks })).0 in
        let (m', updates) = fill_available_slots_locked now (enqueue_locked id stored) in
        publish_all (if contains_task updates id then updates else updates ++ task' ∷ []) m')
    else m

-- What waitForRetry does when its timer fires and the engine is not stopped.
unfoldable pub retry_due : ℕ → Text → ℕ → Manager → Manager
unfolding persist_task_locked enqueue_locked fill_available_slots_locked contains_task publish_all
retry_due now id retry_at m = if m.closed then m else requeue now id retry_at m (lookup id m.tasks)
