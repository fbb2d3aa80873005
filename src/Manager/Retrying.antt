-- ===== src/Manager/Retrying.antt =====
-- Retry and prepareHTTPRetry (backend/internal/download/manager.go).
use downpeed_fluter.Base.{
  ℕ, Bool, true, false, not, ◌&&◌, ◌||◌, Option, none, some, ℤ, pos, Text, lookup, insert,
  if◌then◌else◌, is_some, ltb_ℤ, Outcome, ok, err,
}
use downpeed_fluter.Errors.{
  DownloadError, task_invalid_state, task_not_found, task_retry_not_allowed, partial_file_changed,
  invalid_destination,
}
use downpeed_fluter.Task.{
  Task, TaskError, TransferRequest, BtTransferRequest, is_bt, is_failed, queued,
}
use downpeed_fluter.Validator.{if_range_value}
use downpeed_fluter.Strings.{is_empty}
use downpeed_fluter.Manager.State.{
  Manager, no_request, no_bt_request, or_zero, Files, Removal, removed, cleaned_up,
}
use downpeed_fluter.Manager.Persist.{
  persist_task_locked, mark_bt_diagnostics_stopped_locked, new_bt_diagnostics,
}
use downpeed_fluter.Manager.Runs.{partial_file_size, with_effect}
use downpeed_fluter.Manager.Resuming.{enqueue_and_fill, destination_free, remove_failed}

-- What prepareHTTPRetry returns, and whether it removed the partial file.
pub record RetryPlan : Type 0 where
  pub request : TransferRequest
  pub downloaded : ℤ

abbrev pub fresh_plan : Removal → TransferRequest → Outcome DownloadError RetryPlan
fresh_plan removal request =
    if remove_failed removal
    then err invalid_destination
    else ok (record { request = record request { checkpoint = none }; downloaded = pos 0 })

abbrev pub plan_from :
    Files → TransferRequest → ℤ → Outcome DownloadError ℤ → Bool × Outcome DownloadError RetryPlan
plan_from files request total (err e) = (false, err e)
plan_from files request total (ok downloaded) =
    if ltb_ℤ (pos 0) total && ltb_ℤ total downloaded
    then (false, err partial_file_changed)
    else if ltb_ℤ (pos 0) downloaded && is_empty (if_range_value request.validator)
    then (true, fresh_plan (files.remove request.work_path) request)
    else (
      false,
      ok (record { request = record request { checkpoint = none }; downloaded = downloaded }),
    )

-- The plan, behind whether the partial file's removal was asked for.
unfoldable pub prepare_http_retry :
    Files → TransferRequest → ℤ → Bool × Outcome DownloadError RetryPlan
unfolding partial_file_size if_range_value
prepare_http_retry files request total =
    if is_some request.checkpoint || request.allow_segments
    then (true, fresh_plan (files.remove request.work_path) request)
    else plan_from files request total (partial_file_size (files.lstat request.work_path))

abbrev pub is_retryable : Option TaskError → Bool
is_retryable none = false
is_retryable (some e) = e.retryable

abbrev pub requeued_task : ℕ → ℤ → Task → Task
requeued_task now downloaded task = record task {
  state = queued;
  downloaded = downloaded;
  speed_bps = pos 0;
  connections = 0;
  error = none;
  retry_count = 0;
  next_retry_at = none;
  scheduled_at = none;
  completed_at = none;
  updated_at = now;
}

-- If the task cannot be saved, it and its request are put back.
abbrev pub retry_saved :
    ℕ
    → Text
    → Task
    → TransferRequest
    → Manager × Option DownloadError
    → Manager × Outcome DownloadError Task
retry_saved now id previous request (m, none) = enqueue_and_fill now id m
retry_saved now id previous request (m, some e) = (
  mark_bt_diagnostics_stopped_locked previous (record m {
    tasks = insert id previous m.tasks;
    requests = if is_bt previous.protocol then m.requests else insert id request m.requests;
  }),
  err e,
)

abbrev pub requeue_failed :
    ℕ → Text → Task → RetryPlan → BtTransferRequest → Manager → Manager × Outcome DownloadError Task
requeue_failed now id task plan bt_request m =
    let task' = requeued_task now plan.downloaded task in
    let request = record (plan.request) { offset = plan.downloaded; expected_size = task'.total } in
    retry_saved now id task (or_zero no_request (lookup id m.requests)) (
      persist_task_locked task' (
        if is_bt task.protocol
        then record m {
          tasks = insert id task' m.tasks;
          bt_diagnostics = insert id (new_bt_diagnostics task' bt_request) m.bt_diagnostics;
        }
        else record m { tasks = insert id task' m.tasks; requests = insert id request m.requests }))

abbrev pub retry_planned :
    ℕ
    → Text
    → Task
    → BtTransferRequest
    → Manager
    → Outcome DownloadError RetryPlan
    → Manager × Outcome DownloadError Task
retry_planned now id task bt_request m (err e) = (m, err e)
retry_planned now id task bt_request m (ok plan) = requeue_failed now id task plan bt_request m

-- A BT task is cleaned up, and starts again from nothing. `cleanup` is the answer of Cleanup.
abbrev pub retry_bt :
    Option DownloadError
    → ℕ
    → Text
    → Task
    → Manager
    → Option BtTransferRequest
    → Manager × Outcome DownloadError Task
retry_bt cleanup now id task m none = (m, err task_invalid_state)
retry_bt cleanup now id task m (some bt_request) =
    if not m.has_bt_transfer
    then (m, err task_invalid_state)
    else let m' = with_effect (cleaned_up bt_request) m in
      elim cleanup [
        | some e ↦ (m', err e)
        | none ↦
            requeue_failed now id task (record { request = no_request; downloaded = pos 0 })
              bt_request m'
      ]

abbrev pub retry_http :
    Files
    → ℕ
    → Text
    → Task
    → Manager
    → Option TransferRequest
    → Manager × Outcome DownloadError Task
retry_http files now id task m none = (m, err task_invalid_state)
retry_http files now id task m (some request) =
    let (removes, plan) = prepare_http_retry files request task.total in
    let m' = if removes then with_effect (removed request.work_path) m else m in
    retry_planned now id task no_bt_request m' plan

abbrev pub retry_known :
    Files
    → Option DownloadError
    → ℕ
    → Text
    → Manager
    → Option Task
    → Manager × Outcome DownloadError Task
retry_known files cleanup now id m none = (m, err task_not_found)
retry_known files cleanup now id m (some task) =
    if not (is_failed task.state)
    then (m, err task_invalid_state)
    else if not (is_retryable task.error)
    then (m, err task_retry_not_allowed)
    else elim (destination_free (files.lstat task.file_path)) [
      | some e ↦ (m, err e)
      | none ↦
          if is_bt task.protocol
          then retry_bt cleanup now id task m (lookup id m.bt_requests)
          else retry_http files now id task m (lookup id m.requests)
    ]

unfoldable pub retry :
    Files → Option DownloadError → ℕ → Text → Manager → Manager × Outcome DownloadError Task
unfolding prepare_http_retry persist_task_locked new_bt_diagnostics
    mark_bt_diagnostics_stopped_locked enqueue_and_fill
retry files cleanup now id m =
    if m.closed
    then (m, err task_invalid_state)
    else retry_known files cleanup now id m (lookup id m.tasks)
