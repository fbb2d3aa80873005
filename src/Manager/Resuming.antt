-- ===== src/Manager/Resuming.antt =====
-- Resume and resumeBTLocked (backend/internal/download/manager.go).
pub mod Stranded
use downpeed_fluter.Base.{
  ℕ, Bool, true, false, not, ◌&&◌, ◌||◌, [], ◌∷◌, ◌++◌, Option, none, some, ℤ, pos, Text, lookup,
  insert, if◌then◌else◌, is_some, ltb_ℤ, eqb_ℤ, Outcome, ok, err,
}
use downpeed_fluter.Errors.{
  DownloadError, task_invalid_state, task_not_found, task_retry_not_allowed, partial_file_changed,
  destination_exists, invalid_destination, resume_not_supported,
}
use downpeed_fluter.Task.{
  Task, TaskError, TransferRequest, BtTransferRequest, is_bt, is_failed, is_paused, queued, paused,
}
use downpeed_fluter.Validator.{if_range_value}
use downpeed_fluter.Strings.{is_empty}
use downpeed_fluter.Manager.State.{
  Manager, no_request, no_bt_request, or_zero, Stat, found, not_exist, stat_failed, Files, Removal,
  removal_failed, removed, cleaned_up,
}
use downpeed_fluter.Manager.Persist.{
  persist_task_locked, publish_all, mark_bt_diagnostics_stopped_locked, new_bt_diagnostics,
}
use downpeed_fluter.Manager.Scheduler.{enqueue_locked, fill_available_slots_locked, contains_task}
use downpeed_fluter.Manager.Runs.{partial_file_size, with_effect}
use downpeed_fluter.Manager.Pausing.{reconciled_partial_progress, no_task}

-- The end of Create, Resume and Retry: queue the task, fill the slots, publish.
unfoldable pub enqueue_and_fill : ℕ → Text → Manager → Manager × Outcome DownloadError Task
unfolding enqueue_locked fill_available_slots_locked contains_task publish_all
enqueue_and_fill now id m =
    let (m', updates) = fill_available_slots_locked now (enqueue_locked id m) in
    let task = or_zero no_task (lookup id m'.tasks) in
    (publish_all (if contains_task updates id then updates else updates ++ task ∷ []) m', ok task)

-- Lstat of a destination that has to be free.
abbrev pub destination_free : Stat → Option DownloadError
destination_free not_exist = none
destination_free stat_failed = some invalid_destination
destination_free (found info) = some destination_exists

abbrev pub resumed_task : ℕ → Task → Task
resumed_task now task = record task {
  state = queued;
  speed_bps = pos 0;
  error = none;
  retry_count = 0;
  next_retry_at = none;
  scheduled_at = none;
  completed_at = none;
  updated_at = now;
}

-- If the task cannot be saved it stays paused.
abbrev pub resume_saved :
    ℕ → Text → Task → Manager × Option DownloadError → Manager × Outcome DownloadError Task
resume_saved now id task (m, none) = enqueue_and_fill now id m
resume_saved now id task (m, some e) =
    (record m { tasks = insert id (record task { state = paused }) m.tasks }, err e)

abbrev pub resume_from :
    ℕ → Text → TransferRequest → Manager → Task → Manager × Outcome DownloadError Task
resume_from now id request m task =
    if is_paused task.state
    then (let task' = resumed_task now task in
        resume_saved now id task' (
          persist_task_locked task' (record m {
            tasks = insert id task' m.tasks;
            requests = insert id request m.requests;
          })))
    else (m, err task_invalid_state)

abbrev pub refused : Removal → Option DownloadError
refused removal_failed = some invalid_destination
refused _ = none

-- An empty partial file is removed before a new start.
abbrev pub clear_empty : Files → TransferRequest → ℤ → Manager → Manager × Option DownloadError
clear_empty files request downloaded m =
    if not (is_some request.checkpoint) && eqb_ℤ downloaded (pos 0)
    then (with_effect (removed request.work_path) m, refused (files.remove request.work_path))
    else (m, none)

abbrev pub resume_cleared :
    ℕ
    → Text
    → TransferRequest
    → Task
    → ℤ
    → Manager × Option DownloadError
    → Manager × Outcome DownloadError Task
resume_cleared now id request task downloaded (m, some e) = (m, err e)
resume_cleared now id request task downloaded (m, none) =
    resume_from now id (record request { offset = downloaded; expected_size = task.total }) m
      (or_zero no_task (lookup id m.tasks))

abbrev pub resume_at :
    Files
    → ℕ
    → Text
    → TransferRequest
    → Task
    → Manager
    → Outcome DownloadError ℤ
    → Manager × Outcome DownloadError Task
resume_at files now id request task m (err e) = (m, err e)
resume_at files now id request task m (ok downloaded) =
    if not (eqb_ℤ downloaded task.downloaded)
    then (m, err partial_file_changed)
    else if ltb_ℤ (pos 0) downloaded && is_empty (if_range_value request.validator)
    then (m, err resume_not_supported)
    else resume_cleared now id request task downloaded (clear_empty files request downloaded m)

abbrev pub resume_http :
    Files
    → ℕ
    → Text
    → Task
    → Manager
    → Option TransferRequest
    → Manager × Outcome DownloadError Task
resume_http files now id task m none = (m, err task_invalid_state)
resume_http files now id task m (some request) =
    elim (destination_free (files.lstat task.file_path)) [
      | some e ↦ (m, err e)
      | none ↦
          resume_at files now id request task m (reconciled_partial_progress files task request)
    ]

abbrev pub resumed_bt_task : ℕ → Task → Task
resumed_bt_task now task = record task {
  state = queued;
  speed_bps = pos 0;
  connections = 0;
  error = none;
  next_retry_at = none;
  completed_at = none;
  updated_at = now;
}

-- If the task cannot be saved it stays as it was set.
abbrev pub resume_bt_saved :
    ℕ → Text → Manager × Option DownloadError → Manager × Outcome DownloadError Task
resume_bt_saved now id (m, none) = enqueue_and_fill now id m
resume_bt_saved now id (m, some e) = (m, err e)

-- resumeBTLocked, for the task that Resume found paused.
unfoldable pub resume_bt_locked :
    Files → ℕ → Text → Task → Manager → Manager × Outcome DownloadError Task
unfolding persist_task_locked new_bt_diagnostics enqueue_and_fill
resume_bt_locked files now id task m = elim (destination_free (files.lstat task.file_path)) [
  | some e ↦ (m, err e)
  | none ↦
      let task' = resumed_bt_task now task in
      resume_bt_saved now id (
        persist_task_locked task' (record m {
          tasks = insert id task' m.tasks;
          bt_diagnostics =
              insert id (new_bt_diagnostics task' (or_zero no_bt_request (lookup id m.bt_requests)))
                m.bt_diagnostics;
        }))
]

abbrev pub resume_known :
    Files → ℕ → Text → Manager → Option Task → Manager × Outcome DownloadError Task
resume_known files now id m none = (m, err task_not_found)
resume_known files now id m (some task) =
    if not (is_paused task.state)
    then (m, err task_invalid_state)
    else if is_bt task.protocol
    then if is_some (lookup id m.bt_requests)
      then resume_bt_locked files now id task m
      else (m, err task_invalid_state)
    else resume_http files now id task m (lookup id m.requests)

unfoldable pub resume : Files → ℕ → Text → Manager → Manager × Outcome DownloadError Task
unfolding resume_bt_locked reconciled_partial_progress if_range_value
resume files now id m =
    if m.closed
    then (m, err task_invalid_state)
    else resume_known files now id m (lookup id m.tasks)

-- Remove, where a file that is not there is no error.
abbrev pub remove_failed : Removal → Bool
remove_failed removal_failed = true
remove_failed _ = false
