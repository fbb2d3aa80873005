-- ===== src/Manager/Ends.antt =====
-- The end of a transfer: what run and runBT do when Download returns
-- (backend/internal/download/manager.go).
use downpeed_fluter.Base.{
  ℕ, Option, none, some, ℤ, pos, Text, lookup, insert, delete, if◌then◌else◌, Outcome, ok, err,
}
use downpeed_fluter.Errors.{TransferError, context_canceled}
use downpeed_fluter.Task.{
  Task, BtTransferRequest, TransferResult, is_downloading, completed, failed, canceled,
}
use downpeed_fluter.Manager.State.{Manager, no_request, or_zero, Files, cleaned_up}
use downpeed_fluter.Manager.Persist.{
  persist_task_locked, publish, publish_all, mark_bt_diagnostics_stopped_locked,
}
use downpeed_fluter.Manager.Scheduler.{fill_available_slots_locked, fill_and_publish}
use downpeed_fluter.Manager.Failures.{task_error_for}
use downpeed_fluter.Manager.Runs.{with_effect, schedule_retry_locked, release_run}

-- The state in which a transfer leaves its task, if it is not retried.
abbrev pub ended_task : ℕ → Outcome TransferError TransferResult → Task → Task
ended_task now (ok result) task = record task {
  state = completed;
  final_url = result.final_url;
  downloaded = result.size;
  total = result.size;
  error = none;
  next_retry_at = none;
  completed_at = some now;
  speed_bps = pos 0;
  updated_at = now;
}
ended_task now (err context_canceled) task = record task {
  state = canceled;
  next_retry_at = none;
  completed_at = some now;
  speed_bps = pos 0;
  updated_at = now;
}
ended_task now (err e) task = record task {
  state = failed;
  error = some (task_error_for e);
  next_retry_at = none;
  completed_at = some now;
  speed_bps = pos 0;
  updated_at = now;
}

abbrev pub retried_after :
    Files → ℕ → Text → Task → Outcome TransferError TransferResult → Manager → Manager × Option Task
retried_after files now id task (ok result) m = (m, none)
retried_after files now id task (err context_canceled) m = (m, none)
retried_after files now id task (err e) m =
    schedule_retry_locked files now id (record task { updated_at = now; speed_bps = pos 0 }) e m

-- The end of a task that is still downloading, and the task as it is published.
abbrev pub settled :
    ℕ → Text → Task → Outcome TransferError TransferResult → Manager × Option Task → Manager × Task
settled now id task result (m, some retried) = (m, retried)
settled now id task result (m, none) =
    let done = ended_task now result task in
    let stored = record m {
      requests =
          insert id (record (or_zero no_request (lookup id m.requests)) { checkpoint = none })
            m.requests;
      tasks = insert id done m.tasks;
    } in
    ((persist_task_locked done stored).0, done)

abbrev pub publish_then : ℕ → Manager × Task → Manager
publish_then now (m, task) =
    let (m', updates) = fill_available_slots_locked now m in publish_all updates (publish task m')

abbrev pub end_of_run :
    Files → ℕ → Text → ℕ → Outcome TransferError TransferResult → Manager → Option Task → Manager
end_of_run files now id number result m none = fill_and_publish now (release_run id number m)
end_of_run files now id number result m (some task) =
    if is_downloading task.state
    then (let m' = release_run id number m in
        publish_then now (settled now id task result (retried_after files now id task result m')))
    else fill_and_publish now (release_run id number m)

-- What `run` does when Download returns.
unfoldable pub run_ended :
    Files → ℕ → Text → ℕ → Outcome TransferError TransferResult → Manager → Manager
unfolding schedule_retry_locked release_run fill_and_publish
run_ended files now id number result m = end_of_run files now id number result m (lookup id m.tasks)

abbrev pub ended_bt_task : ℕ → Outcome TransferError ℤ → Task → Task
ended_bt_task now (ok size) task = record task {
  state = completed;
  downloaded = size;
  total = size;
  error = none;
  completed_at = some now;
  speed_bps = pos 0;
  connections = 0;
  updated_at = now;
}
ended_bt_task now (err context_canceled) task = record task {
  state = canceled;
  completed_at = some now;
  speed_bps = pos 0;
  connections = 0;
  updated_at = now;
}
ended_bt_task now (err e) task = record task {
  state = failed;
  error = some (task_error_for e);
  completed_at = some now;
  speed_bps = pos 0;
  connections = 0;
  updated_at = now;
}

abbrev pub cleaned_after : BtTransferRequest → Outcome TransferError ℤ → Manager → Manager
cleaned_after request (ok size) m = m
cleaned_after request (err context_canceled) m = m
cleaned_after request (err e) m = with_effect (cleaned_up request) m

abbrev pub end_of_bt_run :
    ℕ → Text → ℕ → BtTransferRequest → Outcome TransferError ℤ → Manager → Option Task → Manager
end_of_bt_run now id number request result m none = fill_and_publish now (release_run id number m)
end_of_bt_run now id number request result m (some task) =
    if is_downloading task.state
    then (let done = ended_bt_task now result task in
        let m' = cleaned_after request result (record m { runs = delete id m.runs }) in
        let stored =
          mark_bt_diagnostics_stopped_locked done (record m' { tasks = insert id done m'.tasks }) in
        publish_then now ((persist_task_locked done stored).0, done))
    else fill_and_publish now (release_run id number m)

-- What `runBT` does when Download returns.
unfoldable pub run_bt_ended :
    ℕ → Text → ℕ → BtTransferRequest → Outcome TransferError ℤ → Manager → Manager
unfolding release_run fill_and_publish mark_bt_diagnostics_stopped_locked
run_bt_ended now id number request result m =
    end_of_bt_run now id number request result m (lookup id m.tasks)
