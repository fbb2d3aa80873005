-- ===== src/Manager/Removing.antt =====
-- Cancel (backend/internal/download/manager.go). It waits for the run, so it is two steps: up to the
-- wait, and what follows it.
use downpeed_fluter.Base.{
  ℕ, Bool, ◌||◌, Option, none, some, pos, Text, lookup, insert, if◌then◌else◌, Outcome, ok, err,
}
use downpeed_fluter.Errors.{DownloadError, task_invalid_state, task_not_found, transfer_canceled}
use downpeed_fluter.Task.{
  TaskState, Task, TransferRequest, BtTransferRequest, is_queued, is_bt, is_downloading, is_paused,
  is_retrying, canceled,
}
use downpeed_fluter.Manager.State.{
  Manager, TaskRun, no_request, no_bt_request, or_zero, cancelled, waited, removed, cleaned_up,
}
use downpeed_fluter.Manager.Persist.{
  persist_task_locked, publish, mark_bt_diagnostics_stopped_locked,
}
use downpeed_fluter.Manager.Scheduler.{remove_from_queue_locked, refresh_schedule_timer_locked}
use downpeed_fluter.Manager.Runs.{with_effect}

-- What Cancel keeps for the time after its wait.
pub record Canceling : Type 0 where
  pub task : Task
  pub request : TransferRequest
  pub bt_request : BtTransferRequest
  pub run : Option TaskRun
  pub persist_error : Option DownloadError

abbrev pub canceled_task : ℕ → Task → Task
canceled_task now task = record task {
  state = canceled;
  speed_bps = pos 0;
  connections = 0;
  next_retry_at = none;
  updated_at = now;
  completed_at = some now;
}

-- The canceled task is out of the queue and in the tables, but not yet saved.
unfoldable pub set_canceled : ℕ → Text → Task → Manager → Manager
unfolding remove_from_queue_locked refresh_schedule_timer_locked mark_bt_diagnostics_stopped_locked
set_canceled now id task m =
    let task' = canceled_task now task in
    let request = record (or_zero no_request (lookup id m.requests)) { checkpoint = none } in
    let unqueued = refresh_schedule_timer_locked now (remove_from_queue_locked id m) in
    mark_bt_diagnostics_stopped_locked task' (record unqueued {
      requests = insert id request unqueued.requests;
      tasks = insert id task' unqueued.tasks;
    })

abbrev pub cancel_run : Option TaskRun → Manager → Manager
cancel_run none m = m
cancel_run (some run) m = with_effect (cancelled run transfer_canceled) m

abbrev pub begun :
    ℕ
    → Text
    → Task
    → Manager
    → Manager × Option DownloadError
    → Manager × Outcome DownloadError Canceling
begun now id task before (m, persist_error) =
    let run = lookup id before.runs in
    (
      cancel_run run m,
      ok (record {
        task = canceled_task now task;
        request = record (or_zero no_request (lookup id before.requests)) { checkpoint = none };
        bt_request = or_zero no_bt_request (lookup id before.bt_requests);
        run = run;
        persist_error = persist_error;
      }),
    )

abbrev pub can_cancel : TaskState → Bool
can_cancel state = is_downloading state || is_queued state || is_retrying state || is_paused state

abbrev pub cancel_known :
    ℕ → Text → Manager → Option Task → Manager × Outcome DownloadError Canceling
cancel_known now id m none = (m, err task_not_found)
cancel_known now id m (some task) =
    if can_cancel task.state
    then begun now id task m
        (persist_task_locked (canceled_task now task) (set_canceled now id task m))
    else (m, err task_invalid_state)

unfoldable pub cancel_begin : ℕ → Text → Manager → Manager × Outcome DownloadError Canceling
unfolding set_canceled persist_task_locked
cancel_begin now id m =
    if m.closed then (m, err task_invalid_state) else cancel_known now id m (lookup id m.tasks)

abbrev pub await : Option TaskRun → Manager → Manager
await none m = m
await (some run) m = with_effect (waited run) m

abbrev pub report_canceled :
    Task → Option DownloadError → Manager → Manager × Outcome DownloadError Task
report_canceled task none m = (publish task m, ok task)
report_canceled task (some e) m = (m, err e)

unfoldable pub cancel_finish : Canceling → Manager → Manager × Outcome DownloadError Task
unfolding publish
cancel_finish c m = report_canceled c.task c.persist_error (
    with_effect
      (if is_bt c.task.protocol then cleaned_up c.bt_request else removed c.request.work_path)
      (await c.run m))
