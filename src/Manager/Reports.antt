-- ===== src/Manager/Reports.antt =====
-- What a transfer reports while it runs: the progress callbacks of run and runBT
-- (backend/internal/download/manager.go).
use downpeed_fluter.Base.{
  ℕ, Bool, true, false, ◌&&◌, ◌||◌, Option, none, some, ℤ, pos, Text, lookup, insert, length,
  if◌then◌else◌, ◌==◌, is_some, eqb_ℤ, Outcome, ok, err,
}
use downpeed_fluter.Errors.{DownloadError}
use downpeed_fluter.Checkpoint.{TransferCheckpoint, validate_transfer_checkpoint}
use downpeed_fluter.Task.{
  Task, BtTransferRequest, TransferProgress, BtTransferProgress, is_downloading, is_paused,
}
use downpeed_fluter.Manager.State.{Manager, no_request, or_zero}
use downpeed_fluter.Manager.Persist.{persist_task_locked, publish, bt_policy_diagnostics}
use downpeed_fluter.Manager.Runs.{is_run}

abbrev pub progressed : ℕ → TransferProgress → Task → Task
progressed now progress task = record task {
  downloaded = progress.downloaded;
  total = progress.total;
  speed_bps = if is_paused task.state then pos 0 else progress.speed_bps;
  updated_at = now;
}

-- A checkpoint is kept if it is valid and agrees with the progress that it comes with.
abbrev pub agrees : ℤ → Outcome DownloadError ℤ → Bool
agrees downloaded (err e) = false
agrees downloaded (ok counted) = eqb_ℤ counted downloaded

abbrev pub keep_checkpoint :
    Text → TransferProgress → Option TransferCheckpoint → Manager → Option Manager
keep_checkpoint id progress none m = some m
keep_checkpoint id progress (some checkpoint) m =
    if agrees progress.downloaded (validate_transfer_checkpoint (some checkpoint) progress.total)
    then some (record m {
      requests =
          insert id
            (record (or_zero no_request (lookup id m.requests)) {
              checkpoint = some checkpoint;
              expected_size = progress.total;
              accept_ranges = true;
              allow_segments = true;
            })
            m.requests;
    })
    else none

abbrev pub store_progress : ℕ → Text → TransferProgress → Task → Manager → Option Manager → Manager
store_progress now id progress task m none = m
store_progress now id progress task m (some kept) =
    let task' = progressed now progress task in
    publish task' (persist_task_locked task' (record kept { tasks = insert id task' kept.tasks })).0

abbrev pub report_for : ℕ → Text → ℕ → TransferProgress → Manager → Option Task → Manager
report_for now id number progress m none = m
report_for now id number progress m (some task) =
    if is_downloading task.state
      || (is_paused task.state && is_some progress.checkpoint && is_run number (lookup id m.runs))
    then store_progress now id progress task m (keep_checkpoint id progress progress.checkpoint m)
    else m

-- The callback that `run` hands to Download.
unfoldable pub run_progress : ℕ → Text → ℕ → TransferProgress → Manager → Manager
unfolding persist_task_locked publish
run_progress now id number progress m = report_for now id number progress m (lookup id m.tasks)

abbrev pub bt_report_for :
    ℕ → Text → ℕ → BtTransferRequest → BtTransferProgress → Manager → Option Task → Manager
bt_report_for now id number request progress m none = m
bt_report_for now id number request progress m (some task) =
    if is_downloading task.state && is_run number (lookup id m.runs)
    then (let task' = record task {
      downloaded = progress.downloaded;
      total = progress.total;
      speed_bps = progress.speed_bps;
      connections = progress.connections;
      updated_at = now;
    } in
        let given = progress.diagnostics in
        let diagnostics = record given {
          task_id = id;
          state = task.state;
          live = true;
          connections = record (given.connections) { configured = length request.explicit_peers };
          policy = bt_policy_diagnostics request.policy;
          updated_at = if given.updated_at == 0 then now else given.updated_at;
        } in
        publish task'
          (persist_task_locked task' (record m {
            tasks = insert id task' m.tasks;
            bt_diagnostics = insert id diagnostics m.bt_diagnostics;
          })).0)
    else m

-- The callback that `runBT` hands to Download.
unfoldable pub run_bt_progress :
    ℕ → Text → ℕ → BtTransferRequest → BtTransferProgress → Manager → Manager
unfolding persist_task_locked publish bt_policy_diagnostics
run_bt_progress now id number request progress m =
    bt_report_for now id number request progress m (lookup id m.tasks)
