-- ===== src/Manager/Invariant/Runs/Reports.antt =====
-- Progress reports, timers and new settings keep the manager coherent.
use downpeed_fluter.Base.{
  ℕ, ◌≡◌, refl, Bool, true, not, ◌&&◌, ◌||◌, [], ◌∷◌, ◌++◌, Option, none, some, Text, lookup,
  insert, arith, is_some, on_test, if◌then◌else◌, ◌==◌,
}
use downpeed_fluter.Checkpoint.{TransferCheckpoint, validate_transfer_checkpoint}
use downpeed_fluter.Task.{
  Task, TransferRequest, BtTransferRequest, TransferProgress, BtTransferProgress, is_downloading,
  is_paused, is_retrying, queued,
}
use downpeed_fluter.Manager.State.{Manager, no_request, or_zero}
use downpeed_fluter.Manager.Persist.{persist_task_locked, publish, publish_event}
use downpeed_fluter.Manager.Scheduler.{
  fill_available_slots_locked, SchedulerSettings, apply_scheduler_settings, wake_scheduled_tasks,
  enqueue_locked, contains_task,
}
use downpeed_fluter.Manager.Runs.{is_run, requeue, retry_due, equal_time}
use downpeed_fluter.Manager.Reports.{
  progressed, agrees, keep_checkpoint, store_progress, report_for, run_progress, bt_report_for,
  run_bt_progress,
}
use downpeed_fluter.Manager.Invariant.{Coherent}
use downpeed_fluter.Manager.Invariant.Frame.{persist-store}
use downpeed_fluter.Manager.Invariant.Filling.{
  fill-Coherent, publish_all-Coherent, fill_and_publish-Coherent,
}
use downpeed_fluter.Manager.Invariant.Pausing.{request-Coherent, retask-Coherent}
use downpeed_fluter.Manager.Invariant.Resuming.{requeued-Coherent}

module _ (waited : Text → Bool) where
  kept-Coherent :
      (now : ℕ) (id : Text) (progress : TransferProgress) (task : Task) (m : Manager)
      (o : Option TransferCheckpoint)
      → Coherent waited m
      → lookup id m.tasks ≡ some task
      → Coherent waited (store_progress now id progress task m (keep_checkpoint id progress o m))
  unfolding publish publish_event
  kept-Coherent now id progress task m none h found =
      let task' : Task = progressed now progress task in
      let (s, e) = persist-store task' (record m { tasks = insert id task' m.tasks }) in
      let rest : Coherent waited
          (persist_task_locked task' (record m { tasks = insert id task' m.tasks })).0 =
        rw e (retask-Coherent waited id task task' m h found refl refl) in
      rest
  kept-Coherent now id progress task m (some checkpoint) h found =
      on_test (λ (x : Option Manager). Coherent waited (store_progress now id progress task m x))
        (agrees progress.downloaded (validate_transfer_checkpoint (some checkpoint) progress.total))
        (λ _.
          let task' : Task = progressed now progress task in
          let asked : TransferRequest = record (or_zero no_request (lookup id m.requests)) {
            checkpoint = some checkpoint;
            expected_size = progress.total;
            accept_ranges = true;
            allow_segments = true;
          } in
          let kept : Manager = record m { requests = insert id asked m.requests } in
          let (s, e) = persist-store task' (record kept { tasks = insert id task' m.tasks }) in
          let rest : Coherent waited
              (persist_task_locked task' (record kept { tasks = insert id task' m.tasks })).0 =
            rw e (
              retask-Coherent waited id task task' kept (request-Coherent waited id asked m h) found
                refl refl) in
          rest)
        (λ _. h)

  report_for-Coherent :
      (now : ℕ) (id : Text) (number : ℕ) (progress : TransferProgress) (m : Manager)
      (known : Option Task)
      → Coherent waited m
      → lookup id m.tasks ≡ known
      → Coherent waited (report_for now id number progress m known)
  report_for-Coherent now id number progress m none h found = h
  report_for-Coherent now id number progress m (some task) h found =
      on_test (Coherent waited)
        (is_downloading task.state
          || (is_paused task.state
              && is_some progress.checkpoint
              && is_run number (lookup id m.runs)))
        (λ _. kept-Coherent now id progress task m progress.checkpoint h found) (λ _. h)

  -- A report of progress, from any run, keeps the manager coherent.
  pub run_progress-Coherent :
      (now : ℕ) (id : Text) (number : ℕ) (progress : TransferProgress) (m : Manager)
      → Coherent waited m
      → Coherent waited (run_progress now id number progress m)
  unfolding run_progress
  run_progress-Coherent now id number progress m h =
      report_for-Coherent now id number progress m (lookup id m.tasks) h refl

  bt_report_for-Coherent :
      (now : ℕ) (id : Text) (number : ℕ) (request : BtTransferRequest)
      (progress : BtTransferProgress) (m : Manager) (known : Option Task)
      → Coherent waited m
      → lookup id m.tasks ≡ known
      → Coherent waited (bt_report_for now id number request progress m known)
  unfolding publish publish_event
  bt_report_for-Coherent now id number request progress m none h found = h
  bt_report_for-Coherent now id number request progress m (some task) h found =
      on_test (Coherent waited) (is_downloading task.state && is_run number (lookup id m.runs))
        (λ _. rw (persist-store _ _).1 (retask-Coherent waited id task _ m h found refl refl))
        (λ _. h)

  -- So does a report of a BT run.
  pub run_bt_progress-Coherent :
      (now : ℕ) (id : Text) (number : ℕ) (request : BtTransferRequest)
      (progress : BtTransferProgress) (m : Manager)
      → Coherent waited m
      → Coherent waited (run_bt_progress now id number request progress m)
  unfolding run_bt_progress
  run_bt_progress-Coherent now id number request progress m h =
      bt_report_for-Coherent now id number request progress m (lookup id m.tasks) h refl

  requeue-Coherent :
      (now : ℕ) (id : Text) (retry_at : ℕ) (m : Manager) (known : Option Task)
      → Coherent waited m
      → lookup id m.tasks ≡ known
      → Coherent waited (requeue now id retry_at m known)
  requeue-Coherent now id retry_at m none h found = h
  requeue-Coherent now id retry_at m (some task) h found =
      on_test (Coherent waited) (is_retrying task.state && equal_time retry_at task.next_retry_at)
        (λ due.
          let task' : Task = record task {
            state = queued;
            next_retry_at = none;
            updated_at = now;
          } in
          let entered : Manager = record m { tasks = insert id task' m.tasks } in
          let (s, e) = persist-store task' entered in
          let stored : Manager = (persist_task_locked task' entered).0 in
          let idle : lookup id m.runs ≡ none = ground (arith, h id) in
          let queue : Coherent waited (enqueue_locked id stored) = rw e (
            requeued-Coherent waited id task task' (record m { store = s }) h found idle refl
              refl) in
          let (m', updates) = fill_available_slots_locked now (enqueue_locked id stored) in
          publish_all-Coherent waited
            (if contains_task updates id then updates else updates ++ task' ∷ []) m'
            (fill-Coherent waited now (enqueue_locked id stored) queue))
        (λ _. h)

  -- A retry that falls due keeps the manager coherent, whatever the time it was made for.
  pub retry_due-Coherent :
      (now : ℕ) (id : Text) (retry_at : ℕ) (m : Manager)
      → Coherent waited m
      → Coherent waited (retry_due now id retry_at m)
  unfolding retry_due
  retry_due-Coherent now id retry_at m h =
      on_test (Coherent waited) m.closed (λ _. h)
        (λ _. requeue-Coherent now id retry_at m (lookup id m.tasks) h refl)

  -- New settings keep the manager coherent.
  pub apply_scheduler_settings-Coherent :
      (now : ℕ) (settings : SchedulerSettings) (m : Manager)
      → Coherent waited m
      → Coherent waited (apply_scheduler_settings now settings m)
  unfolding apply_scheduler_settings
  apply_scheduler_settings-Coherent now settings m h =
      on_test (Coherent waited) m.closed (λ _. h) (λ _. fill_and_publish-Coherent waited now _ h)

  -- A timer of any generation keeps the manager coherent.
  pub wake-Coherent :
      (now generation : ℕ) (m : Manager)
      → Coherent waited m
      → Coherent waited (wake_scheduled_tasks now generation m)
  unfolding wake_scheduled_tasks
  wake-Coherent now generation m h =
      on_test (Coherent waited) (m.closed || not (generation == m.schedule_generation)) (λ _. h)
        (λ _. fill_and_publish-Coherent waited now _ h)
