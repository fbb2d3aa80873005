-- ===== src/Manager/Invariant/Runs.antt =====
-- What a transfer's goroutine does keeps the manager coherent, as do the timers and the settings.
pub mod Ends
pub mod Reports
use downpeed_fluter.Base.{
  ℕ, zero, suc, ◌+◌, ◌≡◌, ◌≢◌, refl, Bool, true, false, not, ◌&&◌, ◌||◌, List, [], ◌∷◌, ◌++◌,
  Option, none, some, Text, Table, lookup, insert, remove, delete, count, arith, ap, lookup-insert,
  lookup-delete, Text-discrete, is_some, on_test, on_option, on_outcome, Outcome, ok, err, ℤ, pos,
  if◌then◌else◌, leb, ltb_ℤ, eqb_ℤ, ◌==◌,
}
use downpeed_fluter.Errors.{DownloadError, TransferError, context_canceled}
use downpeed_fluter.Checkpoint.{TransferCheckpoint, validate_transfer_checkpoint}
use downpeed_fluter.Task.{
  Task, TaskState, TransferRequest, BtTransferRequest, BtDiagnostics, TransferResult,
  TransferProgress, BtTransferProgress, is_downloading, is_queued, is_bt, is_paused, is_retrying,
  queued, retrying,
}
use downpeed_fluter.Manager.State.{
  Manager, TaskRun, TaskStore, no_request, no_bt_request, or_zero, Files, Effect, removed,
  cleaned_up,
}
use downpeed_fluter.Manager.Persist.{
  persist_task_locked, mark_bt_diagnostics_stopped_locked, publish, publish_event,
}
use downpeed_fluter.Manager.Scheduler.{
  fill_and_publish, fill_available_slots_locked, SchedulerSettings, apply_scheduler_settings,
  wake_scheduled_tasks, enqueue_locked, contains_task,
}
use downpeed_fluter.Manager.Failures.{is_retryable_transfer_error}
use downpeed_fluter.Manager.Runs.{
  with_effect, schedule_retry_locked, retrying_task, retry_delay, retry_point, is_run, release_run,
  requeue, retry_due, equal_time,
}
use downpeed_fluter.Manager.Ends.{
  ended_task, retried_after, settled, publish_then, end_of_run, run_ended, ended_bt_task,
  cleaned_after, end_of_bt_run, run_bt_ended,
}
use downpeed_fluter.Manager.Reports.{
  progressed, agrees, keep_checkpoint, store_progress, report_for, run_progress, bt_report_for,
  run_bt_progress,
}
use downpeed_fluter.Manager.Invariant.{Coherent, CoherentAt, no_wait}
use downpeed_fluter.Manager.Invariant.Frame.{persist-store, mark-diagnostics}
use downpeed_fluter.Manager.Invariant.Filling.{
  fill-Coherent, publish_all-Coherent, fill_and_publish-Coherent,
}
use downpeed_fluter.Manager.Invariant.Pausing.{request-Coherent, retask-Coherent}
use downpeed_fluter.Manager.Invariant.Resuming.{requeued-Coherent}

module _ (waited : Text → Bool) where
  -- A task that is over or waits for a retry, with its run gone.
  pub finished-Coherent :
      (id : Text) (task task' : Task) (m : Manager)
      → Coherent waited m
      → lookup id m.tasks ≡ some task
      → task'.id ≡ task.id
      → is_queued task.state ≡ false
      → is_queued task'.state ≡ false
      → is_downloading task'.state ≡ false
      → Coherent waited (record m { runs = delete id m.runs; tasks = insert id task' m.tasks })
  finished-Coherent id task task' m h found same busy out idle j =
      ground (arith, h id, h j, lookup-insert id j task' m.tasks, lookup-delete id j m.runs)

  -- A task that is not downloading, with its run gone.
  pub released-Coherent :
      (id : Text) (number : ℕ) (m : Manager) (known : Option Task)
      → Coherent waited m
      → lookup id m.tasks ≡ known
      → ((task : Task) → known ≡ some task → is_downloading task.state ≡ false)
      → Coherent waited (release_run id number m)
  unfolding release_run
  released-Coherent id number m none h found idle =
      on_test (Coherent waited) (is_run number (lookup id m.runs))
        (λ _ j. ground (arith, h id, h j, lookup-delete id j m.runs)) (λ _. h)
  released-Coherent id number m (some task) h found idle =
      on_test (Coherent waited) (is_run number (lookup id m.runs))
        (λ _ j. ground (arith, h id, h j, lookup-delete id j m.runs, idle task refl)) (λ _. h)

-- What scheduling a retry leaves: nothing new, or the task put to wait.
pub Retries : Text → Task → Manager → Manager × Option Task → Type 0
Retries id task m (m', none) = m' ≡ m
Retries id task m (m', some t) =
    (s : Option TaskStore) × (e : List Effect) × (q : TransferRequest) × (m' ≡ record m {
      store = s;
      effects = e;
      requests = insert id q m.requests;
      tasks = insert id t m.tasks;
    })
    × (t.id ≡ task.id)
    × (t.state ≡ retrying)

pub schedule_retry-Retries :
    (files : Files) (now : ℕ) (id : Text) (task : Task) (error : TransferError) (m : Manager)
    → Retries id task m (schedule_retry_locked files now id task error m)
unfolding Retries schedule_retry_locked
schedule_retry-Retries files now id task error m =
    on_test (Retries id task m)
      (not (is_retryable_transfer_error error) || leb m.max_retries task.retry_count) (λ _. refl)
      λ _.
        let request : TransferRequest = or_zero no_request (lookup id m.requests) in
        let (size, drops) = retry_point files request in
        let delay : ℕ = retry_delay task.retry_count m.retry_base_delay in
        let retried : Task = retrying_task now delay error size task in
        let asked : TransferRequest = record request { checkpoint = none; offset = size } in
        let dropped : Manager = with_effect (removed request.work_path) m in
        let (s, e) = persist-store retried (record dropped {
          requests = insert id asked m.requests;
          tasks = insert id retried m.tasks;
        }) in
        let (s', e') =
          persist-store retried (record m {
            requests = insert id asked m.requests;
            tasks = insert id retried m.tasks;
          }) in
        on_test
          (λ (x : Manager). Retries id task m (
            with_effect (Effect.retry_after id (now + delay))
                (persist_task_locked retried (record x {
                  requests = insert id asked x.requests;
                  tasks = insert id retried x.tasks;
                })).0,
            some retried,
          ))
          drops
          (λ _. (s, _, asked, ap (with_effect (Effect.retry_after id (now + delay))) e, refl, refl))
          (λ _.
            (s', _, asked, ap (with_effect (Effect.retry_after id (now + delay))) e', refl, refl))
