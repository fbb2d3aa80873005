-- ===== src/Manager/Invariant/Retrying.antt =====
-- Retry keeps the manager coherent on every branch.
use downpeed_fluter.Base.{
  ℕ, ◌≡◌, refl, true, not, Option, none, some, Text, Table, lookup, insert, arith, lookup-insert,
  on_test, on_option, Outcome, ok, err, pos, if◌then◌else◌,
}
use downpeed_fluter.Errors.{DownloadError}
use downpeed_fluter.Task.{
  Task, TransferRequest, BtTransferRequest, BtDiagnostics, is_failed, is_bt, queued,
}
use downpeed_fluter.Manager.State.{
  Manager, TaskStore, no_request, no_bt_request, or_zero, Files, removed, cleaned_up,
}
use downpeed_fluter.Manager.Persist.{persist_task_locked, new_bt_diagnostics}
use downpeed_fluter.Manager.Runs.{with_effect}
use downpeed_fluter.Manager.Resuming.{destination_free}
use downpeed_fluter.Manager.Retrying.{
  RetryPlan, requeued_task, retry_saved, requeue_failed, retry_planned, retry_bt, retry_http,
  retry_known, retry, is_retryable, prepare_http_retry,
}
use downpeed_fluter.Manager.Invariant.{Coherent, no_wait}
use downpeed_fluter.Manager.Invariant.Frame.{persist-store, mark-diagnostics}
use downpeed_fluter.Manager.Invariant.Pausing.{request-Coherent}
use downpeed_fluter.Manager.Invariant.Resuming.{
  requeued-Coherent, enqueue_and_fill-Coherent, no_run,
}

-- A manager with the task queued, the requests of a coherent one or more, and other diagnostics.
Requeued : Text → Task → Manager → Manager → Type 0
Requeued id task' m m' =
    (s : Option TaskStore) × (d : Table BtDiagnostics) × (q : Table TransferRequest) × (m'
      ≡ record m { tasks = insert id task' m.tasks; requests = q; bt_diagnostics = d; store = s })
    × Coherent no_wait (record m { requests = q })

retry_saved-Coherent :
    (now : ℕ) (id : Text) (task task' : Task) (request : TransferRequest) (m : Manager)
    (x : Manager × Option DownloadError)
    → Coherent no_wait m
    → lookup id m.tasks ≡ some task
    → is_failed task.state ≡ true
    → task'.id ≡ task.id
    → task'.state ≡ queued
    → Requeued id task' m x.0
    → Coherent no_wait (retry_saved now id task request x).0
unfolding Requeued
retry_saved-Coherent now id task task' request m (m', none) h found failed same state
      (s, d, q, e, k) =
    rw e (
      enqueue_and_fill-Coherent no_wait now id _ (
        requeued-Coherent no_wait id task task'
          (record m { requests = q; bt_diagnostics = d; store = s }) k found
          (no_run id task m h found (ground arith)) same state))
retry_saved-Coherent now id task task' request m (m', some x) h found failed same state
      (s, d, q, e, k) =
    let restored : Manager = record m' {
      tasks = insert id task m'.tasks;
      requests = if is_bt task.protocol then m'.requests else insert id request m'.requests;
    } in
    let (d', marked) = mark-diagnostics task restored in
    rw marked (
      rw e λ j. ground (
        arith,
        h id,
        h j,
        k id,
        k j,
        lookup-insert id j task (insert id task' m.tasks),
        lookup-insert id j task' m.tasks,
        lookup-insert id j request q,
      ))

requeue_failed-Coherent :
    (now : ℕ) (id : Text) (task : Task) (plan : RetryPlan) (bt_request : BtTransferRequest)
    (m : Manager)
    → Coherent no_wait m
    → lookup id m.tasks ≡ some task
    → is_failed task.state ≡ true
    → Coherent no_wait (requeue_failed now id task plan bt_request m).0
unfolding Requeued
requeue_failed-Coherent now id task plan bt_request m h found failed =
    let task' : Task = requeued_task now plan.downloaded task in
    let request : TransferRequest = record (plan.request) {
      offset = plan.downloaded;
      expected_size = task'.total;
    } in
    let d : Table BtDiagnostics =
      insert id (new_bt_diagnostics task' bt_request) m.bt_diagnostics in
    let old : TransferRequest = or_zero no_request (lookup id m.requests) in
    let with_bt : Manager = record m { tasks = insert id task' m.tasks; bt_diagnostics = d } in
    let with_http : Manager = record m {
      tasks = insert id task' m.tasks;
      requests = insert id request m.requests;
    } in
    let (s, e) = persist-store task' with_bt in
    let (s', e') = persist-store task' with_http in
    on_test
      (λ (x : Manager).
        Coherent no_wait (retry_saved now id task old (persist_task_locked task' x)).0)
      (is_bt task.protocol)
      (λ _.
        retry_saved-Coherent now id task task' old m (persist_task_locked task' with_bt) h found
          failed refl refl (s, d, m.requests, e, h))
      (λ _.
        retry_saved-Coherent now id task task' old m (persist_task_locked task' with_http) h found
          failed refl refl
          (
            s',
            m.bt_diagnostics,
            insert id request m.requests,
            e',
            request-Coherent no_wait id request m h,
          ))

abbrev P : Manager × Outcome DownloadError Task → Type 0
P r = Coherent no_wait r.0

retry_bt-Coherent :
    (cleanup : Option DownloadError) (now : ℕ) (id : Text) (task : Task) (m : Manager)
    (o : Option BtTransferRequest)
    → Coherent no_wait m
    → lookup id m.tasks ≡ some task
    → is_failed task.state ≡ true
    → P (retry_bt cleanup now id task m o)
retry_bt-Coherent cleanup now id task m none h found failed = h
retry_bt-Coherent (some e) now id task m (some bt_request) h found failed =
    on_test P (not m.has_bt_transfer) (λ _. h) (λ _. h)
retry_bt-Coherent none now id task m (some bt_request) h found failed =
    on_test P (not m.has_bt_transfer) (λ _. h)
      (λ _.
        requeue_failed-Coherent now id task (record { request = no_request; downloaded = pos 0 })
          bt_request (with_effect (cleaned_up bt_request) m) h found failed)

retry_planned-Coherent :
    (now : ℕ) (id : Text) (task : Task) (bt_request : BtTransferRequest) (m : Manager)
    (plan : Outcome DownloadError RetryPlan)
    → Coherent no_wait m
    → lookup id m.tasks ≡ some task
    → is_failed task.state ≡ true
    → P (retry_planned now id task bt_request m plan)
retry_planned-Coherent now id task bt_request m (err e) h found failed = h
retry_planned-Coherent now id task bt_request m (ok plan) h found failed =
    requeue_failed-Coherent now id task plan bt_request m h found failed

retry_http-Coherent :
    (files : Files) (now : ℕ) (id : Text) (task : Task) (m : Manager) (o : Option TransferRequest)
    → Coherent no_wait m
    → lookup id m.tasks ≡ some task
    → is_failed task.state ≡ true
    → P (retry_http files now id task m o)
retry_http-Coherent files now id task m none h found failed = h
retry_http-Coherent files now id task m (some request) h found failed =
    let (removes, plan) = prepare_http_retry files request task.total in
    on_test (λ (x : Manager). P (retry_planned now id task no_bt_request x plan)) removes
      (λ _.
        retry_planned-Coherent now id task no_bt_request (with_effect (removed request.work_path) m)
          plan h found failed)
      (λ _. retry_planned-Coherent now id task no_bt_request m plan h found failed)

retry_known-Coherent :
    (files : Files) (cleanup : Option DownloadError) (now : ℕ) (id : Text) (m : Manager)
    (known : Option Task)
    → Coherent no_wait m
    → lookup id m.tasks ≡ known
    → P (retry_known files cleanup now id m known)
retry_known-Coherent files cleanup now id m none h found = h
retry_known-Coherent files cleanup now id m (some task) h found =
    on_test P (not (is_failed task.state)) (λ _. h)
      λ failed.
        on_test P (not (is_retryable task.error)) (λ _. h)
          λ _.
            on_option P
              (elim [
                | some e ↦ (m, err e)
                | none ↦
                    if is_bt task.protocol
                    then retry_bt cleanup now id task m (lookup id m.bt_requests)
                    else retry_http files now id task m (lookup id m.requests)
              ])
              (destination_free (files.lstat task.file_path))
              (on_test P (is_bt task.protocol)
                (λ _.
                  retry_bt-Coherent cleanup now id task m (lookup id m.bt_requests) h found
                    (ground arith))
                (λ _.
                  retry_http-Coherent files now id task m (lookup id m.requests) h found
                    (ground arith)))
              (λ e _. h)

-- Retrying a task keeps the manager coherent on every branch: if the task cannot be saved, it is
-- put back.
pub retry-Coherent :
    (files : Files) (cleanup : Option DownloadError) (now : ℕ) (id : Text) (m : Manager)
    → Coherent no_wait m
    → Coherent no_wait (retry files cleanup now id m).0
unfolding retry
retry-Coherent files cleanup now id m h =
    on_test P m.closed (λ _. h)
      (λ _. retry_known-Coherent files cleanup now id m (lookup id m.tasks) h refl)
