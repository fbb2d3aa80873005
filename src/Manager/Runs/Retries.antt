-- ===== src/Manager/Runs/Retries.antt =====
-- When a failed transfer is retried (scheduleRetryLocked of backend/internal/download/scheduler.go).
use downpeed_fluter.Base.{
  ◌||◌, not, leb, if◌then◌else◌, ℤ, ℕ, suc, ◌+◌, ◌≤◌, ◌≡◌, refl, arith, ◌⊎◌, true, false, Option,
  none, some, Text, lookup, insert, lookup-insert, on_test, ap, ◌∙◌, not,
}
use downpeed_fluter.Errors.{TransferError}
use downpeed_fluter.Task.{Task, retrying}
use downpeed_fluter.Manager.State.{Manager, Files, removed, no_request, or_zero}
use downpeed_fluter.Manager.Persist.{persist_task_locked}
use downpeed_fluter.Manager.Failures.{is_retryable_transfer_error}
use downpeed_fluter.Manager.Runs.{
  retry_delay, schedule_retry_locked, retry_point, with_effect, retrying_task, TransferRequest,
}
use downpeed_fluter.Manager.Invariant.Frame.{persist-store}

abbrev pub Scheduled : ℕ → Text → Task → TransferError → Manager → Manager × Option Task → Type 0
Scheduled now id task error m (m', none) =
    (m' ≡ m) × ((is_retryable_transfer_error error ≡ false) ⊎ (m.max_retries ≤ task.retry_count))
Scheduled now id task error m (m', some retried) =
    (is_retryable_transfer_error error ≡ true)
    × (retried.state ≡ retrying)
    × (retried.retry_count ≡ suc task.retry_count)
    × (retried.retry_count ≤ m.max_retries)
    × (retried.next_retry_at ≡ some (now + retry_delay task.retry_count m.retry_base_delay))
    × (lookup id m'.tasks ≡ some retried)
    × ((or_zero no_request (lookup id m'.requests)).checkpoint ≡ none)
    × ((or_zero no_request (lookup id m'.requests)).offset ≡ retried.downloaded)

-- A retry is refused, and nothing changes, only if the error does not allow one or the task has had
-- as many as the settings allow; otherwise the task is retrying with one retry more, at most the
-- allowed number, it falls due after the delay for the retries before it, and its request has no
-- checkpoint and goes on from the bytes that the task counts.
pub schedule_retry-Scheduled :
    (files : Files) (now : ℕ) (id : Text) (task : Task) (error : TransferError) (m : Manager)
    → Scheduled now id task error m (schedule_retry_locked files now id task error m)
unfolding schedule_retry_locked
schedule_retry-Scheduled files now id task error m =
    on_test (Scheduled now id task error m)
      (not (is_retryable_transfer_error error) || leb m.max_retries task.retry_count)
      (λ refused. (refl, ground arith))
      λ allowed.
        let request : TransferRequest = or_zero no_request (lookup id m.requests) in
        let size : ℤ = (retry_point files request).0 in
        let asked : TransferRequest = record request { checkpoint = none; offset = size } in
        let m' : Manager =
          if (retry_point files request).1 then with_effect (removed request.work_path) m else m in
        let retried : Task =
          retrying_task now (retry_delay task.retry_count m.retry_base_delay) error size task in
        let stored : Manager = record m' {
          requests = insert id asked m'.requests;
          tasks = insert id retried m'.tasks;
        } in
        let (s, e) = persist-store retried stored in
        let filed : lookup id (insert id asked m'.requests) ≡ some asked =
          ground (arith, lookup-insert id id asked m'.requests) in
        let entered : lookup id (insert id retried m'.tasks) ≡ some retried =
          ground (arith, lookup-insert id id retried m'.tasks) in
        let held : lookup id (persist_task_locked retried stored).0.requests ≡ some asked =
          ap (λ (x : Manager). lookup id x.requests) e ∙ filed in
        (
          ground arith,
          refl,
          refl,
          ground arith,
          refl,
          ap (λ (x : Manager). lookup id x.tasks) e ∙ entered,
          ap (λ x. (or_zero no_request x).checkpoint) held,
          ap (λ x. (or_zero no_request x).offset) held,
        )
