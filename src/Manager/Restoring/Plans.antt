-- ===== src/Manager/Restoring/Plans.antt =====
-- What reconciling a stored task leaves alone: its ID, its file and its plan
-- (backend/internal/download/persistence.go).
use downpeed_fluter.Base.{ℕ, ◌≡◌, refl, subst, arith, some, Outcome, ok, err, on_option}
use downpeed_fluter.Task.{Task, queued, downloading, retrying, paused, completed, failed, canceled}
use downpeed_fluter.Manager.Restoring.{
  reconcile_interrupted_task, reconcile_scheduled_task, reconcile_stored_task, TransferRequest,
  DownloadError, mark_recovered_task_failed, TaskState, Recovered, reconcile_state, settle_segments,
  planned_or_interrupted, other_state,
}
use downpeed_fluter.Manager.State.{Files}

-- The fields by which a task is known, and the time for which it is planned.
abbrev pub Known : Task → Task → Type 0
Known task t =
    (t.id ≡ task.id) × (t.file_path ≡ task.file_path) × (t.scheduled_at ≡ task.scheduled_at)

interrupted-Known :
    (files : Files) (now : ℕ) (task : Task) (request : TransferRequest)
    → Known task (reconcile_interrupted_task files now task request).task
unfolding reconcile_interrupted_task mark_recovered_task_failed
interrupted-Known files now task request = ground arith

scheduled-Known :
    (files : Files) (now : ℕ) (task t : Task) (request : TransferRequest)
    → reconcile_scheduled_task files now task request ≡ some t
    → Known task t
unfolding reconcile_scheduled_task mark_recovered_task_failed
scheduled-Known files now task t request h = ground arith

KnownIf : Task → Outcome DownloadError Recovered → Type 0
KnownIf task (err e) = Unit
KnownIf task (ok r) = Known task r.task

state-Known :
    (files : Files) (now : ℕ) (task : Task) (request : TransferRequest) (state : TaskState)
    → KnownIf task (reconcile_state files now task request state)
unfolding KnownIf
state-Known files now task request queued =
    on_option (λ (r : Recovered). Known task r.task) (planned_or_interrupted files now task request)
      (reconcile_scheduled_task files now task request) (interrupted-Known files now task request)
      (λ t planned. scheduled-Known files now task t request planned)
state-Known files now task request downloading = interrupted-Known files now task request
state-Known files now task request retrying = interrupted-Known files now task request
state-Known files now task request paused = interrupted-Known files now task request
state-Known files now task request completed = (refl, refl, refl)
state-Known files now task request failed = (refl, refl, refl)
state-Known files now task request canceled = (refl, refl, refl)
state-Known files now task request (other_state name) = tt

settle-Known :
    (task : Task) (x : Outcome DownloadError Recovered)
    → KnownIf task x
    → KnownIf task (settle_segments x)
unfolding KnownIf
settle-Known task (err e) h = tt
settle-Known task (ok r) h = h

pub reconciled-Known :
    (files : Files) (now : ℕ) (task : Task) (request : TransferRequest) (r : Recovered)
    → reconcile_stored_task files now task request ≡ ok r
    → Known task r.task
unfolding reconcile_stored_task KnownIf
reconciled-Known files now task request r same = subst (KnownIf task) same (
    settle-Known task (reconcile_state files now task request task.state)
      (state-Known files now task request task.state))
