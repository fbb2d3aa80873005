-- ===== src/Manager/Restoring/States.antt =====
-- The states in which stored tasks are restored.
use downpeed_fluter.Base.{
  subst, ℕ, ◌≡◌, ◌⊎◌, inl, refl, arith, true, false, none, some, pos, Outcome, ok, err, ◌||◌,
  on_option,
}
use downpeed_fluter.Errors.{DownloadError}
use downpeed_fluter.Task.{
  Task, TransferRequest, TaskState, queued, downloading, retrying, paused, completed, failed,
  canceled, other_state, is_queued, is_paused, is_terminal_state,
}
use downpeed_fluter.Manager.State.{Files}
use downpeed_fluter.Manager.Scheduler.{is_after}
use downpeed_fluter.Manager.Restoring.{
  Recovered, reconcile_stored_task, reconcile_state, reconcile_interrupted_task,
  reconcile_scheduled_task, mark_recovered_task_failed, settle_segments, planned_or_interrupted,
}

-- The task has stopped, or it is queued, has not started and is planned for later.
abbrev pub Settled : ℕ → Recovered → Type 0
Settled now r =
    (is_paused r.task.state || is_terminal_state r.task.state ≡ true)
    ⊎ ((is_queued r.task.state ≡ true)
        × (is_after r.task.scheduled_at now ≡ true)
        × (r.task.downloaded ≡ pos 0)
        × (r.request.checkpoint ≡ none))

interrupted_stops :
    (files : Files) (now : ℕ) (task : Task) (request : TransferRequest)
    → is_paused (reconcile_interrupted_task files now task request).task.state
        || is_terminal_state (reconcile_interrupted_task files now task request).task.state
      ≡ true
unfolding reconcile_interrupted_task mark_recovered_task_failed
interrupted_stops files now task request = ground arith

scheduled-Settled :
    (files : Files) (now : ℕ) (task t : Task) (request : TransferRequest)
    → task.state ≡ queued
    → reconcile_scheduled_task files now task request ≡ some t
    → Settled now (record { task = t; request = request; removes = false })
unfolding reconcile_scheduled_task mark_recovered_task_failed
scheduled-Settled files now task t request state h = ground arith

SettledIf : ℕ → Outcome DownloadError Recovered → Type 0
SettledIf now (err e) = Unit
SettledIf now (ok r) = Settled now r

state-Settled :
    (files : Files) (now : ℕ) (task : Task) (request : TransferRequest) (state : TaskState)
    → task.state ≡ state
    → SettledIf now (reconcile_state files now task request state)
unfolding SettledIf
state-Settled files now task request queued e =
    on_option (Settled now) (planned_or_interrupted files now task request)
      (reconcile_scheduled_task files now task request)
      (inl (interrupted_stops files now task request))
      (λ t planned. scheduled-Settled files now task t request e planned)
state-Settled files now task request downloading e = inl (interrupted_stops files now task request)
state-Settled files now task request retrying e = inl (interrupted_stops files now task request)
state-Settled files now task request paused e = inl (interrupted_stops files now task request)
state-Settled files now task request completed e = inl (ground arith)
state-Settled files now task request failed e = inl (ground arith)
state-Settled files now task request canceled e = inl (ground arith)
state-Settled files now task request (other_state name) e = tt

settle-Settled :
    (now : ℕ) (x : Outcome DownloadError Recovered)
    → SettledIf now x
    → SettledIf now (settle_segments x)
unfolding SettledIf
settle-Settled now (err e) h = tt
settle-Settled now (ok r) h = ground arith

-- Whatever stored task is restored, nothing of it runs: it is paused, completed, failed or canceled,
-- or it is queued, and then it is planned for a time to come, has no byte and no checkpoint.
pub restored-Settled :
    (files : Files) (now : ℕ) (task : Task) (request : TransferRequest) (r : Recovered)
    → reconcile_stored_task files now task request ≡ ok r
    → Settled now r
unfolding reconcile_stored_task SettledIf
restored-Settled files now task request r same = subst (SettledIf now) same (
    settle-Settled now (reconcile_state files now task request task.state)
      (state-Settled files now task request task.state refl))
