-- ===== src/Manager/System/Safety.antt =====
-- Whatever order the steps come in, the manager stays coherent.
use downpeed_fluter.Base.{Bool, Text, Outcome, ok, err}
use downpeed_fluter.Errors.{DownloadError}
use downpeed_fluter.Manager.State.{Manager}
use downpeed_fluter.Manager.Invariant.Pausing
use downpeed_fluter.Manager.Invariant.Removing
use downpeed_fluter.Manager.Pausing.{Pausing, over, waiting, pause_begin}
use downpeed_fluter.Manager.Removing.{Canceling, cancel_begin}
use downpeed_fluter.Manager.System.{
  System, Pending, idle, pausing, canceling, Step, Reach, here, next, creates, creates_bt, pauses,
  paused_at, resumes, retries, cancels, canceled_at, deletes, run_ends, bt_run_ends, reports,
  bt_reports, falls_due, wakes, configures, after_pause, after_cancel,
}
use downpeed_fluter.Manager.Invariant.{Coherent, no_wait, wait_for}
use downpeed_fluter.Manager.Invariant.Pausing.{
  pause_begin-Coherent, pause_finish-Coherent, run_gone-Coherent,
}
use downpeed_fluter.Manager.Invariant.Removing.{
  cancel_begin-Coherent, cancel_finish-Coherent, delete_task-Coherent,
}
use downpeed_fluter.Manager.Invariant.Resuming.{resume-Coherent}
use downpeed_fluter.Manager.Invariant.Retrying.{retry-Coherent}
use downpeed_fluter.Manager.Invariant.Creating.{create_locked-Coherent, create_bt_locked-Coherent}
use downpeed_fluter.Manager.Invariant.Runs.Ends.{run_ended-Coherent, run_bt_ended-Coherent}
use downpeed_fluter.Manager.Invariant.Runs.Reports.{
  run_progress-Coherent, run_bt_progress-Coherent, retry_due-Coherent,
  apply_scheduler_settings-Coherent, wake-Coherent,
}

abbrev pub waits : Pending → Text → Bool
waits idle = no_wait
waits (pausing id run task) = wait_for id
waits (canceling id c) = wait_for id

abbrev pub Safe : System → Type 0
Safe s = Coherent (waits s.pending) s.manager

after_pause-Safe :
    (id : Text) (r : Manager × Pausing) → Pausing.CoherentAfter id r → Safe (after_pause id r)
after_pause-Safe id (m, over r) h = h
after_pause-Safe id (m, waiting run task) h = h

after_cancel-Safe :
    (id : Text) (r : Manager × Outcome DownloadError Canceling)
    → Removing.CoherentAfter id r
    → Safe (after_cancel id r)
after_cancel-Safe id (m, err e) h = h
after_cancel-Safe id (m, ok c) h = h

-- Every step keeps the manager coherent.
pub Step-Safe : {s t : System} → Step s t → Safe s → Safe t
Step-Safe (creates now task request m fresh state) h =
    create_locked-Coherent no_wait now task request m h fresh state
Step-Safe (creates_bt now task prepared m fresh state) h =
    create_bt_locked-Coherent no_wait now task prepared m h fresh state
Step-Safe (pauses now id m) h =
    after_pause-Safe id (pause_begin now id m) (pause_begin-Coherent now id m h)
Step-Safe (paused_at files now id run task m gone) h =
    pause_finish-Coherent no_wait files now id run task m (run_gone-Coherent id m h gone)
Step-Safe (resumes files now id m saved) h = resume-Coherent files now id m h saved
Step-Safe (retries files cleanup now id m) h = retry-Coherent files cleanup now id m h
Step-Safe (cancels now id m) h =
    after_cancel-Safe id (cancel_begin now id m) (cancel_begin-Coherent now id m h)
Step-Safe (canceled_at id c m gone) h =
    cancel_finish-Coherent no_wait c m (run_gone-Coherent id m h gone)
Step-Safe (deletes files id delete_file m) h = delete_task-Coherent files id delete_file m h
Step-Safe (run_ends files now id number result s live) h =
    run_ended-Coherent (waits s.pending) files now id number result s.manager h live
Step-Safe (bt_run_ends now id number request result s live) h =
    run_bt_ended-Coherent (waits s.pending) now id number request result s.manager h live
Step-Safe (reports now id number progress s) h =
    run_progress-Coherent (waits s.pending) now id number progress s.manager h
Step-Safe (bt_reports now id number request progress s) h =
    run_bt_progress-Coherent (waits s.pending) now id number request progress s.manager h
Step-Safe (falls_due now id retry_at s) h =
    retry_due-Coherent (waits s.pending) now id retry_at s.manager h
Step-Safe (wakes now generation s) h = wake-Coherent (waits s.pending) now generation s.manager h
Step-Safe (configures now settings s) h =
    apply_scheduler_settings-Coherent (waits s.pending) now settings s.manager h

-- In every state that a coherent manager can come to, by creations (of queued tasks, under IDs that
-- are not taken), pauses, resumptions, retries, cancellations, deletions, ends and reports of runs,
-- due retries, timers and new settings in any order, the manager is coherent: each task has its own
-- ID, is in the queue exactly once if it is queued and not at all otherwise, has a run if it is
-- downloading, and keeps a run in another state only while Pause or Cancel waits for it. A
-- resumption of a BT task that ends with the error that it could not be saved is not among the
-- steps, and a run ends only once.
pub Reach-Safe : {s t : System} → Safe s → Reach s t → Safe t
Reach-Safe h here = h
Reach-Safe h (next before step) = Step-Safe step (Reach-Safe h before)
