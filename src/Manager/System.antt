-- ===== src/Manager/System.antt =====
-- The manager among its goroutines: every critical section as a step, in any order that the locks
-- allow. The operation lock is held from the first step of Pause and Cancel to their last, so only
-- what runs, timers and settings do comes between. A run is done, for those that wait for it, once
-- it is out of the table of runs. Resume, Retry, Delete and the creations do not wait, and are taken
-- as one step.
pub mod Safety
use downpeed_fluter.Base.{
  ℕ, ◌≡◌, Bool, true, false, Option, none, some, Text, lookup, ℤ, Outcome, ok, err, ◌≢◌,
}
use downpeed_fluter.Errors.{DownloadError, TransferError, task_persistence}
use downpeed_fluter.Task.{
  Task, TransferRequest, BtTransferRequest, TransferResult, TransferProgress, BtTransferProgress,
  queued,
}
use downpeed_fluter.Manager.State.{Manager, TaskRun, Files}
use downpeed_fluter.Manager.Scheduler.{
  SchedulerSettings, apply_scheduler_settings, wake_scheduled_tasks,
}
use downpeed_fluter.Manager.Runs.{is_run, retry_due}
use downpeed_fluter.Manager.Ends.{run_ended, run_bt_ended}
use downpeed_fluter.Manager.Reports.{run_progress, run_bt_progress}
use downpeed_fluter.Manager.Pausing.{Pausing, over, waiting, pause_begin, pause_finish}
use downpeed_fluter.Manager.Resuming.{resume}
use downpeed_fluter.Manager.Retrying.{retry}
use downpeed_fluter.Manager.Removing.{Canceling, cancel_begin, cancel_finish}
use downpeed_fluter.Manager.Deleting.{delete_task}
use downpeed_fluter.Manager.Creating.{create_locked, create_bt_locked}
use downpeed_fluter.Manager.Invariant.Resuming.{is_bt_task}

-- The operation that holds the operation lock and waits.
pub data Pending : Type 0 where
  idle : Pending
  pausing : Text → TaskRun → Task → Pending
  canceling : Text → Canceling → Pending

pub record System : Type 0 where
  pub manager : Manager
  pub pending : Pending

abbrev pub at_rest : Manager → System
at_rest m = record { manager = m; pending = idle }

abbrev pub after_pause : Text → Manager × Pausing → System
after_pause id (m, over r) = record { manager = m; pending = idle }
after_pause id (m, waiting run task) = record { manager = m; pending = pausing id run task }

abbrev pub after_cancel : Text → Manager × Outcome DownloadError Canceling → System
after_cancel id (m, err e) = record { manager = m; pending = idle }
after_cancel id (m, ok c) = record { manager = m; pending = canceling id c }

abbrev pub after_op {ℓ} : {A : Type ℓ} → Manager × A → System
after_op (m, a) = record { manager = m; pending = idle }

-- One step. The instants, the answers of files and the results of transfers are arbitrary.
pub data Step : System → System → Type 0 where
  creates :
      (now : ℕ) (task : Task) (request : TransferRequest) (m : Manager)
      → lookup task.id m.tasks ≡ none
      → task.state ≡ queued
      → Step (at_rest m) (after_op (create_locked now task request m))
  creates_bt :
      (now : ℕ) (task : Task) (prepared : BtTransferRequest) (m : Manager)
      → lookup task.id m.tasks ≡ none
      → task.state ≡ queued
      → Step (at_rest m) (after_op (create_bt_locked now task prepared m))
  pauses :
      (now : ℕ) (id : Text) (m : Manager) → Step (at_rest m) (after_pause id (pause_begin now id m))
  paused_at :
      (files : Files) (now : ℕ) (id : Text) (run : TaskRun) (task : Task) (m : Manager)
      → lookup id m.runs ≡ none
      → Step
          (record { manager = m; pending = pausing id run task })
          (after_op (pause_finish files now id run task m))
  resumes :
      (files : Files) (now : ℕ) (id : Text) (m : Manager)
      → (is_bt_task (lookup id m.tasks) ≡ true → (resume files now id m).1 ≢ err task_persistence)
      → Step (at_rest m) (after_op (resume files now id m))
  retries :
      (files : Files) (cleanup : Option DownloadError) (now : ℕ) (id : Text) (m : Manager)
      → Step (at_rest m) (after_op (retry files cleanup now id m))
  cancels :
      (now : ℕ) (id : Text) (m : Manager)
      → Step (at_rest m) (after_cancel id (cancel_begin now id m))
  canceled_at :
      (id : Text) (c : Canceling) (m : Manager)
      → lookup id m.runs ≡ none
      → Step (record { manager = m; pending = canceling id c }) (after_op (cancel_finish c m))
  deletes :
      (files : Files) (id : Text) (delete_file : Bool) (m : Manager)
      → Step (at_rest m) (after_op (delete_task files id delete_file m))
  run_ends :
      (files : Files) (now : ℕ) (id : Text) (number : ℕ)
      (result : Outcome TransferError TransferResult) (s : System)
      → is_run number (lookup id s.manager.runs) ≡ true
      → Step s (record s { manager = run_ended files now id number result s.manager })
  bt_run_ends :
      (now : ℕ) (id : Text) (number : ℕ) (request : BtTransferRequest)
      (result : Outcome TransferError ℤ) (s : System)
      → is_run number (lookup id s.manager.runs) ≡ true
      → Step s (record s { manager = run_bt_ended now id number request result s.manager })
  reports :
      (now : ℕ) (id : Text) (number : ℕ) (progress : TransferProgress) (s : System)
      → Step s (record s { manager = run_progress now id number progress s.manager })
  bt_reports :
      (now : ℕ) (id : Text) (number : ℕ) (request : BtTransferRequest)
      (progress : BtTransferProgress) (s : System)
      → Step s (record s { manager = run_bt_progress now id number request progress s.manager })
  falls_due :
      (now : ℕ) (id : Text) (retry_at : ℕ) (s : System)
      → Step s (record s { manager = retry_due now id retry_at s.manager })
  wakes :
      (now generation : ℕ) (s : System)
      → Step s (record s { manager = wake_scheduled_tasks now generation s.manager })
  configures :
      (now : ℕ) (settings : SchedulerSettings) (s : System)
      → Step s (record s { manager = apply_scheduler_settings now settings s.manager })

pub data Reach (s : System) : System → Type 0 where
  here : Reach s s
  next : {t u : System} → Reach s t → Step t u → Reach s u
