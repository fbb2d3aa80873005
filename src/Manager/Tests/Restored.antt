-- ===== src/Manager/Tests/Restored.antt =====
-- A stored task that was downloading, restored.
use downpeed_fluter.Base.{◌≡◌, refl, pos, ok, false}
use downpeed_fluter.Task.{Task, downloading}
use downpeed_fluter.Manager.State.{no_request}
use downpeed_fluter.Manager.Pausing.{reconciled_partial_progress}
use downpeed_fluter.Manager.Restoring.{
  Recovered, reconcile_stored_task, reconcile_interrupted_task, interrupted,
}
use downpeed_fluter.Manager.Restoring.Resumes.{restored_resumes}
use downpeed_fluter.Manager.Restoring.States.{Settled, restored-Settled}
use downpeed_fluter.Manager.Tests.{task_a, no_files}

abbrev was_downloading : Task
was_downloading = record task_a { state = downloading }

abbrev restored : Recovered
restored = record { task = interrupted 50 was_downloading; request = no_request; removes = false }

restored_paused : reconcile_stored_task no_files 50 was_downloading no_request ≡ ok restored
unfolding reconcile_stored_task reconcile_interrupted_task
restored_paused = refl

restored_resumes_example :
    reconciled_partial_progress no_files restored.task no_request ≡ ok (pos 0)
restored_resumes_example =
    restored_resumes no_files no_files 50 was_downloading no_request restored restored_paused refl
      refl

restored-Settled_example : Settled 50 restored
restored-Settled_example =
    restored-Settled no_files 50 was_downloading no_request restored restored_paused
