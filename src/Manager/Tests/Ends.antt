-- ===== src/Manager/Tests/Ends.antt =====
-- Ends of runs, a closed manager and sequences of steps on concrete managers.

use downpeed_fluter.Errors.{remote_temporary, sentinel}
use downpeed_fluter.Manager.Runs.{schedule_retry_locked}
use downpeed_fluter.Manager.Runs.Retries.{Scheduled, schedule_retry-Scheduled}
use downpeed_fluter.Manager.Scheduler.{wake_scheduled_tasks}
use downpeed_fluter.Manager.Pausing.{pause_begin}
use downpeed_fluter.Manager.System.{System, Reach, here, next, at_rest, after_pause, pauses, wakes}
use downpeed_fluter.Manager.System.Safety.{Safe, Reach-Safe}
use downpeed_fluter.Manager.Tests.{one_runs, one_runs-Coherent, task_a, id_a, no_files}

schedule_retry-Scheduled_example :
    Scheduled 50 id_a task_a
      (sentinel remote_temporary)
      one_runs
      (schedule_retry_locked no_files 50 id_a task_a (sentinel remote_temporary) one_runs)
schedule_retry-Scheduled_example =
    schedule_retry-Scheduled no_files 50 id_a task_a (sentinel remote_temporary) one_runs

-- The timer, and then Pause, which waits for the run.
abbrev woken : System
woken = record (at_rest one_runs) { manager = wake_scheduled_tasks 100 0 one_runs }

paused_after_timer :
    Reach (at_rest one_runs) (after_pause id_a (pause_begin 101 id_a woken.manager))
paused_after_timer =
    next (next here (wakes 100 0 (at_rest one_runs))) (pauses 101 id_a woken.manager)

Reach-Safe_example : Safe (after_pause id_a (pause_begin 101 id_a woken.manager))
Reach-Safe_example = Reach-Safe one_runs-Coherent paused_after_timer
