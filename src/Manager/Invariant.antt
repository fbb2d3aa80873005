-- ===== src/Manager/Invariant.antt =====
-- What holds of the manager between two critical sections.
pub mod Frame
pub mod Filling
pub mod Pausing
pub mod Removing
pub mod Resuming
pub mod Retrying
pub mod Runs
pub mod Creating
use downpeed_fluter.Base.{
  ℕ, suc, ◌≡◌, Bool, true, false, ◌||◌, Option, none, some, Text, lookup, count, if◌then◌else◌,
  is_some, ite, Text-discrete,
}
use downpeed_fluter.Task.{Task, TaskState, is_queued, is_downloading, downloading, paused, canceled}
use downpeed_fluter.Manager.State.{Manager, TaskRun}
use downpeed_fluter.Manager.Scheduler.{has_request}

abbrev pub can_have_run : TaskState → Bool
can_have_run downloading = true
can_have_run paused = true
can_have_run canceled = true
can_have_run _ = false

-- A task is filed under its own ID, with a request; it is in the queue once if it is queued, else
-- not at all; it has a run if it is downloading. A run is left only of a task that is downloading,
-- paused or canceled, and the latter two only while an operation waits for the run. An ID with no
-- task has no place in the queue and no run.
abbrev pub CoherentAt : Text → Option Task → ℕ → Option TaskRun → Bool → Bool → Type 0
CoherentAt id none places run known waited = (places ≡ 0) × (run ≡ none)
CoherentAt id (some task) places run known waited =
    (task.id ≡ id)
    × (known ≡ true)
    × (places ≡ (if is_queued task.state then 1 else 0))
    × (is_downloading task.state ≡ true → is_some run ≡ true)
    × (is_some run ≡ true → can_have_run task.state ≡ true)
    × (is_some run ≡ true → waited ≡ false → is_downloading task.state ≡ true)

-- Coherence, where an operation waits for the runs of the IDs that pass a test.
abbrev pub Coherent : (Text → Bool) → Manager → Type 0
Coherent waited m =
    (id : Text)
    → CoherentAt id (lookup id m.tasks) (count id m.queue) (lookup id m.runs) (has_request id m)
        (waited id)

-- No operation waits; one waits for the run of one ID.
abbrev pub no_wait : Text → Bool
no_wait id = false

abbrev pub wait_for : Text → Text → Bool
wait_for id j = ite (Text-discrete id j) true false
