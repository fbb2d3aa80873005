-- ===== src/Manager/Invariant/Pausing.antt =====
-- Pause and Cancel keep the manager coherent.
use downpeed_fluter.Base.{
  ℕ, ◌≡◌, refl, Bool, true, false, Option, none, some, Text, lookup, insert, remove, arith, ap, ◌∙◌,
  lookup-insert, count-remove, on_test, on_option, Outcome, ok, err, ℤ, on_either,
}
use downpeed_fluter.Errors.{DownloadError}
use downpeed_fluter.Task.{Task, TransferRequest, is_downloading, is_paused, is_bt}
use downpeed_fluter.Manager.State
use downpeed_fluter.Manager.State.{Manager, TaskRun, TaskStore, no_request, or_zero, Files}
use downpeed_fluter.Manager.Persist.{
  persist_task_locked, mark_bt_diagnostics_stopped_locked, publish, publish_event,
}
use downpeed_fluter.Manager.Scheduler.{remove_from_queue_locked, refresh_schedule_timer_locked}
use downpeed_fluter.Manager.Pausing.{
  Pausing, set_paused, paused_task, pause_begin, pause_known, pause_finish, stop_run, can_pause,
  no_task, over, waiting,
}
use downpeed_fluter.Manager.Runs.{with_effect}
use downpeed_fluter.Manager.Pausing.{publish_saved, pause_at}
use downpeed_fluter.Manager.Invariant.{Coherent, can_have_run, no_wait, wait_for}
use downpeed_fluter.Manager.Invariant.Frame.{persist-store, mark-diagnostics}

-- A task taken out of the queue, and put in a state that may have a run and is neither queued nor
-- downloading, leaves the manager coherent, with its run waited for.
pub unqueued-Coherent :
    (id : Text) (task task' : Task) (m : Manager)
    → Coherent no_wait m
    → lookup id m.tasks ≡ some task
    → task'.id ≡ task.id
    → can_have_run task'.state ≡ true
    → is_downloading task'.state ≡ false
    → Coherent
        (wait_for id)
        (record m { queue = remove id m.queue; tasks = insert id task' m.tasks })
unqueued-Coherent id task task' m h found same run idle j =
    ground (arith, h id, h j, lookup-insert id j task' m.tasks, count-remove id j m.queue)

-- Nothing is waited for any longer when the run is gone.
pub run_gone-Coherent :
    (id : Text) (m : Manager)
    → Coherent (wait_for id) m
    → lookup id m.runs ≡ none
    → Coherent no_wait m
run_gone-Coherent id m h gone j = ground (arith, h id, h j)

-- A task with another content, but the same ID and state.
pub retask-Coherent :
    (waited : Text → Bool) (id : Text) (task task' : Task) (m : Manager)
    → Coherent waited m
    → lookup id m.tasks ≡ some task
    → task'.id ≡ task.id
    → task'.state ≡ task.state
    → Coherent waited (record m { tasks = insert id task' m.tasks })
retask-Coherent waited id task task' m h found same state j =
    ground (arith, h id, h j, lookup-insert id j task' m.tasks)

-- More requests leave the manager coherent.
pub request-Coherent :
    (waited : Text → Bool) (id : Text) (request : TransferRequest) (m : Manager)
    → Coherent waited m
    → Coherent waited (record m { requests = insert id request m.requests })
request-Coherent waited id request m h j =
    ground (arith, h j, lookup-insert id j request m.requests)

set_paused-Coherent :
    (now : ℕ) (id : Text) (task : Task) (m : Manager)
    → Coherent no_wait m
    → lookup id m.tasks ≡ some task
    → Coherent (wait_for id) (set_paused now id task m)
unfolding set_paused remove_from_queue_locked refresh_schedule_timer_locked
set_paused-Coherent now id task m h found =
    let task' = paused_task now task in
    let unqueued : Manager = refresh_schedule_timer_locked now (remove_from_queue_locked id m) in
    let entered : Manager = record unqueued { tasks = insert id task' unqueued.tasks } in
    let (d, marked) = mark-diagnostics task' entered in
    let (s, e) = persist-store task' (mark_bt_diagnostics_stopped_locked task' entered) in
    rw e (rw marked (unqueued-Coherent id task task' m h found refl refl refl))

pub weaken : (id : Text) (m : Manager) → Coherent no_wait m → Coherent (wait_for id) m
weaken id m h j = ground (arith, h j)

set_paused-runs :
    (now : ℕ) (id : Text) (task : Task) (m : Manager) → (set_paused now id task m).runs ≡ m.runs
unfolding set_paused remove_from_queue_locked refresh_schedule_timer_locked
set_paused-runs now id task m =
    let task' = paused_task now task in
    let unqueued : Manager = refresh_schedule_timer_locked now (remove_from_queue_locked id m) in
    let entered : Manager = record unqueued { tasks = insert id task' unqueued.tasks } in
    let (d, marked) = mark-diagnostics task' entered in
    let (s, e) = persist-store task' (mark_bt_diagnostics_stopped_locked task' entered) in
    ap (λ (x : Manager). x.runs) e ∙ ap (λ (x : Manager). x.runs) marked

-- Pausing that is over waits for nothing; else it waits for the run.
abbrev pub CoherentAfter : Text → Manager × Pausing → Type 0
CoherentAfter id (m, over r) = Coherent no_wait m
CoherentAfter id (m, waiting run task) = Coherent (wait_for id) m

-- Pausing keeps the manager coherent, on every branch, with the run of the paused task waited for.
pub pause_begin-Coherent :
    (now : ℕ) (id : Text) (m : Manager)
    → Coherent no_wait m
    → CoherentAfter id (pause_begin now id m)
unfolding pause_begin publish publish_event
pause_begin-Coherent now id m h =
    on_test P m.closed (λ _. h)
      λ _. on_option P (pause_known now id m) (lookup id m.tasks) h λ task found.
        on_test P (can_pause task (lookup id m.runs))
          (λ _.
            on_either P (λ run. stop_run (paused_task now task) run (set_paused now id task m))
              (lookup id m.runs)
              (λ gone.
                run_gone-Coherent id (set_paused now id task m)
                  (set_paused-Coherent now id task m h found)
                  (ap (lookup id) (set_paused-runs now id task m) ∙ gone))
              (λ run _. set_paused-Coherent now id task m h found))
          (λ _. h)
  where
    P : Manager × Pausing → Type 0
    P = CoherentAfter id

pub saved-Coherent :
    (waited : Text → Bool) (task task' : Task) (m : Manager)
    → Coherent waited m
    → Coherent waited (publish_saved task' (persist_task_locked task m)).0
unfolding publish publish_event
saved-Coherent waited task task' m h j =
    let (s, e) = persist-store task m in
    ground (
      arith,
      ap (λ (x : Manager). x.tasks) e,
      ap (λ (x : Manager). x.runs) e,
      ap (λ (x : Manager). x.queue) e,
      ap (λ (x : Manager). x.requests) e,
      ap (λ (x : Manager). x.bt_requests) e,
      h j,
    )

pause_at-Coherent :
    (waited : Text → Bool) (now : ℕ) (id : Text) (m : Manager) (found : Option Task)
    (r : Outcome DownloadError ℤ)
    → Coherent waited m
    → lookup id m.tasks ≡ found
    → Coherent waited (pause_at now id m (or_zero no_task found) r).0
unfolding publish publish_event
pause_at-Coherent waited now id m found (err e) h f = h
pause_at-Coherent waited now id m none (ok d) h f = h
pause_at-Coherent waited now id m (some task) (ok d) h f =
    on_test (λ (r : Manager × Outcome DownloadError Task). Coherent waited r.0)
      (is_paused task.state)
      (λ _. saved-Coherent waited _ _ _ (retask-Coherent waited id task _ m h f refl refl)) (λ _. h)

-- So does the rest of Pause, with the run waited for or gone.
pub pause_finish-Coherent :
    (waited : Text → Bool) (files : Files) (now : ℕ) (id : Text) (run : TaskRun) (task : Task)
    (m : Manager)
    → Coherent waited m
    → Coherent waited (pause_finish files now id run task m).0
unfolding pause_finish publish publish_event
pause_finish-Coherent waited files now id run task m h =
    on_test (λ (r : Manager × Outcome DownloadError Task). Coherent waited r.0)
      (is_bt task.protocol) (λ _. h)
      (λ _.
        pause_at-Coherent waited now id (with_effect (State.waited run) m) (lookup id m.tasks) _ h
          refl)
