-- ===== src/Manager/Invariant/Removing.antt =====
-- Cancel and Delete keep the manager coherent.
use downpeed_fluter.Base.{
  ℕ, ◌≡◌, refl, Bool, true, List, Option, none, some, Text, lookup, insert, remove, arith,
  lookup-delete, count-remove, on_test, on_option, Outcome, ok, err,
}
use downpeed_fluter.Errors.{DownloadError}
use downpeed_fluter.Task.{Task, TransferRequest, is_terminal_state}
use downpeed_fluter.Manager.State.{Manager, TaskStore, no_request, or_zero, Files, Effect}
use downpeed_fluter.Manager.Persist.{
  persist_task_locked, mark_bt_diagnostics_stopped_locked, publish, publish_event,
}
use downpeed_fluter.Manager.Scheduler.{remove_from_queue_locked, refresh_schedule_timer_locked}
use downpeed_fluter.Manager.Removing.{
  set_canceled, canceled_task, cancel_begin, cancel_finish, cancel_known, Canceling, can_cancel,
  cancel_run,
}
use downpeed_fluter.Manager.Deleting.{
  DeleteTaskResult, delete_task, delete_known, delete_rest, delete_finish, delete_output,
  delete_stored, forget,
}
use downpeed_fluter.Manager.Invariant.{Coherent, no_wait, wait_for}
use downpeed_fluter.Manager.Invariant.Frame.{persist-store, mark-diagnostics}
use downpeed_fluter.Manager.Invariant.Pausing.{unqueued-Coherent, request-Coherent}

set_canceled-Coherent :
    (now : ℕ) (id : Text) (task : Task) (m : Manager)
    → Coherent no_wait m
    → lookup id m.tasks ≡ some task
    → Coherent
        (wait_for id)
        (persist_task_locked (canceled_task now task) (set_canceled now id task m)).0
unfolding set_canceled remove_from_queue_locked refresh_schedule_timer_locked
set_canceled-Coherent now id task m h found =
    let task' = canceled_task now task in
    let request : TransferRequest = record (or_zero no_request (lookup id m.requests)) {
      checkpoint = none;
    } in
    let unqueued : Manager = refresh_schedule_timer_locked now (remove_from_queue_locked id m) in
    let entered : Manager = record unqueued {
      requests = insert id request unqueued.requests;
      tasks = insert id task' unqueued.tasks;
    } in
    let (d, marked) = mark-diagnostics task' entered in
    let (s, e) = persist-store task' (mark_bt_diagnostics_stopped_locked task' entered) in
    rw e (
      rw marked (
        request-Coherent (wait_for id) id request
          (record m { queue = remove id m.queue; tasks = insert id task' m.tasks })
          (unqueued-Coherent id task task' m h found refl refl refl)))

-- Canceling that fails waits for nothing; else it waits for the run.
abbrev pub CoherentAfter : Text → Manager × Outcome DownloadError Canceling → Type 0
CoherentAfter id (m, err e) = Coherent no_wait m
CoherentAfter id (m, ok c) = Coherent (wait_for id) m

-- Canceling keeps the manager coherent, on every branch, with the run of the task waited for.
pub cancel_begin-Coherent :
    (now : ℕ) (id : Text) (m : Manager)
    → Coherent no_wait m
    → CoherentAfter id (cancel_begin now id m)
unfolding cancel_begin
cancel_begin-Coherent now id m h =
    on_test P m.closed (λ _. h)
      λ _. on_option P (cancel_known now id m) (lookup id m.tasks) (h) λ task found.
        on_test P (can_cancel task.state)
          (λ _.
            on_option (Coherent (wait_for id))
              (λ run.
                cancel_run run
                  (persist_task_locked (canceled_task now task) (set_canceled now id task m)).0)
              (lookup id m.runs) (set_canceled-Coherent now id task m h found)
              (λ run _. set_canceled-Coherent now id task m h found))
          (λ _. h)
  where
    P : Manager × Outcome DownloadError Canceling → Type 0
    P = CoherentAfter id

-- The rest of Cancel changes only the effects.
pub cancel_finish-Coherent :
    (waited : Text → Bool) (c : Canceling) (m : Manager)
    → Coherent waited m
    → Coherent waited (cancel_finish c m).0
unfolding cancel_finish publish publish_event
cancel_finish-Coherent waited c m h j = ground (arith, h j)

-- Deleting a file changes only the effects.
delete_output-effects :
    (files : Files) (delete_file : Bool) (task : Task) (m : Manager)
    → (e : List Effect) × ((delete_output files delete_file task m).0 ≡ record m { effects = e })
unfolding delete_output
delete_output-effects files delete_file task m =
    ((delete_output files delete_file task m).0.effects, ground arith)

forget-Coherent :
    (id : Text) (task : Task) (m : Manager)
    → Coherent no_wait m
    → lookup id m.tasks ≡ some task
    → is_terminal_state task.state ≡ true
    → Coherent no_wait (remove_from_queue_locked id (forget id m))
unfolding remove_from_queue_locked
forget-Coherent id task m h found over j = ground (
  arith,
  h id,
  h j,
  lookup-delete id j m.tasks,
  lookup-delete id j m.requests,
  lookup-delete id j m.bt_requests,
  count-remove id j m.queue,
)

delete_stored-store :
    (id : Text) (m : Manager)
    → (s : Option TaskStore) × ((delete_stored id m m.store).0 ≡ record m { store = s })
delete_stored-store id m = ((delete_stored id m m.store).0.store, ground arith)

delete_finish-Coherent :
    (id : Text) (task : Task) (b : Bool) (m : Manager) (x : Manager × Option DownloadError)
    → Coherent no_wait m
    → lookup id m.tasks ≡ some task
    → is_terminal_state task.state ≡ true
    → (s : Option TaskStore) × (x.0 ≡ record m { store = s })
    → Coherent no_wait (delete_finish id task b x).0
unfolding publish_event
delete_finish-Coherent id task b m (m', some e) h found over (s, same) = rw same h
delete_finish-Coherent id task b m (m', none) h found over (s, same) =
    rw same (forget-Coherent id task (record m { store = s }) h found over)

delete_rest-Coherent :
    (id : Text) (task : Task) (m : Manager) (x : Manager × Outcome DownloadError Bool)
    → Coherent no_wait m
    → lookup id m.tasks ≡ some task
    → is_terminal_state task.state ≡ true
    → (e : List Effect) × (x.0 ≡ record m { effects = e })
    → Coherent no_wait (delete_rest id task x).0
delete_rest-Coherent id task m (m', err e) h found over (s, same) = rw same h
delete_rest-Coherent id task m (m', ok b) h found over (s, same) = rw same (
    delete_finish-Coherent id task b (record m { effects = s }) _ h found over
      (delete_stored-store id (record m { effects = s })))

-- Deleting a task keeps the manager coherent, on every branch.
pub delete_task-Coherent :
    (files : Files) (id : Text) (delete_file : Bool) (m : Manager)
    → Coherent no_wait m
    → Coherent no_wait (delete_task files id delete_file m).0
unfolding delete_task
delete_task-Coherent files id delete_file m h =
    on_test P m.closed (λ _. h)
      λ _. on_option P (delete_known files id delete_file m) (lookup id m.tasks) h λ task found.
        on_test P (is_terminal_state task.state)
          (λ over.
            delete_rest-Coherent id task m _ h found over
              (delete_output-effects files delete_file task m))
          (λ _. h)
  where
    P : Manager × Outcome DownloadError DeleteTaskResult → Type 0
    P r = Coherent no_wait r.0
