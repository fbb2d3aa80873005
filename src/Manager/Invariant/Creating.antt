-- ===== src/Manager/Invariant/Creating.antt =====
-- Creating a task keeps the manager coherent.
use downpeed_fluter.Base.{
  ℕ, ◌≡◌, Bool, [], ◌∷◌, Option, none, some, Text, Table, lookup, insert, remove, count, arith,
  lookup-insert, lookup-delete, count-remove, count-append, on_test, Outcome,
}
use downpeed_fluter.Errors.{DownloadError}
use downpeed_fluter.Task.{Task, TransferRequest, BtTransferRequest, BtDiagnostics, queued}
use downpeed_fluter.Manager.State.{Manager, TaskStore}
use downpeed_fluter.Manager.Scheduler.{enqueue_locked, remove_from_queue_locked}
use downpeed_fluter.Manager.Creating.{
  create_saved, create_locked, create_bt_saved, create_bt_locked, destination_taken,
}
use downpeed_fluter.Manager.Invariant.{Coherent}
use downpeed_fluter.Manager.Invariant.Frame.{persist-store}
use downpeed_fluter.Manager.Invariant.Resuming.{enqueue_and_fill-Coherent}

module _ (waited : Text → Bool) where
  create_saved-Coherent :
      (now : ℕ) (task : Task) (request : TransferRequest) (m : Manager)
      (x : Manager × Option DownloadError)
      → Coherent waited m
      → lookup task.id m.tasks ≡ none
      → task.state ≡ queued
      → (s : Option TaskStore) × (x.0 ≡ record m {
        tasks = insert task.id task m.tasks;
        requests = insert task.id request m.requests;
        store = s;
      })
      → Coherent waited (create_saved now task.id x).0
  unfolding enqueue_locked remove_from_queue_locked count
  create_saved-Coherent now task request m (m', none) h fresh state (s, e) = rw e (
      enqueue_and_fill-Coherent waited now task.id _ λ j. ground (
        arith,
        h task.id,
        h j,
        lookup-insert task.id j task m.tasks,
        lookup-insert task.id j request m.requests,
        count-remove task.id j m.queue,
        count-append j (remove task.id m.queue) (task.id ∷ []),
      ))
  create_saved-Coherent now task request m (m', some x) h fresh state (s, e) = rw e λ j. ground (
    arith,
    h task.id,
    h j,
    lookup-insert task.id j task m.tasks,
    lookup-insert task.id j request m.requests,
    lookup-delete task.id j (insert task.id task m.tasks),
    lookup-delete task.id j (insert task.id request m.requests),
  )

  -- Creating a queued HTTP task under an ID that is not taken keeps the manager coherent, whether
  -- or not the task can be saved.
  pub create_locked-Coherent :
      (now : ℕ) (task : Task) (request : TransferRequest) (m : Manager)
      → Coherent waited m
      → lookup task.id m.tasks ≡ none
      → task.state ≡ queued
      → Coherent waited (create_locked now task request m).0
  unfolding create_locked
  create_locked-Coherent now task request m h fresh state =
      create_saved-Coherent now task request m _ h fresh state (persist-store task _)

  create_bt_saved-Coherent :
      (now : ℕ) (task : Task) (prepared : BtTransferRequest) (d : Table BtDiagnostics) (m : Manager)
      (x : Manager × Option DownloadError)
      → Coherent waited m
      → lookup task.id m.tasks ≡ none
      → task.state ≡ queued
      → (s : Option TaskStore) × (x.0 ≡ record m {
        tasks = insert task.id task m.tasks;
        bt_requests = insert task.id prepared m.bt_requests;
        bt_diagnostics = d;
        store = s;
      })
      → Coherent waited (create_bt_saved now task.id x).0
  unfolding enqueue_locked remove_from_queue_locked count
  create_bt_saved-Coherent now task prepared d m (m', none) h fresh state (s, e) = rw e (
      enqueue_and_fill-Coherent waited now task.id _ λ j. ground (
        arith,
        h task.id,
        h j,
        lookup-insert task.id j task m.tasks,
        lookup-insert task.id j prepared m.bt_requests,
        count-remove task.id j m.queue,
        count-append j (remove task.id m.queue) (task.id ∷ []),
      ))
  create_bt_saved-Coherent now task prepared d m (m', some x) h fresh state (s, e) = rw e λ j.
      ground (
        arith,
        h task.id,
        h j,
        lookup-insert task.id j task m.tasks,
        lookup-insert task.id j prepared m.bt_requests,
        lookup-delete task.id j (insert task.id task m.tasks),
        lookup-delete task.id j (insert task.id prepared m.bt_requests),
      )

  -- So does creating a queued BT task, which may be refused for its destination too.
  pub create_bt_locked-Coherent :
      (now : ℕ) (task : Task) (prepared : BtTransferRequest) (m : Manager)
      → Coherent waited m
      → lookup task.id m.tasks ≡ none
      → task.state ≡ queued
      → Coherent waited (create_bt_locked now task prepared m).0
  unfolding create_bt_locked
  create_bt_locked-Coherent now task prepared m h fresh state =
      on_test (λ (r : Manager × Outcome DownloadError Task). Coherent waited r.0)
        (destination_taken task.file_path m.tasks) (λ _. h)
        (λ _. create_bt_saved-Coherent now task prepared _ m _ h fresh state (persist-store task _))
