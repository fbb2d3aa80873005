-- ===== src/Manager/Deleting/Deleted.antt =====
-- What Delete does (backend/internal/download/manager.go).
use downpeed_fluter.Base.{
  subst, sym, false, [], ◌∷◌, ◌++◌, ◌≡◌, refl, arith, Bool, true, List, Option, none, some, Text,
  lookup, delete, remove, Outcome, ok, err, on_test, on_option,
}
use downpeed_fluter.Errors.{DownloadError}
use downpeed_fluter.Task.{Task, is_terminal_state}
use downpeed_fluter.Manager.State.{Manager, TaskStore, Files, Effect, published}
use downpeed_fluter.Manager.Persist.{publish_event}
use downpeed_fluter.Manager.Scheduler.{remove_from_queue_locked}
use downpeed_fluter.Manager.Deleting.{
  DeleteTaskResult, delete_task, delete_known, delete_rest, delete_finish, delete_output,
  delete_stored, persisted, task_removed, answered,
}

-- The store has lost the record of one ID, or none.
abbrev pub StoreForgets : Text → Option TaskStore → Option TaskStore → Type 0
StoreForgets id none none = Unit {0}
StoreForgets id (some before) (some after) = after.records ≡ delete id before.records
StoreForgets id _ _ = ⊥

abbrev pub StoreKeeps : Option TaskStore → Option TaskStore → Type 0
StoreKeeps none none = Unit {0}
StoreKeeps (some before) (some after) = after.records ≡ before.records
StoreKeeps _ _ = ⊥

-- Everything about one ID is gone, from the store too; what is filed under another is as it was, as is
-- all else but the effects, the last of which tells that the task is removed.
abbrev pub Forgets : Text → Task → Manager → Manager → Type 0
Forgets id task m m' =
    (e : List Effect) × (s : Option TaskStore) × StoreForgets id m.store s
    × (m' ≡ record m {
      tasks = delete id m.tasks;
      requests = delete id m.requests;
      bt_requests = delete id m.bt_requests;
      bt_diagnostics = delete id m.bt_diagnostics;
      queue = remove id m.queue;
      effects = e ++ published task_removed task ∷ [];
      store = s;
    })

-- Nothing but the effects and what the store will answer may have changed.
abbrev pub Keeps : Manager → Manager → Type 0
Keeps m m' =
    (e : List Effect) × (s : Option TaskStore) × StoreKeeps m.store s
    × (m' ≡ record m { effects = e; store = s })

abbrev pub Deletes : Text → Manager → Manager × Outcome DownloadError DeleteTaskResult → Type 0
Deletes id m (m', err e) = Keeps m m'
Deletes id m (m', ok result) =
    (result.id ≡ id)
    × ((task : Task) × (lookup id m.tasks ≡ some task)
        × (is_terminal_state task.state ≡ true)
        × Forgets id task m m')

StoreKeeps-refl : (s : Option TaskStore) → StoreKeeps s s
StoreKeeps-refl none = tt
StoreKeeps-refl (some store) = refl

module _ (id : Text) (task : Task) (b : Bool) (m : Manager) (known : lookup id m.tasks ≡ some task)
    (over : is_terminal_state task.state ≡ true) (e : List Effect) where
  abbrev asked : Manager
  asked = record m { effects = e }

  forgotten :
      (before after : TaskStore)
      → m.store ≡ some before
      → after.records ≡ delete id before.records
      → StoreForgets id m.store (some after)
  forgotten before after held same = subst (λ o. StoreForgets id o (some after)) (sym held) same

  kept :
      (before after : TaskStore)
      → m.store ≡ some before
      → after.records ≡ before.records
      → StoreKeeps m.store (some after)
  kept before after held same = subst (λ o. StoreKeeps o (some after)) (sym held) same

  answered-Deletes :
      (answers : List Bool) (before : TaskStore)
      → m.store ≡ some before
      → Deletes id m (
          delete_finish id task b
            (persisted asked (answered answers (delete id before.records) before)))
  unfolding publish_event remove_from_queue_locked
  answered-Deletes [] before held =
      let after : TaskStore = record before { records = delete id before.records } in
      (refl, (task, known, over, (e, some after, forgotten before after held refl, refl)))
  answered-Deletes (true ∷ later) before held =
      let after : TaskStore = record before {
        records = delete id before.records;
        answers = later;
      } in
      (refl, (task, known, over, (e, some after, forgotten before after held refl, refl)))
  answered-Deletes (false ∷ later) before held =
      let after : TaskStore = record before { answers = later } in
      (e, some after, kept before after held refl, refl)

  stored-Deletes :
      (o : Option TaskStore)
      → m.store ≡ o
      → Deletes id m (delete_finish id task b (delete_stored id asked o))
  unfolding publish_event remove_from_queue_locked
  stored-Deletes none held = (
    refl,
    (task, known, over, (e, m.store, subst (λ o. StoreForgets id o o) (sym held) tt, refl)),
  )
  stored-Deletes (some before) held = answered-Deletes before.answers before held

rest-Deletes :
    (id : Text) (task : Task) (m : Manager) (x : Manager × Outcome DownloadError Bool)
    → lookup id m.tasks ≡ some task
    → is_terminal_state task.state ≡ true
    → (e : List Effect) × (x.0 ≡ record m { effects = e })
    → Deletes id m (delete_rest id task x)
rest-Deletes id task m (m', err e) known over (effects, same) =
    (effects, m.store, StoreKeeps-refl m.store, same)
rest-Deletes id task m (m', ok b) known over (effects, same) =
    subst (λ (x : Manager). Deletes id m (delete_finish id task b (delete_stored id x x.store)))
      (sym same) (stored-Deletes id task b m known over effects m.store refl)

output-asked :
    (files : Files) (delete_file : Bool) (task : Task) (m : Manager)
    → (e : List Effect) × ((delete_output files delete_file task m).0 ≡ record m { effects = e })
unfolding delete_output
output-asked files delete_file task m =
    ((delete_output files delete_file task m).0.effects, ground arith)

-- Delete that succeeds names the ID that it was given, of a task that was completed, failed or
-- canceled, and takes the ID out of every table, out of the queue and out of the store; the last effect
-- tells that this task is removed, and all else in the manager stays. Delete that fails leaves all as it
-- was but the effects and the answers that the store has left, its records staying.
pub delete_task-Deletes :
    (files : Files) (id : Text) (delete_file : Bool) (m : Manager)
    → Deletes id m (delete_task files id delete_file m)
unfolding delete_task
delete_task-Deletes files id delete_file m =
    on_test P m.closed (λ _. kept)
      λ _. on_option P (delete_known files id delete_file m) (lookup id m.tasks) kept λ task known.
        on_test P (is_terminal_state task.state)
          (λ over.
            rest-Deletes id task m (delete_output files delete_file task m) known over
              (output-asked files delete_file task m))
          (λ _. kept)
  where
    P : Manager × Outcome DownloadError DeleteTaskResult → Type 0
    P = Deletes id m

    kept : Keeps m m
    kept = (m.effects, m.store, StoreKeeps-refl m.store, refl)
