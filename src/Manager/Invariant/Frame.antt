-- ===== src/Manager/Invariant/Frame.antt =====
-- What saving, publishing and the diagnostics leave alone.
use downpeed_fluter.Base.{◌≡◌, refl, Bool, true, false, List, [], ◌∷◌, Option, some, arith, Table}
use downpeed_fluter.Errors.{DownloadError, task_persistence}
use downpeed_fluter.Task.{Task, BtDiagnostics}
use downpeed_fluter.Manager.State.{Manager, TaskStore, Effect}
use downpeed_fluter.Manager.Persist.{
  persist_task_locked, publish, publish_event, publish_all, mark_bt_diagnostics_stopped_locked,
  persisted,
}

persisted-store :
    (m : Manager) (r : TaskStore × Bool)
    → (s : Option TaskStore) × ((persisted m r).0 ≡ record m { store = s })
persisted-store m (store, true) = (some store, refl)
persisted-store m (store, false) = (some store, refl)

-- Saving a task changes the store alone.
pub persist-store :
    (task : Task) (m : Manager)
    → (s : Option TaskStore) × ((persist_task_locked task m).0 ≡ record m { store = s })
unfolding persist_task_locked
persist-store task m = ((persist_task_locked task m).0.store, ground arith)

pub publish_all-effects :
    (tasks : List Task) (m : Manager)
    → (e : List Effect) × (publish_all tasks m ≡ record m { effects = e })
unfolding publish_all publish publish_event
publish_all-effects [] m = (m.effects, refl)
publish_all-effects (task ∷ rest) m =
    let (e, same) = publish_all-effects rest (publish task m) in (e, same)

pub mark-diagnostics :
    (task : Task) (m : Manager)
    → (d : Table BtDiagnostics) × (mark_bt_diagnostics_stopped_locked task m
        ≡ record m { bt_diagnostics = d })
unfolding mark_bt_diagnostics_stopped_locked
mark-diagnostics task m = ((mark_bt_diagnostics_stopped_locked task m).bt_diagnostics, ground arith)

-- A failure to save has one error.
pub persist-error :
    (task : Task) (m : Manager) {e : DownloadError}
    → (persist_task_locked task m).1 ≡ some e
    → e ≡ task_persistence
unfolding persist_task_locked
persist-error task m h = ground arith
