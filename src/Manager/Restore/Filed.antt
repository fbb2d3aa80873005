-- ===== src/Manager/Restore/Filed.antt =====
-- How a restored task is filed: the steps that keep the manager coherent (backend/internal/download/persistence.go).
use downpeed_fluter.Base.{
  on_test, is_some, Table, lookup, insert, ℕ, ◌≡◌, ◌∙◌, refl, sym, ap, subst, arith, true, false,
  ◌&&◌, ◌||◌, [], ◌∷◌, Option, none, some, Outcome, ok, err, on_option, on_outcome,
}
use downpeed_fluter.Base.{lookup-insert, count, count-remove, count-append, remove}
use downpeed_fluter.Manager.State.{Manager, TaskStore}
use downpeed_fluter.Manager.Stored.{Loaded, reconcile_stored_bt_task, reconcile_bt}
use downpeed_fluter.Manager.Persist.{save, stored_bt_task, new_bt_diagnostics}
use downpeed_fluter.Task.{
  Task, StoredTask, BtTransferRequest, TransferRequest, BtDiagnostics, is_paused, is_terminal_state,
  StoredBtTask,
}
use downpeed_fluter.Errors.{DownloadError}
use downpeed_fluter.Manager.Scheduler.{enqueue_locked, is_after}
use downpeed_fluter.Manager.Invariant.{Coherent, no_wait}
use downpeed_fluter.Manager.Restore.{
  save_record, is_queued, reconcile_stored_bt_task, restore_bt_task, enqueue_planned,
}
use downpeed_fluter.Manager.System.Safety.{waits}

-- Nothing runs, and everything is filed and queued as it should be; or the restoration has failed.
abbrev pub Sound : Manager × Option DownloadError → Type 0
Sound (m, some e) = Unit {0}
Sound (m, none) = Coherent no_wait m × (m.runs ≡ [])

-- No plan comes due between the two readings of the clock for a record.
abbrev pub InTime : Loaded → Type 0
InTime loaded =
    is_after loaded.stored.task.scheduled_at loaded.now ≡ true
    → is_after loaded.stored.task.scheduled_at loaded.later ≡ true

save_record-store :
    (stored : StoredTask) (o : Option TaskStore) (m : Manager)
    → (s : Option TaskStore) × (m.store ≡ o → (save_record stored o m).0 ≡ record m { store = s })
unfolding save
save_record-store stored none m = (m.store, λ e. refl)
save_record-store stored (some store) m =
    ((save_record stored (some store) m).0.store, λ e. ground arith)

module _ (task : Task) (m : Manager) where
  pub bt_filed :
      (request : BtTransferRequest) (d : Table BtDiagnostics) (s : Option TaskStore)
      → Coherent no_wait m
      → m.runs ≡ []
      → lookup task.id m.tasks ≡ none
      → is_paused task.state || is_terminal_state task.state ≡ true
      → Coherent no_wait (record m {
        tasks = insert task.id task m.tasks;
        bt_requests = insert task.id request m.bt_requests;
        bt_diagnostics = d;
        store = s;
      })
  unfolding lookup
  bt_filed request d s h quiet fresh stopped j = ground (
    arith,
    h task.id,
    h j,
    lookup-insert task.id j task m.tasks,
    lookup-insert task.id j request m.bt_requests,
  )

  pub filed :
      (request : TransferRequest) (s : Option TaskStore)
      → Coherent no_wait m
      → m.runs ≡ []
      → lookup task.id m.tasks ≡ none
      → is_paused task.state || is_terminal_state task.state ≡ true
      → Coherent no_wait (record m {
        tasks = insert task.id task m.tasks;
        requests = insert task.id request m.requests;
        store = s;
      })
  unfolding lookup
  filed request s h quiet fresh stopped j = ground (
    arith,
    h task.id,
    h j,
    lookup-insert task.id j task m.tasks,
    lookup-insert task.id j request m.requests,
  )

  pub filed_and_queued :
      (request : TransferRequest) (s : Option TaskStore)
      → Coherent no_wait m
      → m.runs ≡ []
      → lookup task.id m.tasks ≡ none
      → is_queued task.state ≡ true
      → Coherent no_wait (
          enqueue_locked task.id (record m {
            tasks = insert task.id task m.tasks;
            requests = insert task.id request m.requests;
            store = s;
          }))
  unfolding lookup enqueue_locked count
  filed_and_queued request s h quiet fresh waits j = ground (
    arith,
    h task.id,
    h j,
    lookup-insert task.id j task m.tasks,
    lookup-insert task.id j request m.requests,
    count-remove task.id j m.queue,
    count-append j (remove task.id m.queue) (task.id ∷ []),
  )

pub Sound-if : (x : Manager × Option DownloadError) → Coherent no_wait x.0 → x.0.runs ≡ [] → Sound x
Sound-if (m, none) h quiet = (h, quiet)
Sound-if (m, some e) h quiet = tt

pub fresh_if : {A : Type 0} {o : Option A} → is_some o ≡ false → o ≡ none
fresh_if {o} h = ground arith

abbrev pub Stopped : Outcome DownloadError (Task × BtTransferRequest) → Type 0
Stopped (err e) = Unit {0}
Stopped (ok (task, request)) = is_paused task.state || is_terminal_state task.state ≡ true

reconciled-Stopped :
    (now : ℕ) (task : Task) (b : StoredBtTask) (t : Task) (request : BtTransferRequest)
    → reconcile_bt now task (some b) ≡ ok (t, request)
    → is_paused t.state || is_terminal_state t.state ≡ true
reconciled-Stopped now task b t request h = ground arith

pub reconcile-Stopped :
    (now : ℕ) (stored : StoredTask) → Stopped (reconcile_stored_bt_task now stored)
unfolding reconcile_stored_bt_task
reconcile-Stopped now stored = on_option Stopped (reconcile_bt now stored.task) stored.bt tt λ b _.
    on_outcome Stopped (λ x. x) (reconcile_bt now stored.task (some b))
      (λ x h. reconciled-Stopped now stored.task b x.0 x.1 h) (λ e _. tt)

pub Sound-saved :
    (stored : StoredTask) (o : Option TaskStore) (m : Manager)
    → m.store ≡ o
    → ((s : Option TaskStore) → Coherent no_wait (record m { store = s }))
    → m.runs ≡ []
    → Sound (save_record stored o m)
Sound-saved stored o m e h quiet =
    let (s, same) = save_record-store stored o m in
    Sound-if (save_record stored o m) (subst (Coherent no_wait) (sym (same e)) (h s))
      (ap (λ (x : Manager). x.runs) (same e) ∙ quiet)

pub bt_step :
    (m : Manager) (o : Outcome DownloadError (Task × BtTransferRequest))
    → Sound (m, none)
    → Stopped o
    → Sound (restore_bt_task m o)
bt_step m (err e) (h, quiet) stopped = tt
bt_step m (ok (task, request)) (h, quiet) stopped =
    on_test Sound (is_some (lookup task.id m.tasks)) (λ _. tt)
      λ fresh.
        Sound-saved (stored_bt_task task request) m.store
          (record m {
            tasks = insert task.id task m.tasks;
            bt_requests = insert task.id request m.bt_requests;
            bt_diagnostics = insert task.id (new_bt_diagnostics task request) m.bt_diagnostics;
          })
          refl
          (λ s.
            bt_filed task m request
              (insert task.id (new_bt_diagnostics task request) m.bt_diagnostics) s h quiet
              (fresh_if fresh) stopped)
          quiet

pub save_saved :
    (stored : StoredTask) (m : Manager)
    → (s : Option TaskStore) × ((save_record stored m.store m).0 ≡ record m { store = s })
save_saved stored m = let (s, same) = save_record-store stored m.store m in (s, same refl)

-- Saved and then put into the queue, or not.
pub enqueue_step :
    (later : ℕ) (task : Task) (m : Manager) (x : Manager × Option DownloadError)
    → (s : Option TaskStore) × (x.0 ≡ record m { store = s })
    → (is_queued task.state && is_after task.scheduled_at later ≡ true
        → (s : Option TaskStore)
        → Coherent no_wait (enqueue_locked task.id (record m { store = s })))
    → (is_queued task.state && is_after task.scheduled_at later ≡ false
        → (s : Option TaskStore) → Coherent no_wait (record m { store = s }))
    → m.runs ≡ []
    → Sound (enqueue_planned later task x)
unfolding enqueue_locked
enqueue_step later task m (m', some e) (s, same) yes_case no_case quiet = tt
enqueue_step later task m (m', none) (s, same) yes_case no_case quiet =
    on_test Sound (is_queued task.state && is_after task.scheduled_at later)
      (λ h. (
        subst (λ (y : Manager). Coherent no_wait (enqueue_locked task.id y)) (sym same)
            (yes_case h s),
        ap (λ (y : Manager). y.runs) same ∙ quiet,
      ))
      (λ h. (
        subst (Coherent no_wait) (sym same) (no_case h s),
        ap (λ (y : Manager). y.runs) same ∙ quiet,
      ))
