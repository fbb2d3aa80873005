-- ===== src/Manager/Restore/Stranded.antt =====
-- A plan that comes due while its task is restored (backend/internal/download/persistence.go).
use downpeed_fluter.Base.{
  on_test, Text-discrete, if_pos, is_some, Table, lookup, insert, ℕ, ◌≡◌, ◌∙◌, refl, sym, ap, subst,
  arith, true, false, [], ◌∷◌, Option, none, some, Text, ok,
}
use downpeed_fluter.Base.{lookup-insert, count, if_pos}
use downpeed_fluter.Task.{Task}
use downpeed_fluter.Manager.Restoring.{Recovered}
use downpeed_fluter.Manager.Persist.{save, stored_task}
use downpeed_fluter.Manager.State.{Manager}
use downpeed_fluter.Errors.{DownloadError}
use downpeed_fluter.Manager.Invariant.{Coherent, no_wait}
use downpeed_fluter.Manager.Scheduler.{is_after}
use downpeed_fluter.Manager.Scheduler.{refresh_schedule_timer_locked}
use downpeed_fluter.Manager.Restore.{
  enqueue_planned, StoredTask, clean_up, TaskStore, restore_task, save_record, restore,
  restore_records, Startup, Loaded, is_bt, reconcile_stored, is_queued, refreshed, restore_record,
}
use downpeed_fluter.Manager.Restore.Filed.{fresh_if}

not_enqueued :
    (later : ℕ) (task : Task) (x : Manager × Option DownloadError)
    → is_after task.scheduled_at later ≡ false
    → enqueue_planned later task x ≡ x
not_enqueued later task (m, some e) due = refl
not_enqueued later task (m, none) due = ground arith

abbrev filed_in : Recovered → Manager → Manager
filed_in r m = record m {
  tasks = insert r.task.id r.task m.tasks;
  requests = insert r.task.id r.request m.requests;
}

saved-queue :
    (stored : StoredTask) (o : Option TaskStore) (m : Manager)
    → ((save_record stored o m).0.queue ≡ m.queue) × ((save_record stored o m).0.tasks ≡ m.tasks)
unfolding save
saved-queue stored none m = (refl, refl)
saved-queue stored (some store) m = ground arith

cleaned-queue :
    (r : Recovered) (m : Manager)
    → ((clean_up r m).queue ≡ m.queue) × ((clean_up r m).tasks ≡ m.tasks)
cleaned-queue r m = ground arith

-- What is left of a task that is queued and stands in no queue.
abbrev pub StrandedIn : Recovered → Manager → Type 0
StrandedIn r m = (lookup r.task.id m.tasks ≡ some r.task) × (count r.task.id m.queue ≡ 0)

abbrev saved_in : Recovered → Manager → Manager × Option DownloadError
saved_in r m = save_record (stored_task r.task r.request) m.store (filed_in r m)

lookup-own :
    (id : Text) (task : Task) (tasks : Table Task) → lookup id (insert id task tasks) ≡ some task
lookup-own id task tasks = lookup-insert id id task tasks ∙ if_pos (Text-discrete id id) refl _ _

not_queued :
    (id : Text) (m : Manager) → Coherent no_wait m → lookup id m.tasks ≡ none → count id m.queue ≡ 0
not_queued id m h fresh = ground (arith, h id)

saved_stranded :
    (r : Recovered) (m m1 : Manager)
    → Coherent no_wait m
    → lookup r.task.id m.tasks ≡ none
    → m1.queue ≡ m.queue
    → StrandedIn r (saved_in r m1).0
saved_stranded r m m1 h fresh same =
    let (queue, tasks) = saved-queue (stored_task r.task r.request) m1.store (filed_in r m1) in
    (
      ap (lookup r.task.id) tasks ∙ lookup-own r.task.id r.task m1.tasks,
      ap (count r.task.id) (queue ∙ same) ∙ not_queued r.task.id m h fresh,
    )

restored_stranded :
    (later : ℕ) (m m' : Manager) (r : Recovered)
    → Coherent no_wait m
    → is_after r.task.scheduled_at later ≡ false
    → restore_task later m (ok r) ≡ (m', none)
    → StrandedIn r m'
restored_stranded later m m' r h due =
    on_test (λ (x : Manager × Option DownloadError). x ≡ (m', none) → StrandedIn r m')
      (is_some (lookup r.task.id m.tasks)) (λ _ e. cc)
      λ fresh e.
        subst (λ (x : Manager). StrandedIn r x)
          (ap (λ (x : Manager × Option DownloadError). x.0)
            (sym (not_enqueued later r.task (saved_in r (clean_up r m)) due) ∙ e))
          (saved_stranded r m (clean_up r m) h (fresh_if fresh) (cleaned-queue r m).0)

record_is :
    (start : Startup) (loaded : Loaded) (m : Manager) (r : Recovered)
    → is_bt loaded.stored.task.protocol ≡ false
    → reconcile_stored start loaded.now loaded.stored ≡ ok r
    → restore_record start m loaded ≡ restore_task loaded.later m (ok r)
record_is start loaded m r web same = rw web (ap (restore_task loaded.later m) same)

records_end :
    (start : Startup) (x : Manager × Option DownloadError) → restore_records start [] x ≡ x
unfolding restore_records
records_end start (m, none) = refl
records_end start (m, some e) = refl

refreshed_from :
    (now : ℕ) (x : Manager × Option DownloadError) (m' : Manager)
    → refreshed now x ≡ (m', none)
    → (m0 : Manager) × (x ≡ (m0, none)) × (m'.tasks ≡ m0.tasks) × (m'.queue ≡ m0.queue)
unfolding refresh_schedule_timer_locked
refreshed_from now (m, some e) m' h = cc
refreshed_from now (m, none) m' h =
    (m, refl, ap (λ x. x.0.tasks) (sym h), ap (λ x. x.0.queue) (sym h))

one_restored :
    (start : Startup) (loaded : Loaded) (now : ℕ) (m : Manager)
    → restore start (ok (loaded ∷ [])) now m ≡ refreshed now (restore_record start m loaded)
unfolding restore restore_records
one_restored start loaded now m =
    ap (refreshed now) (records_end start (restore_record start m loaded))

-- Where a single record is loaded into a coherent manager, of an HTTP task whose plan comes due after it
-- is reconciled as queued and before the clock is read again behind its saving: if restoring succeeds, the
-- manager has the task as queued and has it in no queue.
pub restore_stranded :
    (start : Startup) (loaded : Loaded) (now : ℕ) (m m' : Manager) (r : Recovered)
    → Coherent no_wait m
    → is_bt loaded.stored.task.protocol ≡ false
    → reconcile_stored start loaded.now loaded.stored ≡ ok r
    → is_queued r.task.state ≡ true
    → is_after r.task.scheduled_at loaded.later ≡ false
    → restore start (ok (loaded ∷ [])) now m ≡ (m', none)
    → (lookup r.task.id m'.tasks ≡ some r.task)
      × (is_queued r.task.state ≡ true)
      × (count r.task.id m'.queue ≡ 0)
restore_stranded start loaded now m m' r h web same waits due e =
    let (m0, is, tasks, queue) =
      refreshed_from now (restore_record start m loaded) m'
        (sym (one_restored start loaded now m) ∙ e) in
    let (kept, out) =
      restored_stranded loaded.later m m0 r h due
        (sym (record_is start loaded m r web same) ∙ is) in
    (ap (lookup r.task.id) tasks ∙ kept, waits, ap (count r.task.id) queue ∙ out)
