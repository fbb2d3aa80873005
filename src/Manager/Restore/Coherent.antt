-- ===== src/Manager/Restore/Coherent.antt =====
-- A restored manager is coherent (backend/internal/download/persistence.go).
use downpeed_fluter.Base.{
  on_test, All, is_some, lookup, insert, ℕ, ◌≡◌, ◌≢◌, ◌∙◌, ◌⊎◌, inl, inr, refl, sym, ap, arith,
  Bool, true, false, ◌&&◌, ◌||◌, List, [], ◌∷◌, Option, none, some, Outcome, ok, err, on_outcome,
}
use downpeed_fluter.Manager.State.{Manager}
use downpeed_fluter.Manager.Stored.{
  Loaded, reconcile_stored, with_protocol, with_validator, stored_request, when_valid,
  validate_stored_task,
}
use downpeed_fluter.Manager.Persist.{stored_task}
use downpeed_fluter.Task.{
  Task, StoredTask, TransferRequest, is_paused, is_terminal_state, ResourceValidator, TaskState,
  queued,
}
use downpeed_fluter.Errors.{DownloadError}
use downpeed_fluter.Manager.Scheduler.{is_after}
use downpeed_fluter.Manager.Invariant.{Coherent, no_wait}
use downpeed_fluter.Manager.Restore.{
  save_record, is_queued, Recovered, enqueue_planned, Startup, reconcile_stored, restore_task,
  with_effect, removed, restore_record, restore_records, restore, is_bt, refreshed,
}
use downpeed_fluter.Manager.Restoring.{reconcile_stored_task}
use downpeed_fluter.Manager.Restoring.Plans.{reconciled-Known}
use downpeed_fluter.Manager.Restoring.States.{restored-Settled}
use downpeed_fluter.Manager.Scheduler.{refresh_schedule_timer_locked}
use downpeed_fluter.Manager.Restore.Filed.{
  Sound, InTime, fresh_if, reconcile-Stopped, bt_step, save_saved, enqueue_step, filed,
  filed_and_queued,
}

-- A restored task that waits is planned for a time that is still to come when it is queued.
Waits : ℕ → Task → Type 0
Waits later task =
    (is_paused task.state || is_terminal_state task.state ≡ true)
    ⊎ ((is_queued task.state ≡ true) × (is_after task.scheduled_at later ≡ true))

WaitsIf : ℕ → Outcome DownloadError Recovered → Type 0
WaitsIf later (err e) = Unit {0}
WaitsIf later (ok r) = Waits later r.task

-- What is restored was reconciled, under the plan that was stored.
restored-from :
    (start : Startup) (now : ℕ) (stored : StoredTask) (r : Recovered)
    → reconcile_stored start now stored ≡ ok r
    → (request : TransferRequest) × (reconcile_stored_task start.files now
          (with_protocol stored.task)
          request
        ≡ ok r)
unfolding reconcile_stored
restored-from start now stored r h =
    from_valid (validate_stored_task start (with_protocol stored.task)) h
  where
    from_validator :
        (v : Outcome DownloadError ResourceValidator)
        → with_validator start now stored (with_protocol stored.task) v ≡ ok r
        → (request : TransferRequest) × (reconcile_stored_task start.files now
              (with_protocol stored.task)
              request
            ≡ ok r)
    from_validator (err e) k = cc
    from_validator (ok v) k = (stored_request stored (with_protocol stored.task) v, k)

    from_valid :
        (o : Option DownloadError)
        → when_valid start now stored (with_protocol stored.task) o ≡ ok r
        → (request : TransferRequest) × (reconcile_stored_task start.files now
              (with_protocol stored.task)
              request
            ≡ ok r)
    from_valid (some e) k = cc
    from_valid none k = from_validator _ k

reconciled-Waits :
    (start : Startup) (loaded : Loaded) (r : Recovered)
    → InTime loaded
    → reconcile_stored start loaded.now loaded.stored ≡ ok r
    → Waits loaded.later r.task
unfolding Waits
reconciled-Waits start loaded r in_time h =
    let (request, same) = restored-from start loaded.now loaded.stored r h in
    let (_, _, plan) = reconciled-Known start.files loaded.now _ request r same in
    elim (restored-Settled start.files loaded.now _ request r same) [
      | inl stopped ↦ inl stopped
      | inr (queues, planned, _, _) ↦ inr (
        queues,
        ap (λ p. is_after p loaded.later) plan
            ∙ in_time (sym (ap (λ p. is_after p loaded.now) plan) ∙ planned),
      )
    ]

not_waiting : (s : TaskState) → is_paused s || is_terminal_state s ≡ true → is_queued s ≡ false
not_waiting queued h = cc
not_waiting _ h = refl

true-ne-false : true ≢ false
true-ne-false e = cc

and_left : (a b : Bool) → a && b ≡ true → a ≡ true
and_left true b h = refl
and_left false b h = h

both_hold : {a b : Bool} → a ≡ true → b ≡ true → a && b ≡ false → ⊥
both_hold p q h = ground arith

never_both :
    (s : TaskState) (b : Bool)
    → is_paused s || is_terminal_state s ≡ true
    → is_queued s && b ≡ true
    → ⊥
never_both s b stopped both =
    absurd (true-ne-false (sym (and_left (is_queued s) b both) ∙ not_waiting s stopped))

abbrev filed_manager : Task → TransferRequest → Manager → Manager
filed_manager task request m = record m {
  tasks = insert task.id task m.tasks;
  requests = insert task.id request m.requests;
}

abbrev filed_saved : Task → TransferRequest → Manager → Manager × Option DownloadError
filed_saved task request m =
    save_record (stored_task task request) m.store (filed_manager task request m)

filed_step :
    (later : ℕ) (task : Task) (request : TransferRequest) (m : Manager)
    → Coherent no_wait m
    → m.runs ≡ []
    → lookup task.id m.tasks ≡ none
    → Waits later task
    → Sound (enqueue_planned later task (filed_saved task request m))
unfolding Waits
filed_step later task request m h quiet fresh (inl stopped) =
    enqueue_step later task (filed_manager task request m) (filed_saved task request m)
      (save_saved (stored_task task request) (filed_manager task request m))
      (λ both s. absurd (never_both task.state _ stopped both))
      (λ _ s. filed task m request s h quiet fresh stopped) quiet
filed_step later task request m h quiet fresh (inr (queues, plan)) =
    enqueue_step later task (filed_manager task request m) (filed_saved task request m)
      (save_saved (stored_task task request) (filed_manager task request m))
      (λ _ s. filed_and_queued task m request s h quiet fresh queues)
      (λ neither s. absurd (both_hold queues plan neither)) quiet

task_step :
    (later : ℕ) (m : Manager) (o : Outcome DownloadError Recovered)
    → Sound (m, none)
    → WaitsIf later o
    → Sound (restore_task later m o)
unfolding WaitsIf
task_step later m (err e) (h, quiet) w = tt
task_step later m (ok r) (h, quiet) w =
    on_test Sound (is_some (lookup r.task.id m.tasks)) (λ _. tt)
      λ fresh.
        on_test
          (λ (x : Manager). Sound (enqueue_planned later r.task (filed_saved r.task r.request x)))
          r.removes
          (λ _.
            filed_step later r.task r.request (with_effect (removed r.request.work_path) m) h quiet
              (fresh_if fresh) w)
          (λ _. filed_step later r.task r.request m h quiet (fresh_if fresh) w)

record_step :
    (start : Startup) (m : Manager) (loaded : Loaded)
    → InTime loaded
    → Sound (m, none)
    → Sound (restore_record start m loaded)
unfolding WaitsIf
record_step start m loaded in_time sound =
    on_test Sound (is_bt loaded.stored.task.protocol)
      (λ _. bt_step m _ sound (reconcile-Stopped loaded.now loaded.stored))
      (λ _. task_step loaded.later m (reconcile_stored start loaded.now loaded.stored) sound (
        on_outcome (WaitsIf loaded.later) (λ o. o) (reconcile_stored start loaded.now loaded.stored)
          (λ r h. reconciled-Waits start loaded r in_time h) (λ e _. tt)))

records-Sound :
    (start : Startup) (records : List Loaded) (x : Manager × Option DownloadError)
    → All InTime records
    → Sound x
    → Sound (restore_records start records x)
unfolding restore_records
records-Sound start [] (m, some e) times sound = tt
records-Sound start [] (m, none) times sound = sound
records-Sound start (loaded ∷ rest) (m, some e) times sound = tt
records-Sound start (loaded ∷ rest) (m, none) (in_time, times) sound =
    records-Sound start rest (restore_record start m loaded) times
      (record_step start m loaded in_time sound)

refreshed-Sound : (now : ℕ) (x : Manager × Option DownloadError) → Sound x → Sound (refreshed now x)
unfolding refresh_schedule_timer_locked
refreshed-Sound now (m, some e) sound = tt
refreshed-Sound now (m, none) (h, quiet) = (h, quiet)

abbrev pub AllInTime : Outcome DownloadError (List Loaded) → Type 0
AllInTime (err e) = Unit {0}
AllInTime (ok records) = All InTime records

-- A coherent manager with no run into which whatever records are restored, with no plan coming due
-- between the two readings of the clock for a record, is refused or is coherent, with no run: each task is filed under its ID
-- with a request, and is in the queue exactly once if it is queued and else not.
pub restore-Sound :
    (start : Startup) (loaded : Outcome DownloadError (List Loaded)) (now : ℕ) (m : Manager)
    → AllInTime loaded
    → Coherent no_wait m
    → m.runs ≡ []
    → Sound (restore start loaded now m)
unfolding restore
restore-Sound start (err e) now m times h quiet = tt
restore-Sound start (ok records) now m times h quiet =
    refreshed-Sound now (restore_records start records (m, none))
      (records-Sound start records (m, none) times (h, quiet))
