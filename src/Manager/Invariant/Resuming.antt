-- ===== src/Manager/Invariant/Resuming.antt =====
-- Resume and Retry keep the manager coherent, but where a BT task is resumed and cannot be saved.
use downpeed_fluter.Base.{
  ℕ, ◌≡◌, refl, Bool, true, false, not, ◌&&◌, ◌≢◌, [], ◌∷◌, ◌++◌, Option, none, some, Text, Table,
  lookup, insert, remove, count, arith, ap, lookup-insert, count-remove, count-append, is_some,
  on_test, on_option, on_outcome, Outcome, err, pos, eqb_ℤ, ltb_ℤ, if◌then◌else◌,
}
use downpeed_fluter.Errors.{DownloadError, task_persistence}
use downpeed_fluter.Task.{
  Task, TaskState, TransferRequest, BtDiagnostics, is_downloading, is_paused, is_bt, queued,
}
use downpeed_fluter.Validator.{if_range_value}
use downpeed_fluter.Strings.{is_empty}
use downpeed_fluter.Manager.State.{Manager, TaskStore, no_bt_request, or_zero, Files, removed}
use downpeed_fluter.Manager.Persist.{persist_task_locked, new_bt_diagnostics}
use downpeed_fluter.Manager.Scheduler.{
  enqueue_locked, remove_from_queue_locked, fill_available_slots_locked, contains_task,
}
use downpeed_fluter.Manager.Pausing.{no_task, reconciled_partial_progress}
use downpeed_fluter.Manager.Runs.{with_effect}
use downpeed_fluter.Manager.Resuming.{
  enqueue_and_fill, destination_free, resumed_task, resume_saved, resume_from, resume_cleared,
  resume_at, resume_http, resumed_bt_task, resume_bt_saved, resume_bt_locked, resume_known, resume,
  refused,
}
use downpeed_fluter.Manager.Invariant.{Coherent, no_wait}
use downpeed_fluter.Manager.Invariant.Frame.{persist-store, persist-error}
use downpeed_fluter.Manager.Invariant.Filling.{fill-Coherent, publish_all-Coherent}
use downpeed_fluter.Manager.Invariant.Pausing.{request-Coherent}

-- A task that has no run is queued.
pub requeued-Coherent :
    (waited : Text → Bool) (id : Text) (task task' : Task) (m : Manager)
    → Coherent waited m
    → lookup id m.tasks ≡ some task
    → lookup id m.runs ≡ none
    → task'.id ≡ task.id
    → task'.state ≡ queued
    → Coherent waited (enqueue_locked id (record m { tasks = insert id task' m.tasks }))
unfolding enqueue_locked remove_from_queue_locked count
requeued-Coherent waited id task task' m h found idle same state j = ground (
  arith,
  h id,
  h j,
  lookup-insert id j task' m.tasks,
  count-remove id j m.queue,
  count-append j (remove id m.queue) (id ∷ []),
)

pub enqueue_and_fill-Coherent :
    (waited : Text → Bool) (now : ℕ) (id : Text) (m : Manager)
    → Coherent waited (enqueue_locked id m)
    → Coherent waited (enqueue_and_fill now id m).0
unfolding enqueue_and_fill
enqueue_and_fill-Coherent waited now id m h =
    let (m', updates) = fill_available_slots_locked now (enqueue_locked id m) in
    let task : Task = or_zero no_task (lookup id m'.tasks) in
    publish_all-Coherent waited (if contains_task updates id then updates else updates ++ task ∷ [])
      m' (fill-Coherent waited now (enqueue_locked id m) h)

-- With nothing waited for, a task that is not downloading has no run.
pub no_run :
    (id : Text) (task : Task) (m : Manager)
    → Coherent no_wait m
    → lookup id m.tasks ≡ some task
    → is_downloading task.state ≡ false
    → lookup id m.runs ≡ none
no_run id task m h found idle = ground (arith, h id)

resume_saved-Coherent :
    (now : ℕ) (id : Text) (task task' : Task) (m : Manager) (x : Manager × Option DownloadError)
    → Coherent no_wait m
    → lookup id m.tasks ≡ some task
    → is_paused task.state ≡ true
    → task'.id ≡ task.id
    → task'.state ≡ queued
    → (s : Option TaskStore) × (x.0 ≡ record m { tasks = insert id task' m.tasks; store = s })
    → Coherent no_wait (resume_saved now id task' x).0
resume_saved-Coherent now id task task' m (m', none) h found paused same state (s, e) = rw e (
    enqueue_and_fill-Coherent no_wait now id _ (
      requeued-Coherent no_wait id task task' (record m { store = s }) h found
        (no_run id task m h found (ground arith)) same state))
resume_saved-Coherent now id task task' m (m', some x) h found paused same state (s, e) = rw e λ j.
    ground (
      arith,
      h id,
      h j,
      lookup-insert id j task' m.tasks,
      lookup-insert id j (record task' { state = TaskState.paused }) (insert id task' m.tasks),
    )

resume_from-Coherent :
    (now : ℕ) (id : Text) (request : TransferRequest) (m : Manager) (known : Option Task)
    → Coherent no_wait m
    → lookup id m.tasks ≡ known
    → Coherent no_wait (resume_from now id request m (or_zero no_task known)).0
resume_from-Coherent now id request m none h found = h
resume_from-Coherent now id request m (some task) h found =
    on_test P (is_paused task.state)
      (λ paused.
        let task' : Task = resumed_task now task in
        let asked : Manager = record m { requests = insert id request m.requests } in
        resume_saved-Coherent now id task task' asked _ (request-Coherent no_wait id request m h)
          found paused refl refl
          (persist-store task' (record asked { tasks = insert id task' m.tasks })))
      (λ _. h)
  where
    P : Manager × Outcome DownloadError Task → Type 0
    P r = Coherent no_wait r.0

-- Resuming keeps the manager coherent on every branch, for a task that is not of protocol BT.
resume_http-Coherent :
    (files : Files) (now : ℕ) (id : Text) (task : Task) (m : Manager)
    → Coherent no_wait m
    → Coherent no_wait (resume_http files now id task m (lookup id m.requests)).0
resume_http-Coherent files now id task m h =
    on_option P (resume_http files now id task m) (lookup id m.requests) h λ request _.
      on_option P
        (elim [
          | some e ↦ (m, err e)
          | none ↦
              resume_at files now id request task m (reconciled_partial_progress files task request)
        ])
        (destination_free (files.lstat task.file_path))
        (on_outcome P (resume_at files now id request task m)
          (reconciled_partial_progress files task request)
          (λ downloaded _.
            on_test P (not (eqb_ℤ downloaded task.downloaded)) (λ _. h)
              (λ _.
                on_test P (ltb_ℤ (pos 0) downloaded && is_empty (if_range_value request.validator))
                  (λ _. h)
                  (λ _.
                    on_test
                      (λ (x : Manager × Option DownloadError).
                        P (resume_cleared now id request task downloaded x))
                      (not (is_some request.checkpoint) && eqb_ℤ downloaded (pos 0))
                      (λ _.
                        let cleared : Manager = with_effect (removed request.work_path) m in
                        on_option P
                          (λ e. resume_cleared now id request task downloaded (cleared, e))
                          (refused (files.remove request.work_path))
                          (resume_from-Coherent now id _ cleared (lookup id m.tasks) h refl)
                          (λ e _. h))
                      (λ _. resume_from-Coherent now id _ m (lookup id m.tasks) h refl))))
          (λ e _. h))
        (λ e _. h)
  where
    P : Manager × Outcome DownloadError Task → Type 0
    P r = Coherent no_wait r.0

abbrev pub is_bt_task : Option Task → Bool
is_bt_task none = false
is_bt_task (some task) = is_bt task.protocol

-- The manager is coherent unless the task could not be saved.
abbrev UnlessUnsaved : Manager × Outcome DownloadError Task → Type 0
UnlessUnsaved r = r.1 ≢ err task_persistence → Coherent no_wait r.0

resume_bt_saved-Coherent :
    (now : ℕ) (id : Text) (task task' : Task) (d : Table BtDiagnostics) (m : Manager)
    (x : Manager × Option DownloadError)
    → Coherent no_wait m
    → lookup id m.tasks ≡ some task
    → is_paused task.state ≡ true
    → task'.id ≡ task.id
    → task'.state ≡ queued
    → (s : Option TaskStore) × (x.0
        ≡ record m { tasks = insert id task' m.tasks; bt_diagnostics = d; store = s })
    → ((e : DownloadError) → x.1 ≡ some e → e ≡ task_persistence)
    → UnlessUnsaved (resume_bt_saved now id x)
resume_bt_saved-Coherent now id task task' d m (m', none) h found paused same state (s, e) only
      saved =
    rw e (
      enqueue_and_fill-Coherent no_wait now id _ (
        requeued-Coherent no_wait id task task' (record m { bt_diagnostics = d; store = s }) h found
          (no_run id task m h found (ground arith)) same state))
resume_bt_saved-Coherent now id task task' d m (m', some x) h found paused same state (s, e) only
      saved =
    absurd (saved (ap err (only x refl)))

resume_bt-Coherent :
    (files : Files) (now : ℕ) (id : Text) (task : Task) (m : Manager)
    → Coherent no_wait m
    → lookup id m.tasks ≡ some task
    → is_paused task.state ≡ true
    → UnlessUnsaved (resume_bt_locked files now id task m)
unfolding resume_bt_locked
resume_bt-Coherent files now id task m h found paused =
    let task' : Task = resumed_bt_task now task in
    let d : Table BtDiagnostics =
      insert id (new_bt_diagnostics task' (or_zero no_bt_request (lookup id m.bt_requests)))
        m.bt_diagnostics in
    let entered : Manager = record m { tasks = insert id task' m.tasks; bt_diagnostics = d } in
    on_option UnlessUnsaved
      (elim [
        | some e ↦ (m, err e)
        | none ↦ resume_bt_saved now id (persist_task_locked task' entered)
      ])
      (destination_free (files.lstat task.file_path))
      (resume_bt_saved-Coherent now id task task' d m (persist_task_locked task' entered) h found
        paused refl refl (persist-store task' entered) (λ e. persist-error task' entered))
      (λ e _ _. h)

abbrev UnlessBtUnsaved : Option Task → Manager × Outcome DownloadError Task → Type 0
UnlessBtUnsaved known r =
    (is_bt_task known ≡ true → r.1 ≢ err task_persistence) → Coherent no_wait r.0

resume_known-Coherent :
    (files : Files) (now : ℕ) (id : Text) (m : Manager) (known : Option Task)
    → Coherent no_wait m
    → lookup id m.tasks ≡ known
    → UnlessBtUnsaved known (resume_known files now id m known)
resume_known-Coherent files now id m none h found = λ _. h
resume_known-Coherent files now id m (some task) h found =
    on_test P (not (is_paused task.state)) (λ _ _. h)
      λ paused.
        on_test P (is_bt task.protocol)
          (λ bt.
            on_test P (is_some (lookup id m.bt_requests))
              (λ _ saved. resume_bt-Coherent files now id task m h found (ground arith) (saved bt))
              (λ _ _. h))
          (λ _ _. resume_http-Coherent files now id task m h)
  where
    P : Manager × Outcome DownloadError Task → Type 0
    P = UnlessBtUnsaved (some task)

-- Resuming a task keeps the manager coherent on every branch, but where a BT task cannot be saved.
pub resume-Coherent :
    (files : Files) (now : ℕ) (id : Text) (m : Manager)
    → Coherent no_wait m
    → (is_bt_task (lookup id m.tasks) ≡ true → (resume files now id m).1 ≢ err task_persistence)
    → Coherent no_wait (resume files now id m).0
unfolding resume
resume-Coherent files now id m h =
    on_test (UnlessBtUnsaved (lookup id m.tasks)) m.closed (λ _ _. h)
      (λ _. resume_known-Coherent files now id m (lookup id m.tasks) h refl)
