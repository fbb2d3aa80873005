-- ===== src/Manager/Invariant/Runs/Ends.antt =====
-- The end of a run keeps the manager coherent.
use downpeed_fluter.Base.{
  ℕ, ◌≡◌, refl, subst, ◌∙◌, Bool, true, List, Option, none, some, Text, lookup, insert, delete,
  arith, on_test, Outcome, ok, err, ℤ, pos,
}
use downpeed_fluter.Errors.{TransferError, context_canceled}
use downpeed_fluter.Task.{Task, TransferRequest, BtTransferRequest, TransferResult, is_downloading}
use downpeed_fluter.Manager.State.{Manager, no_request, or_zero, Files, Effect}
use downpeed_fluter.Manager.Persist.{
  persist_task_locked, mark_bt_diagnostics_stopped_locked, publish, publish_event,
}
use downpeed_fluter.Manager.Scheduler.{fill_available_slots_locked}
use downpeed_fluter.Manager.Runs.{is_run, release_run}
use downpeed_fluter.Manager.Ends.{
  ended_task, retried_after, settled, publish_then, end_of_run, run_ended, ended_bt_task,
  cleaned_after, end_of_bt_run, run_bt_ended,
}
use downpeed_fluter.Manager.Invariant.Runs.{
  finished-Coherent, released-Coherent, Retries, schedule_retry-Retries,
}
use downpeed_fluter.Manager.Invariant.{Coherent}
use downpeed_fluter.Manager.Invariant.Frame.{persist-store, mark-diagnostics}
use downpeed_fluter.Manager.Invariant.Filling.{
  fill-Coherent, publish_all-Coherent, fill_and_publish-Coherent,
}
use downpeed_fluter.Manager.Invariant.Pausing.{request-Coherent}

Retries-same :
    (id : Text) (task task' : Task) (m : Manager) (x : Manager × Option Task)
    → task'.id ≡ task.id
    → Retries id task' m x
    → Retries id task m x
unfolding Retries
Retries-same id task task' m (m', none) same h = h
Retries-same id task task' m (m', some t) same (s, e, q, eq, named, state) =
    (s, e, q, eq, named ∙ same, state)

retried-Retries :
    (files : Files) (now : ℕ) (id : Text) (task : Task)
    (result : Outcome TransferError TransferResult) (m : Manager)
    → Retries id task m (retried_after files now id task result m)
unfolding Retries
retried-Retries files now id task (ok r) m = refl
retried-Retries files now id task (err context_canceled) m = refl
retried-Retries files now id task (err e) m =
    let noted : Task = record task { updated_at = now; speed_bps = pos 0 } in
    Retries-same id task noted m _ refl (schedule_retry-Retries files now id noted e m)

release_live :
    (id : Text) (number : ℕ) (m : Manager)
    → is_run number (lookup id m.runs) ≡ true
    → release_run id number m ≡ record m { runs = delete id m.runs }
unfolding release_run
release_live id number m live = ground arith

module _ (waited : Text → Bool) where
  publish_then-Coherent :
      (now : ℕ) (x : Manager × Task) → Coherent waited x.0 → Coherent waited (publish_then now x)
  unfolding publish publish_event
  publish_then-Coherent now (m, task) h =
      let (m', updates) = fill_available_slots_locked now m in
      publish_all-Coherent waited updates (publish task m') (fill-Coherent waited now m h)

  -- The run with this number is the task's, and the task is downloading.
  settled-Coherent :
      (now : ℕ) (id : Text) (task : Task) (result : Outcome TransferError TransferResult)
      (m : Manager) (x : Manager × Option Task)
      → Coherent waited m
      → lookup id m.tasks ≡ some task
      → is_downloading task.state ≡ true
      → Retries id task (record m { runs = delete id m.runs }) x
      → Coherent waited (settled now id task result x).0
  unfolding Retries
  settled-Coherent now id task result m (m', some t) h found busy (s, e, q, same, named, state) =
      rw same (
        request-Coherent waited id q
          (record m { runs = delete id m.runs; tasks = insert id t m.tasks })
          (finished-Coherent waited id task t m h found named (ground arith) (ground arith)
            (ground arith)))
  settled-Coherent now id task result m (m', none) h found busy same =
      let done : Task = ended_task now result task in
      let asked : TransferRequest = record (or_zero no_request (lookup id m'.requests)) {
        checkpoint = none;
      } in
      let stored : Manager = record m' {
        requests = insert id asked m'.requests;
        tasks = insert id done m'.tasks;
      } in
      let (s, e) = persist-store done stored in
      rw e (
        rw same (
          request-Coherent waited id
            (record (or_zero no_request (lookup id m.requests)) { checkpoint = none })
            (record m { runs = delete id m.runs; tasks = insert id done m.tasks })
            (finished-Coherent waited id task done m h found (ground arith) (ground arith)
              (ground arith) (ground arith))))

  end_of_run-Coherent :
      (files : Files) (now : ℕ) (id : Text) (number : ℕ)
      (result : Outcome TransferError TransferResult) (m : Manager) (known : Option Task)
      → Coherent waited m
      → is_run number (lookup id m.runs) ≡ true
      → lookup id m.tasks ≡ known
      → Coherent waited (end_of_run files now id number result m known)
  end_of_run-Coherent files now id number result m none h live found =
      fill_and_publish-Coherent waited now (release_run id number m)
        (released-Coherent waited id number m none h found (λ task e. cc))
  end_of_run-Coherent files now id number result m (some task) h live found =
      on_test (Coherent waited) (is_downloading task.state)
        (λ busy.
          publish_then-Coherent now
            (settled now id task result
              (retried_after files now id task result (release_run id number m)))
            (settled-Coherent now id task result m
              (retried_after files now id task result (release_run id number m)) h found busy
              (subst
                (λ (x : Manager).
                  Retries id task x
                    (retried_after files now id task result (release_run id number m)))
                (release_live id number m live)
                (retried-Retries files now id task result (release_run id number m)))))
        (λ idle.
          fill_and_publish-Coherent waited now (release_run id number m)
            (released-Coherent waited id number m (some task) h found (λ t e. ground arith)))

  -- When the transfer of a run ends, with any result, the manager stays coherent.
  pub run_ended-Coherent :
      (files : Files) (now : ℕ) (id : Text) (number : ℕ)
      (result : Outcome TransferError TransferResult) (m : Manager)
      → Coherent waited m
      → is_run number (lookup id m.runs) ≡ true
      → Coherent waited (run_ended files now id number result m)
  unfolding run_ended
  run_ended-Coherent files now id number result m h live =
      end_of_run-Coherent files now id number result m (lookup id m.tasks) h live refl

  cleaned-effects :
      (request : BtTransferRequest) (result : Outcome TransferError ℤ) (m : Manager)
      → (e : List Effect) × (cleaned_after request result m ≡ record m { effects = e })
  cleaned-effects request (ok size) m = (m.effects, refl)
  cleaned-effects request (err context_canceled) m = (m.effects, refl)
  cleaned-effects request (err e) m = (_, refl)

  end_of_bt_run-Coherent :
      (now : ℕ) (id : Text) (number : ℕ) (request : BtTransferRequest)
      (result : Outcome TransferError ℤ) (m : Manager) (known : Option Task)
      → Coherent waited m
      → is_run number (lookup id m.runs) ≡ true
      → lookup id m.tasks ≡ known
      → Coherent waited (end_of_bt_run now id number request result m known)
  end_of_bt_run-Coherent now id number request result m none h live found =
      fill_and_publish-Coherent waited now (release_run id number m)
        (released-Coherent waited id number m none h found (λ task e. cc))
  end_of_bt_run-Coherent now id number request result m (some task) h live found =
      on_test (Coherent waited) (is_downloading task.state)
        (λ busy.
          let done : Task = ended_bt_task now result task in
          let m' : Manager = cleaned_after request result (record m { runs = delete id m.runs }) in
          let entered : Manager = record m' { tasks = insert id done m'.tasks } in
          let (d, marked) = mark-diagnostics done entered in
          let (s, saved) = persist-store done (mark_bt_diagnostics_stopped_locked done entered) in
          let (e, cleaned) =
            cleaned-effects request result (record m { runs = delete id m.runs }) in
          publish_then-Coherent now
            ((persist_task_locked done (mark_bt_diagnostics_stopped_locked done entered)).0, done)
            (rw saved (
              rw marked (
                rw cleaned (
                  finished-Coherent waited id task done m h found (ground arith) (ground arith)
                    (ground arith) (ground arith))))))
        (λ idle.
          fill_and_publish-Coherent waited now (release_run id number m)
            (released-Coherent waited id number m (some task) h found (λ t e. ground arith)))

  -- So it does when the transfer of a BT run ends.
  pub run_bt_ended-Coherent :
      (now : ℕ) (id : Text) (number : ℕ) (request : BtTransferRequest)
      (result : Outcome TransferError ℤ) (m : Manager)
      → Coherent waited m
      → is_run number (lookup id m.runs) ≡ true
      → Coherent waited (run_bt_ended now id number request result m)
  unfolding run_bt_ended
  run_bt_ended-Coherent now id number request result m h live =
      end_of_bt_run-Coherent now id number request result m (lookup id m.tasks) h live refl
