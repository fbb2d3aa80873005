-- ===== src/Manager/Resuming/Stranded.antt =====
-- A BT task that is resumed but cannot be saved (resumeBTLocked of
-- backend/internal/download/manager.go).
use downpeed_fluter.Base.{
  ℕ, ◌≡◌, arith, true, Option, none, some, Text, lookup, insert, count, lookup-insert, Outcome, err,
  ap, ◌∙◌, on_test, subst, sym, on_option, not, is_some,
}
use downpeed_fluter.Errors.{DownloadError, task_persistence}
use downpeed_fluter.Task.{Task, is_bt, is_paused}
use downpeed_fluter.Manager.State.{Manager, Files}
use downpeed_fluter.Manager.Persist.{persist_task_locked, new_bt_diagnostics}
use downpeed_fluter.Manager.Resuming.{
  resume, resume_known, resume_bt_locked, resumed_bt_task, resume_bt_saved, destination_free,
  enqueue_and_fill, or_zero, no_bt_request,
}
use downpeed_fluter.Manager.Invariant.{Coherent, no_wait}
use downpeed_fluter.Manager.Invariant.Frame.{persist-store}

-- What is left of a BT task that was resumed and refused by the store.
abbrev pub Strands : ℕ → Text → Task → Manager × Outcome DownloadError Task → Type 0
Strands now id task (m, r) =
    r ≡ err task_persistence
    → (lookup id m.tasks ≡ some (resumed_bt_task now task)) × (count id m.queue ≡ 0)

resume_bt_saved-Strands :
    (now : ℕ) (id : Text) (task : Task) (x : Manager × Option DownloadError)
    → lookup id x.0.tasks ≡ some (resumed_bt_task now task)
    → count id x.0.queue ≡ 0
    → Strands now id task (resume_bt_saved now id x)
unfolding enqueue_and_fill
resume_bt_saved-Strands now id task (m, none) there out r = ground arith
resume_bt_saved-Strands now id task (m, some e) there out r = (there, out)

resume_bt_locked-Strands :
    (files : Files) (now : ℕ) (id : Text) (task : Task) (m : Manager)
    → Coherent no_wait m
    → lookup id m.tasks ≡ some task
    → is_paused task.state ≡ true
    → Strands now id task (resume_bt_locked files now id task m)
unfolding resume_bt_locked
resume_bt_locked-Strands files now id task m h found paused =
    on_option (Strands now id task)
      (λ free. elim free [
        | some e ↦ (m, err e)
        | none ↦ resume_bt_saved now id (persist_task_locked task' entered)
      ])
      (destination_free (files.lstat task.file_path))
      (resume_bt_saved-Strands now id task (persist_task_locked task' entered) there out)
      (λ e same r. ground arith)
  where
    task' : Task
    task' = resumed_bt_task now task

    entered : Manager
    entered = record m {
      tasks = insert id task' m.tasks;
      bt_diagnostics =
          insert id (new_bt_diagnostics task' (or_zero no_bt_request (lookup id m.bt_requests)))
            m.bt_diagnostics;
    }

    there : lookup id (persist_task_locked task' entered).0.tasks ≡ some task'
    there =
        ap (λ (x : Manager). lookup id x.tasks) (persist-store task' entered).1
        ∙ ground (arith, lookup-insert id id task' m.tasks)

    out : count id (persist_task_locked task' entered).0.queue ≡ 0
    out =
        ap (λ (x : Manager). count id x.queue) (persist-store task' entered).1
        ∙ ground (arith, h id)

-- When the resumption of a BT task ends with the error that the task could not be saved, the task is
-- queued all the same, but it is not in the queue, where alone a slot would find it.
pub resume_bt_stranded :
    (files : Files) (now : ℕ) (id : Text) (task : Task) (m : Manager)
    → Coherent no_wait m
    → lookup id m.tasks ≡ some task
    → is_bt task.protocol ≡ true
    → (resume files now id m).1 ≡ err task_persistence
    → (lookup id (resume files now id m).0.tasks ≡ some (resumed_bt_task now task))
      × (count id (resume files now id m).0.queue ≡ 0)
unfolding resume
resume_bt_stranded files now id task m h found bt =
    on_test P m.closed (λ _ r. ground arith)
      λ _.
        subst (λ known. P (resume_known files now id m known)) (sym found)
          (on_test P (not (is_paused task.state)) (λ _ r. ground arith)
            λ paused. rw bt (
              on_test P (is_some (lookup id m.bt_requests))
                (λ _. resume_bt_locked-Strands files now id task m h found (ground arith))
                (λ _ r. ground arith)))
  where
    P : Manager × Outcome DownloadError Task → Type 0
    P = Strands now id task
