-- ===== src/Manager/Pausing/Paused.antt =====
-- What Pause does at once (backend/internal/download/manager.go).
use downpeed_fluter.Base.{
  ◌&&◌, ◌||◌, Bool, false, is_some, pos, sym, Option, ℕ, ◌≡◌, ◌⊎◌, inl, inr, refl, arith, true,
  none, some, Text, lookup, insert, count, lookup-insert, ok, err, ap, ◌∙◌, on_test, on_either,
  count-remove, remove, false, sym, Option, pos, Bool,
}
use downpeed_fluter.Errors.{task_invalid_state, task_not_found, DownloadError}
use downpeed_fluter.Task.{
  Task, TaskState, queued, downloading, retrying, completed, failed, canceled,
}
use downpeed_fluter.Manager.State.{Manager}
use downpeed_fluter.Manager.Persist.{mark_bt_diagnostics_stopped_locked, publish, publish_event}
use downpeed_fluter.Manager.Scheduler.{remove_from_queue_locked, refresh_schedule_timer_locked}
use downpeed_fluter.Manager.Pausing.{
  Pausing, over, waiting, pause_begin, pause_known, stop_run, set_paused, paused_task, can_pause,
  paused, TaskRun, other_state, is_downloading, is_queued, is_retrying,
}
use downpeed_fluter.Manager.Invariant.Frame.{persist-store, mark-diagnostics}

-- A task that Pause takes: one that waits or is to be retried, or one that downloads with a run.
abbrev pub IsPausable : TaskState → Option TaskRun → Type 0
IsPausable state run =
    (state ≡ queued)
    ⊎ (state ≡ retrying)
    ⊎ ((state ≡ downloading) × ((r : TaskRun) × (run ≡ some r)))

-- The task is paused in the table, where all else is as it was, and it is not in the queue.
abbrev pub IsPausedAs : ℕ → Text → Manager → Manager → Task → Type 0
IsPausedAs now id m m' task =
    (before : Task) × (lookup id m.tasks ≡ some before)
    × IsPausable before.state (lookup id m.runs)
    × (task ≡ record before {
      state = paused;
      speed_bps = pos 0;
      connections = 0;
      next_retry_at = none;
      updated_at = now;
      completed_at = none;
    })
    × (m'.tasks ≡ insert id task m.tasks)
    × (m'.queue ≡ remove id m.queue)
    × (lookup id m'.tasks ≡ some task)
    × (count id m'.queue ≡ 0)

-- Why Pause refuses: the manager is closed, the task is unknown, or it is none that Pause takes.
abbrev pub Unpausable : Text → Manager → DownloadError → Type 0
Unpausable id m e =
    ((m.closed ≡ true) × (e ≡ task_invalid_state))
    ⊎ ((m.closed ≡ false) × (lookup id m.tasks ≡ none) × (e ≡ task_not_found))
    ⊎ ((m.closed ≡ false)
        × ((task : Task) × (lookup id m.tasks ≡ some task)
            × (IsPausable task.state (lookup id m.runs) → ⊥)
            × (e ≡ task_invalid_state)))

abbrev pub Pauses : ℕ → Text → Manager → Manager × Pausing → Type 0
Pauses now id m (m', over (err e)) = (m' ≡ m) × Unpausable id m e
Pauses now id m (m', over (ok task)) =
    (m.closed ≡ false) × IsPausedAs now id m m' task × (lookup id m.runs ≡ none)
Pauses now id m (m', waiting run task) =
    (m.closed ≡ false) × IsPausedAs now id m m' task × (lookup id m.runs ≡ some run)

-- The test of the code, for a state and a run.
abbrev takes : TaskState → Option TaskRun → Bool
takes state run = (is_downloading state && is_some run) || is_queued state || is_retrying state

takes-IsPausable :
    (state : TaskState) (run : Option TaskRun) → takes state run ≡ true → IsPausable state run
takes-IsPausable queued run h = inl refl
takes-IsPausable retrying run h = inr (inl refl)
takes-IsPausable downloading (some run) h = inr (inr (refl, (run, refl)))
takes-IsPausable downloading none h = absurd (ground arith)
takes-IsPausable paused run h = absurd (ground arith)
takes-IsPausable completed run h = absurd (ground arith)
takes-IsPausable failed run h = absurd (ground arith)
takes-IsPausable canceled run h = absurd (ground arith)
takes-IsPausable (other_state name) run h = absurd (ground arith)

takes-all :
    (state : TaskState) (run : Option TaskRun) → IsPausable state run → takes state run ≡ true
takes-all state run (inl waits) = ap (λ s. takes s run) waits
takes-all state run (inr (inl waits)) = ap (λ s. takes s run) waits
takes-all state run (inr (inr (loads, (r, is)))) =
    ap (λ s. takes s run) loads ∙ ap (λ o. takes downloading o) is

set_paused-shape :
    (now : ℕ) (id : Text) (task : Task) (m : Manager)
    → ((set_paused now id task m).tasks ≡ insert id (paused_task now task) m.tasks)
      × ((set_paused now id task m).queue ≡ remove id m.queue)
unfolding set_paused remove_from_queue_locked refresh_schedule_timer_locked
set_paused-shape now id task m =
    let task' = paused_task now task in
    let unqueued : Manager = refresh_schedule_timer_locked now (remove_from_queue_locked id m) in
    let entered : Manager = record unqueued { tasks = insert id task' unqueued.tasks } in
    let (d, marked) = mark-diagnostics task' entered in
    let (s, e) = persist-store task' (mark_bt_diagnostics_stopped_locked task' entered) in
    (
      ap (λ (x : Manager). x.tasks) e ∙ ap (λ (x : Manager). x.tasks) marked,
      ap (λ (x : Manager). x.queue) e ∙ ap (λ (x : Manager). x.queue) marked,
    )

set_paused-IsPausedAs :
    (now : ℕ) (id : Text) (task : Task) (m : Manager)
    → lookup id m.tasks ≡ some task
    → IsPausable task.state (lookup id m.runs)
    → IsPausedAs now id m (set_paused now id task m) (paused_task now task)
set_paused-IsPausedAs now id task m found can =
    let (t, q) = set_paused-shape now id task m in
    (
      task,
      found,
      can,
      refl,
      t,
      q,
      ap (lookup id) t ∙ ground (arith, lookup-insert id id (paused_task now task) m.tasks),
      ap (count id) q ∙ ground (arith, count-remove id id m.queue),
    )

-- Pause refuses exactly where the manager is closed, the task is unknown, or it is neither queued nor
-- retrying nor downloading with a run, and changes nothing then. Otherwise the task is paused in the
-- table, the other entries staying, and out of the queue at once, and Pause is over exactly if there is
-- no run; if there is one, it is the one that it waits for.
pub pause_begin-Pauses :
    (now : ℕ) (id : Text) (m : Manager) → Pauses now id m (pause_begin now id m)
unfolding pause_begin publish publish_event
pause_begin-Pauses now id m =
    on_test P m.closed (λ closed. (refl, inl (closed, refl)))
      λ opened.
        on_either P (pause_known now id m) (lookup id m.tasks)
          (λ unknown. (refl, inr (inl (opened, unknown, refl))))
          λ task found.
            on_test P (can_pause task (lookup id m.runs))
              (λ can.
                let pausable = takes-IsPausable task.state (lookup id m.runs) can in
                on_either P (λ run. stop_run (paused_task now task) run (set_paused now id task m))
                  (lookup id m.runs)
                  (λ gone. (opened, set_paused-IsPausedAs now id task m found pausable, gone))
                  (λ run live. (opened, set_paused-IsPausedAs now id task m found pausable, live)))
              (λ cannot. (
                refl,
                inr (
                    inr (
                      opened,
                      (
                        task,
                        found,
                        (λ pausable.
                            true≢false
                              (sym (takes-all task.state (lookup id m.runs) pausable) ∙ cannot)),
                        refl,
                      ),
                    )),
              ))
  where
    P : Manager × Pausing → Type 0
    P = Pauses now id m

    true≢false : true ≡ false → ⊥
    true≢false e = cc
