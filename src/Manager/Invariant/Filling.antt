-- ===== src/Manager/Invariant/Filling.antt =====
-- Filling the slots keeps the manager coherent, and stays within the number of slots.
use downpeed_fluter.Base.{
  ℕ, zero, suc, ◌≡◌, refl, Bool, true, false, List, [], ◌∷◌, some, Text, lookup, insert, count,
  arith, inl, inr, Bool-cases, Option-cases, lookup-insert, count-append, length, ltb,
}
use downpeed_fluter.Task.{Task, is_queued}
use downpeed_fluter.Manager.State.{Manager, no_request, no_bt_request, or_zero, TaskRun}
use downpeed_fluter.Manager.Persist.{publish_all}
use downpeed_fluter.Manager.Scheduler.{
  start_task, start_run_locked, started_task, transfer_of, take_task, fill_loop,
  fill_available_slots_locked, fill_and_publish, refresh_schedule_timer_locked,
}
use downpeed_fluter.Manager.Invariant.{Coherent}
use downpeed_fluter.Manager.Invariant.Frame.{persist-store, publish_all-effects}

-- What every round of the loop keeps, the loop keeps.
module _ {ℓ} (P : Manager → Type ℓ) (now : ℕ)
    (keep : (id : Text) (rest : List Text) (m : Manager)
      → m.queue ≡ id ∷ rest
      → ltb (length m.runs) m.max_concurrent_tasks ≡ true
      → P m
      → P (take_task now id (lookup id m.tasks) (record m { queue = rest })).0) where
  round :
      (n : ℕ) (m : Manager) (free : Bool) (q : List Text)
      → ltb (length m.runs) m.max_concurrent_tasks ≡ free
      → m.queue ≡ q
      → ((m' : Manager) → P m' → P (fill_loop now n m').0)
      → P m
      → P (fill_loop now (suc n) m).0
  unfolding fill_loop
  round n m false q e f later h = rw (e, fill_loop) h
  round n m true [] e f later h = rw (e, fill_loop) (rw (f, fill_loop) h)
  round n m true (id ∷ rest) e f later h =
      rw (e, fill_loop) (rw (f, fill_loop) (later _ (keep id rest m f e h)))

  pub fill_loop_keeps : (n : ℕ) (m : Manager) → P m → P (fill_loop now n m).0
  unfolding fill_loop
  fill_loop_keeps zero m h = h
  fill_loop_keeps (suc n) m h =
      round n m (ltb (length m.runs) m.max_concurrent_tasks) m.queue refl refl (fill_loop_keeps n) h

module _ (waited : Text → Bool) where
  -- A task taken off the head of the queue and started.
  start_task-Coherent :
      (now : ℕ) (id : Text) (task : Task) (m : Manager)
      → Coherent waited (record m { queue = id ∷ m.queue })
      → lookup id m.tasks ≡ some task
      → is_queued task.state ≡ true
      → Coherent waited (start_task now id task m)
  unfolding start_task start_run_locked count
  start_task-Coherent now id task m h found queued j =
      let request = or_zero no_request (lookup id m.requests) in
      let entered : Manager = record m {
        tasks = insert id (started_task now task) m.tasks;
        requests = insert id request m.requests;
      } in
      let (s, e) = persist-store (started_task now task) entered in
      let run : TaskRun = record {
        number = m.next_run;
        transfer = transfer_of task request (or_zero no_bt_request (lookup id m.bt_requests));
      } in
      rw e (
        ground (
          arith,
          h id,
          h j,
          lookup-insert id j (started_task now task) m.tasks,
          lookup-insert id j request m.requests,
          lookup-insert id j run m.runs,
        ))

  -- One round of the loop, whatever the task at the head of the queue is.
  pub take_task-Coherent :
      (now : ℕ) (id : Text) (m : Manager)
      → Coherent waited (record m { queue = id ∷ m.queue })
      → Coherent waited (take_task now id (lookup id m.tasks) m).0
  unfolding count
  take_task-Coherent now id m h j = elim (Option-cases (lookup id m.tasks)) [
    | inl absent ↦ rw (absent, take_task) (ground (arith, h id, h j))
    | inr (task, found) ↦ elim (Bool-cases (is_queued task.state)) [
      | inl queued ↦
          rw (found, take_task)
            (ground (
              arith,
              h id,
              h j,
              start_task-Coherent now id task m h found queued j,
              count-append j m.queue (id ∷ []),
            ))
      | inr other ↦ rw (found, take_task) (ground (arith, h id, h j))
    ]
  ]

  fill_loop-Coherent :
      (now n : ℕ) (m : Manager) → Coherent waited m → Coherent waited (fill_loop now n m).0
  fill_loop-Coherent now =
      fill_loop_keeps (Coherent waited) now λ id rest m f e h.
        take_task-Coherent now id (record m { queue = rest }) (λ j. rw (← f) (h j))

  -- Filling the slots keeps a coherent manager coherent.
  pub fill-Coherent :
      (now : ℕ) (m : Manager)
      → Coherent waited m
      → Coherent waited (fill_available_slots_locked now m).0
  unfolding fill_available_slots_locked refresh_schedule_timer_locked
  fill-Coherent now m h j = ground (arith, h j, fill_loop-Coherent now (length m.queue) m h j)

  pub publish_all-Coherent :
      (tasks : List Task) (m : Manager) → Coherent waited m → Coherent waited (publish_all tasks m)
  publish_all-Coherent tasks m h = let (e, same) = publish_all-effects tasks m in rw same h

  pub fill_and_publish-Coherent :
      (now : ℕ) (m : Manager) → Coherent waited m → Coherent waited (fill_and_publish now m)
  unfolding fill_and_publish
  fill_and_publish-Coherent now m h = publish_all-Coherent _ _ (fill-Coherent now m h)
