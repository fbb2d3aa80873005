-- ===== src/Manager/Slots.antt =====
-- What filling the slots promises: no more runs than slots, no slot free while a task is due, tasks
-- started in the order of the queue and not before their time.
pub mod Due
pub mod Timer
pub mod Order
use Prim.Native.Nat.{max}
use downpeed_fluter.Base.{
  ℕ, zero, suc, ◌+◌, ◌≤◌, ◌<◌, ◌≡◌, refl, Bool, true, false, ◌||◌, List, [], ◌∷◌, ◌++◌, Option,
  none, some, Text, lookup, insert, count, arith, ◌⊎◌, inl, inr, Bool-cases, Option-cases, ap, ◌∙◌,
  lookup-insert, count-append, Text-discrete, length, ltb, is_some, length-insert-le, All, Table,
  map, length-append, not, ◌&&◌,
}
use downpeed_fluter.Task.{Task, TransferRequest, is_queued}
use downpeed_fluter.Manager.State.{Manager, no_request, no_bt_request, or_zero, TaskRun, TaskStore}
use downpeed_fluter.Manager.Persist.{persist_task_locked}
use downpeed_fluter.Manager.Scheduler.{
  start_task, take_task, fill_loop, fill_available_slots_locked, start_run_locked, started_task,
  has_request, transfer_of, refresh_schedule_timer_locked, is_after,
}
use downpeed_fluter.Manager.Invariant.{Coherent, CoherentAt}
use downpeed_fluter.Manager.Invariant.Frame.{persist-store}
use downpeed_fluter.Manager.Invariant.Filling.{fill_loop_keeps}

-- What starting a task does to the manager.
pub start_task-shape :
    (now : ℕ) (id : Text) (task : Task) (m : Manager)
    → (s : Option TaskStore) × (r : TaskRun) × (q : TransferRequest) × (start_task now id task m
        ≡ record m {
          store = s;
          tasks = insert id (started_task now task) m.tasks;
          requests = insert id q m.requests;
          runs = insert id r m.runs;
          next_run = suc m.next_run;
        })
unfolding start_task start_run_locked
start_task-shape now id task m =
    let request = or_zero no_request (lookup id m.requests) in
    let entered : Manager = record m {
      tasks = insert id (started_task now task) m.tasks;
      requests = insert id request m.requests;
    } in
    let (s, e) = persist-store (started_task now task) entered in
    let run : TaskRun = record {
      number = m.next_run;
      transfer = transfer_of task request (or_zero no_bt_request (lookup id m.bt_requests));
    } in
    (
      s,
      run,
      request,
      ap
          (λ (x : Manager).
            start_run_locked id
              (transfer_of task request (or_zero no_bt_request (lookup id m.bt_requests))) x)
          e,
    )

-- The runs and the slots after a round.
Bounded : ℕ → ℕ → Manager → Type 0
Bounded before slots m = (length m.runs ≤ max before slots) × (m.max_concurrent_tasks ≡ slots)

take_task-Bounded :
    (now before slots : ℕ) (id : Text) (rest : List Text) (m : Manager)
    → m.queue ≡ id ∷ rest
    → ltb (length m.runs) m.max_concurrent_tasks ≡ true
    → Bounded before slots m
    → Bounded before slots (take_task now id (lookup id m.tasks) (record m { queue = rest })).0
unfolding Bounded
take_task-Bounded now before slots id rest m f e h = elim (Option-cases (lookup id m.tasks)) [
  | inl absent ↦ rw (absent, take_task) h
  | inr (task, found) ↦
      let popped : Manager = record m { queue = rest } in
      let (s, r, q, shape) = start_task-shape now id task popped in
      rw (found, take_task)
        (ground (
          arith,
          ap (λ (x : Manager). x.runs) shape,
          ap (λ (x : Manager). x.max_concurrent_tasks) shape,
          length-insert-le id r m.runs,
        ))
]

-- Filling never takes the number of runs above the number of slots: at most as many runs are left
-- as there were, or as there are slots.
pub fill_runs_bounded :
    (now : ℕ) (m : Manager)
    → length (fill_available_slots_locked now m).0.runs ≤ max (length m.runs) m.max_concurrent_tasks
unfolding fill_available_slots_locked refresh_schedule_timer_locked Bounded
fill_runs_bounded now m = ground (
  arith,
  fill_loop_keeps (Bounded (length m.runs) m.max_concurrent_tasks) now
      (take_task-Bounded now (length m.runs) m.max_concurrent_tasks) (length m.queue) m
      (omega arith, refl),
)
