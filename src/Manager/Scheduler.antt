-- ===== src/Manager/Scheduler.antt =====
-- The queue and the slots: backend/internal/download/scheduler.go. One reading of the clock stands
-- for those of one critical section, and is the argument `now`.
use downpeed_fluter.Base.{
  ℕ, zero, suc, Bool, true, false, not, ◌&&◌, List, [], ◌∷◌, ◌++◌, Option, none, some, ℤ, pos, Text,
  Table, lookup, insert, remove, length, ltb, if◌then◌else◌, ite, Text-discrete, ◌==◌, is_some,
  ◌||◌,
}
use downpeed_fluter.Task.{Task, TransferRequest, BtTransferRequest, is_queued, is_bt, downloading}
use downpeed_fluter.Manager.State.{
  Manager, Transferring, http_run, bt_run, no_request, no_bt_request, or_zero,
}
use downpeed_fluter.Manager.Persist.{persist_task_locked, publish_all}

unfoldable pub remove_from_queue_locked : Text → Manager → Manager
remove_from_queue_locked id m = record m { queue = remove id m.queue }

unfoldable pub enqueue_locked : Text → Manager → Manager
unfolding remove_from_queue_locked
enqueue_locked id m = record m { queue = remove id m.queue ++ id ∷ [] }

-- scheduledAt != nil && scheduledAt.After(now)
abbrev pub is_after : Option ℕ → ℕ → Bool
is_after none now = false
is_after (some at) now = ltb now at

abbrev pub earlier : Option ℕ → ℕ → Option ℕ
earlier none at = some at
earlier (some best) at = if ltb at best then some at else some best

-- The plan of a queued task for a time still to come.
abbrev pub future_plan : ℕ → Option Task → Option ℕ
future_plan now none = none
future_plan now (some task) =
    if is_queued task.state && is_after task.scheduled_at now then task.scheduled_at else none

abbrev pub earlier_plan : Option ℕ → Option ℕ → Option ℕ
earlier_plan best none = best
earlier_plan best (some at) = earlier best at

unfoldable pub earliest_from : ℕ → Table Task → Option ℕ → List Text → Option ℕ
earliest_from now tasks best [] = best
earliest_from now tasks best (id ∷ rest) =
    earliest_from now tasks (earlier_plan best (future_plan now (lookup id tasks))) rest

unfoldable pub refresh_schedule_timer_locked : ℕ → Manager → Manager
unfolding earliest_from
refresh_schedule_timer_locked now m = record m {
  schedule_generation = suc m.schedule_generation;
  schedule_timer = if m.closed then none else earliest_from now m.tasks none m.queue;
}

abbrev pub transfer_of : Task → TransferRequest → BtTransferRequest → Transferring
transfer_of task request bt_request =
    if is_bt task.protocol then bt_run bt_request else http_run request

-- startRunLocked and startBTRunLocked.
unfoldable pub start_run_locked : Text → Transferring → Manager → Manager
start_run_locked id transfer m = record m {
  runs = insert id (record { number = m.next_run; transfer = transfer }) m.runs;
  next_run = suc m.next_run;
}

abbrev pub started_task : ℕ → Task → Task
started_task now task = record task {
  state = downloading;
  speed_bps = pos 0;
  error = none;
  next_retry_at = none;
  completed_at = none;
  updated_at = now;
}

-- A task that leaves the queue for a slot.
unfoldable pub start_task : ℕ → Text → Task → Manager → Manager
unfolding persist_task_locked start_run_locked
start_task now id task m =
    let request = or_zero no_request (lookup id m.requests) in
    let bt_request = or_zero no_bt_request (lookup id m.bt_requests) in
    let entered = record m {
      tasks = insert id (started_task now task) m.tasks;
      requests = insert id request m.requests;
    } in
    start_run_locked id (transfer_of task request bt_request)
      (persist_task_locked (started_task now task) entered).0

abbrev pub has_request : Text → Manager → Bool
has_request id m = is_some (lookup id m.requests) || is_some (lookup id m.bt_requests)

-- One round of the loop, for the id that was taken off the queue.
abbrev pub take_task : ℕ → Text → Option Task → Manager → Manager × List Task
take_task now id none m = (m, [])
take_task now id (some task) m =
    if not (is_queued task.state)
    then (m, [])
    else if is_after task.scheduled_at now
    then (record m { queue = m.queue ++ id ∷ [] }, [])
    else if has_request id m
    then (start_task now id task m, started_task now task ∷ [])
    else (m, [])

unfoldable pub fill_loop : ℕ → ℕ → Manager → Manager × List Task
unfolding start_task
fill_loop now zero m = (m, [])
fill_loop now (suc queued_count) m = elim (ltb (length m.runs) m.max_concurrent_tasks) [
  | false ↦ (m, [])
  | true ↦ elim m.queue [
    | [] ↦ (m, [])
    | id ∷ rest ↦
        let (m', started) = take_task now id (lookup id m.tasks) (record m { queue = rest }) in
        let (m'', later) = fill_loop now queued_count m' in (m'', started ++ later)
  ]
]

unfoldable pub fill_available_slots_locked : ℕ → Manager → Manager × List Task
unfolding fill_loop refresh_schedule_timer_locked
fill_available_slots_locked now m =
    if m.closed
    then (m, [])
    else let (m', updates) = fill_loop now (length m.queue) m in
      (refresh_schedule_timer_locked now m', updates)

-- The end of most critical sections: fill the slots and publish what started.
unfoldable pub fill_and_publish : ℕ → Manager → Manager
unfolding fill_available_slots_locked
fill_and_publish now m =
    let (m', updates) = fill_available_slots_locked now m in publish_all updates m'

unfoldable pub contains_task : List Task → Text → Bool
contains_task [] id = false
contains_task (task ∷ rest) id = ite (Text-discrete task.id id) true (contains_task rest id)

pub record SchedulerSettings : Type 0 where
  pub max_concurrent_tasks : ℕ
  pub download_rate_limit : ℤ
  pub max_retries : ℕ

unfoldable pub apply_scheduler_settings : ℕ → SchedulerSettings → Manager → Manager
unfolding fill_and_publish
apply_scheduler_settings now settings m =
    if m.closed
    then m
    else fill_and_publish now (record m {
      max_concurrent_tasks = settings.max_concurrent_tasks;
      max_retries = settings.max_retries;
      download_rate_limit = settings.download_rate_limit;
    })

-- The timer's callback, with the generation that it was made in.
unfoldable pub wake_scheduled_tasks : ℕ → ℕ → Manager → Manager
unfolding fill_and_publish
wake_scheduled_tasks now generation m =
    if m.closed || not (generation == m.schedule_generation)
    then m
    else fill_and_publish now (record m { schedule_timer = none })
