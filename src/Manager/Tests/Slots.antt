-- ===== src/Manager/Tests/Slots.antt =====
-- Filling the slots, the timer and the delays on concrete managers.
use Prim.Native.Nat.{max, ◌^◌}
use downpeed_fluter.Base.{
  Text-discrete, ◌-◌, ◌*◌, ◌≤◌, ◌≡◌, refl, map, take, length, [], ◌∷◌, some, lookup, if◌then◌else◌,
  ltb,
}
use downpeed_fluter.Manager.Scheduler.{
  fill_available_slots_locked, started_task, refresh_schedule_timer_locked, earliest_from,
}
use downpeed_fluter.Manager.Runs.{retry_delay, default_retry_max_delay}
use downpeed_fluter.Manager.Runs.Delays.{minimum, retry_delay_lem}
use downpeed_fluter.Manager.Slots.{fill_runs_bounded}
use downpeed_fluter.Manager.Slots.Due.{Filled, fill_leaves_none_due}
use downpeed_fluter.Manager.Slots.Order.{due_tasks, fill_starts_in_order}
use downpeed_fluter.Manager.Slots.Timer.{Earliest, refresh-Earliest}
use downpeed_fluter.Manager.Invariant.{no_wait}
use downpeed_fluter.Manager.Tests.{two_wait, two_wait-Coherent, one_runs, task_a}

fill_starts_in_order_example :
    (fill_available_slots_locked 50 two_wait).1
    ≡ map
        (started_task 50)
        (take (1 - length two_wait.runs) (due_tasks 50 two_wait.tasks two_wait.queue))
fill_starts_in_order_example = fill_starts_in_order no_wait 50 two_wait two_wait-Coherent refl

-- Only the first task starts.
only_first :
    map (started_task 50) (take 1 (due_tasks 50 two_wait.tasks two_wait.queue))
    ≡ started_task 50 task_a ∷ []
unfolding lookup Text-discrete
only_first = refl

fill_leaves_none_due_example : Filled 50 (fill_available_slots_locked 50 two_wait).0
fill_leaves_none_due_example = fill_leaves_none_due 50 two_wait refl

fill_runs_bounded_example :
    length (fill_available_slots_locked 50 two_wait).0.runs ≤ max (length two_wait.runs) 1
fill_runs_bounded_example = fill_runs_bounded 50 two_wait

refresh-Earliest_example :
    Earliest 50 one_runs.tasks one_runs.queue
      (refresh_schedule_timer_locked 50 one_runs).schedule_timer
refresh-Earliest_example = refresh-Earliest 50 one_runs refl

-- The timer is set for the planned task.
timer_set : (refresh_schedule_timer_locked 50 one_runs).schedule_timer ≡ some 100
unfolding refresh_schedule_timer_locked earliest_from lookup Text-discrete
timer_set = refl

retry_delay_example : retry_delay 3 1000000000 ≡ (
    if ltb 1000000000 default_retry_max_delay
    then minimum (1000000000 * 2 ^ 3) default_retry_max_delay
    else 1000000000)
retry_delay_example = retry_delay_lem 3 1000000000

-- Eight seconds, then never more than thirty.
eight_seconds : retry_delay 3 1000000000 ≡ 8000000000
unfolding retry_delay
eight_seconds = refl

thirty_seconds : retry_delay 9 1000000000 ≡ 30000000000
unfolding retry_delay
thirty_seconds = refl
