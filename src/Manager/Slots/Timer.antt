-- ===== src/Manager/Slots/Timer.antt =====
-- The timer of planned tasks (nextScheduledTimeLocked and refreshScheduleTimerLocked of
-- backend/internal/download/scheduler.go).
use downpeed_fluter.Base.{
  ℕ, ◌≡◌, ◌≤◌, refl, arith, List, [], ◌∷◌, Option, none, some, Text, Table, lookup, count, All, ◌⊎◌,
  inl, inr, false,
}
use downpeed_fluter.Task.{Task}
use downpeed_fluter.Manager.State.{Manager}
use downpeed_fluter.Manager.Scheduler.{
  future_plan, earliest_from, earlier_plan, refresh_schedule_timer_locked,
}

-- A plan, if there is one, is at an instant or later.
abbrev pub NotBefore : ℕ → Option ℕ → Type 0
NotBefore at none = Unit
NotBefore at (some plan) = at ≤ plan

abbrev pub Planned : ℕ → Table Task → List Text → ℕ → Type 0
Planned now tasks queue at =
    (id : Text) × (1 ≤ count id queue) × (future_plan now (lookup id tasks) ≡ some at)

-- The earliest of the plans for a time to come.
abbrev pub Earliest : ℕ → Table Task → List Text → Option ℕ → Type 0
Earliest now tasks queue none = All (λ id. future_plan now (lookup id tasks) ≡ none) queue
Earliest now tasks queue (some at) =
    Planned now tasks queue at × All (λ id. NotBefore at (future_plan now (lookup id tasks))) queue

-- The same, starting from the best of those before.
abbrev Best : ℕ → Table Task → List Text → Option ℕ → Option ℕ → Type 0
Best now tasks queue best none =
    (best ≡ none) × All (λ id. future_plan now (lookup id tasks) ≡ none) queue
Best now tasks queue best (some at) =
    ((best ≡ some at) ⊎ Planned now tasks queue at)
    × NotBefore at best
    × All (λ id. NotBefore at (future_plan now (lookup id tasks))) queue

earlier_plan-none :
    (best plan : Option ℕ) → earlier_plan best plan ≡ none → (best ≡ none) × (plan ≡ none)
earlier_plan-none best plan h = ground arith

earlier_plan-from :
    (best plan : Option ℕ) (at : ℕ)
    → earlier_plan best plan ≡ some at
    → (best ≡ some at) ⊎ (plan ≡ some at)
earlier_plan-from best plan at h = ground arith

earlier_plan-bound :
    (best plan : Option ℕ) (at : ℕ)
    → NotBefore at (earlier_plan best plan)
    → NotBefore at best × NotBefore at plan
earlier_plan-bound best plan at h = ground arith

Planned-later :
    (now : ℕ) (tasks : Table Task) (id : Text) (rest : List Text) (at : ℕ)
    → Planned now tasks rest at
    → Planned now tasks (id ∷ rest) at
unfolding count
Planned-later now tasks id rest at (j, there, plan) = (j, ground arith, plan)

Planned-here :
    (now : ℕ) (tasks : Table Task) (id : Text) (rest : List Text) (at : ℕ)
    → future_plan now (lookup id tasks) ≡ some at
    → Planned now tasks (id ∷ rest) at
unfolding count
Planned-here now tasks id rest at plan = (id, ground arith, plan)

earliest-step :
    (now : ℕ) (tasks : Table Task) (id : Text) (rest : List Text) (best result : Option ℕ)
    → Best now tasks rest (earlier_plan best (future_plan now (lookup id tasks))) result
    → Best now tasks (id ∷ rest) best result
earliest-step now tasks id rest best none (same, all) =
    let (b, p) = earlier_plan-none best (future_plan now (lookup id tasks)) same in (b, (p, all))
earliest-step now tasks id rest best (some at) (inr later, bound, all) =
    let (b, p) = earlier_plan-bound best (future_plan now (lookup id tasks)) at bound in
    (inr (Planned-later now tasks id rest at later), b, (p, all))
earliest-step now tasks id rest best (some at) (inl now_best, bound, all) =
    let (b, p) = earlier_plan-bound best (future_plan now (lookup id tasks)) at bound in
    (
      elim (earlier_plan-from best (future_plan now (lookup id tasks)) at now_best) [
        | inl before ↦ inl before
        | inr here ↦ inr (Planned-here now tasks id rest at here)
      ],
      b,
      (p, all),
    )

earliest-Best :
    (now : ℕ) (tasks : Table Task) (best : Option ℕ) (queue : List Text)
    → Best now tasks queue best (earliest_from now tasks best queue)
unfolding earliest_from
earliest-Best now tasks none [] = (refl, tt)
earliest-Best now tasks (some at) [] = (inl refl, ground arith, tt)
earliest-Best now tasks best (id ∷ rest) =
    earliest-step now tasks id rest best _
      (earliest-Best now tasks (earlier_plan best (future_plan now (lookup id tasks))) rest)

Best-Earliest :
    (now : ℕ) (tasks : Table Task) (queue : List Text) (result : Option ℕ)
    → Best now tasks queue none result
    → Earliest now tasks queue result
Best-Earliest now tasks queue none (same, all) = all
Best-Earliest now tasks queue (some at) (inr planned, bound, all) = (planned, all)
Best-Earliest now tasks queue (some at) (inl absurd, bound, all) = ground arith

-- On a manager that is not closed, the timer is set for the earliest of the times to come that
-- tasks in the queue are planned for, and is off exactly when there is none.
pub refresh-Earliest :
    (now : ℕ) (m : Manager)
    → m.closed ≡ false
    → Earliest now m.tasks m.queue (refresh_schedule_timer_locked now m).schedule_timer
unfolding refresh_schedule_timer_locked
refresh-Earliest now m up =
    rw up (Best-Earliest now m.tasks m.queue _ (earliest-Best now m.tasks none m.queue))
