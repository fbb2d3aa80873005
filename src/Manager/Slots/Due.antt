-- ===== src/Manager/Slots/Due.antt =====
-- No slot stays free while a task is due, and no task starts before its time.
use mathlib.Core.List.{append_assoc, append-nil}
use downpeed_fluter.Base.{
  ℕ, zero, suc, ◌≤◌, ◌≡◌, refl, sym, subst, Bool, true, false, List, [], ◌∷◌, ◌++◌, Option, none,
  some, Text, lookup, insert, arith, ◌⊎◌, inl, inr, Option-cases, ap, ◌∙◌, lookup-insert, length,
  ltb, All, Table,
}
use downpeed_fluter.Task.{Task, is_queued}
use downpeed_fluter.Manager.State.{Manager}
use downpeed_fluter.Manager.Scheduler.{
  start_task, take_task, fill_loop, fill_available_slots_locked, started_task, has_request,
  refresh_schedule_timer_locked, is_after,
}
use downpeed_fluter.Manager.Slots.{start_task-shape}

-- The task of an ID is planned for a time after `now`.
abbrev pub plan_ahead : ℕ → Option Task → Bool
plan_ahead now none = false
plan_ahead now (some task) = is_after task.scheduled_at now

abbrev pub AllAhead : ℕ → Table Task → List Text → Type 0
AllAhead now tasks = All λ id. plan_ahead now (lookup id tasks) ≡ true

-- The slots are full, or every task in the queue is planned for later.
abbrev pub Filled : ℕ → Manager → Type 0
Filled now m = (m.max_concurrent_tasks ≤ length m.runs) ⊎ AllAhead now m.tasks m.queue

plan_ahead-started :
    (now : ℕ) (id j : Text) (task : Task) (tasks : Table Task)
    → lookup id tasks ≡ some task
    → plan_ahead now (lookup j (insert id (started_task now task) tasks))
      ≡ plan_ahead now (lookup j tasks)
plan_ahead-started now id j task tasks found =
    ground (arith, lookup-insert id j (started_task now task) tasks)

AllAhead-started :
    (now : ℕ) (id : Text) (task : Task) (tasks : Table Task) (ids : List Text)
    → lookup id tasks ≡ some task
    → AllAhead now tasks ids
    → AllAhead now (insert id (started_task now task) tasks) ids
AllAhead-started now id task tasks [] found h = tt
AllAhead-started now id task tasks (j ∷ ids) found h = (
  plan_ahead-started now id j task tasks found ∙ h.0,
  AllAhead-started now id task tasks ids found h.1,
)

All-snoc {ℓ κ} :
    {A : Type ℓ} (P : A → Type κ) (xs : List A) (x : A) → All P xs → P x → All P (xs ++ x ∷ [])
All-snoc P [] x h p = (p, tt)
All-snoc P (y ∷ xs) x h p = (h.0, All-snoc P xs x h.1 p)

-- The queue is what this call has still to look at, and behind it what it has put off.
record Waits (now n : ℕ) (m : Manager) : Type 0 where
  pending : List Text
  deferred : List Text
  in_order : m.queue ≡ pending ++ deferred
  rounds_left : length pending ≡ n
  ahead : AllAhead now m.tasks deferred

take_task-Waits :
    (now : ℕ) (id : Text) (pending deferred : List Text) (m : Manager)
    → m.queue ≡ pending ++ deferred
    → AllAhead now m.tasks deferred
    → Waits now (length pending) (take_task now id (lookup id m.tasks) m).0
take_task-Waits now id pending deferred m e a = elim (Option-cases (lookup id m.tasks)) [
  | inl absent ↦ rw (absent, take_task) unchanged
  | inr (task, found) ↦
      rw (found, take_task)
        (known task found (is_queued task.state) (is_after task.scheduled_at now) (has_request id m)
          refl refl refl)
]
  where
    unchanged : Waits now (length pending) m
    unchanged = record {
      pending = pending;
      deferred = deferred;
      in_order = e;
      rounds_left = refl;
      ahead = a;
    }

    put_off :
        (task : Task)
        → lookup id m.tasks ≡ some task
        → is_after task.scheduled_at now ≡ true
        → Waits now (length pending) (record m { queue = m.queue ++ id ∷ [] })
    put_off task found later = record {
      pending = pending;
      deferred = deferred ++ id ∷ [];
      in_order = ap (λ q. q ++ id ∷ []) e ∙ append_assoc pending deferred (id ∷ []);
      rounds_left = refl;
      ahead = All-snoc _ deferred id a (rw found later);
    }

    start :
        (task : Task)
        → lookup id m.tasks ≡ some task
        → Waits now (length pending) (start_task now id task m)
    start task found =
        let (s, r, q, shape) = start_task-shape now id task m in
        rw shape (record {
          pending = pending;
          deferred = deferred;
          in_order = e;
          rounds_left = refl;
          ahead = AllAhead-started now id task m.tasks deferred found a;
        })

    known :
        (task : Task)
        → lookup id m.tasks ≡ some task
        → (b c d : Bool) → is_queued task.state ≡ b
        → is_after task.scheduled_at now ≡ c
        → has_request id m ≡ d
        → Waits now (length pending) (take_task now id (some task) m).0
    known task found false c d e0 e1 e2 = rw (e0, take_task) unchanged
    known task found true true d e0 e1 e2 = rw (e0, e1, take_task) (put_off task found e1)
    known task found true false true e0 e1 e2 = rw (e0, e1, e2, take_task) (start task found)
    known task found true false false e0 e1 e2 = rw (e0, e1, e2, take_task) unchanged

empty_of_length : (xs : List Text) → length xs ≡ 0 → xs ≡ []
empty_of_length [] h = refl
empty_of_length (x ∷ xs) h = absurd (omega arith)

round-Filled :
    (now n : ℕ) (m : Manager) (free : Bool) (pending deferred : List Text)
    → ltb (length m.runs) m.max_concurrent_tasks ≡ free
    → m.queue ≡ pending ++ deferred
    → length pending ≡ suc n
    → AllAhead now m.tasks deferred
    → ((m' : Manager) → Waits now n m' → Filled now (fill_loop now n m').0)
    → Filled now (fill_loop now (suc n) m).0
unfolding fill_loop
round-Filled now n m free [] deferred f e l a later = absurd (omega arith)
round-Filled now n m false (id ∷ pending) deferred f e l a later =
    rw (f, fill_loop) (inl (ground arith))
round-Filled now n m true (id ∷ pending) deferred f e l a later =
    let popped : Manager = record m { queue = pending ++ deferred } in
    let count : length pending ≡ n = omega arith in
    rw (f, fill_loop)
      (rw (e, fill_loop)
        (later (take_task now id (lookup id m.tasks) popped).0 (
          subst (λ k. Waits now k (take_task now id (lookup id m.tasks) popped).0) count
            (take_task-Waits now id pending deferred popped refl a))))

fill_loop-Filled : (now n : ℕ) (m : Manager) → Waits now n m → Filled now (fill_loop now n m).0
unfolding fill_loop
fill_loop-Filled now zero m w = inr (
    subst (AllAhead now m.tasks)
      (sym (w.in_order ∙ ap (λ p. p ++ w.deferred) (empty_of_length w.pending w.rounds_left)))
      w.ahead)
fill_loop-Filled now (suc n) m w =
    round-Filled now n m (ltb (length m.runs) m.max_concurrent_tasks) w.pending w.deferred refl
      w.in_order w.rounds_left w.ahead (fill_loop-Filled now n)

-- When the slots of an open manager have been filled, either there are as many runs as slots, or
-- every task left in the queue is planned for a time still to come.
pub fill_leaves_none_due :
    (now : ℕ) (m : Manager) → m.closed ≡ false → Filled now (fill_available_slots_locked now m).0
unfolding fill_available_slots_locked refresh_schedule_timer_locked
fill_leaves_none_due now m open' = ground (
  arith,
  fill_loop-Filled now (length m.queue) m (record {
    pending = m.queue;
    deferred = [];
    in_order = sym (append-nil m.queue);
    rounds_left = refl;
    ahead = tt;
  }),
)
