-- ===== src/Manager/Slots/Order.antt =====
-- Tasks start in the order of the queue, as many as there are free slots.
use mathlib.Core.List.{append_assoc, append-nil}
use downpeed_fluter.Base.{
  ℕ, zero, suc, ◌-◌, ◌≡◌, refl, sym, subst, Bool, true, false, List, [], ◌∷◌, ◌++◌, Option, none,
  some, Text, Table, lookup, insert, count, arith, ◌⊎◌, inl, inr, ap, ◌∙◌, lookup-insert,
  count-append, length, take, ltb, map, if◌then◌else◌, length-insert-new,
}
use downpeed_fluter.Task.{Task, is_queued}
use downpeed_fluter.Manager.State.{Manager}
use downpeed_fluter.Manager.Scheduler.{
  take_task, fill_loop, fill_available_slots_locked, started_task, has_request, is_after,
}
use downpeed_fluter.Manager.Invariant.{Coherent}
use downpeed_fluter.Manager.Invariant.Filling.{take_task-Coherent}
use downpeed_fluter.Manager.Slots.{start_task-shape}

abbrev pub if_due : ℕ → Option Task → List Task
if_due now none = []
if_due now (some task) = if is_after task.scheduled_at now then [] else task ∷ []

-- The tasks of a list of IDs that are not planned for later, in order.
abbrev pub due_tasks : ℕ → Table Task → List Text → List Task
due_tasks now tasks [] = []
due_tasks now tasks (id ∷ rest) = if_due now (lookup id tasks) ++ due_tasks now tasks rest

-- A task that starts is not among the due ones of other IDs.
due_tasks-insert :
    (now : ℕ) (id : Text) (task : Task) (tasks : Table Task) (ids : List Text)
    → count id ids ≡ 0
    → due_tasks now (insert id task tasks) ids ≡ due_tasks now tasks ids
unfolding count
due_tasks-insert now id task tasks [] h = refl
due_tasks-insert now id task tasks (j ∷ ids) h =
    ground (arith, lookup-insert id j task tasks, due_tasks-insert now id task tasks ids)

-- What a round makes of the manager and of the list of started tasks.
abbrev Took : ℕ → Text → Option Task → Manager → Manager × List Task → Type 0
Took now id known m (m', started) =
    (m'.max_concurrent_tasks ≡ m.max_concurrent_tasks)
    × (((started ≡ [])
          × (if_due now known ≡ [])
          × (m'.tasks ≡ m.tasks)
          × (m'.runs ≡ m.runs)
          × (m'.queue ≡ m.queue ++ id ∷ []))
        ⊎ ((task : Task) × (started ≡ started_task now task ∷ [])
            × (if_due now known ≡ task ∷ [])
            × (m'.tasks ≡ insert id (started_task now task) m.tasks)
            × (length m'.runs ≡ suc (length m.runs))
            × (m'.queue ≡ m.queue)))

known-Took :
    (now : ℕ) (id : Text) (task : Task) (m : Manager) (later : Bool)
    → is_queued task.state ≡ true
    → has_request id m ≡ true
    → lookup id m.runs ≡ none
    → is_after task.scheduled_at now ≡ later
    → Took now id (some task) m (take_task now id (some task) m)
known-Took now id task m true queued asked gone e =
    rw (e, queued, take_task, if_due) (refl, inl (refl, refl, refl, refl, refl))
known-Took now id task m false queued asked gone e =
    let (s, r, q, shape) = start_task-shape now id task m in
    rw (e, queued, asked, take_task, if_due, shape)
      (refl, inr (task, refl, refl, refl, length-insert-new id r m.runs gone, refl))

take_task-Took :
    (waited : Text → Bool) (now : ℕ) (id : Text) (m : Manager) (known : Option Task)
    → Coherent waited (record m { queue = id ∷ m.queue })
    → lookup id m.tasks ≡ known
    → Took now id known m (take_task now id known m)
unfolding count
take_task-Took waited now id m none h found = ground (arith, h id)
take_task-Took waited now id m (some task) h found =
    known-Took now id task m (is_after task.scheduled_at now) (ground (arith, h id))
      (ground (arith, h id)) (ground (arith, h id)) refl

-- The tasks that the loop is to start.
abbrev to_start : ℕ → Manager → List Text → List Task
to_start now m ids =
    map (started_task now)
      (take (m.max_concurrent_tasks - length m.runs) (due_tasks now m.tasks ids))

Started : ℕ → ℕ → Manager → Type 0
Started now n m =
    (pending deferred : List Text)
    → m.queue ≡ pending ++ deferred
    → length pending ≡ n
    → (fill_loop now n m).1 ≡ to_start now m pending

-- A round and the rounds after it start what is due, as long as there are slots.
after-Took :
    (now : ℕ) (id : Text) (pending : List Text) (m m' : Manager) (started later : List Task)
    → ltb (length m.runs) m.max_concurrent_tasks ≡ true
    → count id pending ≡ 0
    → Took now id (lookup id m.tasks) m (m', started)
    → later ≡ to_start now m' pending
    → started ++ later ≡ to_start now m (id ∷ pending)
after-Took now id pending m m' started later free new (slots, inl (a, b, c, d, e)) rest =
    rw (a, b, rest, slots, c, d) refl
after-Took now id pending m m' started later free new (slots, inr (task, a, b, c, d, e)) rest =
    let left : m.max_concurrent_tasks - length m.runs
        ≡ suc (m.max_concurrent_tasks - suc (length m.runs)) =
      ground arith in
    rw
      (
        a,
        b,
        rest,
        slots,
        c,
        d,
        left,
        due_tasks-insert now id (started_task now task) m.tasks pending new,
      )
      refl

queue-Took :
    (now : ℕ) (id : Text) (known : Option Task) (pending deferred : List Text) (m : Manager)
    (r : Manager × List Task)
    → m.queue ≡ pending ++ deferred
    → Took now id known m r
    → (left : List Text) × (r.0.queue ≡ pending ++ left)
queue-Took now id known pending deferred m (m', started) q (slots, inl (a, b, c, d, e)) =
    (deferred ++ id ∷ [], e ∙ ap (λ x. x ++ id ∷ []) q ∙ append_assoc pending deferred (id ∷ []))
queue-Took now id known pending deferred m (m', started) q (slots, inr (task, a, b, c, d, e)) =
    (deferred, e ∙ q)

round-Started :
    (waited : Text → Bool) (now n : ℕ) (m : Manager) (free : Bool) (id : Text)
    (pending deferred : List Text)
    → Coherent waited m
    → ltb (length m.runs) m.max_concurrent_tasks ≡ free
    → m.queue ≡ id ∷ pending ++ deferred
    → length pending ≡ n
    → ((m' : Manager) → Coherent waited m' → Started now n m')
    → (fill_loop now (suc n) m).1 ≡ to_start now m (id ∷ pending)
unfolding fill_loop Started count
round-Started waited now n m false id pending deferred h f e l later =
    let full : m.max_concurrent_tasks - length m.runs ≡ 0 = ground arith in
    rw (f, fill_loop, full) refl
round-Started waited now n m true id pending deferred h f e l later =
    let popped : Manager = record m { queue = pending ++ deferred } in
    let taken = take_task now id (lookup id m.tasks) popped in
    let whole : Coherent waited (record popped { queue = id ∷ popped.queue }) =
      subst (λ q. Coherent waited (record m { queue = q })) e h in
    let new : count id pending ≡ 0 = ground (arith, whole id, count-append id pending deferred) in
    let took : Took now id (lookup id m.tasks) popped taken =
      take_task-Took waited now id popped (lookup id m.tasks) whole refl in
    let (left, queue) =
      queue-Took now id (lookup id m.tasks) pending deferred popped taken refl took in
    rw (f, fill_loop)
      (rw (e, fill_loop)
        (after-Took now id pending popped taken.0 taken.1 _ f new took
          (later taken.0 (take_task-Coherent waited now id popped whole) pending left queue l)))

take_none : (n : ℕ) → take {A = Task} n [] ≡ []
take_none zero = refl
take_none (suc n) = refl

fill_loop-Started :
    (waited : Text → Bool) (now n : ℕ) (m : Manager) → Coherent waited m → Started now n m
unfolding fill_loop Started
fill_loop-Started waited now zero m h [] deferred e l =
    ap (map (started_task now)) (sym (take_none (m.max_concurrent_tasks - length m.runs)))
fill_loop-Started waited now zero m h (id ∷ pending) deferred e l = absurd (omega arith)
fill_loop-Started waited now (suc n) m h [] deferred e l = absurd (omega arith)
fill_loop-Started waited now (suc n) m h (id ∷ pending) deferred e l =
    round-Started waited now n m (ltb (length m.runs) m.max_concurrent_tasks) id pending deferred h
      refl e (ground arith) (fill_loop-Started waited now n)

-- Filling the slots of an open coherent manager starts, of the tasks in the queue that are not
-- planned for later, in the order of the queue, as many as there are slots without a run, and lists
-- exactly those as they are started.
pub fill_starts_in_order :
    (waited : Text → Bool) (now : ℕ) (m : Manager)
    → Coherent waited m
    → m.closed ≡ false
    → (fill_available_slots_locked now m).1
      ≡ map
          (started_task now)
          (take (m.max_concurrent_tasks - length m.runs) (due_tasks now m.tasks m.queue))
unfolding fill_available_slots_locked Started
fill_starts_in_order waited now m h up = ground (
  arith,
  fill_loop-Started waited now (length m.queue) m h m.queue [] (sym (append-nil m.queue)) refl,
)
