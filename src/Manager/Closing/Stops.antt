-- ===== src/Manager/Closing/Stops.antt =====
-- What Close leaves (backend/internal/download/manager.go).
use downpeed_fluter.Base.{
  ℕ, ◌≡◌, refl, arith, Bool, true, false, ◌||◌, [], ◌∷◌, Option, none, some, Text, Table, lookup,
  insert, lookup-insert, Text-discrete, ite, on_test, ap, ◌∙◌, suc, if◌then◌else◌, ite,
}
use downpeed_fluter.Task.{Task, TaskState, is_queued, is_downloading, is_retrying}
use downpeed_fluter.Manager.State.{Manager}
use downpeed_fluter.Manager.Persist.{persist_task_locked, mark_bt_diagnostics_stopped_locked}
use downpeed_fluter.Manager.Pausing.{paused_task}
use downpeed_fluter.Manager.Closing.{close_begin, close_tasks, close_task, keeps_plan}
use downpeed_fluter.Manager.Invariant.Frame.{persist-store, mark-diagnostics}

abbrev pub is_active : TaskState → Bool
is_active state = is_downloading state || is_queued state || is_retrying state

-- What Close makes of a task.
abbrev pub closed_task : ℕ → Task → Task
closed_task now task =
    if keeps_plan now task
    then task
    else if is_active task.state
    then paused_task now task
    else task

abbrev pub closed_entry : ℕ → Option Task → Option Task
closed_entry now none = none
closed_entry now (some task) = some (closed_task now task)

kept_entry :
    (id j : Text) (task : Task) (tasks : Table Task)
    → lookup id tasks ≡ some task
    → lookup j tasks ≡ ite (Text-discrete id j) (some task) (lookup j tasks)
kept_entry id j task tasks found = ground arith

paused-tasks :
    (now : ℕ) (id : Text) (task : Task) (m : Manager)
    → (persist_task_locked task (
        mark_bt_diagnostics_stopped_locked task
          (record m { tasks = insert id task m.tasks }))).0.tasks
      ≡ insert id task m.tasks
paused-tasks now id task m =
    let entered : Manager = record m { tasks = insert id task m.tasks } in
    let (d, marked) = mark-diagnostics task entered in
    let (s, e) = persist-store task (mark_bt_diagnostics_stopped_locked task entered) in
    ap (λ (x : Manager). x.tasks) e ∙ ap (λ (x : Manager). x.tasks) marked

close_task-tasks :
    (now : ℕ) (id : Text) (task : Task) (m : Manager) (j : Text)
    → lookup id m.tasks ≡ some task
    → lookup j (close_task now id task m).tasks
      ≡ ite (Text-discrete id j) (some (closed_task now task)) (lookup j m.tasks)
close_task-tasks now id task m j found = by_plan (keeps_plan now task) (is_active task.state)
  where
    Closes : Manager → Task → Type 0
    Closes x t = lookup j x.tasks ≡ ite (Text-discrete id j) (some t) (lookup j m.tasks)

    task' : Task
    task' = paused_task now task

    swept : Manager
    swept =
        (persist_task_locked task' (
          mark_bt_diagnostics_stopped_locked task'
            (record m { tasks = insert id task' m.tasks }))).0

    by_plan :
        (kept active : Bool)
        → Closes
            (if kept then (persist_task_locked task m).0 else if active then swept else m)
            (if kept then task else if active then task' else task)
    by_plan true active =
        ap (λ (x : Manager). lookup j x.tasks) (persist-store task m).1
        ∙ kept_entry id j task m.tasks found
    by_plan false true =
        ap (lookup j) (paused-tasks now id task' m) ∙ lookup-insert id j task' m.tasks
    by_plan false false = kept_entry id j task m.tasks found

-- Every key stands once, as in a Go map.
abbrev pub Distinct : Table Task → Type 0
Distinct [] = Unit
Distinct ((id, task) ∷ rest) = (lookup id rest ≡ none) × Distinct rest

abbrev swept_entry : ℕ → Option Task → Option Task → Option Task
swept_entry now none before = before
swept_entry now (some task) before = some (closed_task now task)

kept-rest :
    (id i : Text) (task t : Task) (rest : Table Task) (m : Manager) (done : Task)
    (entry : Option Task)
    → lookup id rest ≡ none
    → lookup i rest ≡ some t
    → (lookup i ((id, task) ∷ rest) ≡ some t → lookup i m.tasks ≡ some t)
    → entry ≡ ite (Text-discrete id i) (some done) (lookup i m.tasks)
    → entry ≡ some t
unfolding lookup
kept-rest id i task t rest m done entry new there held one = ground arith

close_tasks-tasks :
    (now : ℕ) (rest : Table Task) (m : Manager)
    → Distinct rest
    → ((j : Text) (t : Task) → lookup j rest ≡ some t → lookup j m.tasks ≡ some t)
    → (j : Text)
    → lookup j (close_tasks now rest m).tasks ≡ swept_entry now (lookup j rest) (lookup j m.tasks)
unfolding close_tasks lookup
close_tasks-tasks now [] m d h j = refl
close_tasks-tasks now ((id, task) ∷ rest) m (new, d) h j =
    let here : lookup id m.tasks ≡ some task = h id task (ground arith) in
    let one : (i : Text)
        → lookup i (close_task now id task m).tasks
          ≡ ite (Text-discrete id i) (some (closed_task now task)) (lookup i m.tasks) =
      λ i. close_task-tasks now id task m i here in
    let later =
      close_tasks-tasks now rest (close_task now id task m) d
        (λ i t e. kept-rest id i task t rest m (closed_task now task) _ new e (h i t) (one i)) j in
    ground (arith, later, one j)

-- Neither the end nor the timer is touched by the sweep.
abbrev Flags : Manager → Manager → Type 0
Flags m x = (x.closed ≡ m.closed) × (x.schedule_timer ≡ m.schedule_timer)

close_task-Flags :
    (now : ℕ) (id : Text) (task : Task) (m : Manager) → Flags m (close_task now id task m)
unfolding persist_task_locked mark_bt_diagnostics_stopped_locked
close_task-Flags now id task m = ground arith

close_tasks-Flags : (now : ℕ) (rest : Table Task) (m : Manager) → Flags m (close_tasks now rest m)
unfolding close_tasks
close_tasks-Flags now [] m = (refl, refl)
close_tasks-Flags now ((id, task) ∷ rest) m =
    let (c, t) = close_tasks-Flags now rest (close_task now id task m) in
    let (c', t') = close_task-Flags now id task m in (c ∙ c', t ∙ t')

swept-itself :
    (now : ℕ) (known : Option Task) → swept_entry now known known ≡ closed_entry now known
swept-itself now none = refl
swept-itself now (some task) = refl

-- When every ID stands once in the table of tasks, as in a Go map, closing an open manager empties
-- the queue, turns the timer off, and pauses each task that is downloading, queued or retrying,
-- except a queued one that has not started and is planned for later; all other tasks stay as they
-- are, and none is added or lost.
pub close_pauses :
    (now : ℕ) (m : Manager)
    → m.closed ≡ false
    → Distinct m.tasks
    → ((id : Text) → lookup id (close_begin now m).tasks ≡ closed_entry now (lookup id m.tasks))
      × ((close_begin now m).queue ≡ [])
      × ((close_begin now m).schedule_timer ≡ none)
      × ((close_begin now m).closed ≡ true)
unfolding close_begin
close_pauses now m up distinct =
    on_test P m.closed (λ down. absurd (ground arith))
      λ _. (
        λ id.
            close_tasks-tasks now m.tasks stopped distinct (λ j t e. e) id
            ∙ swept-itself now (lookup id m.tasks),
        refl,
        (close_tasks-Flags now m.tasks stopped).1,
        (close_tasks-Flags now m.tasks stopped).0,
      )
  where
    P : Manager → Type 0
    P x =
        ((id : Text) → lookup id x.tasks ≡ closed_entry now (lookup id m.tasks))
        × (x.queue ≡ [])
        × (x.schedule_timer ≡ none)
        × (x.closed ≡ true)

    stopped : Manager
    stopped = record m {
      closed = true;
      schedule_generation = suc m.schedule_generation;
      schedule_timer = none;
    }
