-- ===== src/Manager/Create/Returns.antt =====
-- Create always returns, and what it then has done (backend/internal/download/manager.go).
use downpeed_fluter.Base.{
  if_pos, [], ◌∷◌, ◌++◌, if◌then◌else◌, Table, delete, insert, lookup-delete, lookup-insert,
  Text-discrete, if_neg, ap, ◌∙◌, sym, not, false, ◌^◌, ℕ, ◌+◌, ◌<◌, ◌≡◌, ◌⊎◌, inl, inr, refl, true,
  List, length, Option, none, some, Text, Outcome, ok, err, lookup, on_test,
}
use downpeed_fluter.Manager.Create.{
  Surroundings, CreateTaskRequest, Manager, Creation, create, Checked, DownloadError, Selected,
  check_request, NewId, new_task, new_request, create_checked, create_with_id, create_at, id_loop,
  task_invalid_state, id_at,
}
use downpeed_fluter.Manager.Scheduler.{fill_available_slots_locked, enqueue_locked, contains_task}
use downpeed_fluter.Manager.Destination.{free_at, selected, is_uniquify}
use downpeed_fluter.Manager.Creating.{create_saved, create_locked}
use downpeed_fluter.Manager.Resuming.{enqueue_and_fill}
use downpeed_fluter.Manager.Invariant.Frame.{persist-store, publish_all-effects}
use downpeed_fluter.Manager.Persist.{persist_task_locked}
use downpeed_fluter.Manager.State.{or_zero, TaskStore}
use downpeed_fluter.Manager.Pausing.{no_task}
use downpeed_fluter.Task.{Task, TransferRequest}
use downpeed_fluter.Errors.{unnamed}
use downpeed_fluter.Manager.Destination.Chosen.{Chosen, TakenAmong, select-Chosen}
use downpeed_fluter.Manager.Create.Ids.{id_loop-fresh}

-- Create that fails to save leaves tasks, queue and runs as they were; else it answers with the task that
-- the table then has.
abbrev pub Settles : Text → Manager → Manager × Outcome DownloadError Task → Type 0
Settles id m (m', err e) =
    ((j : Text) → lookup j m'.tasks ≡ lookup j m.tasks) × (m'.queue ≡ m.queue) × (m'.runs ≡ m.runs)
Settles id m (m', ok task) = task ≡ or_zero no_task (lookup id m'.tasks)

-- The first copy of the asked name that is free, or the name itself where copies are not made.
abbrev pub FirstFree : Surroundings → Manager → Checked → Selected → Type 0
FirstFree around m checked s =
    (k : ℕ) × (s ≡ selected checked.directory checked.file_name k)
    × (free_at around.files m.tasks (selected checked.directory checked.file_name k) ≡ ok true)
    × ((i : ℕ)
        → i < k
        → free_at around.files m.tasks (selected checked.directory checked.file_name i) ≡ ok false)
    × (is_uniquify m.file_conflict_policy ≡ false → k ≡ 0)

-- Create comes to an end: it has refused and changed nothing, or it has gone into its critical section
-- with an ID that is not taken and a destination that is free.
abbrev pub Returns : Surroundings → CreateTaskRequest → ℕ → Manager → Creation → Type 0
Returns around input sequence m none = ⊥
Returns around input sequence m (some ((m', next), result)) =
    ((m' ≡ m) × (next ≡ sequence) × ((e : DownloadError) × (result ≡ err e)))
    ⊎ ((checked : Checked) × (new : NewId) × (s : Selected) × (check_request around input
          ≡ ok checked)
        × (lookup new.id m.tasks ≡ none)
        × FirstFree around m checked s
        × (next ≡ sequence + new.drawn)
        × ((m', result)
            ≡ create_locked around.now (new_task input checked s new)
                (new_request input checked s (new_task input checked s new)) m)
        × Settles new.id m (m', result))

taken_out :
    (id j : Text) (task : Task) (tasks : Table Task)
    → lookup id tasks ≡ none
    → lookup j (delete id (insert id task tasks)) ≡ lookup j tasks
taken_out id j task tasks fresh =
    lookup-delete id j (insert id task tasks) ∙ elim (Text-discrete id j) [
      | yes same ↦
          if_pos (Text-discrete id j) same _ _ ∙ sym fresh ∙ ap (λ (k : Text). lookup k tasks) same
      | no other ↦
          if_neg (Text-discrete id j) other _ _
          ∙ lookup-insert id j task tasks
          ∙ if_neg (Text-discrete id j) other _ _
    ]

module _ (now : ℕ) (task : Task) (request : TransferRequest) (m : Manager)
    (fresh : lookup task.id m.tasks ≡ none) where
  abbrev filed : Manager
  filed = record m {
    tasks = insert task.id task m.tasks;
    requests = insert task.id request m.requests;
  }

  enqueued-Settles : (m1 : Manager) → Settles task.id m (enqueue_and_fill now task.id m1)
  unfolding enqueue_and_fill
  enqueued-Settles m1 =
      let (m2, updates) = fill_available_slots_locked now (enqueue_locked task.id m1) in
      let answer = or_zero no_task (lookup task.id m2.tasks) in
      let (e, same) =
        publish_all-effects
          (if contains_task updates task.id then updates else updates ++ answer ∷ []) m2 in
      ap (λ (y : Manager). or_zero no_task (lookup task.id y.tasks)) (sym same)

  saved-Settles :
      (x : Manager × Option DownloadError) (s : Option TaskStore)
      → x.0 ≡ record filed { store = s }
      → Settles task.id m (create_saved now task.id x)
  saved-Settles (m1, none) s same = enqueued-Settles m1
  saved-Settles (m1, some e) s same = (
    λ j.
        ap (λ (y : Manager). lookup j (delete task.id y.tasks)) same
        ∙ taken_out task.id j task m.tasks fresh,
    ap (λ (y : Manager). y.queue) same,
    ap (λ (y : Manager). y.runs) same,
  )

  create_locked-Settles : Settles task.id m (create_locked now task request m)
  unfolding create_locked
  create_locked-Settles =
      let (s, same) = persist-store task filed in
      saved-Settles (persist_task_locked task filed) s same

module _ (around : Surroundings) (input : CreateTaskRequest) (sequence : ℕ) (m : Manager) where
  with_id :
      (checked : Checked) (s : Selected) (fuel : ℕ)
      → check_request around input ≡ ok checked
      → FirstFree around m checked s
      → length m.tasks < 2 ^ 64
      → length m.tasks < fuel
      → Returns around input sequence m (
          create_with_id around input checked s sequence m (id_loop around m.tasks sequence fuel 0))
  unfolding new_task
  with_id checked s fuel accepted free few enough =
      let (i, low, is, new) = id_loop-fresh around m.tasks sequence fuel few enough in
      let task : Task = new_task input checked s (id_at around sequence i) in
      rw is (
        inr (
          checked,
          id_at around sequence i,
          s,
          accepted,
          new,
          free,
          refl,
          refl,
          create_locked-Settles around.now task (new_request input checked s task) m new,
        ))

  at_destination :
      (checked : Checked) (o : Option (Outcome DownloadError Selected)) (fuel : ℕ)
      → check_request around input ≡ ok checked
      → Chosen around.files m.file_conflict_policy m.tasks checked.directory checked.file_name o
      → length m.tasks < 2 ^ 64
      → length m.tasks < fuel
      → Returns around input sequence m (create_at fuel around input checked sequence m o)
  at_destination checked none fuel accepted chosen few enough = chosen
  at_destination checked (some (err e)) fuel accepted chosen few enough =
      inl (refl, refl, (e, refl))
  at_destination checked (some (ok s)) fuel accepted chosen few enough =
      with_id checked s fuel accepted chosen few enough

  when_checked :
      (o : Outcome DownloadError Checked) (names : List Text) (fuel : ℕ)
      → check_request around input ≡ o
      → ((checked : Checked)
          → o ≡ ok checked
          → TakenAmong around.files m.tasks checked.directory checked.file_name names)
      → length names < fuel
      → length m.tasks < 2 ^ 64
      → length m.tasks < fuel
      → Returns around input sequence m (create_checked fuel around input sequence m o)
  when_checked (err e) names fuel is busy enough few more = inl (refl, refl, (e, refl))
  when_checked (ok checked) names fuel is busy enough few more =
      at_destination checked _ fuel is
        (select-Chosen fuel around.files m checked.directory checked.file_name names
          (busy checked refl) enough)
        few more

  -- If all the copies of the file's name that are taken have one of the given names, and there are less
  -- than 2 ^ 64 tasks, then Create returns, its loops in no more rounds than one more than there are
  -- names or tasks. Either it has refused before its critical section, and the manager is as it was. Or it
  -- has gone into the critical section with a task under an ID that was not taken, whose destination is
  -- the first copy of the asked name that was free, the name itself where copies are not made; if that
  -- ends with an error, tasks, queue and runs are as they were, and else the answer is what the table
  -- then has under the ID, the zero task if nothing.
  pub create-Returns :
      (names : List Text) (fuel : ℕ)
      → ((checked : Checked)
          → check_request around input ≡ ok checked
          → TakenAmong around.files m.tasks checked.directory checked.file_name names)
      → length names < fuel
      → length m.tasks < 2 ^ 64
      → length m.tasks < fuel
      → Returns around input sequence m (create fuel around input sequence m)
  unfolding create
  create-Returns names fuel busy enough few more =
      on_test (Returns around input sequence m) (not m.has_transfer)
        (λ _. inl (refl, refl, (unnamed, refl)))
        (λ _.
          on_test (Returns around input sequence m) m.closed
            (λ _. inl (refl, refl, (task_invalid_state, refl)))
            (λ _. when_checked (check_request around input) names fuel refl busy enough few more))
