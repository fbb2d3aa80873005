-- ===== src/Manager/Creating.antt =====
-- The critical sections of Create and CreateBT (backend/internal/download/manager.go): what they do
-- with a new task and its request once these have been checked and made.
use downpeed_fluter.Base.{
  ℕ, Bool, false, not, ◌&&◌, ◌||◌, [], ◌∷◌, Option, none, some, Text, Table, insert, delete,
  if◌then◌else◌, Outcome, err,
}
use downpeed_fluter.Errors.{DownloadError, destination_exists}
use downpeed_fluter.Task.{Task, TransferRequest, BtTransferRequest, is_terminal_state}
use downpeed_fluter.Paths.{text_eq}
use downpeed_fluter.Manager.State.{Manager}
use downpeed_fluter.Manager.Persist.{persist_task_locked, new_bt_diagnostics}
use downpeed_fluter.Manager.Resuming.{enqueue_and_fill}

-- A new task that cannot be saved is taken out again.
abbrev pub create_saved :
    ℕ → Text → Manager × Option DownloadError → Manager × Outcome DownloadError Task
create_saved now id (m, none) = enqueue_and_fill now id m
create_saved now id (m, some e) =
    (record m { tasks = delete id m.tasks; requests = delete id m.requests }, err e)

-- The section of Create, for a task whose ID is not taken.
unfoldable pub create_locked :
    ℕ → Task → TransferRequest → Manager → Manager × Outcome DownloadError Task
unfolding persist_task_locked enqueue_and_fill
create_locked now task request m = create_saved now task.id (
    persist_task_locked task (record m {
      tasks = insert task.id task m.tasks;
      requests = insert task.id request m.requests;
    }))

-- A task that is not over has the destination.
unfoldable pub destination_taken : Text → Table Task → Bool
destination_taken destination [] = false
destination_taken destination ((id, task) ∷ rest) =
    (text_eq task.file_path destination && not (is_terminal_state task.state))
    || destination_taken destination rest

abbrev pub create_bt_saved :
    ℕ → Text → Manager × Option DownloadError → Manager × Outcome DownloadError Task
create_bt_saved now id (m, none) = enqueue_and_fill now id m
create_bt_saved now id (m, some e) = (
  record m {
    tasks = delete id m.tasks;
    bt_requests = delete id m.bt_requests;
    bt_diagnostics = delete id m.bt_diagnostics;
  },
  err e,
)

-- The section of CreateBT.
unfoldable pub create_bt_locked :
    ℕ → Task → BtTransferRequest → Manager → Manager × Outcome DownloadError Task
unfolding persist_task_locked enqueue_and_fill destination_taken new_bt_diagnostics
create_bt_locked now task prepared m =
    if destination_taken task.file_path m.tasks
    then (m, err destination_exists)
    else create_bt_saved now task.id (
        persist_task_locked task (record m {
          tasks = insert task.id task m.tasks;
          bt_requests = insert task.id prepared m.bt_requests;
          bt_diagnostics = insert task.id (new_bt_diagnostics task prepared) m.bt_diagnostics;
        }))
