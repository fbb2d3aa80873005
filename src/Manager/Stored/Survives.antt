-- ===== src/Manager/Stored/Survives.antt =====
-- A task that was created and saved is restored with its request (persistTaskLocked and
-- reconcileStoredTask of backend/internal/download/persistence.go, Create of manager.go).
use downpeed_fluter.Base.{is_some, leb_ℤ, ℕ, ◌≡◌, refl, Bool, true, not, ◌&&◌, if◌then◌else◌, ℤ}
use downpeed_fluter.Manager.State.{Manager}
use downpeed_fluter.Manager.Create.{new_task, new_request, Checked, NewId}
use downpeed_fluter.Manager.Destination.{selected, temporary_path}
use downpeed_fluter.Task.{Task, TransferRequest, CreateTaskRequest}
use downpeed_fluter.Validator.{if_range_value}
use downpeed_fluter.Strings.{is_empty}
use downpeed_fluter.Checkpoint.{default_segmented_transfer_min_size}

abbrev pub is_large : ℤ → Bool
is_large total = leb_ℤ default_segmented_transfer_min_size total

-- A request as it is made for a task: with a checkpoint it is fetched in segments, and else if the server
-- accepts ranges, there is something for If-Range, and the file is large.
pub record MadeFor (task : Task) (r : TransferRequest) : Type 0 where
  pub same_url : r.url ≡ task.url
  pub same_destination : r.destination ≡ task.file_path
  pub beside : r.work_path ≡ temporary_path task.file_path
  pub same_size : r.expected_size ≡ task.total
  pub segmented : r.allow_segments ≡ (
      if is_some r.checkpoint
      then true
      else r.accept_ranges && not (is_empty (if_range_value r.validator)) && is_large task.total)

-- Create makes its requests so.
pub created-MadeFor :
    (input : CreateTaskRequest) (checked : Checked) (k : ℕ) (new : NewId)
    → let s = selected checked.directory checked.file_name k in
      let task = new_task input checked s new in MadeFor task (new_request input checked s task)
unfolding new_task new_request
created-MadeFor input checked k new = record {
  same_url = refl;
  same_destination = refl;
  beside = refl;
  same_size = refl;
  segmented = refl;
}
