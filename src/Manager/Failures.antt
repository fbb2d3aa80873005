-- ===== src/Manager/Failures.antt =====
-- How the manager reads a transfer's error: taskErrorFor (backend/internal/download/manager.go) and
-- isRetryableTransferError (scheduler.go).
use Prim.Native.String.{String}
use downpeed_fluter.Base.{Bool, true, false, ◌||◌}
use downpeed_fluter.Errors.{
  TransferError, sentinel, unexpected_eof, deadline_exceeded, network, destination_exists,
  invalid_destination, remote_rejected, remote_temporary, remote_changed, resume_not_supported,
  partial_file_changed, file_consistency, atomic_publish,
}
use downpeed_fluter.Task.{TaskError}

unfoldable pub is_retryable_transfer_error : TransferError → Bool
is_retryable_transfer_error (sentinel remote_temporary) = true
is_retryable_transfer_error unexpected_eof = true
is_retryable_transfer_error deadline_exceeded = true
is_retryable_transfer_error (network timeout temporary) = timeout || temporary
is_retryable_transfer_error _ = false

abbrev pub task_error : String → String → Bool → TaskError
task_error code message retryable = record { code = code; message = message; retryable = retryable }

unfoldable pub task_error_for : TransferError → TaskError
unfolding is_retryable_transfer_error
task_error_for (sentinel destination_exists) =
    task_error "destination_exists" "A file already exists at the selected destination." false
task_error_for (sentinel invalid_destination) =
    task_error "invalid_destination" "The selected download destination is unavailable." false
task_error_for (sentinel remote_rejected) =
    task_error "remote_rejected" "The remote server rejected the download request." false
task_error_for (sentinel remote_temporary) =
    task_error "remote_unavailable" "The remote server is temporarily unavailable." true
task_error_for (sentinel remote_changed) =
    task_error "remote_resource_changed" "The remote file changed after this download was created."
      false
task_error_for (sentinel resume_not_supported) =
    task_error "resume_not_supported" "The remote server cannot safely resume this download." false
task_error_for (sentinel partial_file_changed) =
    task_error "partial_file_changed" "The partial download file changed outside Downpeed." false
task_error_for (sentinel file_consistency) =
    task_error "file_consistency_failed"
      "The remote response did not match the expected file layout." false
task_error_for (sentinel atomic_publish) =
    task_error "atomic_publish_failed"
      "The completed file cannot be published atomically at this destination." false
task_error_for e =
    task_error "download_failed" "The download stopped before the file was complete."
      (is_retryable_transfer_error e)
