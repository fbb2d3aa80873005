-- ===== src/Errors.antt =====
-- The sentinel errors of backend/internal/download (task.go, resolver.go, settings.go, bt.go), which
-- callers tell apart by errors.Is. The message that fmt.Errorf adds round one is left out. An error that
-- is none of them, such as one that a store returns, is `unnamed`.
use downpeed_fluter.Base.{Bool}

pub data DownloadError : Type 0 where
  task_not_found task_invalid_state task_retry_not_allowed : DownloadError
  invalid_destination destination_exists : DownloadError
  remote_rejected remote_temporary remote_changed : DownloadError
  resume_not_supported partial_file_changed file_consistency atomic_publish : DownloadError
  task_file_delete task_persistence : DownloadError
  transfer_paused transfer_canceled transfer_shutdown : DownloadError
  unsupported_protocol invalid_schedule : DownloadError
  invalid_request unsupported_scheme : DownloadError
  invalid_settings invalid_scheduler_settings invalid_bt_policy : DownloadError
  invalid_proxy_settings invalid_file_conflict_policy settings_persistence : DownloadError
  bt_invalid_magnet bt_metadata_invalid bt_metadata_too_large bt_path_unsafe : DownloadError
  bt_file_limit bt_size_limit bt_tracker_invalid : DownloadError
  bt_peer_required bt_peer_invalid bt_file_selection : DownloadError
  proxy_authentication_failed proxy_test_timeout : DownloadError
  unnamed : DownloadError

-- Any error, of a transfer or of a service, by what errors.Is and errors.As find in it.
pub data TransferError : Type 0 where
  sentinel : DownloadError → TransferError
  unexpected_eof deadline_exceeded context_canceled : TransferError
  network : (timeout temporary : Bool) → TransferError
  other_error : TransferError
