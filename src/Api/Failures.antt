-- ===== src/Api/Failures.antt =====
-- What the API answers for an error of a service: taskServiceAPIError and writeTaskServiceError
-- (backend/internal/httpapi/tasks.go), writeSettingsError (settings.go) and writeBTResolveError (bt.go).
pub mod Classes
use Prim.Native.String.{String}
use downpeed_fluter.Base.{ℕ, Bool, true, false, Text}
use downpeed_fluter.Errors.{
  DownloadError, TransferError, sentinel, task_not_found, task_invalid_state,
  task_retry_not_allowed, invalid_destination, destination_exists, resume_not_supported,
  partial_file_changed, task_file_delete, unsupported_protocol, invalid_schedule, invalid_request,
  unsupported_scheme, invalid_settings, invalid_scheduler_settings, invalid_bt_policy,
  invalid_proxy_settings, invalid_file_conflict_policy, bt_invalid_magnet, bt_metadata_invalid,
  bt_metadata_too_large, bt_path_unsafe, bt_file_limit, bt_size_limit, bt_tracker_invalid,
  bt_peer_required, bt_peer_invalid, bt_file_selection,
}
use downpeed_fluter.Api.Replies.{ApiError, Reply, write_api_error}

abbrev api_error : String → String → Bool → ApiError
api_error code message retryable = record { code = code; message = message; retryable = retryable }

abbrev operation_failed : ℕ × ApiError
operation_failed =
    (500, api_error "task_operation_failed" "The engine could not update the download task." true)

sentinel_api_error : DownloadError → ℕ × ApiError
sentinel_api_error invalid_request =
    (400, api_error "invalid_request" "Enter a valid absolute download URL." false)
sentinel_api_error unsupported_scheme =
    (400, api_error "unsupported_scheme" "Only HTTP and HTTPS download URLs are supported." false)
sentinel_api_error invalid_destination = (
  400,
  api_error "invalid_destination"
      "Select an existing absolute download directory and a valid file name." false,
)
sentinel_api_error invalid_schedule =
    (400, api_error "invalid_schedule" "Choose a future time for the download to start." false)
sentinel_api_error destination_exists =
    (409, api_error "destination_exists" "A file already exists at the selected destination." false)
sentinel_api_error task_not_found =
    (404, api_error "task_not_found" "The download task does not exist." false)
sentinel_api_error task_invalid_state =
    (409, api_error "invalid_task_state" "The task state does not allow this operation." false)
sentinel_api_error task_retry_not_allowed = (
  409,
  api_error "task_not_retryable"
      "This failed task cannot be retried safely. Create a new task instead." false,
)
sentinel_api_error resume_not_supported = (
  409,
  api_error "resume_not_supported"
      "The task cannot be resumed safely because the remote resource has no usable validator."
      false,
)
sentinel_api_error partial_file_changed = (
  409,
  api_error "partial_file_changed" "The partial download file changed outside Downpeed." false,
)
sentinel_api_error task_file_delete = (
  409,
  api_error "task_file_delete_failed" "The downloaded file could not be deleted safely." false,
)
sentinel_api_error unsupported_protocol =
    (501, api_error "bt_transfer_unavailable" "BT transfer is not enabled in this engine." false)
sentinel_api_error bt_peer_required = (
  400,
  api_error "bt_peer_required"
      "Add at least one allowed explicit Peer because Tracker and DHT discovery are disabled."
      false,
)
sentinel_api_error bt_peer_invalid = (
  400,
  api_error "bt_peer_invalid"
      "Explicit Peers must use allowed public IPv4 addresses and valid ports." false,
)
sentinel_api_error bt_file_selection = (
  400,
  api_error "bt_file_selection_invalid" "Select at least one valid Torrent file without duplicates."
      false,
)
sentinel_api_error bt_metadata_invalid =
    (400, api_error "bt_metadata_invalid" "The Torrent metadata is malformed or unsupported." false)
sentinel_api_error bt_metadata_too_large =
    (400, api_error "bt_metadata_invalid" "The Torrent metadata is malformed or unsupported." false)
sentinel_api_error bt_path_unsafe =
    (400, api_error "bt_metadata_invalid" "The Torrent metadata is malformed or unsupported." false)
sentinel_api_error _ = operation_failed

-- The status and the error. No error of the services is two sentinels at once.
unfoldable pub task_service_api_error : TransferError → ℕ × ApiError
unfolding sentinel_api_error
task_service_api_error (sentinel e) = sentinel_api_error e
task_service_api_error _ = operation_failed

unfoldable pub write_task_service_error {ℓ} : {A : Type ℓ} → Text → TransferError → Reply A
unfolding task_service_api_error
write_task_service_error rid e =
    let (status, error) = task_service_api_error e in
    write_api_error rid status error.code error.message error.retryable

sentinel_settings_error {ℓ} : {A : Type ℓ} → Text → DownloadError → Reply A
sentinel_settings_error rid invalid_file_conflict_policy =
    write_api_error rid 400 "invalid_file_conflict_policy"
      "File conflict handling must use a supported safe policy." false
sentinel_settings_error rid invalid_scheduler_settings =
    write_api_error rid 400 "invalid_scheduler_settings"
      "Scheduler settings exceed the supported operating limits." false
sentinel_settings_error rid invalid_bt_policy =
    write_api_error rid 400 "invalid_bt_policy"
      "BitTorrent policy exceeds the current safe operating limits." false
sentinel_settings_error rid invalid_proxy_settings =
    write_api_error rid 400 "invalid_proxy_settings"
      "Proxy settings exceed the supported operating limits." false
sentinel_settings_error rid invalid_settings =
    write_api_error rid 400 "invalid_download_directory"
      "Select an existing absolute download directory." false
sentinel_settings_error rid _ =
    write_api_error rid 500 "settings_operation_failed" "The engine could not update its settings."
      true

unfoldable pub write_settings_error {ℓ} : {A : Type ℓ} → Text → TransferError → Reply A
unfolding sentinel_settings_error
write_settings_error rid (sentinel e) = sentinel_settings_error rid e
write_settings_error rid _ =
    write_api_error rid 500 "settings_operation_failed" "The engine could not update its settings."
      true

abbrev malformed_metadata {ℓ} : {A : Type ℓ} → Text → Reply A
malformed_metadata rid =
    write_api_error rid 400 "bt_metadata_invalid"
      "The Torrent metadata is malformed or unsupported." false

sentinel_bt_error {ℓ} : {A : Type ℓ} → Text → DownloadError → Reply A
sentinel_bt_error rid bt_invalid_magnet =
    write_api_error rid 400 "bt_invalid_magnet"
      "Enter a valid Magnet URI with a supported InfoHash." false
sentinel_bt_error rid bt_metadata_too_large =
    write_api_error rid 413 "bt_metadata_too_large" "Torrent metadata cannot exceed 8 MiB." false
sentinel_bt_error rid bt_path_unsafe =
    write_api_error rid 400 "bt_path_unsafe"
      "Torrent metadata contains an unsafe or conflicting file path." false
sentinel_bt_error rid bt_file_limit =
    write_api_error rid 400 "bt_file_limit" "Torrent metadata contains too many files." false
sentinel_bt_error rid bt_size_limit =
    write_api_error rid 400 "bt_size_limit"
      "Torrent metadata declares more data than Downpeed can safely handle." false
sentinel_bt_error rid bt_tracker_invalid =
    write_api_error rid 400 "bt_tracker_invalid"
      "Torrent metadata contains an unsupported Tracker address." false
sentinel_bt_error rid _ = malformed_metadata rid

unfoldable pub write_bt_resolve_error {ℓ} : {A : Type ℓ} → Text → TransferError → Reply A
unfolding sentinel_bt_error
write_bt_resolve_error rid (sentinel e) = sentinel_bt_error rid e
write_bt_resolve_error rid _ = malformed_metadata rid
