-- ===== src/Manager/Stored.antt =====
-- What is made of stored records: validateStoredTask, reconcileStoredTask and reconcileStoredBTTask whole
-- (backend/internal/download/persistence.go).
pub mod Refuses
pub mod Restricted
pub mod Survives
use downpeed_fluter.Base.{
  ◌^◌, dec_lt, on_test, All, ◌↔◌, Text-discrete, if_pos, if_neg, ite, Option-cases, is_some, any,
  all, map, ltb_ℤ, leb_ℤ, eqb_ℤ, Table, lookup, insert, delete, Member, length-append, ℕ, zero, suc,
  ◌+◌, ◌-◌, ◌*◌, ◌/◌, ◌%◌, ◌≤◌, ◌<◌, ◌≡◌, ◌≢◌, ◌∙◌, ◌⊎◌, inl, inr, refl, sym, ap, subst, arith,
  Bool, true, false, not, ◌&&◌, ◌||◌, List, [], ◌∷◌, ◌++◌, length, Option, none, some, Text, text,
  if◌then◌else◌, Outcome, ok, err, Bool-cases, ltb, leb, ◌==◌, pos, negsuc, ℤ,
}
use downpeed_fluter.Manager.Create.{ParsedUrl}
use downpeed_fluter.Task.{
  Protocol, StoredTask, Task, TaskState, BtPolicySettings, other_protocol, is_downloading,
  ResourceValidator, StoredBtTask, paused, is_queued, TransferRequest, BtTransferRequest, http,
  is_retrying, bt, is_bt, is_paused, is_terminal_state,
}
use downpeed_fluter.FileName.{safe_file_name}
use downpeed_fluter.Manager.Restoring.{reconcile_stored_task, Recovered}
use downpeed_fluter.Errors.{DownloadError, task_persistence}
use downpeed_fluter.Manager.State.{Files, no_request}
use downpeed_fluter.Strings.{is_empty}
use downpeed_fluter.Paths.{clean, is_abs, text_eq, join}
use downpeed_fluter.Validator.{normalize_resource_validator}
use downpeed_fluter.Manager.Destination.{temporary_path}
use downpeed_fluter.Settings.{
  normalize_bt_policy_settings, is_zero_policy, default_bt_policy_settings,
}
use downpeed_fluter.Checkpoint.{default_segmented_transfer_min_size}

-- What the engine's start is answered: url.ParseRequestURI (none for an error), the rewriting of an
-- HTTP date, and the file system.
pub record Startup : Type 0 where
  pub parse_request_uri : Text → Option ParsedUrl
  pub reformat : Text → Option Text
  pub files : Files

-- A record that Load returns, with what the clock tells when it is reconciled, and after its saving.
pub record Loaded : Type 0 where
  pub stored : StoredTask
  pub now : ℕ
  pub later : ℕ

abbrev pub is_web_url : Option ParsedUrl → Bool
is_web_url none = false
is_web_url (some url) =
    not (is_empty url.host)
    && (text_eq url.scheme (text "http") || text_eq url.scheme (text "https"))

abbrev pub is_http : Protocol → Bool
is_http http = true
is_http bt = false
is_http (other_protocol name) = false

abbrev pub is_zero_time : Option ℕ → Bool
is_zero_time none = false
is_zero_time (some at) = at == 0

-- The retry count is a natural number here.
unfoldable pub validate_stored_task : Startup → Task → Option DownloadError
unfolding safe_file_name clean is_abs join
validate_stored_task start task =
    let directory = clean task.save_directory in
    if not (is_http task.protocol)
    then some task_persistence
    else if not (is_web_url (start.parse_request_uri task.url))
    then some task_persistence
    else if is_empty task.id
        || not (text_eq task.file_name (safe_file_name task.file_name))
        || is_empty task.file_name
    then some task_persistence
    else if not (is_abs directory) || not (text_eq task.file_path (join directory task.file_name))
    then some task_persistence
    else if ltb_ℤ task.downloaded (pos 0)
        || ltb_ℤ task.total (negsuc 0)
        || ltb_ℤ task.speed_bps (pos 0)
        || task.created_at == 0
        || task.updated_at == 0
        || is_zero_time task.scheduled_at
    then some task_persistence
    else none

-- An empty protocol is that of old records.
abbrev pub or_http : Protocol → Protocol
or_http http = http
or_http bt = bt
or_http (other_protocol name) = if is_empty name then http else other_protocol name

abbrev pub with_protocol : Task → Task
with_protocol task = record task { protocol = or_http task.protocol }

abbrev pub stored_request : StoredTask → Task → ResourceValidator → TransferRequest
stored_request stored task validator = record no_request {
  url = task.url;
  headers = stored.headers;
  destination = task.file_path;
  work_path = temporary_path task.file_path;
  expected_size = task.total;
  accept_ranges = stored.accept_ranges;
  allow_segments =
      (stored.accept_ranges && leb_ℤ default_segmented_transfer_min_size task.total)
      || is_some stored.checkpoint;
  validator = validator;
  checkpoint = stored.checkpoint;
}

abbrev pub with_validator :
    Startup
    → ℕ
    → StoredTask
    → Task
    → Outcome DownloadError ResourceValidator
    → Outcome DownloadError Recovered
with_validator start now stored task (err e) = err task_persistence
with_validator start now stored task (ok validator) =
    reconcile_stored_task start.files now task (stored_request stored task validator)

abbrev pub when_valid :
    Startup → ℕ → StoredTask → Task → Option DownloadError → Outcome DownloadError Recovered
when_valid start now stored task (some e) = err e
when_valid start now stored task none = with_validator start now stored task (
    normalize_resource_validator start.reformat stored.validator.etag
      stored.validator.last_modified)

-- reconcileStoredTask
unfoldable pub reconcile_stored : Startup → ℕ → StoredTask → Outcome DownloadError Recovered
unfolding validate_stored_task reconcile_stored_task normalize_resource_validator temporary_path
reconcile_stored start now stored =
    let task = with_protocol stored.task in
    when_valid start now stored task (validate_stored_task start task)

abbrev pub max_torrent_metadata_bytes : ℕ
max_torrent_metadata_bytes = 8388608

abbrev pub restored_bt_request : Task → StoredBtTask → BtTransferRequest
restored_bt_request task stored = record {
  metadata = stored.metadata;
  save_directory = task.save_directory;
  name = stored.name;
  identity = stored.identity;
  total = stored.total;
  selected_file_indexes = stored.selected_file_indexes;
  explicit_peers = stored.explicit_peers;
  files = stored.files;
  policy = if is_zero_policy stored.policy then default_bt_policy_settings else stored.policy;
}

abbrev pub stopped_bt_task : ℕ → Task → Task
stopped_bt_task now task = record task {
  state = paused;
  speed_bps = pos 0;
  connections = 0;
  next_retry_at = none;
  completed_at = none;
  updated_at = now;
}

abbrev pub was_active : TaskState → Bool
was_active state = is_downloading state || is_queued state || is_retrying state

abbrev pub settled_bt_task : ℕ → Task → Task
settled_bt_task now task = if was_active task.state then stopped_bt_task now task else task

abbrev pub is_policy : Outcome DownloadError BtPolicySettings → Bool
is_policy (ok policy) = true
is_policy (err e) = false

abbrev pub reconcile_bt :
    ℕ → Task → Option StoredBtTask → Outcome DownloadError (Task × BtTransferRequest)
reconcile_bt now task none = err task_persistence
reconcile_bt now task (some stored) =
    if not (is_bt task.protocol)
      || is_empty task.id
      || is_empty task.file_name
      || not (text_eq task.file_name (safe_file_name task.file_name))
    then err task_persistence
    else if not (is_abs task.save_directory)
        || not (text_eq task.file_path (join task.save_directory task.file_name))
    then err task_persistence
    else if length stored.metadata == 0
        || ltb max_torrent_metadata_bytes (length stored.metadata)
        || is_empty stored.identity
        || ltb_ℤ stored.total (pos 0)
    then err task_persistence
    else if not (is_policy (normalize_bt_policy_settings (restored_bt_request task stored).policy))
    then err task_persistence
    else (let task' = settled_bt_task now task in
        if not (is_paused task'.state) && not (is_terminal_state task'.state)
        then err task_persistence
        else ok (task', restored_bt_request task stored))

unfoldable pub reconcile_stored_bt_task :
    ℕ → StoredTask → Outcome DownloadError (Task × BtTransferRequest)
unfolding safe_file_name is_abs join normalize_bt_policy_settings
reconcile_stored_bt_task now stored = reconcile_bt now stored.task stored.bt
