-- ===== src/Manager/State.antt =====
-- The state of the manager: the struct Manager of backend/internal/download/manager.go, the answers
-- that it gets from its store and the file system, and the effects that it has on them.
use downpeed_fluter.Base.{ℕ, Bool, false, List, [], Option, none, some, ℤ, pos, Text, Table}
use downpeed_fluter.Errors.{DownloadError}
use downpeed_fluter.Task.{
  Task, TransferRequest, BtTransferRequest, BtPolicySettings, StoredTask, ResourceValidator,
  BtDiagnostics,
}

pub data FileConflictPolicy : Type 0 where
  fail uniquify : FileConflictPolicy

-- The goroutine of a run and the request that it was given.
pub data Transferring : Type 0 where
  http_run : TransferRequest → Transferring
  bt_run : BtTransferRequest → Transferring

-- A run, the pointer of which is its number.
pub record TaskRun : Type 0 where
  pub number : ℕ
  pub transfer : Transferring

-- A store: what it holds, and the answers that it will give to the calls to come (true for nil); it
-- does not fail once those are used up.
pub record TaskStore : Type 0 where
  pub records : Table StoredTask
  pub answers : List Bool

pub data EventType : Type 0 where
  task_updated task_removed : EventType

-- What a call does outside the manager, in the order in which it does it.
pub data Effect : Type 0 where
  published : EventType → Task → Effect
  removed : Text → Effect
  removed_all : Text → Effect
  cancelled : TaskRun → DownloadError → Effect
  waited : TaskRun → Effect
  cleaned_up : BtTransferRequest → Effect
  retry_after : Text → ℕ → Effect

pub record Manager : Type 0 where
  pub closed : Bool
  pub max_concurrent_tasks : ℕ
  pub max_retries : ℕ
  pub retry_base_delay : ℕ
  pub download_rate_limit : ℤ
  pub file_conflict_policy : FileConflictPolicy
  pub has_transfer : Bool
  pub has_bt_transfer : Bool
  pub store : Option TaskStore
  pub tasks : Table Task
  pub requests : Table TransferRequest
  pub bt_requests : Table BtTransferRequest
  pub bt_diagnostics : Table BtDiagnostics
  pub runs : Table TaskRun
  pub next_run : ℕ
  pub queue : List Text
  pub schedule_timer : Option ℕ
  pub schedule_generation : ℕ
  pub effects : List Effect

-- What Lstat tells of a path.
pub record FileInfo : Type 0 where
  pub is_regular : Bool
  pub is_dir : Bool
  pub is_symlink : Bool
  pub size : ℤ
  pub inode : ℕ

pub data Stat : Type 0 where
  found : FileInfo → Stat
  not_exist : Stat
  stat_failed : Stat

pub data Removal : Type 0 where
  removed_file : Removal
  nothing_there : Removal
  removal_failed : Removal

-- The answers of the file system during one call.
pub record Files : Type 0 where
  pub lstat : Text → Stat
  pub remove : Text → Removal

abbrev pub no_validator : ResourceValidator
no_validator = record { etag = []; last_modified = [] }

-- The zero values that a Go map gives for a missing key.
abbrev pub no_request : TransferRequest
no_request = record {
  url = [];
  headers = [];
  destination = [];
  work_path = [];
  offset = pos 0;
  expected_size = pos 0;
  accept_ranges = false;
  allow_segments = false;
  validator = no_validator;
  checkpoint = none;
}

abbrev pub no_policy : BtPolicySettings
no_policy = record {
  max_peer_connections = pos 0;
  explicit_peers_only = false;
  trackers_enabled = false;
  dht_enabled = false;
  pex_enabled = false;
  web_seeds_enabled = false;
  inbound_enabled = false;
  ipv6_enabled = false;
  upload_enabled = false;
  seeding_enabled = false;
}

abbrev pub no_bt_request : BtTransferRequest
no_bt_request = record {
  metadata = [];
  save_directory = [];
  name = [];
  identity = [];
  total = pos 0;
  selected_file_indexes = [];
  explicit_peers = [];
  files = [];
  policy = no_policy;
}

abbrev pub or_zero {ℓ} : {A : Type ℓ} → A → Option A → A
or_zero z none = z
or_zero z (some a) = a
