-- ===== src/Task.antt =====
-- The records of backend/internal/download/task.go, bt.go and validator.go. An instant is a number
-- of nanoseconds, 0 the zero time.
use Prim.Native.String.{String}
use downpeed_fluter.Base.{ℕ, Bool, true, false, List, Option, ℤ, Text, Table}
use downpeed_fluter.Checkpoint.{TransferCheckpoint}

pub data Protocol : Type 0 where
  http bt : Protocol
  other_protocol : Text → Protocol

pub data TaskState : Type 0 where
  queued downloading retrying paused completed failed canceled : TaskState
  other_state : Text → TaskState

pub record TaskError : Type 0 where
  pub code : String
  pub message : String
  pub retryable : Bool

pub record Task : Type 0 where
  pub id : Text
  pub protocol : Protocol
  pub url : Text
  pub final_url : Text
  pub file_name : Text
  pub save_directory : Text
  pub file_path : Text
  pub state : TaskState
  pub scheduled_at : Option ℕ
  pub downloaded : ℤ
  pub total : ℤ
  pub speed_bps : ℤ
  pub connections : ℕ
  pub retry_count : ℕ
  pub next_retry_at : Option ℕ
  pub error : Option TaskError
  pub created_at : ℕ
  pub updated_at : ℕ
  pub completed_at : Option ℕ

pub record CreateTaskRequest : Type 0 where
  pub url : Text
  pub file_name : Text
  pub save_directory : Text
  pub scheduled_at : Option ℕ
  pub headers : Table Text
  pub expected_size : ℤ
  pub accept_ranges : Bool
  pub etag : Text
  pub last_modified : Text

pub record ResourceValidator : Type 0 where
  pub etag : Text
  pub last_modified : Text

-- The field Limiter is left out: it is always the manager's own limiter.
pub record TransferRequest : Type 0 where
  pub url : Text
  pub headers : Table Text
  pub destination : Text
  pub work_path : Text
  pub offset : ℤ
  pub expected_size : ℤ
  pub accept_ranges : Bool
  pub allow_segments : Bool
  pub validator : ResourceValidator
  pub checkpoint : Option TransferCheckpoint

pub record BtPolicySettings : Type 0 where
  pub max_peer_connections : ℤ
  pub explicit_peers_only : Bool
  pub trackers_enabled : Bool
  pub dht_enabled : Bool
  pub pex_enabled : Bool
  pub web_seeds_enabled : Bool
  pub inbound_enabled : Bool
  pub ipv6_enabled : Bool
  pub upload_enabled : Bool
  pub seeding_enabled : Bool

pub record BtFile : Type 0 where
  pub index : ℤ
  pub path : Text
  pub size : ℤ

pub record BtTransferRequest : Type 0 where
  pub metadata : List ℕ
  pub save_directory : Text
  pub name : Text
  pub identity : Text
  pub total : ℤ
  pub selected_file_indexes : List ℤ
  pub explicit_peers : List Text
  pub files : List BtFile
  pub policy : BtPolicySettings

pub record StoredBtTask : Type 0 where
  pub metadata : List ℕ
  pub name : Text
  pub identity : Text
  pub total : ℤ
  pub files : List BtFile
  pub selected_file_indexes : List ℤ
  pub explicit_peers : List Text
  pub policy : BtPolicySettings

pub record StoredTask : Type 0 where
  pub task : Task
  pub headers : Table Text
  pub accept_ranges : Bool
  pub validator : ResourceValidator
  pub checkpoint : Option TransferCheckpoint
  pub bt : Option StoredBtTask

pub record TransferProgress : Type 0 where
  pub downloaded : ℤ
  pub total : ℤ
  pub speed_bps : ℤ
  pub checkpoint : Option TransferCheckpoint

pub record BtConnectionDiagnostics : Type 0 where
  pub configured : ℕ
  pub known : ℕ
  pub connected : ℕ
  pub pending : ℕ
  pub half_open : ℕ
  pub seeders : ℕ

pub record BtTrafficDiagnostics : Type 0 where
  pub received_bytes : ℤ
  pub useful_bytes : ℤ
  pub uploaded_bytes : ℤ
  pub wasted_chunks : ℤ
  pub verified_pieces : ℤ
  pub failed_pieces : ℤ

pub record BtPeerDiagnostics : Type 0 where
  pub address : Text
  pub client : Text
  pub network : Text
  pub received_bytes : ℤ
  pub download_rate_bps : ℤ
  pub verified_pieces : ℤ
  pub failed_pieces : ℤ

-- BTPolicyDiagnostics has the fields of BTPolicySettings.
pub record BtDiagnostics : Type 0 where
  pub task_id : Text
  pub state : TaskState
  pub live : Bool
  pub connections : BtConnectionDiagnostics
  pub traffic : BtTrafficDiagnostics
  pub peers : List BtPeerDiagnostics
  pub policy : BtPolicySettings
  pub updated_at : ℕ

pub record BtTransferProgress : Type 0 where
  pub downloaded : ℤ
  pub total : ℤ
  pub speed_bps : ℤ
  pub connections : ℕ
  pub diagnostics : BtDiagnostics

pub record TransferResult : Type 0 where
  pub final_url : Text
  pub size : ℤ

abbrev pub is_queued : TaskState → Bool
is_queued queued = true
is_queued _ = false

abbrev pub is_downloading : TaskState → Bool
is_downloading downloading = true
is_downloading _ = false

abbrev pub is_retrying : TaskState → Bool
is_retrying retrying = true
is_retrying _ = false

abbrev pub is_paused : TaskState → Bool
is_paused paused = true
is_paused _ = false

abbrev pub is_failed : TaskState → Bool
is_failed failed = true
is_failed _ = false

abbrev pub is_completed : TaskState → Bool
is_completed completed = true
is_completed _ = false

abbrev pub is_terminal_state : TaskState → Bool
is_terminal_state completed = true
is_terminal_state failed = true
is_terminal_state canceled = true
is_terminal_state _ = false

abbrev pub is_bt : Protocol → Bool
is_bt bt = true
is_bt _ = false
