-- ===== src/Manager/Persist.antt =====
-- Saving a task, and the diagnostics of a BT task: backend/internal/download/persistence.go and
-- manager.go. Copies (cloneTask and the like) are the values themselves.
use downpeed_fluter.Base.{
  Bool, true, false, List, [], ◌∷◌, ◌++◌, Option, none, some, pos, Table, lookup, insert, length,
  if◌then◌else◌,
}
use downpeed_fluter.Errors.{DownloadError, task_persistence}
use downpeed_fluter.Task.{
  Task, TransferRequest, BtTransferRequest, StoredTask, BtDiagnostics, BtPolicySettings, is_bt,
}
use downpeed_fluter.Manager.State.{
  Manager, TaskStore, published, EventType, task_updated, no_request, no_bt_request, no_validator,
  or_zero,
}

unfoldable pub stored_task : Task → TransferRequest → StoredTask
stored_task task request = record {
  task = task;
  headers = request.headers;
  accept_ranges = request.accept_ranges;
  validator = request.validator;
  checkpoint = request.checkpoint;
  bt = none;
}

unfoldable pub stored_bt_task : Task → BtTransferRequest → StoredTask
stored_bt_task task request = record {
  task = task;
  headers = [];
  accept_ranges = false;
  validator = no_validator;
  checkpoint = none;
  bt = some (record {
    metadata = request.metadata;
    name = request.name;
    identity = request.identity;
    total = request.total;
    files = request.files;
    selected_file_indexes = request.selected_file_indexes;
    explicit_peers = request.explicit_peers;
    policy = request.policy;
  });
}

-- One call of a store's method, which writes or fails.
abbrev pub answered : List Bool → Table StoredTask → TaskStore → TaskStore × Bool
answered [] written store = (record store { records = written }, true)
answered (true ∷ later) written store = (record store { records = written; answers = later }, true)
answered (false ∷ later) written store = (record store { answers = later }, false)

unfoldable pub save : StoredTask → TaskStore → TaskStore × Bool
save stored store = answered store.answers (insert stored.task.id stored store.records) store

abbrev pub persisted : Manager → TaskStore × Bool → Manager × Option DownloadError
persisted m (store, true) = (record m { store = some store }, none)
persisted m (store, false) = (record m { store = some store }, some task_persistence)

abbrev pub persist_bt :
    Manager → Task → TaskStore → Option BtTransferRequest → Manager × Option DownloadError
persist_bt m task store none = (m, some task_persistence)
persist_bt m task store (some request) = persisted m (save (stored_bt_task task request) store)

abbrev pub persist_in : Manager → Task → Option TaskStore → Manager × Option DownloadError
persist_in m task none = (m, none)
persist_in m task (some store) =
    if is_bt task.protocol
    then persist_bt m task store (lookup task.id m.bt_requests)
    else persisted m
        (save (stored_task task (or_zero no_request (lookup task.id m.requests))) store)

unfoldable pub persist_task_locked : Task → Manager → Manager × Option DownloadError
unfolding save
persist_task_locked task m = persist_in m task m.store

unfoldable pub bt_policy_diagnostics : BtPolicySettings → BtPolicySettings
bt_policy_diagnostics policy = policy

unfoldable pub new_bt_diagnostics : Task → BtTransferRequest → BtDiagnostics
unfolding bt_policy_diagnostics
new_bt_diagnostics task request = record {
  task_id = task.id;
  state = task.state;
  live = false;
  connections = record {
    configured = length request.explicit_peers;
    known = 0;
    connected = 0;
    pending = 0;
    half_open = 0;
    seeders = 0;
  };
  traffic = record {
    received_bytes = pos 0;
    useful_bytes = pos 0;
    uploaded_bytes = pos 0;
    wasted_chunks = pos 0;
    verified_pieces = pos 0;
    failed_pieces = pos 0;
  };
  peers = [];
  policy = bt_policy_diagnostics request.policy;
  updated_at = task.updated_at;
}

abbrev pub stopped_diagnostics : Task → BtDiagnostics → BtDiagnostics
stopped_diagnostics task diagnostics = record diagnostics {
  state = task.state;
  live = false;
  connections = record (diagnostics.connections) { connected = 0; half_open = 0; seeders = 0 };
  peers = [];
  updated_at = task.updated_at;
}

unfoldable pub mark_bt_diagnostics_stopped_locked : Task → Manager → Manager
unfolding new_bt_diagnostics
mark_bt_diagnostics_stopped_locked task m =
    if is_bt task.protocol
    then record m {
      bt_diagnostics =
          insert task.id
            (stopped_diagnostics task (
              or_zero
                (new_bt_diagnostics task (or_zero no_bt_request (lookup task.id m.bt_requests)))
                (lookup task.id m.bt_diagnostics)))
            m.bt_diagnostics;
    }
    else m

unfoldable pub publish_event : EventType → Task → Manager → Manager
publish_event event task m = record m { effects = m.effects ++ published event task ∷ [] }

unfoldable pub publish : Task → Manager → Manager
unfolding publish_event
publish task m = publish_event task_updated task m

unfoldable pub publish_all : List Task → Manager → Manager
unfolding publish
publish_all [] m = m
publish_all (task ∷ rest) m = publish_all rest (publish task m)
