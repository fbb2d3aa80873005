-- ===== src/Manager/Tests/Survivors.antt =====
-- What survives a restart, at concrete tasks.
use downpeed_fluter.Base.{
  Text-discrete, ◌≡◌, ◌⊎◌, refl, true, false, [], ◌∷◌, none, some, text, ok, pos,
}
use downpeed_fluter.Manager.Tests.{empty, id_a, Manager, no_task, Task, bt, TransferRequest}
use downpeed_fluter.Manager.Tests.Made.{wanted}
use downpeed_fluter.Task.{
  CreateTaskRequest, StoredTask, BtTransferRequest, is_paused, is_terminal_state, downloading,
}
use downpeed_fluter.Manager.State.{TaskStore}
use downpeed_fluter.Manager.Create.{Checked, NewId, new_task, new_request}
use downpeed_fluter.Manager.Destination.{Selected, selected}
use downpeed_fluter.Manager.Stored.{reconcile_stored_bt_task, stopped_bt_task}
use downpeed_fluter.Manager.Stored.Restricted.{restored-IsRestricted}
use downpeed_fluter.Settings.Restricted.{IsRestricted}
use downpeed_fluter.Settings.{default_bt_policy_settings}

-- A file that may be cut into segments.
abbrev large : CreateTaskRequest
large = record wanted { expected_size = pos 2000000; etag = text "\"v\"" }

abbrev large_checked : Checked
large_checked = record {
  url = record { scheme = text "http"; host = text "h"; printed = text "http://h/a" };
  scheduled_at = some 90;
  validator = record { etag = text "\"v\""; last_modified = [] };
  directory = text "/d";
  file_name = text "a.b";
}

abbrev first_id : NewId
first_id = record { id = id_a; at = 50; drawn = 1 }

abbrev place : Selected
place = selected (text "/d") (text "a.b") 0

abbrev made : Task
made = new_task large large_checked place first_id

-- Its request, when a million bytes are there.
abbrev halfway : TransferRequest
halfway = record (new_request large large_checked place made) {
  offset = pos 1000000;
  checkpoint = some (record {
    version = pos 1;
    total = pos 2000000;
    segments = record { start = pos 0; end = pos 1999999; completed = pos 1000000 } ∷ [];
  });
}

abbrev entered : Manager
entered = record empty { tasks = (id_a, made) ∷ []; requests = (id_a, halfway) ∷ [] }

abbrev fresh_store : TaskStore
fresh_store = record { records = []; answers = [] }

-- A BT task of an old record, which has no policy.
abbrev old_bt : StoredTask
old_bt = record {
  task = record no_task {
    id = id_a;
    protocol = bt;
    file_name = text "a";
    save_directory = text "/d";
    file_path = text "/d/a";
    state = downloading;
  };
  headers = [];
  accept_ranges = false;
  validator = record { etag = []; last_modified = [] };
  checkpoint = none;
  bt = some (record {
    metadata = 1 ∷ [];
    name = text "a";
    identity = text "i";
    total = pos 3;
    files = [];
    selected_file_indexes = [];
    explicit_peers = [];
    policy = record default_bt_policy_settings {
      max_peer_connections = pos 0;
      explicit_peers_only = false;
    };
  });
}

abbrev restored_bt : Task × BtTransferRequest
restored_bt = (
  stopped_bt_task 60 old_bt.task,
  record {
    metadata = 1 ∷ [];
    save_directory = text "/d";
    name = text "a";
    identity = text "i";
    total = pos 3;
    selected_file_indexes = [];
    explicit_peers = [];
    files = [];
    policy = default_bt_policy_settings;
  },
)

bt_restored : reconcile_stored_bt_task 60 old_bt ≡ ok restored_bt
unfolding reconcile_stored_bt_task Text-discrete
bt_restored = refl

restored-IsRestricted_example :
    IsRestricted restored_bt.1.policy
    × ((is_paused restored_bt.0.state ≡ true) ⊎ (is_terminal_state restored_bt.0.state ≡ true))
restored-IsRestricted_example =
    restored-IsRestricted 60 old_bt restored_bt.0 restored_bt.1 bt_restored
