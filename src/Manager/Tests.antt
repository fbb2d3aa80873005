-- ===== src/Manager/Tests.antt =====
-- Concrete managers, and the theorems at work on them.
pub mod Slots
pub mod Operations
pub mod Ends
pub mod Restored
pub mod Made
pub mod Restarts
pub mod Survivors
use downpeed_fluter.Base.{
  ℕ, ◌≡◌, refl, Bool, true, false, List, [], ◌∷◌, Option, none, some, pos, negsuc, Text, text,
  lookup, arith, count,
}
use downpeed_fluter.Task.{Task, TransferRequest, http, bt, queued, failed, downloading}
use downpeed_fluter.Manager.State.{
  Manager, TaskRun, TaskStore, no_request, fail, Files, Stat, not_exist, removed_file, http_run,
}
use downpeed_fluter.Manager.Pausing.{no_task}
use downpeed_fluter.Manager.Creating.{create_locked}
use downpeed_fluter.Manager.Invariant.{Coherent, no_wait}
use downpeed_fluter.Manager.Invariant.Creating.{create_locked-Coherent}

-- A manager with a store and nothing else; no slot yet.
abbrev pub empty : Manager
empty = record {
  closed = false;
  max_concurrent_tasks = 0;
  max_retries = 3;
  retry_base_delay = 1000000000;
  download_rate_limit = pos 0;
  file_conflict_policy = fail;
  has_transfer = true;
  has_bt_transfer = true;
  store = some (record { records = []; answers = [] });
  tasks = [];
  requests = [];
  bt_requests = [];
  bt_diagnostics = [];
  runs = [];
  next_run = 0;
  queue = [];
  schedule_timer = none;
  schedule_generation = 0;
  effects = [];
}

-- IDs "a" and "b".
abbrev pub id_a : Text
id_a = 97 ∷ []

abbrev pub id_b : Text
id_b = 98 ∷ []

abbrev pub task_a : Task
task_a = record no_task {
  id = id_a;
  protocol = http;
  state = queued;
  total = pos 10;
  file_path = 47 ∷ 97 ∷ [];
}

-- Planned for the instant 100.
abbrev pub task_b : Task
task_b = record task_a { id = id_b; scheduled_at = some 100 }

-- No file is there.
abbrev pub no_files : Files
no_files = record { lstat = λ path. not_exist; remove = λ path. removed_file }

pub empty-Coherent : Coherent no_wait empty
unfolding lookup count
empty-Coherent id = (refl, refl)

-- Both tasks wait for the one slot.
abbrev pub two_wait : Manager
two_wait = record empty {
  max_concurrent_tasks = 1;
  tasks = (id_a, task_a) ∷ (id_b, task_b) ∷ [];
  requests = (id_a, no_request) ∷ (id_b, no_request) ∷ [];
  queue = id_a ∷ id_b ∷ [];
}

pub two_wait-Coherent : Coherent no_wait two_wait
unfolding lookup count
two_wait-Coherent id = ground arith

-- The first has a run.
abbrev pub one_runs : Manager
one_runs = record two_wait {
  tasks = (id_a, record task_a { state = downloading }) ∷ (id_b, task_b) ∷ [];
  runs = (id_a, record { number = 0; transfer = http_run no_request }) ∷ [];
  next_run = 1;
  queue = id_b ∷ [];
}

pub one_runs-Coherent : Coherent no_wait one_runs
unfolding lookup count
one_runs-Coherent id = ground arith
