-- ===== src/Manager/Create.antt =====
-- Create whole (backend/internal/download/manager.go): its checks, the choice of the destination and
-- of the ID, and the task and the request that it makes.
pub mod Ids
pub mod Returns
use downpeed_fluter.Base.{
  ℕ, zero, suc, ◌+◌, ◌/◌, ◌%◌, Bool, not, ◌&&◌, ◌||◌, ◌∷◌, ◌++◌, Option, none, some, Text, text,
  if◌then◌else◌, Outcome, ok, err, ltb, ◌==◌, pos, negsuc, ℤ, lookup, ◌^◌, ltb_ℤ, Table, is_some,
  leb_ℤ,
}
use downpeed_fluter.Manager.State.{Files, Manager, no_request}
use downpeed_fluter.Errors.{
  DownloadError, task_invalid_state, invalid_request, invalid_schedule, invalid_destination,
  unsupported_scheme, unnamed,
}
use downpeed_fluter.Paths.{clean, is_abs, text_eq}
use downpeed_fluter.FileName.{safe_file_name}
use downpeed_fluter.Task.{CreateTaskRequest, ResourceValidator, Task, TransferRequest, http, queued}
use downpeed_fluter.Validator.{if_range_value, normalize_resource_validator}
use downpeed_fluter.Numbers.{format_uint}
use downpeed_fluter.Manager.Destination.{select_http_destination, Selected}
use downpeed_fluter.Strings.{trim_space, is_empty}
use downpeed_fluter.Manager.Creating.{create_locked}
use downpeed_fluter.Manager.Pausing.{no_task}
use downpeed_fluter.Checkpoint.{default_segmented_transfer_min_size}

-- What Create uses of a url.URL.
pub record ParsedUrl : Type 0 where
  pub scheme : Text
  pub host : Text
  pub printed : Text

-- What a call of Create is answered by its surroundings: url.ParseRequestURI (none for an error),
-- the rewriting of an HTTP date, whether Stat finds a directory, the file system, and the clock at
-- its first and at each further reading for an ID.
pub record Surroundings : Type 0 where
  pub parse_request_uri : Text → Option ParsedUrl
  pub reformat : Text → Option Text
  pub is_directory : Text → Bool
  pub files : Files
  pub now : ℕ
  pub clock : ℕ → ℕ

unfoldable pub check_url : Option ParsedUrl → Outcome DownloadError ParsedUrl
check_url none = err invalid_request
check_url (some url) =
    if is_empty url.host
    then err invalid_request
    else if not (text_eq url.scheme (text "http")) && not (text_eq url.scheme (text "https"))
    then err unsupported_scheme
    else ok url

-- The zero time is not after any other.
unfoldable pub check_schedule : ℕ → Option ℕ → Outcome DownloadError (Option ℕ)
check_schedule now none = ok none
check_schedule now (some at) =
    if at == 0 || not (ltb now at) then err invalid_schedule else ok (some at)

unfoldable pub check_directory : Surroundings → Text → Outcome DownloadError Text
unfolding clean trim_space is_abs
check_directory around save_directory =
    let directory = clean (trim_space save_directory) in
    if not (is_abs directory) || not (around.is_directory directory)
    then err invalid_destination
    else ok directory

unfoldable pub check_file_name : Text → Outcome DownloadError Text
unfolding safe_file_name
check_file_name name =
    let file_name = safe_file_name name in
    if is_empty file_name then err invalid_destination else ok file_name

unfoldable pub check_size : ℤ → Outcome DownloadError ℤ
check_size size = if ltb_ℤ size (negsuc 0) then err invalid_request else ok size

pub record Checked : Type 0 where
  pub url : ParsedUrl
  pub scheduled_at : Option ℕ
  pub validator : ResourceValidator
  pub directory : Text
  pub file_name : Text

infixl 5 ◌>>=◌
abbrev pub ◌>>=◌ {ℓ κ} :
    {A : Type ℓ} {B : Type κ}
    → Outcome DownloadError A
    → (A → Outcome DownloadError B)
    → Outcome DownloadError B
ok a >>= f = f a
err e >>= f = err e

-- The checks, in the order of the code.
unfoldable pub check_request : Surroundings → CreateTaskRequest → Outcome DownloadError Checked
unfolding check_url check_size check_schedule check_file_name check_directory
    normalize_resource_validator
check_request around input = do
  url ← check_url (around.parse_request_uri (trim_space input.url))
  size ← check_size input.expected_size
  at ← check_schedule around.now input.scheduled_at
  validator ← normalize_resource_validator around.reformat input.etag input.last_modified
  file_name ← check_file_name input.file_name
  directory ← check_directory around input.save_directory
  ok (record {
    url = url;
    scheduled_at = at;
    validator = validator;
    directory = directory;
    file_name = file_name;
  })

-- fmt.Sprintf("%x-%x", now.UnixMilli(), sequence)
unfoldable pub task_id : ℕ → ℕ → Text
unfolding format_uint
task_id now sequence = format_uint 16 (now / 1000000) ++ (b'-' ∷ format_uint 16 (sequence % 2 ^ 64))

-- The first ID that is not taken, from a round on, with its time and how many numbers were drawn;
-- `none` where the fuel runs out. The first reading of the clock is `now`.
pub record NewId : Type 0 where
  pub id : Text
  pub at : ℕ
  pub drawn : ℕ

abbrev pub id_at : Surroundings → ℕ → ℕ → NewId
id_at around sequence drawn =
    let at = if drawn == 0 then around.now else around.clock drawn in
    record { id = task_id at (sequence + drawn + 1); at = at; drawn = drawn + 1 }

unfoldable pub id_loop : Surroundings → Table Task → ℕ → ℕ → ℕ → Option NewId
unfolding task_id lookup
id_loop around tasks sequence zero drawn = none
id_loop around tasks sequence (suc fuel) drawn =
    let rest = id_loop around tasks sequence fuel (suc drawn) in
    let new = id_at around sequence drawn in
    if is_some (lookup new.id tasks) then rest else some new

abbrev pub known_total : ℤ → ℤ
known_total size = if ltb_ℤ (pos 0) size then size else negsuc 0

unfoldable pub new_task : CreateTaskRequest → Checked → Selected → NewId → Task
new_task input checked selected new = record no_task {
  id = new.id;
  protocol = http;
  url = checked.url.printed;
  final_url = checked.url.printed;
  file_name = selected.file_name;
  save_directory = checked.directory;
  file_path = selected.destination;
  state = queued;
  scheduled_at = checked.scheduled_at;
  total = known_total input.expected_size;
  created_at = new.at;
  updated_at = new.at;
}

unfoldable pub new_request : CreateTaskRequest → Checked → Selected → Task → TransferRequest
unfolding if_range_value
new_request input checked selected task = record no_request {
  url = task.url;
  headers = input.headers;
  destination = selected.destination;
  work_path = selected.work_path;
  expected_size = task.total;
  accept_ranges = input.accept_ranges;
  allow_segments =
      input.accept_ranges
      && not (is_empty (if_range_value checked.validator))
      && leb_ℤ default_segmented_transfer_min_size task.total;
  validator = checked.validator;
}

-- The manager and its sequence number, or `none` where the fuel runs out.
abbrev pub Creation : Type 0
Creation = Option ((Manager × ℕ) × Outcome DownloadError Task)

abbrev pub create_with_id :
    Surroundings → CreateTaskRequest → Checked → Selected → ℕ → Manager → Option NewId → Creation
create_with_id around input checked selected sequence m none = none
create_with_id around input checked selected sequence m (some new) =
    let task = new_task input checked selected new in
    let (m', result) = create_locked around.now task (new_request input checked selected task) m in
    some ((m', sequence + new.drawn), result)

abbrev pub create_at :
    ℕ
    → Surroundings
    → CreateTaskRequest
    → Checked
    → ℕ
    → Manager
    → Option (Outcome DownloadError Selected)
    → Creation
create_at fuel around input checked sequence m none = none
create_at fuel around input checked sequence m (some (err e)) = some ((m, sequence), err e)
create_at fuel around input checked sequence m (some (ok selected)) =
    create_with_id around input checked selected sequence m (id_loop around m.tasks sequence fuel 0)

abbrev pub create_checked :
    ℕ → Surroundings → CreateTaskRequest → ℕ → Manager → Outcome DownloadError Checked → Creation
create_checked fuel around input sequence m (err e) = some ((m, sequence), err e)
create_checked fuel around input sequence m (ok checked) =
    create_at fuel around input checked sequence m
      (select_http_destination fuel around.files m checked.directory checked.file_name)

unfoldable pub create : ℕ → Surroundings → CreateTaskRequest → ℕ → Manager → Creation
unfolding check_request select_http_destination id_loop new_task new_request create_locked
create fuel around input sequence m =
    if not m.has_transfer
    then some ((m, sequence), err unnamed)
    else if m.closed
    then some ((m, sequence), err task_invalid_state)
    else create_checked fuel around input sequence m (check_request around input)
