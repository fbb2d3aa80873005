-- ===== src/Manager/Destination.antt =====
-- Where a new file is stored: selectHTTPDestination, copyFileName and pathExists
-- (backend/internal/download/filename.go) and temporaryPath (manager.go).
pub mod Copies
pub mod Chosen
use downpeed_fluter.Base.{
  ℕ, zero, suc, Bool, true, false, not, ◌&&◌, ◌||◌, [], ◌∷◌, ◌++◌, Option, none, some, Text, text,
  if◌then◌else◌, Outcome, ok, err, ltb, Table,
}
use downpeed_fluter.Paths.{clean, dir, ext, text_eq, base, join}
use downpeed_fluter.Manager.State.{
  FileConflictPolicy, Files, Stat, found, not_exist, uniquify, stat_failed, fail, Manager,
}
use downpeed_fluter.Numbers.{format_uint}
use downpeed_fluter.Errors.{DownloadError, destination_exists, invalid_destination}
use downpeed_fluter.Task.{Task, is_terminal_state}

-- strings.TrimSuffix
unfoldable pub trim_suffix : Text → Text → Text
trim_suffix [] suffix = []
trim_suffix (c ∷ s) suffix =
    let rest = trim_suffix s suffix in if text_eq (c ∷ s) suffix then [] else c ∷ rest

unfoldable pub copy_file_name : Text → ℕ → Text
unfolding trim_suffix ext format_uint
copy_file_name file_name copy_number =
    trim_suffix file_name (ext file_name)
    ++ (text " (" ++ (format_uint 10 copy_number ++ (b')' ∷ ext file_name)))

abbrev pub path_exists : Stat → Outcome DownloadError Bool
path_exists (found info) = ok true
path_exists not_exist = ok false
path_exists stat_failed = err invalid_destination

unfoldable pub temporary_path : Text → Text
unfolding dir base join
temporary_path destination = join (dir destination) (b'.' ∷ (base destination ++ text ".downpeed"))

-- The destinations of the tasks that are not over.
unfoldable pub is_occupied : Text → Table Task → Bool
unfolding clean
is_occupied destination [] = false
is_occupied destination ((id, task) ∷ rest) =
    (not (is_terminal_state task.state) && text_eq (clean task.file_path) (clean destination))
    || is_occupied destination rest

pub record Selected : Type 0 where
  pub file_name : Text
  pub destination : Text
  pub work_path : Text

abbrev pub is_uniquify : FileConflictPolicy → Bool
is_uniquify uniquify = true
is_uniquify fail = false

unfoldable pub candidate : Text → ℕ → Text
unfolding copy_file_name
candidate file_name copy_number =
    if ltb 0 copy_number then copy_file_name file_name copy_number else file_name

abbrev pub selected : Text → Text → ℕ → Selected
selected directory file_name copy_number =
    let destination = join directory (candidate file_name copy_number) in
    record {
      file_name = candidate file_name copy_number;
      destination = destination;
      work_path = temporary_path destination;
    }

abbrev pub is_free :
    Bool → Outcome DownloadError Bool → Outcome DownloadError Bool → Outcome DownloadError Bool
is_free taken (err e) work = err e
is_free taken (ok exists) (err e) = err e
is_free taken (ok exists) (ok work_exists) = ok (not taken && not exists && not work_exists)

unfoldable pub free_at : Files → Table Task → Selected → Outcome DownloadError Bool
unfolding is_occupied
free_at files tasks s =
    is_free (is_occupied s.destination tasks) (path_exists (files.lstat s.destination))
      (path_exists (files.lstat s.work_path))

-- One round of the loop, in front of the next ones.
abbrev pub tried :
    FileConflictPolicy
    → Selected
    → Outcome DownloadError Bool
    → Option (Outcome DownloadError Selected)
    → Option (Outcome DownloadError Selected)
tried policy s (err e) rest = some (err e)
tried policy s (ok true) rest = some (ok s)
tried policy s (ok false) rest = if is_uniquify policy then rest else some (err destination_exists)

-- The loop, with `none` where the fuel runs out.
unfoldable pub select_loop :
    Files
    → FileConflictPolicy
    → Table Task
    → Text
    → Text
    → ℕ
    → ℕ
    → Option (Outcome DownloadError Selected)
unfolding free_at candidate temporary_path join
select_loop files policy tasks directory file_name zero copy_number = none
select_loop files policy tasks directory file_name (suc fuel) copy_number =
    let s = selected directory file_name copy_number in
    let rest = select_loop files policy tasks directory file_name fuel (suc copy_number) in
    tried policy s (free_at files tasks s) rest

unfoldable pub select_http_destination :
    ℕ → Files → Manager → Text → Text → Option (Outcome DownloadError Selected)
unfolding select_loop
select_http_destination fuel files m directory file_name =
    select_loop files m.file_conflict_policy m.tasks directory file_name fuel 0
