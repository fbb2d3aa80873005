-- ===== src/Manager/Tests/Made.antt =====
-- Creating and restoring at concrete requests and records.
use downpeed_fluter.Base.{
  Text-discrete, Member, ℕ, ◌+◌, ◌≤◌, ◌≡◌, ◌≢◌, refl, arith, true, false, [], none, some, Text,
  text, ok, err, pos,
}
use downpeed_fluter.Manager.Tests.{empty, no_files, id_a, Manager}
use downpeed_fluter.Manager.Create.{
  Surroundings, create, check_request, Checked, NewId, new_task, new_request,
}
use downpeed_fluter.Task.{CreateTaskRequest}
use downpeed_fluter.Manager.Destination.{
  copy_file_name, free_at, temporary_path, is_occupied, select_http_destination, selected,
  candidate, Selected,
}
use downpeed_fluter.Manager.Create.Returns.{Returns, create-Returns}
use downpeed_fluter.Manager.Destination.Copies.{Answers, select_finds_copy}
use downpeed_fluter.Manager.State.{uniquify}
use downpeed_fluter.Manager.Stored.{Startup, reconcile_stored}
use downpeed_fluter.FileName.{safe_file_name}
use downpeed_fluter.Manager.Persist.{stored_task}
use downpeed_fluter.Errors.{task_persistence}
use downpeed_fluter.Manager.Stored.Refuses.{created_locks_out}

abbrev pub web : Surroundings
web = record {
  parse_request_uri =
      λ _. some (record { scheme = text "http"; host = text "h"; printed = text "http://h/a" });
  reformat = λ _. none;
  is_directory = λ _. true;
  files = no_files;
  now = 50;
  clock = λ n. 50 + n;
}

abbrev pub wanted : CreateTaskRequest
wanted = record {
  url = text "http://h/a";
  file_name = text "a.b";
  save_directory = text "/d";
  scheduled_at = none;
  headers = [];
  expected_size = pos 10;
  accept_ranges = true;
  etag = [];
  last_modified = [];
}

all_free :
    (directory file_name : Text) (k : ℕ)
    → free_at no_files [] (selected directory file_name k) ≡ ok false
    → Member (candidate file_name k) []
unfolding free_at is_occupied
all_free directory file_name k h = cc

create-Returns_example : Returns web wanted 7 empty (create 1 web wanted 7 empty)
create-Returns_example =
    create-Returns web wanted 7 empty [] 1
      (λ checked _. all_free checked.directory checked.file_name) (omega arith) (omega arith)
      (omega arith)

abbrev renaming : Manager
renaming = record empty { file_conflict_policy = uniquify }

select_finds_copy_example :
    (i : ℕ) × (i ≤ 0)
    × Answers no_files []
        (text "/d")
        (text "a.b")
        (select_http_destination 1 no_files renaming (text "/d") (text "a.b"))
        0
        i
select_finds_copy_example =
    select_finds_copy no_files renaming (text "/d") (text "a.b") [] refl (λ path h. cc)
      (all_free (text "/d") (text "a.b"))

-- The second copy of a name.
copied : copy_file_name (text "a.b") 12 ≡ text "a (12).b"
unfolding copy_file_name Text-discrete
copied = refl

hidden : temporary_path (text "/d/a.b") ≡ text "/d/.a.b.downpeed"
unfolding temporary_path Text-discrete
hidden = refl

-- A name that is not kept when it is made safe twice.
abbrev odd : CreateTaskRequest
odd = record wanted { file_name = text ". a" }

abbrev odd_checked : Checked
odd_checked = record {
  url = record { scheme = text "http"; host = text "h"; printed = text "http://h/a" };
  scheduled_at = none;
  validator = record { etag = []; last_modified = [] };
  directory = text "/d";
  file_name = text " a";
}

odd_accepted : check_request web odd ≡ ok odd_checked
unfolding check_request Text-discrete
odd_accepted = refl

abbrev odd_selected : Selected
odd_selected = record {
  file_name = text " a";
  destination = text "/d/ a";
  work_path = text "/d/. a.downpeed";
}

abbrev pub starts : Startup
starts = record {
  parse_request_uri = web.parse_request_uri;
  reformat = web.reformat;
  files = no_files;
}

abbrev odd_id : NewId
odd_id = record { id = id_a; at = 50; drawn = 1 }

odd_unstable : safe_file_name (text ". a") ≢ safe_file_name (safe_file_name (text ". a"))
unfolding safe_file_name Text-discrete
odd_unstable e = cc

created_locks_out_example :
    reconcile_stored starts 60 (
      stored_task
        (new_task odd odd_checked odd_selected odd_id)
        (new_request odd odd_checked odd_selected (new_task odd odd_checked odd_selected odd_id)))
    ≡ err task_persistence
created_locks_out_example =
    created_locks_out web starts 60 odd odd_checked odd_selected odd_id odd_accepted refl
      odd_unstable
