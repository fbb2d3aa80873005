-- ===== src/Manager/Tests/Restarts.antt =====
-- Restoring managers from concrete records.
use downpeed_fluter.Base.{
  Text-discrete, lookup, insert, ◌≡◌, refl, true, false, [], ◌∷◌, none, some, text, ok, negsuc,
  count,
}
use downpeed_fluter.Manager.Tests.{
  empty, id_a, Manager, no_request, Task, no_task, Coherent, no_wait, http, queued,
}
use downpeed_fluter.Manager.Tests.Made.{starts}
use downpeed_fluter.Task.{StoredTask, is_queued}
use downpeed_fluter.Manager.Stored.{Loaded, reconcile_stored}
use downpeed_fluter.Manager.Restoring.{Recovered}
use downpeed_fluter.Manager.Restore.Filed.{Sound}
use downpeed_fluter.Manager.Restore.{restore}
use downpeed_fluter.Manager.Restore.Coherent.{restore-Sound}
use downpeed_fluter.Manager.Restore.Stranded.{restore_stranded}

abbrev planned : Task
planned = record no_task {
  id = id_a;
  protocol = http;
  url = text "http://h/a";
  file_name = text "a";
  save_directory = text "/d";
  file_path = text "/d/a";
  state = queued;
  scheduled_at = some 100;
  total = negsuc 0;
  created_at = 1;
  updated_at = 1;
}

abbrev planned_record : StoredTask
planned_record = record {
  task = planned;
  headers = [];
  accept_ranges = false;
  validator = record { etag = []; last_modified = [] };
  checkpoint = none;
  bt = none;
}

abbrev in_time : Loaded
in_time = record { stored = planned_record; now = 50; later = 60 }

-- The plan comes due while the record is saved.
abbrev too_late : Loaded
too_late = record { stored = planned_record; now = 50; later = 100 }

abbrev recovered : Recovered
recovered = record {
  task = planned;
  request = record no_request {
    url = text "http://h/a";
    destination = text "/d/a";
    work_path = text "/d/.a.downpeed";
    expected_size = negsuc 0;
  };
  removes = false;
}

planned_recovered : reconcile_stored starts 50 planned_record ≡ ok recovered
unfolding reconcile_stored Text-discrete
planned_recovered = refl

empty-Coherent : Coherent no_wait empty
unfolding lookup count
empty-Coherent id = (refl, refl)

restore-Sound_example : Sound (restore starts (ok (in_time ∷ [])) 70 empty)
restore-Sound_example =
    restore-Sound starts (ok (in_time ∷ [])) 70 empty ((λ _. refl), tt) empty-Coherent refl

-- What is restored from the record whose plan came due.
abbrev after_restart : Manager
after_restart = record empty {
  store = some (record { records = (id_a, planned_record) ∷ []; answers = [] });
  tasks = (id_a, planned) ∷ [];
  requests = (id_a, recovered.request) ∷ [];
  schedule_generation = 1;
}

restarted : restore starts (ok (too_late ∷ [])) 110 empty ≡ (after_restart, none)
unfolding restore Text-discrete lookup insert
restarted = refl

restore_stranded_example :
    (lookup id_a after_restart.tasks ≡ some planned)
    × (is_queued planned.state ≡ true)
    × (count id_a after_restart.queue ≡ 0)
restore_stranded_example =
    restore_stranded starts too_late 110 empty after_restart recovered empty-Coherent refl
      planned_recovered refl refl restarted
