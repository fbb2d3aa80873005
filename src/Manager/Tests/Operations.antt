-- ===== src/Manager/Tests/Operations.antt =====
-- Pause, Delete, Close and Resume on concrete managers.
use downpeed_fluter.Base.{
  Text-discrete, ◌≡◌, refl, arith, true, false, [], ◌∷◌, some, none, lookup, count, pos, Text, ok,
  ◌↔◌,
}
use downpeed_fluter.Task.{Task, bt, paused, completed}
use downpeed_fluter.Manager.State.{Manager, no_request, no_bt_request, Files, found, removed_file}
use downpeed_fluter.Manager.Pausing.{pause_begin, reconciled_partial_progress}
use downpeed_fluter.Manager.Pausing.Paused.{Pauses, pause_begin-Pauses}
use downpeed_fluter.Manager.Pausing.OnDisk.{OnDisk, reconciled-OnDisk}
use downpeed_fluter.Manager.Resuming.{resume, resumed_bt_task}
use downpeed_fluter.Manager.Resuming.Stranded.{resume_bt_stranded}
use downpeed_fluter.Manager.Closing.{close_begin}
use downpeed_fluter.Manager.Deleting.{delete_task}
use downpeed_fluter.Manager.Deleting.Deleted.{Deletes, delete_task-Deletes}
use downpeed_fluter.Manager.Closing.Stops.{close_pauses, closed_entry}
use downpeed_fluter.Manager.Invariant.{Coherent, no_wait}
use downpeed_fluter.Manager.Tests.{empty, one_runs, task_a, id_a, no_files}

pause_begin-Pauses_example : Pauses 50 id_a one_runs (pause_begin 50 id_a one_runs)
pause_begin-Pauses_example = pause_begin-Pauses 50 id_a one_runs

-- A partial file of four bytes.
abbrev four_bytes : Files
four_bytes = record {
  lstat = λ path.
      found
        (record { is_regular = true; is_dir = false; is_symlink = false; size = pos 4; inode = 1 });
  remove = λ path. removed_file;
}

reconciled-OnDisk_example :
    (reconciled_partial_progress four_bytes task_a no_request ≡ ok (pos 4))
    ↔ OnDisk (four_bytes.lstat []) task_a no_request none (pos 4)
reconciled-OnDisk_example = reconciled-OnDisk four_bytes task_a no_request (pos 4)

four_counted : reconciled_partial_progress four_bytes task_a no_request ≡ ok (pos 4)
unfolding reconciled_partial_progress
four_counted = refl

-- A task that is completed.
abbrev one_done : Manager
one_done = record empty {
  tasks = (id_a, record task_a { state = completed }) ∷ [];
  requests = (id_a, no_request) ∷ [];
}

delete_task-Deletes_example : Deletes id_a one_done (delete_task no_files id_a true one_done)
delete_task-Deletes_example = delete_task-Deletes no_files id_a true one_done

close_pauses_example :
    ((id : Text)
      → lookup id (close_begin 50 one_runs).tasks ≡ closed_entry 50 (lookup id one_runs.tasks))
    × ((close_begin 50 one_runs).queue ≡ [])
    × ((close_begin 50 one_runs).schedule_timer ≡ none)
    × ((close_begin 50 one_runs).closed ≡ true)
unfolding lookup Text-discrete
close_pauses_example = close_pauses 50 one_runs refl (refl, (refl, tt))

-- A paused BT task, and a store that refuses the next call.
abbrev paused_bt : Task
paused_bt = record task_a { protocol = bt; state = paused }

abbrev refusing : Manager
refusing = record empty {
  store = some (record { records = []; answers = false ∷ [] });
  tasks = (id_a, paused_bt) ∷ [];
  bt_requests = (id_a, no_bt_request) ∷ [];
}

refusing-Coherent : Coherent no_wait refusing
unfolding lookup count
refusing-Coherent id = ground arith

resume_bt_stranded_example :
    (lookup id_a (resume no_files 50 id_a refusing).0.tasks ≡ some (resumed_bt_task 50 paused_bt))
    × (count id_a (resume no_files 50 id_a refusing).0.queue ≡ 0)
unfolding lookup resume Text-discrete
resume_bt_stranded_example =
    resume_bt_stranded no_files 50 id_a paused_bt refusing refusing-Coherent refl refl refl
