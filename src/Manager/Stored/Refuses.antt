-- ===== src/Manager/Stored/Refuses.antt =====
-- A name that SafeFileName changes again locks the engine out (backend/internal/download/filename.go,
-- manager.go and persistence.go).
use downpeed_fluter.Base.{ℕ, ◌≡◌, ◌≢◌, ◌∙◌, sym, ap, subst, arith, false, some, Text, ok, err}
use downpeed_fluter.Paths.{text_eq}
use downpeed_fluter.Manager.Stored.{
  reconcile_stored, validate_stored_task, Startup, Task, StoredTask, safe_file_name,
  task_persistence, when_valid, with_protocol,
}
use downpeed_fluter.Manager.Create.{
  check_request, new_task, check_file_name, Surroundings, Checked, NewId, new_request,
}
use downpeed_fluter.Manager.Persist.{stored_task}
use downpeed_fluter.Task.{CreateTaskRequest}
use downpeed_fluter.Manager.Destination.{Selected}

text_eq-false : (s t : Text) → s ≢ t → text_eq s t ≡ false
text_eq-false s t ne = ground arith

unsafe_name_refused :
    (start : Startup) (task : Task)
    → task.file_name ≢ safe_file_name task.file_name
    → validate_stored_task start task ≡ some task_persistence
unfolding validate_stored_task
unsafe_name_refused start task ne =
    ground (arith, text_eq-false task.file_name (safe_file_name task.file_name) ne)

refused_record :
    (start : Startup) (now : ℕ) (stored : StoredTask)
    → stored.task.file_name ≢ safe_file_name stored.task.file_name
    → reconcile_stored start now stored ≡ err task_persistence
unfolding reconcile_stored
refused_record start now stored ne =
    ap (when_valid start now stored (with_protocol stored.task))
      (unsafe_name_refused start (with_protocol stored.task) ne)

checked_name :
    (around : Surroundings) (input : CreateTaskRequest) (checked : Checked)
    → check_request around input ≡ ok checked
    → checked.file_name ≡ safe_file_name input.file_name
unfolding check_request check_file_name
checked_name around input checked h = ground arith

-- A request for a name that, made safe, would be changed by being made safe again, and that needs no
-- copy, is stored by Create in a record that is refused when the engine starts.
pub created_locks_out :
    (around : Surroundings) (start : Startup) (now : ℕ) (input : CreateTaskRequest)
    (checked : Checked) (s : Selected) (new : NewId)
    → check_request around input ≡ ok checked
    → s.file_name ≡ checked.file_name
    → safe_file_name input.file_name ≢ safe_file_name (safe_file_name input.file_name)
    → reconcile_stored start now (
        stored_task
          (new_task input checked s new)
          (new_request input checked s (new_task input checked s new)))
      ≡ err task_persistence
unfolding new_task stored_task
created_locks_out around start now input checked s new accepted named unstable =
    refused_record start now _ (
      subst (λ (n : Text). n ≢ safe_file_name n)
        (sym (named ∙ checked_name around input checked accepted)) unstable)
