-- ===== src/Manager/Restoring/Resumes.antt =====
-- A task that is restored as paused can be resumed.
use Prim.Native.String.{String}
use downpeed_fluter.Base.{
  subst, on_option, is_some, ap, sym, ◌∙◌, ℕ, ◌≡◌, refl, arith, Bool, true, false, Option, none,
  some, pos, ℤ, if◌then◌else◌, Outcome, ok, err, on_test, eqb_ℤ, ltb_ℤ, ◌&&◌, ◌||◌, not,
}
use downpeed_fluter.Errors.{DownloadError}
use downpeed_fluter.Checkpoint.{TransferCheckpoint, validate_transfer_checkpoint}
use downpeed_fluter.Task.{
  Task, TransferRequest, TaskState, queued, downloading, retrying, paused, completed, failed,
  canceled, other_state, is_paused,
}
use downpeed_fluter.Manager.State.{Files, FileInfo, Stat, found, not_exist, stat_failed}
use downpeed_fluter.Manager.Runs.{partial_file_size}
use downpeed_fluter.Manager.Pausing.{progress_on_disk, reconciled_partial_progress}
use downpeed_fluter.Manager.Restoring.{
  completed_file_matches, without_checkpoint, Recovered, gives_up, mark_recovered_task_failed,
  from_checkpoint, from_start, from_size, at_partial, at_work, at_files, at_final, interrupted,
  reconcile_interrupted_task, planned_or_interrupted, reconcile_scheduled_task, reconcile_state,
  reconcile_stored_task, without_segments, settle_segments,
}

-- What the partial file is once it is removed, if it is.
abbrev pub after_removal : Bool → Stat → Stat
after_removal removes work = if removes then not_exist else work

-- If the task is paused, the partial file bears out the bytes that it counts.
Continues : Stat → Recovered → Type 0
Continues work r =
    is_paused r.task.state ≡ true
    → progress_on_disk (after_removal r.removes work) r.task (without_segments r.request)
        r.request.checkpoint
      ≡ ok r.task.downloaded

validate_own :
    (checkpoint : TransferCheckpoint) (expected d : ℤ)
    → validate_transfer_checkpoint (some checkpoint) expected ≡ ok d
    → validate_transfer_checkpoint (some checkpoint) checkpoint.total ≡ ok d
unfolding validate_transfer_checkpoint
validate_own checkpoint expected d h = ground arith

-- With no partial file and no checkpoint there is nothing, whatever the request allows.
nothing_there :
    (task : Task) (request : TransferRequest)
    → progress_on_disk not_exist task request none ≡ ok (pos 0)
unfolding partial_file_size
nothing_there task request = ground arith

new-Continues :
    (work : Stat) (r : Recovered)
    → after_removal r.removes work ≡ not_exist
    → r.request.checkpoint ≡ none
    → r.task.downloaded ≡ pos 0
    → Continues work r
unfolding Continues
new-Continues work r gone held zero_bytes p =
    subst
      (λ stat.
        progress_on_disk stat r.task (without_segments r.request) r.request.checkpoint
        ≡ ok r.task.downloaded)
      (sym gone)
      (subst
        (λ c.
          progress_on_disk not_exist r.task (without_segments r.request) c ≡ ok r.task.downloaded)
        (sym held) (nothing_there r.task (without_segments r.request) ∙ ap ok (sym zero_bytes)))

no_bytes : (z : ℤ) → eqb_ℤ z (pos 0) ≡ true → z ≡ pos 0
no_bytes z h = ground arith

failed_Continues :
    (code message : String) (task : Task) (request : TransferRequest) (removes : Bool) (work : Stat)
    → Continues work (gives_up code message task request removes)
unfolding Continues mark_recovered_task_failed
failed_Continues code message task request removes work p = absurd (ground arith)

from_checkpoint-Continues :
    (task : Task) (request : TransferRequest) (info : FileInfo) (checkpoint : TransferCheckpoint)
    (r : Outcome DownloadError ℤ)
    → info.is_regular ≡ true
    → request.checkpoint ≡ some checkpoint
    → validate_transfer_checkpoint (some checkpoint) task.total ≡ r
    → Continues (found info) (from_checkpoint task request info checkpoint r)
unfolding Continues
from_checkpoint-Continues task request info checkpoint (err e) regular held valid =
    failed_Continues _ _ task (without_checkpoint request) false (found info)
from_checkpoint-Continues task request info checkpoint (ok d) regular held valid =
    on_test (Continues (found info)) (not (eqb_ℤ info.size checkpoint.total))
      (λ _. failed_Continues _ _ task (without_checkpoint request) false (found info))
      (λ whole p. rw held (rw (validate_own checkpoint task.total d valid) (ground arith)))

from_start-Continues :
    (task : Task) (request : TransferRequest) (work : Stat)
    → request.checkpoint ≡ none
    → Continues work (from_start task request)
from_start-Continues task request work held =
    on_test (Continues work) (eqb_ℤ task.downloaded (pos 0))
      (λ new. new-Continues work _ refl held (no_bytes task.downloaded new))
      (λ _. failed_Continues _ _ task request true work)

from_size-Continues :
    (task : Task) (request : TransferRequest) (info : FileInfo)
    → info.is_regular ≡ true
    → request.checkpoint ≡ none
    → request.allow_segments ≡ false
    → Continues (found info) (from_size task request info)
unfolding Continues partial_file_size
from_size-Continues task request info regular held whole =
    on_test (Continues (found info)) (ltb_ℤ (pos 0) task.total && ltb_ℤ task.total info.size)
      (λ _. failed_Continues _ _ task request false (found info)) (λ fits p. rw held (ground arith))

at_partial-Continues :
    (task : Task) (request : TransferRequest) (info : FileInfo)
    (checkpoint : Option TransferCheckpoint)
    → info.is_regular ≡ true
    → request.checkpoint ≡ checkpoint
    → Continues (found info) (at_partial task request info checkpoint)
at_partial-Continues task request info (some checkpoint) regular held =
    from_checkpoint-Continues task request info checkpoint _ regular held refl
at_partial-Continues task request info none regular held =
    on_test (Continues (found info)) request.allow_segments
      (λ _. from_start-Continues task request (found info) held)
      (λ whole. from_size-Continues task request info regular held whole)

at_work-Continues :
    (task : Task) (request : TransferRequest) (work : Stat)
    → Continues work (at_work task request work)
at_work-Continues task request not_exist =
    on_test (Continues not_exist) (ltb_ℤ (pos 0) task.downloaded || is_some request.checkpoint)
      (λ _. failed_Continues _ _ task (without_checkpoint request) false not_exist)
      (λ new. new-Continues not_exist _ refl (ground arith) refl)
at_work-Continues task request stat_failed =
    failed_Continues _ _ task (without_checkpoint request) false stat_failed
at_work-Continues task request (found info) =
    on_test (Continues (found info)) (not info.is_regular)
      (λ _. failed_Continues _ _ task (without_checkpoint request) false (found info))
      (λ regular. at_partial-Continues task request info request.checkpoint (ground arith) refl)

at_final-Continues :
    (now : ℕ) (task : Task) (request : TransferRequest) (info : FileInfo) (work : Stat)
    → Continues work (at_final now task request info work)
unfolding Continues
at_final-Continues now task request info work =
    on_test (Continues work) (info.is_regular && completed_file_matches task info work)
      (λ _ p. absurd (ground arith))
      (λ _. failed_Continues _ _ task (without_checkpoint request) true work)

at_files-Continues :
    (now : ℕ) (task : Task) (request : TransferRequest) (final work : Stat)
    → Continues work (at_files now task request final work)
at_files-Continues now task request (found info) work =
    at_final-Continues now task request info work
at_files-Continues now task request stat_failed work = failed_Continues _ _ task request false work
at_files-Continues now task request not_exist work = at_work-Continues task request work

ContinuesIf : Stat → Outcome DownloadError Recovered → Type 0
ContinuesIf work (err e) = Unit
ContinuesIf work (ok r) = Continues work r

interrupted-Continues :
    (files : Files) (now : ℕ) (task : Task) (request : TransferRequest)
    → Continues (files.lstat request.work_path) (reconcile_interrupted_task files now task request)
unfolding reconcile_interrupted_task
interrupted-Continues files now task request =
    at_files-Continues now (interrupted now task) request (files.lstat task.file_path)
      (files.lstat request.work_path)

-- A plan that is kept, or given up, does not leave the task paused.
scheduled_not_paused :
    (files : Files) (now : ℕ) (task t : Task) (request : TransferRequest)
    → is_paused task.state ≡ false
    → reconcile_scheduled_task files now task request ≡ some t
    → is_paused t.state ≡ false
unfolding reconcile_scheduled_task mark_recovered_task_failed
scheduled_not_paused files now task t request idle h = ground arith

planned-Continues :
    (files : Files) (now : ℕ) (task : Task) (request : TransferRequest)
    → is_paused task.state ≡ false
    → Continues (files.lstat request.work_path) (
        planned_or_interrupted files now task request
          (reconcile_scheduled_task files now task request))
unfolding Continues
planned-Continues files now task request idle =
    on_option (Continues (files.lstat request.work_path))
      (planned_or_interrupted files now task request)
      (reconcile_scheduled_task files now task request)
      (interrupted-Continues files now task request)
      (λ t planned p.
        absurd (ground (arith, scheduled_not_paused files now task t request idle planned)))

state-Continues :
    (files : Files) (now : ℕ) (task : Task) (request : TransferRequest) (state : TaskState)
    → task.state ≡ state
    → ContinuesIf (files.lstat request.work_path) (reconcile_state files now task request state)
unfolding ContinuesIf Continues
state-Continues files now task request queued e =
    planned-Continues files now task request (ground arith)
state-Continues files now task request downloading e = interrupted-Continues files now task request
state-Continues files now task request retrying e = interrupted-Continues files now task request
state-Continues files now task request paused e = interrupted-Continues files now task request
state-Continues files now task request completed e = λ p. absurd (ground arith)
state-Continues files now task request failed e = λ p. absurd (ground arith)
state-Continues files now task request canceled e = λ p. absurd (ground arith)
state-Continues files now task request (other_state name) e = tt

checkpoint_kept :
    (request : TransferRequest) → (without_segments request).checkpoint ≡ request.checkpoint
checkpoint_kept request = ground arith

abbrev value_or : Recovered → Outcome DownloadError Recovered → Recovered
value_or given (err e) = given
value_or given (ok r) = r

settled-Continues :
    (work : Stat) (x : Outcome DownloadError Recovered) (r : Recovered)
    → ContinuesIf work x
    → settle_segments x ≡ ok r
    → is_paused r.task.state ≡ true
    → progress_on_disk (after_removal r.removes work) r.task r.request r.request.checkpoint
      ≡ ok r.task.downloaded
unfolding ContinuesIf Continues
settled-Continues work (err e) r h same = absurd (ground arith)
settled-Continues work (ok given) r h same =
    subst
      (λ (x : Recovered).
        is_paused x.task.state ≡ true
        → progress_on_disk (after_removal x.removes work) x.task x.request x.request.checkpoint
          ≡ ok x.task.downloaded)
      (ap (value_or given) same)
      (λ p.
        subst
          (λ c.
            progress_on_disk (after_removal given.removes work) given.task
              (without_segments given.request) c
            ≡ ok given.task.downloaded)
          (sym (checkpoint_kept given.request)) (h p))

-- When the engine starts and a stored task is restored as paused, with the partial file as it then
-- is (removed, if restoring it removed it), the bytes that Resume finds on disk are the bytes that
-- the task counts: Resume does not refuse a restored task as changed.
pub restored_resumes :
    (files later : Files) (now : ℕ) (task : Task) (request : TransferRequest) (r : Recovered)
    → reconcile_stored_task files now task request ≡ ok r
    → r.task.state ≡ paused
    → later.lstat r.request.work_path ≡ after_removal r.removes (files.lstat request.work_path)
    → reconciled_partial_progress later r.task r.request ≡ ok r.task.downloaded
unfolding reconcile_stored_task reconciled_partial_progress
restored_resumes files later now task request r same state disk =
    subst
      (λ stat. progress_on_disk stat r.task r.request r.request.checkpoint ≡ ok r.task.downloaded)
      (sym disk)
      (settled-Continues (files.lstat request.work_path)
        (reconcile_state files now task request task.state) r
        (state-Continues files now task request task.state refl) same (ap is_paused state))
