-- ===== src/Api/Engine.antt =====
-- The manager of backend/internal/download/manager.go as the service that the API calls, with its
-- methods List and Get.
pub mod Keeps
pub mod Completed
use downpeed_fluter.Base.{
  ◌^◌, dec_lt, on_test, All, ◌↔◌, Text-discrete, if_pos, if_neg, ite, Option-cases, is_some, any,
  all, map, ltb_ℤ, leb_ℤ, eqb_ℤ, Table, lookup, insert, delete, Member, length-append, ℕ, zero, suc,
  ◌+◌, ◌-◌, ◌*◌, ◌/◌, ◌%◌, ◌≤◌, ◌<◌, ◌≡◌, ◌≢◌, ◌∙◌, ◌⊎◌, inl, inr, refl, sym, ap, subst, arith,
  Bool, true, false, not, ◌&&◌, ◌||◌, List, [], ◌∷◌, ◌++◌, length, Option, none, some, Text, text,
  if◌then◌else◌, Outcome, ok, err, Bool-cases, ltb, leb, ◌==◌, pos, negsuc, ℤ,
}
use downpeed_fluter.Errors.{DownloadError, TransferError, sentinel, other_error, task_not_found}
use downpeed_fluter.Task.{Task, CreateTaskRequest}
use downpeed_fluter.Manager.State.{Manager, Files}
use downpeed_fluter.Manager.Create.{Surroundings, Creation, create}
use downpeed_fluter.Manager.Pausing.{Pausing, over, waiting, pause_begin, pause_finish}
use downpeed_fluter.Manager.Resuming.{resume}
use downpeed_fluter.Manager.Retrying.{retry}
use downpeed_fluter.Manager.Removing.{Canceling, cancel_begin, cancel_finish}
use downpeed_fluter.Manager.Deleting.{DeleteTaskResult, delete_task}
use downpeed_fluter.Api.Service.{TaskService, Call}

-- What one call meets: its surroundings, the answer of a BT cleanup, how often the loops of Create may
-- go round (create-Returns tells how often is enough), and what others do to the manager while the call
-- waits for a run.
pub record Meets : Type 0 where
  pub around : Surroundings
  pub cleanup : Option DownloadError
  pub rounds : ℕ
  pub meanwhile : Manager → Manager

-- The manager with the number of its last task, and how many calls there have been.
pub record Served : Type 0 where
  pub manager : Manager
  pub sequence : ℕ
  pub calls : ℕ

-- The tasks of the table, sorted by sort.Slice with the latest first; equals keep their order here.
unfoldable pub insert_by_creation : Task → List Task → List Task
insert_by_creation task [] = task ∷ []
insert_by_creation task (t ∷ rest) =
    let later = insert_by_creation task rest in
    if ltb task.created_at t.created_at then t ∷ later else task ∷ t ∷ rest

unfoldable pub listed_tasks : Table Task → List Task
unfolding insert_by_creation
listed_tasks [] = []
listed_tasks ((id, task) ∷ rest) = insert_by_creation task (listed_tasks rest)

unfoldable pub task_of : Text → Manager → Outcome DownloadError Task
task_of id m = elim (lookup id m.tasks) [ none ↦ err task_not_found | some task ↦ ok task ]

abbrev pub lifted : {A : Type 0} → Outcome DownloadError A → Outcome TransferError A
lifted (ok a) = ok a
lifted (err e) = err (sentinel e)

module _ (meets : ℕ → Meets) where
  -- A call that ends with a manager and a result.
  abbrev pub served :
      {A : Type 0} → Served → Manager × Outcome DownloadError A → Served × Outcome TransferError A
  served s (m, result) = (record s { manager = m; calls = suc s.calls }, lifted result)

  abbrev pub created : Served → Creation → Served × Outcome TransferError Task
  created s none = (record s { calls = suc s.calls }, err other_error)
  created s (some ((m, sequence), result)) =
      (record { manager = m; sequence = sequence; calls = suc s.calls }, lifted result)

  abbrev pub create_call : CreateTaskRequest → Call Served Task
  create_call input s =
      let now = meets s.calls in created s (create now.rounds now.around input s.sequence s.manager)

  abbrev pub list_call : Call Served (List Task)
  list_call s = (s, ok (listed_tasks s.manager.tasks))

  abbrev pub get_call : Text → Call Served Task
  get_call id s = (s, lifted (task_of id s.manager))

  -- Pause lets others in while it waits.
  abbrev pub pause_then : Meets → Text → Manager × Pausing → Manager × Outcome DownloadError Task
  pause_then met id (m, over result) = (m, result)
  pause_then met id (m, waiting run task) =
      pause_finish met.around.files met.around.now id run task (met.meanwhile m)

  abbrev pub pause_call : Text → Call Served Task
  pause_call id s =
      let now = meets s.calls in
      served s (pause_then now id (pause_begin now.around.now id s.manager))

  abbrev pub resume_call : Text → Call Served Task
  resume_call id s =
      let now = meets s.calls in served s (resume now.around.files now.around.now id s.manager)

  abbrev pub retry_call : Text → Call Served Task
  retry_call id s =
      let now = meets s.calls in
      served s (retry now.around.files now.cleanup now.around.now id s.manager)

  abbrev pub cancel_then :
      Meets → Manager × Outcome DownloadError Canceling → Manager × Outcome DownloadError Task
  cancel_then met (m, err e) = (m, err e)
  cancel_then met (m, ok canceling) =
      cancel_finish canceling (if is_some canceling.run then met.meanwhile m else m)

  abbrev pub cancel_call : Text → Call Served Task
  cancel_call id s =
      let now = meets s.calls in
      served s (cancel_then now (cancel_begin now.around.now id s.manager))

  abbrev pub delete_call : Text → Bool → Call Served DeleteTaskResult
  delete_call id files s =
      let now = meets s.calls in served s (delete_task now.around.files id files s.manager)

  unfoldable pub engine : TaskService Served
  unfolding create listed_tasks task_of pause_begin pause_finish resume retry cancel_begin
      cancel_finish delete_task
  engine = record {
    create = create_call;
    list = list_call;
    get = get_call;
    pause = pause_call;
    resume = resume_call;
    retry = retry_call;
    cancel = cancel_call;
    delete_task = delete_call;
  }
