-- ===== src/Api/Batches.antt =====
-- The handlers of batches of tasks (backend/internal/httpapi/tasks.go). `rid` is the request's ID.
pub mod Singly
pub mod Listed
pub mod Completed
use downpeed_fluter.Base.{
  ℕ, suc, ◌+◌, Bool, false, not, List, [], ◌∷◌, ◌++◌, length, none, some, Text, text, if◌then◌else◌,
  Outcome, ok, err,
}
use downpeed_fluter.Errors.{TransferError}
use downpeed_fluter.Task.{Task, is_completed, CreateTaskRequest}
use downpeed_fluter.Paths.{text_eq}
use downpeed_fluter.Manager.Deleting.{DeleteTaskResult}
use downpeed_fluter.Api.Replies.{Reply, Body, write_json, write_api_error}
use downpeed_fluter.Api.Failures.{task_service_api_error, write_task_service_error}
use downpeed_fluter.Api.Results.{
  BatchTaskResult, BatchDeleteTaskResult, BatchTaskActionRequest, BatchDeleteTasksRequest,
  decode_batch_request, is_batch_size, invalid_size, is_action, no_results, no_deletions,
}
use downpeed_fluter.Api.Service.{TaskService, Call}

abbrev pub completed_ids : List Task → List Text
completed_ids [] = []
completed_ids (task ∷ rest) =
    if is_completed task.state then task.id ∷ completed_ids rest else completed_ids rest

module _ {S : Type 0} where
  -- `for index, x := range xs` with the state and the result so far.
  unfoldable pub for_range : {A R : Type 0} → (ℕ → A → S → R → S × R) → ℕ → List A → S → R → S × R
  for_range body index [] s r = (s, r)
  for_range body index (x ∷ xs) s r =
      let (s', r') = body index x s r in for_range body (suc index) xs s' r'

  abbrev pub add_created :
      ℕ → BatchTaskResult → S × Outcome TransferError Task → S × BatchTaskResult
  add_created index r (s, err e) = (
    s,
    record r {
      items =
          r.items
          ++ record {
            index = index;
            id = [];
            task = none;
            error = some ((task_service_api_error e).1);
          }
            ∷ [];
      failed = r.failed + 1;
    },
  )
  add_created index r (s, ok task) = (
    s,
    record r {
      items =
          r.items ++ record { index = index; id = task.id; task = some task; error = none } ∷ [];
      succeeded = r.succeeded + 1;
    },
  )

  abbrev pub add_acted :
      ℕ → Text → BatchTaskResult → S × Outcome TransferError Task → S × BatchTaskResult
  add_acted index id r (s, err e) = (
    s,
    record r {
      items =
          r.items
          ++ record {
            index = index;
            id = id;
            task = none;
            error = some ((task_service_api_error e).1);
          }
            ∷ [];
      failed = r.failed + 1;
    },
  )
  add_acted index id r (s, ok task) = (
    s,
    record r {
      items = r.items ++ record { index = index; id = id; task = some task; error = none } ∷ [];
      succeeded = r.succeeded + 1;
    },
  )

  abbrev pub add_deleted :
      ℕ
      → Text
      → BatchDeleteTaskResult
      → S × Outcome TransferError DeleteTaskResult
      → S × BatchDeleteTaskResult
  add_deleted index id r (s, err e) = (
    s,
    record r {
      items =
          r.items
          ++ record {
            index = index;
            id = id;
            file_deleted = false;
            error = some ((task_service_api_error e).1);
          }
            ∷ [];
      failed = r.failed + 1;
    },
  )
  add_deleted index id r (s, ok deleted) = (
    s,
    record r {
      items =
          r.items
          ++ record { index = index; id = id; file_deleted = deleted.file_deleted; error = none }
            ∷ [];
      succeeded = r.succeeded + 1;
    },
  )

  abbrev pub in_envelope : {R : Type 0} → Text → S × R → S × Reply R
  in_envelope rid (s, r) = (s, write_json rid 200 r)

  abbrev if_decoded : {A R : Type 0} → Outcome (Reply R) A → (A → S → S × Reply R) → S → S × Reply R
  if_decoded (ok input) handle s = handle input s
  if_decoded (err refusal) handle s = (s, refusal)

  module _ (tasks : TaskService S) where
    abbrev pub create_one : ℕ → CreateTaskRequest → S → BatchTaskResult → S × BatchTaskResult
    create_one index request s r = add_created index r (tasks.create request s)

    -- The action of the batch, one of the three.
    abbrev pub act : Text → Text → Call S Task
    act action id =
        if text_eq action (text "pause")
        then tasks.pause id
        else if text_eq action (text "resume")
        then tasks.resume id
        else tasks.cancel id

    abbrev pub act_on_one : Text → ℕ → Text → S → BatchTaskResult → S × BatchTaskResult
    act_on_one action index id s r = add_acted index id r (act action id s)

    abbrev pub delete_one : Bool → ℕ → Text → S → BatchDeleteTaskResult → S × BatchDeleteTaskResult
    delete_one delete_files index id s r =
        add_deleted index id r (tasks.delete_task id delete_files s)

    unfoldable pub delete_task_ids : List Text → Bool → S → S × BatchDeleteTaskResult
    unfolding for_range task_service_api_error
    delete_task_ids ids delete_files s = for_range (delete_one delete_files) 0 ids s no_deletions

    abbrev create_all : Text → List CreateTaskRequest → S → S × Reply BatchTaskResult
    create_all rid requests s =
        if not (is_batch_size (length requests))
        then (
          s,
          write_api_error rid 400 "invalid_batch_size"
              "A batch must contain between 1 and 100 tasks." false,
        )
        else in_envelope rid (for_range create_one 0 requests s no_results)

    abbrev act_on_all : Text → BatchTaskActionRequest → S → S × Reply BatchTaskResult
    act_on_all rid input s =
        if not (is_batch_size (length input.ids))
        then (s, invalid_size rid)
        else if not (is_action input.action)
        then (
          s,
          write_api_error rid 400 "invalid_batch_action"
              "The batch action must be pause, resume, or cancel." false,
        )
        else in_envelope rid (for_range (act_on_one input.action) 0 input.ids s no_results)

    abbrev delete_all : Text → BatchDeleteTasksRequest → S → S × Reply BatchDeleteTaskResult
    delete_all rid input s =
        if not (is_batch_size (length input.ids))
        then (s, invalid_size rid)
        else in_envelope rid (delete_task_ids input.ids input.delete_files s)

    unfoldable pub create_tasks_batch :
        Text → Body (List CreateTaskRequest) → S → S × Reply BatchTaskResult
    unfolding decode_batch_request for_range task_service_api_error
    create_tasks_batch rid body s = if_decoded (decode_batch_request rid body) (create_all rid) s

    unfoldable pub act_on_tasks_batch :
        Text → Body BatchTaskActionRequest → S → S × Reply BatchTaskResult
    unfolding decode_batch_request for_range task_service_api_error
    act_on_tasks_batch rid body s = if_decoded (decode_batch_request rid body) (act_on_all rid) s

    unfoldable pub delete_tasks_batch :
        Text → Body BatchDeleteTasksRequest → S → S × Reply BatchDeleteTaskResult
    unfolding decode_batch_request delete_task_ids
    delete_tasks_batch rid body s = if_decoded (decode_batch_request rid body) (delete_all rid) s

    abbrev pub delete_listed :
        Text → S × Outcome TransferError (List Task) → S × Reply BatchDeleteTaskResult
    delete_listed rid (s, err e) = (s, write_task_service_error rid e)
    delete_listed rid (s, ok listed) =
        in_envelope rid (delete_task_ids (completed_ids listed) false s)

    unfoldable pub delete_completed_tasks : Text → S → S × Reply BatchDeleteTaskResult
    unfolding delete_task_ids write_task_service_error
    delete_completed_tasks rid s = delete_listed rid (tasks.list s)
