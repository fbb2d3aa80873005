-- ===== src/Api/Handlers.antt =====
-- The handlers of single tasks (backend/internal/httpapi/tasks.go). `rid` is the request's ID.
use downpeed_fluter.Base.{
  ℕ, Bool, true, false, List, Option, none, some, Text, text, any, if◌then◌else◌, not, Outcome, ok,
  err, ◌∷◌, [],
}
use downpeed_fluter.Errors.{TransferError}
use downpeed_fluter.Task.{Task, CreateTaskRequest}
use downpeed_fluter.Paths.{text_eq}
use downpeed_fluter.Strings.{is_empty}
use downpeed_fluter.Manager.Deleting.{DeleteTaskResult}
use downpeed_fluter.Api.Replies.{Reply, Body, Rest, write_json, write_api_error, ensure_json_end}
use downpeed_fluter.Api.Failures.{write_task_service_error}
use downpeed_fluter.Api.Service.{TaskService}

-- strconv.ParseBool
unfoldable pub parse_bool : Text → Option Bool
parse_bool value =
    if any (text_eq value)
      (text "1" ∷ text "t" ∷ text "T" ∷ text "true" ∷ text "TRUE" ∷ text "True" ∷ [])
    then some true
    else if any (text_eq value)
        (text "0" ∷ text "f" ∷ text "F" ∷ text "false" ∷ text "FALSE" ∷ text "False" ∷ [])
    then some false
    else none

-- The value, or the reply that is given instead. `value` is that of deleteFiles in the query, empty
-- if it is missing.
unfoldable pub read_delete_files_query {ℓ} : {A : Type ℓ} → Text → Text → Outcome (Reply A) Bool
unfolding parse_bool
read_delete_files_query rid value = if is_empty value then ok false else elim (parse_bool value) [
  | none ↦
      err (write_api_error rid 400 "invalid_request" "deleteFiles must be true or false." false)
  | some parsed ↦ ok parsed
]

module _ {S : Type 0} where
  -- The value under the status of success, or the error of the service.
  abbrev pub reply : {A : Type 0} → Text → ℕ → S × Outcome TransferError A → S × Reply A
  reply rid status (s, ok value) = (s, write_json rid status value)
  reply rid status (s, err e) = (s, write_task_service_error rid e)

  module _ (tasks : TaskService S) (rid : Text) where
    abbrev create_decoded : Option CreateTaskRequest → Rest → S → S × Reply Task
    create_decoded none rest s = (
      s,
      write_api_error rid 400 "invalid_request"
          "The request body must contain a valid download task." false,
    )
    create_decoded (some input) rest s =
        if not (ensure_json_end rest)
        then (
          s,
          write_api_error rid 400 "invalid_request" "The request body must contain one JSON object."
              false,
        )
        else reply rid 201 (tasks.create input s)

    unfoldable pub create_task : Body CreateTaskRequest → S → S × Reply Task
    unfolding write_task_service_error
    create_task body s = create_decoded body.value body.rest s

    unfoldable pub list_tasks : S → S × Reply (List Task)
    unfolding write_task_service_error
    list_tasks s = reply rid 200 (tasks.list s)

    unfoldable pub get_task : Text → S → S × Reply Task
    unfolding write_task_service_error
    get_task id s = reply rid 200 (tasks.get id s)

    unfoldable pub pause_task : Text → S → S × Reply Task
    unfolding write_task_service_error
    pause_task id s = reply rid 200 (tasks.pause id s)

    unfoldable pub resume_task : Text → S → S × Reply Task
    unfolding write_task_service_error
    resume_task id s = reply rid 200 (tasks.resume id s)

    unfoldable pub retry_task : Text → S → S × Reply Task
    unfolding write_task_service_error
    retry_task id s = reply rid 200 (tasks.retry id s)

    unfoldable pub cancel_task : Text → S → S × Reply Task
    unfolding write_task_service_error
    cancel_task id s = reply rid 200 (tasks.cancel id s)

    unfoldable pub delete_task : Text → Text → S → S × Reply DeleteTaskResult
    unfolding write_task_service_error read_delete_files_query
    delete_task id query s = elim (read_delete_files_query {A = DeleteTaskResult} rid query) [
      | err refusal ↦ (s, refusal)
      | ok delete_file ↦ reply rid 200 (tasks.delete_task id delete_file s)
    ]
