-- ===== src/Api/Results.antt =====
-- The results of batches, and the checks of a batch (backend/internal/httpapi/tasks.go).
use downpeed_fluter.Base.{
  ℕ, Bool, false, not, ◌||◌, List, [], ltb, ◌==◌, Option, none, some, Text, text, if◌then◌else◌,
  Outcome, ok, err,
}
use downpeed_fluter.Task.{Task}
use downpeed_fluter.Paths.{text_eq}
use downpeed_fluter.Api.Replies.{ApiError, Reply, Body, Rest, write_api_error, ensure_json_end}

-- An ID or a flag that JSON omits is the zero value.
pub record BatchTaskItemResult : Type 0 where
  pub index : ℕ
  pub id : Text
  pub task : Option Task
  pub error : Option ApiError

pub record BatchTaskResult : Type 0 where
  pub items : List BatchTaskItemResult
  pub succeeded : ℕ
  pub failed : ℕ

pub record BatchDeleteTaskItemResult : Type 0 where
  pub index : ℕ
  pub id : Text
  pub file_deleted : Bool
  pub error : Option ApiError

pub record BatchDeleteTaskResult : Type 0 where
  pub items : List BatchDeleteTaskItemResult
  pub succeeded : ℕ
  pub failed : ℕ

pub record BatchTaskActionRequest : Type 0 where
  pub ids : List Text
  pub action : Text

pub record BatchDeleteTasksRequest : Type 0 where
  pub ids : List Text
  pub delete_files : Bool

abbrev pub max_batch_tasks : ℕ
max_batch_tasks = 100

abbrev pub decoded_value : {A B : Type 0} → Text → Option A → Rest → Outcome (Reply B) A
decoded_value rid none rest = err (
    write_api_error rid 400 "invalid_request" "The request body must contain a valid task batch."
      false)
decoded_value rid (some input) rest =
    if ensure_json_end rest
    then ok input
    else err (
        write_api_error rid 400 "invalid_request" "The request body must contain one JSON object."
          false)

-- The batch, or the reply that is given instead.
unfoldable pub decode_batch_request : {A B : Type 0} → Text → Body A → Outcome (Reply B) A
decode_batch_request rid body = decoded_value rid body.value body.rest

abbrev pub is_batch_size : ℕ → Bool
is_batch_size n = not (n == 0 || ltb max_batch_tasks n)

abbrev pub invalid_size : {B : Type 0} → Text → Reply B
invalid_size rid =
    write_api_error rid 400 "invalid_batch_size" "A batch must contain between 1 and 100 task IDs."
      false

abbrev pub is_action : Text → Bool
is_action action =
    text_eq action (text "pause")
    || text_eq action (text "resume")
    || text_eq action (text "cancel")

abbrev pub no_results : BatchTaskResult
no_results = record { items = []; succeeded = 0; failed = 0 }

abbrev pub no_deletions : BatchDeleteTaskResult
no_deletions = record { items = []; succeeded = 0; failed = 0 }
