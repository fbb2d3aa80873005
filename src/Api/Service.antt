-- ===== src/Api/Service.antt =====
-- The interface TaskService of backend/internal/download/task.go, that the API is a client of. What
-- a service keeps is passed along; a call may change it.
use downpeed_fluter.Base.{Bool, List, Text, Outcome}
use downpeed_fluter.Errors.{TransferError}
use downpeed_fluter.Task.{Task, CreateTaskRequest}
use downpeed_fluter.Manager.Deleting.{DeleteTaskResult}

-- A call that succeeds or fails, from a state to the next.
abbrev pub Call : Type 0 → Type 0 → Type 0
Call S A = S → S × Outcome TransferError A

-- Subscribe, which gives a channel, is left out.
pub record TaskService (S : Type 0) : Type 0 where
  pub create : CreateTaskRequest → Call S Task
  pub list : Call S (List Task)
  pub get : Text → Call S Task
  pub pause : Text → Call S Task
  pub resume : Text → Call S Task
  pub retry : Text → Call S Task
  pub cancel : Text → Call S Task
  pub delete_task : Text → Bool → Call S DeleteTaskResult
