-- ===== src/Api/Engine/Completed.antt =====
-- What the request to delete the completed tasks does to the manager
-- (backend/internal/httpapi/tasks.go, backend/internal/download/manager.go).
use downpeed_fluter.Base.{lookup, ℕ, ◌≡◌, ◌⊎◌, true, false, none, some, Text, ok}
use downpeed_fluter.Api.Engine.{Served, Meets, Task, engine}
use downpeed_fluter.Api.Engine.Keeps.{engine_laws, Filed}
use downpeed_fluter.Api.Replies.{Reply}
use downpeed_fluter.Api.Results.{BatchDeleteTaskResult}
use downpeed_fluter.Task.{is_completed}
use downpeed_fluter.Api.Batches.Completed.{Reported, completed_deleted}
use downpeed_fluter.Api.Batches.{delete_completed_tasks}

-- Before and after, with the reply.
abbrev pub Completes : Served → Served × Reply BatchDeleteTaskResult → Type 0
Completes s (s', reply) =
    ((id : Text) (task : Task)
      → lookup id s.manager.tasks ≡ some task
      → is_completed task.state ≡ false
      → lookup id s'.manager.tasks ≡ some task)
    × ((r : BatchDeleteTaskResult)
        → reply.content ≡ ok r
        → (id : Text) (task : Task) → lookup id s.manager.tasks ≡ some task
        → is_completed task.state ≡ true
        → (lookup id s'.manager.tasks ≡ none)
          ⊎ ((lookup id s'.manager.tasks ≡ lookup id s.manager.tasks) × Reported id r.items))

-- The request to delete the completed tasks leaves every task of the manager that is not completed as
-- it is; and if its reply is no error, each completed task is gone, or it is as it was and an item of
-- the reply has its ID and an error. The table of tasks files each task under its own ID, once.
pub engine_completed_deleted :
    (meets : ℕ → Meets) (rid : Text) (s : Served)
    → Filed s.manager.tasks
    → Completes s (delete_completed_tasks (engine meets) rid s)
unfolding engine_laws
engine_completed_deleted meets rid s filed =
    completed_deleted (engine meets) (engine_laws meets) rid s filed
