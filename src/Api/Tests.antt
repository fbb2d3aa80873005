-- ===== src/Api/Tests.antt =====
-- The API at work on a concrete manager.
use downpeed_fluter.Base.{
  Text-discrete, lookup, ℕ, ◌≡◌, inl, inr, refl, sym, subst, arith, true, List, [], ◌∷◌, none, some,
  Text, text,
}
use downpeed_fluter.Manager.Tests.Made.{web, wanted}
use downpeed_fluter.Manager.Tests.{empty, id_a, id_b, task_a}
use downpeed_fluter.Api.Engine.{Meets, Served, engine}
use downpeed_fluter.Task.{CreateTaskRequest, Task, completed}
use downpeed_fluter.Api.Engine.Keeps.{Filed}
use downpeed_fluter.Api.Engine.Completed.{Completes, engine_completed_deleted}
use downpeed_fluter.Api.Batches.{act_on_tasks_batch, create_tasks_batch, delete_completed_tasks}
use downpeed_fluter.Api.Failures.Classes.{Classified, error-Classified}
use downpeed_fluter.Api.Replies.{Reply, write_json}
use downpeed_fluter.Api.Failures.{task_service_api_error}
use downpeed_fluter.Api.Batches.Singly.{
  sent, single_action, whole, with_replies, acted_item, created_item, batch_creates_singly,
  batch_acts_singly,
}
use downpeed_fluter.Errors.{sentinel, task_not_found}
use downpeed_fluter.Api.Handlers.{create_task}
use downpeed_fluter.Api.Results.{no_results, is_action}

abbrev calm : ℕ → Meets
calm call = record { around = web; cleanup = none; rounds = 3; meanwhile = λ m. m }

abbrev over_task : Task
over_task = record task_a { state = completed }

abbrev waiting_task : Task
waiting_task = record task_a { id = id_b }

abbrev two_tasks : Served
two_tasks = record {
  manager = record empty { tasks = (id_a, over_task) ∷ (id_b, waiting_task) ∷ [] };
  sequence = 2;
  calls = 0;
}

abbrev Found : Text × Task → Type 0
Found x = (lookup x.0 two_tasks.manager.tasks ≡ some x.1) × (x.1.id ≡ x.0)

two-Filed : Filed two_tasks.manager.tasks
unfolding lookup Text-discrete
two-Filed id task (inl e) = subst Found (sym e) (refl, refl)
two-Filed id task (inr (inl e)) = subst Found (sym e) (refl, refl)
two-Filed id task (inr (inr m)) = absurd m

pauses : is_action (text "pause") ≡ true
unfolding Text-discrete
pauses = refl

engine_completed_deleted_example :
    Completes two_tasks (delete_completed_tasks (engine calm) (text "r") two_tasks)
engine_completed_deleted_example = engine_completed_deleted calm (text "r") two_tasks two-Filed

abbrev singles : Served × List (CreateTaskRequest × Reply Task)
singles =
    sent (λ request. create_task (engine calm) (text "r") (whole request)) (wanted ∷ wanted ∷ [])
      two_tasks

batch_creates_singly_example :
    create_tasks_batch (engine calm) (text "r") (whole (wanted ∷ wanted ∷ [])) two_tasks
    ≡ (singles.0, write_json (text "r") 200 (with_replies created_item 0 singles.1 no_results))
batch_creates_singly_example =
    batch_creates_singly (engine calm) (text "r") (wanted ∷ wanted ∷ []) two_tasks (omega arith)
      (omega arith)

abbrev paused_singly : Served × List (Text × Reply Task)
paused_singly =
    sent (single_action (engine calm) (text "r") (text "pause")) (id_a ∷ id_b ∷ []) two_tasks

batch_acts_singly_example :
    act_on_tasks_batch
      (engine calm)
      (text "r")
      (whole (record { ids = id_a ∷ id_b ∷ []; action = text "pause" }))
      two_tasks
    ≡ (
      paused_singly.0,
      write_json (text "r") 200 (with_replies acted_item 0 paused_singly.1 no_results),
    )
batch_acts_singly_example =
    batch_acts_singly (engine calm) (text "r") (id_a ∷ id_b ∷ []) (text "pause") two_tasks
      (omega arith) (omega arith) pauses

error-Classified_example : Classified (task_service_api_error (sentinel task_not_found))
error-Classified_example = error-Classified (sentinel task_not_found)
