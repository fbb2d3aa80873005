-- ===== src/Api/Laws.antt =====
-- Laws of the interface TaskService (backend/internal/download/task.go), for its clients.
use downpeed_fluter.Base.{List, Text, Option, Outcome, Bool, err, ◌≡◌, ok, Member, none, some, ◌≢◌}
use downpeed_fluter.Task.{Task}
use downpeed_fluter.Api.Service.{TaskService}
use downpeed_fluter.Errors.{TransferError}
use downpeed_fluter.Manager.Deleting.{DeleteTaskResult}

-- What a deletion may do with the tasks: nothing, or take one away.
abbrev pub DeletionOf :
    {S : Type 0}
    → (S → Text → Option Task)
    → Text
    → S
    → S × Outcome TransferError DeleteTaskResult
    → Type 0
DeletionOf view id s (s', err e) = (j : Text) → view s' j ≡ view s j
DeletionOf view id s (s', ok r) = (view s' id ≡ none) × ((j : Text) → id ≢ j → view s' j ≡ view s j)

-- What a listing tells: each task once or more, and no other.
abbrev pub ListingOf :
    {S : Type 0} → (S → Text → Option Task) → S → S × Outcome TransferError (List Task) → Type 0
ListingOf view s (s', err e) = s' ≡ s
ListingOf view s (s', ok listed) =
    (s' ≡ s)
    × ((task : Task) → Member task listed → view s task.id ≡ some task)
    × ((id : Text) (task : Task) → view s id ≡ some task → Member task listed × (task.id ≡ id))

-- The laws of a service that list and delete keep.
pub record Lawful (S : Type 0) (tasks : TaskService S) : Type 1 where
  pub IsValid : S → Type 0
  pub view : S → Text → Option Task
  pub lists : (s : S) → IsValid s → ListingOf view s (tasks.list s)
  pub deletes :
      (id : Text) (files : Bool) (s : S)
      → IsValid s
      → IsValid (tasks.delete_task id files s).0
        × DeletionOf view id s (tasks.delete_task id files s)
