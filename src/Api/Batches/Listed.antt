-- ===== src/Api/Batches/Listed.antt =====
-- Which IDs deleteCompletedTasks deletes (backend/internal/httpapi/tasks.go).
use downpeed_fluter.Base.{
  ◌≡◌, ◌⊎◌, inl, inr, refl, sym, true, List, [], ◌∷◌, Text, Bool-cases, Member,
}
use downpeed_fluter.Task.{Task, is_completed}
use downpeed_fluter.Api.Batches.{completed_ids, ◌∷◌}

from_head :
    (listed : List Task) {id : Text} {task : Task}
    → is_completed task.state ≡ true
    → (id ≡ task.id) ⊎ Member id (completed_ids listed)
    → (Member id (completed_ids listed)
        → (t : Task) × Member t listed × (t.id ≡ id) × (is_completed t.state ≡ true))
    → (t : Task) × Member t (task ∷ listed) × (t.id ≡ id) × (is_completed t.state ≡ true)
from_head listed {task = task} over (inl e) later = (task, inl refl, sym e, over)
from_head listed over (inr m) later =
    let (t, there, same, over') = later m in (t, inr there, same, over')

pub completed_ids-from :
    (id : Text) (listed : List Task)
    → Member id (completed_ids listed)
    → (task : Task) × Member task listed × (task.id ≡ id) × (is_completed task.state ≡ true)
completed_ids-from id [] m = absurd m
completed_ids-from id (task ∷ rest) m = elim (Bool-cases (is_completed task.state)) [
  | inl over ↦ from_head rest over (rw over at m) (completed_ids-from id rest)
  | inr going ↦
      let (t, there, same, over) = completed_ids-from id rest (rw going at m) in
      (t, inr there, same, over)
]

pub Member-completed_ids :
    (task : Task) (listed : List Task)
    → Member task listed
    → is_completed task.state ≡ true
    → Member task.id (completed_ids listed)
Member-completed_ids task [] m over = absurd m
Member-completed_ids task (t ∷ rest) (inl same) over = rw (← same, over) (inl refl)
Member-completed_ids task (t ∷ rest) (inr there) over = elim (Bool-cases (is_completed t.state)) [
  | inl e ↦ rw e (inr (Member-completed_ids task rest there over))
  | inr e ↦ rw e (Member-completed_ids task rest there over)
]
