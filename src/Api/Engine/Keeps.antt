-- ===== src/Api/Engine/Keeps.antt =====
-- The manager keeps the laws of the service (backend/internal/download/manager.go).
use downpeed_fluter.Base.{
  Text-discrete, if_pos, if_neg, Table, lookup, delete, Member, ℕ, ◌≡◌, ◌≢◌, ◌∙◌, ◌⊎◌, inl, inr,
  refl, sym, ap, subst, arith, Bool, List, [], ◌∷◌, Option, some, Text, Outcome, ok, err,
  Bool-cases, ltb, lookup-delete,
}
use downpeed_fluter.Task.{Task}
use downpeed_fluter.Api.Engine.{
  insert_by_creation, listed_tasks, Served, Meets, engine, Manager, DownloadError, DeleteTaskResult,
  delete_task, served,
}
use downpeed_fluter.Api.Laws.{Lawful, ListingOf, DeletionOf}
use downpeed_fluter.Manager.Deleting.Deleted.{Deletes, delete_task-Deletes}

-- The entries of the table are those that are found in it, under the task's own ID.
abbrev pub Filed : Table Task → Type 0
Filed tasks =
    (id : Text) (task : Task)
    → Member (id, task) tasks
    → (lookup id tasks ≡ some task) × (task.id ≡ id)

Member-insert_by_creation :
    (t task : Task) (l : List Task)
    → (Member t (insert_by_creation task l) → (t ≡ task) ⊎ Member t l)
      × ((t ≡ task) ⊎ Member t l → Member t (insert_by_creation task l))
unfolding insert_by_creation
Member-insert_by_creation t task [] = ((λ m. m), (λ m. m))
Member-insert_by_creation t task (u ∷ rest) =
    let (out, back) = Member-insert_by_creation t task rest in
    elim (Bool-cases (ltb task.created_at u.created_at)) [
      | inl e ↦ rw e (
        (λ m. elim m [
          | inl h ↦ inr (inl h)
          | inr h ↦ elim (out h) [ inl k ↦ inl k | inr k ↦ inr (inr k) ]
        ]),
        (λ m. elim m [
          | inl h ↦ inr (back (inl h))
          | inr h ↦ elim h [ inl k ↦ inl k | inr k ↦ inr (back (inr k)) ]
        ]),
      )
      | inr e ↦ rw e ((λ m. m), (λ m. m))
    ]

listed-from :
    (t : Task) (tasks : Table Task)
    → Member t (listed_tasks tasks)
    → (id : Text) × Member (id, t) tasks
unfolding listed_tasks
listed-from t [] m = absurd m
listed-from t ((id, task) ∷ rest) m =
    elim ((Member-insert_by_creation t task (listed_tasks rest)).0 m) [
      | inl e ↦ (id, inl (ap (λ (u : Task). (id, u)) e))
      | inr h ↦ let (j, k) = listed-from t rest h in (j, inr k)
    ]

head_case :
    (rest : Table Task) {id j : Text} {t task : Task}
    → j ≡ id
    → lookup id ((j, task) ∷ rest) ≡ some t
    → t ≡ task
unfolding lookup
head_case rest e h = ground arith

tail_case :
    (task : Task) (rest : Table Task) {id j : Text} {t : Task}
    → j ≢ id
    → lookup id ((j, task) ∷ rest) ≡ some t
    → lookup id rest ≡ some t
unfolding lookup
tail_case task rest ne h = ground arith

pair_eq :
    {id j : Text} {t task : Task} → j ≡ id → t ≡ task → ◌≡◌ {A = Text × Task} (id, t) (j, task)
pair_eq e f = λ i. (sym e i, f i)

Member-listed :
    (id : Text) (t : Task) (tasks : Table Task)
    → lookup id tasks ≡ some t
    → Member t (listed_tasks tasks) × Member (id, t) tasks
unfolding listed_tasks lookup
Member-listed id t [] h = cc
Member-listed id t ((j, task) ∷ rest) h = elim (Text-discrete j id) [
  | yes e ↦ (
    (Member-insert_by_creation t task (listed_tasks rest)).1 (inl (head_case rest e h)),
    inl (pair_eq e (head_case rest e h)),
  )
  | no ne ↦
      let (there, entry) = Member-listed id t rest (tail_case task rest ne h) in
      ((Member-insert_by_creation t task (listed_tasks rest)).1 (inr there), inr entry)
]

Member-delete :
    (id j : Text) (t : Task) (tasks : Table Task)
    → Member (j, t) (delete id tasks)
    → (id ≢ j) × Member (j, t) tasks
unfolding delete
Member-delete id j t [] m = absurd m
Member-delete id j t ((k, task) ∷ rest) m = elim (Text-discrete k id) [
  | yes e ↦
      let (ne, there) = Member-delete id j t rest (rw (if_pos (Text-discrete k id) e _ _) at m) in
      (ne, inr there)
  | no ne ↦ elim (rw (if_neg (Text-discrete k id) ne _ _) at m) [
    | inl same ↦ ((λ e. ne (sym (e ∙ ap (λ (x : Text × Task). x.0) same))), inl same)
    | inr there ↦ let (ne', h) = Member-delete id j t rest there in (ne', inr h)
  ]
]

Filed-delete : (id : Text) (tasks : Table Task) → Filed tasks → Filed (delete id tasks)
Filed-delete id tasks filed j t m =
    let (ne, there) = Member-delete id j t tasks m in
    let (found_there, own) = filed j t there in
    (lookup-delete id j tasks ∙ if_neg (Text-discrete id j) ne _ _ ∙ found_there, own)

abbrev pub view : Served → Text → Option Task
view s id = lookup id s.manager.tasks

module _ (meets : ℕ → Meets) where
  deletion-Deletes :
      (id : Text) (s : Served) (x : Manager × Outcome DownloadError DeleteTaskResult)
      → Filed s.manager.tasks
      → Deletes id s.manager x
      → Filed (served meets s x).0.manager.tasks × DeletionOf view id s (served meets s x)
  deletion-Deletes id s (m, err e) filed (_, _, _, same) =
      let tasks = ap (λ (y : Manager). y.tasks) same in
      (subst Filed (sym tasks) filed, λ j. ap (lookup j) tasks)
  deletion-Deletes id s (m, ok r) filed (_, (_, _, _, (_, _, _, same))) = (
    let tasks = ap (λ (y : Manager). y.tasks) same in
        subst Filed (sym tasks) (Filed-delete id s.manager.tasks filed),
    let tasks = ap (λ (y : Manager). y.tasks) same in
        (
          ap (lookup id) tasks
              ∙ lookup-delete id id s.manager.tasks
              ∙ if_pos (Text-discrete id id) refl _ _,
          λ j ne.
              ap (lookup j) tasks
              ∙ lookup-delete id j s.manager.tasks
              ∙ if_neg (Text-discrete id j) ne _ _,
        ),
  )

  pub engine_lists : (s : Served) → Filed s.manager.tasks → ListingOf view s ((engine meets).list s)
  unfolding engine
  engine_lists s filed = (
    refl,
    λ task m.
        let (id, entry) = listed-from task s.manager.tasks m in
        let (there, own) = filed id task entry in
        subst (λ (j : Text). lookup j s.manager.tasks ≡ some task) (sym own) there,
    λ id task h.
        let (there, entry) = Member-listed id task s.manager.tasks h in
        (there, (filed id task entry).1),
  )

  pub engine_deletes :
      (id : Text) (files : Bool) (s : Served)
      → Filed s.manager.tasks
      → Filed ((engine meets).delete_task id files s).0.manager.tasks
        × DeletionOf view id s ((engine meets).delete_task id files s)
  unfolding engine
  engine_deletes id files s filed =
      deletion-Deletes id s (delete_task (meets s.calls).around.files id files s.manager) filed
        (delete_task-Deletes (meets s.calls).around.files id files s.manager)

  -- The manager keeps the laws, where its table of tasks is in order.
  unfoldable pub engine_laws : Lawful Served (engine meets)
  engine_laws = record {
    IsValid = λ s. Filed s.manager.tasks;
    view = view;
    lists = engine_lists;
    deletes = engine_deletes;
  }
