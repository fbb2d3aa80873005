-- ===== src/Api/Batches/Completed.antt =====
-- What the deletion of the completed tasks comes to (backend/internal/httpapi/tasks.go), by the laws
-- of the service that it calls.
use downpeed_fluter.Base.{
  ℕ, suc, ◌≡◌, ◌≢◌, ◌∙◌, ◌⊎◌, inl, inr, refl, sym, subst, true, false, List, [], ◌∷◌, none, some,
  Text, Text-discrete, Outcome, ok, err,
}
use downpeed_fluter.Base.{Member, Member-append_left, Member-append_right}
use downpeed_fluter.Errors.{TransferError}
use downpeed_fluter.Task.{Task, is_completed}
use downpeed_fluter.Manager.Deleting.{DeleteTaskResult}
use downpeed_fluter.Api.Laws.{Lawful, DeletionOf, ListingOf}
use downpeed_fluter.Api.Batches.Listed.{completed_ids-from, Member-completed_ids}
use downpeed_fluter.Api.Replies.{ApiError, Reply}
use downpeed_fluter.Api.Failures.{write_task_service_error}
use downpeed_fluter.Api.Service.{TaskService}
use downpeed_fluter.Api.Results.{BatchDeleteTaskItemResult, BatchDeleteTaskResult, no_deletions}
use downpeed_fluter.Api.Batches.{
  for_range, delete_one, delete_task_ids, delete_completed_tasks, completed_ids, add_deleted,
  task_service_api_error, delete_listed, in_envelope,
}

abbrev failed_item : ℕ → Text → TransferError → BatchDeleteTaskItemResult
failed_item i id e = record {
  index = i;
  id = id;
  file_deleted = false;
  error = some ((task_service_api_error e).1);
}

-- An item tells of an error with the ID.
abbrev pub Reported : Text → List BatchDeleteTaskItemResult → Type 0
Reported id items =
    (item : BatchDeleteTaskItemResult) × Member item items
    × (item.id ≡ id)
    × ((e : ApiError) × (item.error ≡ some e))

ok_inj : {E A : Type 0} {x y : A} → ◌≡◌ {A = Outcome E A} (ok x) (ok y) → x ≡ y
ok_inj e = cc

module _ {S : Type 0} (tasks : TaskService S) (laws : Lawful S tasks) where
  open laws use {IsValid, view, lists, deletes}

  -- What has become of a task that was to be deleted.
  abbrev pub Fate : S → S → List BatchDeleteTaskItemResult → Text → Type 0
  Fate s s' items id = (view s' id ≡ none) ⊎ ((view s' id ≡ view s id) × Reported id items)

  record Looped (ids : List Text) (s : S) (r : BatchDeleteTaskResult)
      (p : S × BatchDeleteTaskResult) : Type 0 where
    untouched : (id : Text) → (Member id ids → ⊥) → view p.0 id ≡ view s id
    fates : (id : Text) → Member id ids → Fate s p.0 p.1.items id
    kept : (item : BatchDeleteTaskItemResult) → Member item r.items → Member item p.1.items
    each : (id : Text) → (view p.0 id ≡ none) ⊎ (view p.0 id ≡ view s id)

  module _ (x : Text) (xs : List Text) (i : ℕ) (s s1 : S) (r : BatchDeleteTaskResult) where
    gone_at :
        {id : Text} (law : (view s1 x ≡ none) × ((j : Text) → x ≢ j → view s1 j ≡ view s j))
        → x ≡ id
        → view s1 id ≡ none
    gone_at law e = subst (λ (j : Text). view s1 j ≡ none) e law.0

    each_after_deletion :
        (deleted : DeleteTaskResult) {s2 : S} {id : Text}
        → DeletionOf view x s (s1, ok deleted)
        → (view s2 id ≡ none) ⊎ (view s2 id ≡ view s1 id)
        → (view s2 id ≡ none) ⊎ (view s2 id ≡ view s id)
    each_after_deletion deleted law (inl nothing) = inl nothing
    each_after_deletion deleted {id = id} law (inr same) = elim (Text-discrete x id) [
      | yes e ↦ inl (same ∙ gone_at law e)
      | no ne ↦ inr (same ∙ law.1 id ne)
    ]

    Fate-after_deletion :
        (deleted : DeleteTaskResult) (p : S × BatchDeleteTaskResult)
        → DeletionOf view x s (s1, ok deleted)
        → Looped xs s1 (add_deleted i x r (s1, ok deleted)).1 p
        → (id : Text) → Member id (x ∷ xs)
        → Fate s p.0 p.1.items id
    Fate-after_deletion deleted p law l id (inl e) =
        inl (elim (l.each id) [ inl nothing ↦ nothing | inr same ↦ same ∙ gone_at law (sym e) ])
    Fate-after_deletion deleted p law l id (inr m) = elim (l.fates id m) [
      | inl nothing ↦ inl nothing
      | inr (same, report) ↦ elim (Text-discrete x id) [
        | yes e ↦ inl (same ∙ gone_at law e)
        | no ne ↦ inr (same ∙ law.1 id ne, report)
      ]
    ]

    after_deletion :
        (deleted : DeleteTaskResult) (p : S × BatchDeleteTaskResult)
        → DeletionOf view x s (s1, ok deleted)
        → Looped xs s1 (add_deleted i x r (s1, ok deleted)).1 p
        → Looped (x ∷ xs) s r p
    after_deletion deleted p law l = record {
      untouched = λ id other.
          l.untouched id (λ m. other (inr m)) ∙ law.1 id (λ same. other (inl (sym same)));
      fates = Fate-after_deletion deleted p law l;
      kept = λ item m. l.kept item (Member-append_left item r.items _ m);
      each = λ id. each_after_deletion deleted law (l.each id);
    }

    Fate-after_failure :
        (e : TransferError) (p : S × BatchDeleteTaskResult)
        → DeletionOf view x s (s1, err e)
        → Looped xs s1 (add_deleted i x r (s1, err e)).1 p
        → (id : Text) → Member id (x ∷ xs)
        → Fate s p.0 p.1.items id
    Fate-after_failure e p law l id (inl same) = elim (l.each id) [
      | inl nothing ↦ inl nothing
      | inr kept ↦ inr (
        kept ∙ law id,
        (
          failed_item i x e,
          l.kept (failed_item i x e) (Member-append_right (failed_item i x e) r.items _ (inl refl)),
          sym same,
          ((task_service_api_error e).1, refl),
        ),
      )
    ]
    Fate-after_failure e p law l id (inr m) = elim (l.fates id m) [
      | inl nothing ↦ inl nothing
      | inr (kept, report) ↦ inr (kept ∙ law id, report)
    ]

    after_failure :
        (e : TransferError) (p : S × BatchDeleteTaskResult)
        → DeletionOf view x s (s1, err e)
        → Looped xs s1 (add_deleted i x r (s1, err e)).1 p
        → Looped (x ∷ xs) s r p
    after_failure e p law l = record {
      untouched = λ id other. l.untouched id (λ m. other (inr m)) ∙ law id;
      fates = Fate-after_failure e p law l;
      kept = λ item m. l.kept item (Member-append_left item r.items _ m);
      each = λ id. elim (l.each id) [ inl nothing ↦ inl nothing | inr same ↦ inr (same ∙ law id) ];
    }

  after_step :
      (x : Text) (xs : List Text) (i : ℕ) (s : S) (r : BatchDeleteTaskResult)
      (c : S × Outcome TransferError DeleteTaskResult) (p : S × BatchDeleteTaskResult)
      → DeletionOf view x s c
      → Looped xs (add_deleted i x r c).0 (add_deleted i x r c).1 p
      → Looped (x ∷ xs) s r p
  after_step x xs i s r (s1, ok deleted) p law l = after_deletion x xs i s s1 r deleted p law l
  after_step x xs i s r (s1, err e) p law l = after_failure x xs i s s1 r e p law l

  add_deleted_state :
      (i : ℕ) (x : Text) (r : BatchDeleteTaskResult)
      (c : S × Outcome TransferError DeleteTaskResult)
      → (add_deleted i x r c).0 ≡ c.0
  add_deleted_state i x r (s1, ok deleted) = refl
  add_deleted_state i x r (s1, err e) = refl

  looped :
      (i : ℕ) (ids : List Text) (s : S) (r : BatchDeleteTaskResult)
      → IsValid s
      → Looped ids s r (for_range (delete_one tasks false) i ids s r)
  unfolding for_range
  looped i [] s r v = record {
    untouched = λ id _. refl;
    fates = λ id m. absurd m;
    kept = λ item m. m;
    each = λ id. inr refl;
  }
  looped i (x ∷ xs) s r v =
      let c = tasks.delete_task x false s in
      after_step x xs i s r c _ (deletes x false s v).1 (
        looped (suc i) xs (add_deleted i x r c).0 (add_deleted i x r c).1
          (subst IsValid (sym (add_deleted_state i x r c)) (deletes x false s v).0))

  -- What the deletion of the completed tasks comes to.
  abbrev pub CompletedDeleted : S → S × Reply BatchDeleteTaskResult → Type 0
  CompletedDeleted s (s', reply) =
      ((id : Text) (task : Task)
        → view s id ≡ some task
        → is_completed task.state ≡ false
        → view s' id ≡ some task)
      × ((r : BatchDeleteTaskResult)
          → reply.content ≡ ok r
          → (id : Text) (task : Task) → view s id ≡ some task
          → is_completed task.state ≡ true
          → Fate s s' r.items id)

  clash :
      {s : S} {id : Text} {t task : Task}
      → view s t.id ≡ some t
      → t.id ≡ id
      → is_completed t.state ≡ true
      → view s id ≡ some task
      → is_completed task.state ≡ false
      → ⊥
  clash a names over e going = cc

  listed_deleted :
      (rid : Text) (s : S) (c : S × Outcome TransferError (List Task))
      → IsValid s
      → ListingOf view s c
      → CompletedDeleted s (delete_listed tasks rid c)
  unfolding write_task_service_error delete_task_ids
  listed_deleted rid s (s1, err e) v law =
      (λ id task e _. subst (λ (x : S). view x id ≡ some task) (sym law) e, λ r h. cc)
  listed_deleted rid s (s1, ok listed) v (same, known, found) =
      subst
        (λ (x : S).
          CompletedDeleted s
            (in_envelope rid (delete_task_ids tasks (completed_ids listed) false x)))
        (sym same)
        (
          λ id task e going. p.untouched id (not_completed id task e going) ∙ e,
          λ r h id task e over.
              subst (λ (x : BatchDeleteTaskResult). Fate s q.0 x.items id) (ok_inj h)
                (p.fates id (is_listed id task e over)),
        )
    where
      q : S × BatchDeleteTaskResult
      q = delete_task_ids tasks (completed_ids listed) false s

      p : Looped (completed_ids listed) s no_deletions q
      p = looped 0 (completed_ids listed) s no_deletions v

      not_completed :
          (id : Text) (task : Task)
          → view s id ≡ some task
          → is_completed task.state ≡ false
          → Member id (completed_ids listed)
          → ⊥
      not_completed id task e going m =
          let (t, there, names, over) = completed_ids-from id listed m in
          clash (known t there) names over e going

      is_listed :
          (id : Text) (task : Task)
          → view s id ≡ some task
          → is_completed task.state ≡ true
          → Member id (completed_ids listed)
      is_listed id task e over =
          subst (λ (j : Text). Member j (completed_ids listed)) (found id task e).1
            (Member-completed_ids task listed (found id task e).0 over)

  -- The deletion of the completed tasks, by a service whose list names each of its tasks and whose
  -- delete takes away the task with the ID or none, leaves every task that is not completed; if it is
  -- not refused, each completed task is gone, or is as it was and an item tells of its error.
  pub completed_deleted :
      (rid : Text) (s : S) → IsValid s → CompletedDeleted s (delete_completed_tasks tasks rid s)
  unfolding delete_completed_tasks
  completed_deleted rid s v = listed_deleted rid s (tasks.list s) v (lists s v)
