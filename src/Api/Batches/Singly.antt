-- ===== src/Api/Batches/Singly.antt =====
-- Batches against the requests of single tasks (backend/internal/httpapi/tasks.go).
use mathlib.Core.List.{append-nil, append_assoc}
use downpeed_fluter.Base.{
  ℕ, suc, ◌+◌, ◌≡◌, ◌∙◌, refl, ap, arith, true, false, List, [], ◌∷◌, ◌++◌, length, none, some,
  Text, text, if◌then◌else◌, Outcome, ok, err, ◌≤◌, Bool-cases, inl, inr,
}
use downpeed_fluter.Errors.{TransferError}
use downpeed_fluter.Task.{Task}
use downpeed_fluter.Paths.{text_eq}
use downpeed_fluter.Manager.Deleting.{DeleteTaskResult}
use downpeed_fluter.Api.Replies.{ApiError, Reply, Body, end_of_body, write_json}
use downpeed_fluter.Api.Failures.{write_task_service_error}
use downpeed_fluter.Api.Service.{TaskService}
use downpeed_fluter.Api.Results.{BatchTaskItemResult, BatchTaskResult, BatchDeleteTaskItemResult}
use downpeed_fluter.Api.Handlers.{reply, create_task, pause_task, resume_task, cancel_task}
use downpeed_fluter.Api.Batches.{
  for_range, create_one, act_on_one, create_tasks_batch, act_on_tasks_batch, add_created, add_acted,
  no_results, is_action, in_envelope, is_batch_size, CreateTaskRequest,
}

-- A body that holds one value.
abbrev pub whole : {A : Type 0} → A → Body A
whole a = record { value = some a; rest = end_of_body }

abbrev pub replied_ok : {B : Type 0} → Outcome ApiError B → ℕ
replied_ok (ok b) = 1
replied_ok (err e) = 0

abbrev pub replied_err : {B : Type 0} → Outcome ApiError B → ℕ
replied_err (ok b) = 0
replied_err (err e) = 1

-- How many of the replies to single requests hold a value, and how many an error.
module _ {A B : Type 0} where
  abbrev pub succeeded_of : List (A × Reply B) → ℕ
  succeeded_of [] = 0
  succeeded_of ((x, r) ∷ rs) = replied_ok r.content + succeeded_of rs

  abbrev pub failed_of : List (A × Reply B) → ℕ
  failed_of [] = 0
  failed_of ((x, r) ∷ rs) = replied_err r.content + failed_of rs

  -- The items of the replies, numbered from an index on.
  abbrev pub items_of :
      {I : Type 0} → (ℕ → A → Outcome ApiError B → I) → ℕ → List (A × Reply B) → List I
  items_of item i [] = []
  items_of item i ((x, r) ∷ rs) = item i x r.content ∷ items_of item (suc i) rs

  added : {R : Type 0} → (ℕ → A → Outcome ApiError B → R → R) → ℕ → List (A × Reply B) → R → R
  added add i [] r = r
  added add i ((x, reply) ∷ rs) r = added add (suc i) rs (add i x reply.content r)

  -- One request after the other, with their replies.
  unfoldable pub sent : {S : Type 0} → (A → S → S × Reply B) → List A → S → S × List (A × Reply B)
  sent handle [] s = (s, [])
  sent handle (x ∷ xs) s =
      let (s', reply) = handle x s in
      let (s'', replies) = sent handle xs s' in (s'', (x, reply) ∷ replies)

  for_range-sent :
      {S R : Type 0} (body : ℕ → A → S → R → S × R) (handle : A → S → S × Reply B)
      (add : ℕ → A → Outcome ApiError B → R → R)
      → ((i : ℕ) (x : A) (s : S) (r : R)
          → body i x s r ≡ ((handle x s).0, add i x ((handle x s).1).content r))
      → (i : ℕ) (xs : List A) (s : S) (r : R)
      → for_range body i xs s r ≡ ((sent handle xs s).0, added add i (sent handle xs s).1 r)
  unfolding for_range sent added
  for_range-sent body handle add step i [] s r = refl
  for_range-sent body handle add step i (x ∷ xs) s r =
      ap (λ p. for_range body (suc i) xs p.0 p.1) (step i x s r)
      ∙ for_range-sent body handle add step (suc i) xs (handle x s).0
          (add i x ((handle x s).1).content r)

abbrev pub created_item : ℕ → CreateTaskRequest → Outcome ApiError Task → BatchTaskItemResult
created_item i request (ok task) = record {
  index = i;
  id = task.id;
  task = some task;
  error = none;
}
created_item i request (err e) = record { index = i; id = []; task = none; error = some e }

abbrev pub acted_item : ℕ → Text → Outcome ApiError Task → BatchTaskItemResult
acted_item i id (ok task) = record { index = i; id = id; task = some task; error = none }
acted_item i id (err e) = record { index = i; id = id; task = none; error = some e }

abbrev pub deleted_item : ℕ → Text → Outcome ApiError DeleteTaskResult → BatchDeleteTaskItemResult
deleted_item i id (ok deleted) = record {
  index = i;
  id = id;
  file_deleted = deleted.file_deleted;
  error = none;
}
deleted_item i id (err e) = record { index = i; id = id; file_deleted = false; error = some e }

-- The result with the items of more replies.
module _ {A : Type 0} where
  abbrev pub with_replies :
      (ℕ → A → Outcome ApiError Task → BatchTaskItemResult)
      → ℕ
      → List (A × Reply Task)
      → BatchTaskResult
      → BatchTaskResult
  with_replies item i replies r = record {
    items = r.items ++ items_of item i replies;
    succeeded = r.succeeded + succeeded_of replies;
    failed = r.failed + failed_of replies;
  }

  add_reply :
      (ℕ → A → Outcome ApiError Task → BatchTaskItemResult)
      → ℕ
      → A
      → Outcome ApiError Task
      → BatchTaskResult
      → BatchTaskResult
  add_reply item i x o r = record {
    items = r.items ++ item i x o ∷ [];
    succeeded = r.succeeded + replied_ok o;
    failed = r.failed + replied_err o;
  }

  added-replies :
      (item : ℕ → A → Outcome ApiError Task → BatchTaskItemResult) (i : ℕ)
      (replies : List (A × Reply Task)) (r : BatchTaskResult)
      → added (add_reply item) i replies r ≡ with_replies item i replies r
  unfolding added add_reply
  added-replies item i [] r = ground (arith, append-nil r.items)
  added-replies item i ((x, reply) ∷ rs) r =
      added-replies item (suc i) rs (add_reply item i x reply.content r)
      ∙ ground
          (arith, append_assoc r.items (item i x reply.content ∷ []) (items_of item (suc i) rs))

create_step :
    {S : Type 0} (rid : Text) (i : ℕ) (request : CreateTaskRequest) (r : BatchTaskResult)
    (c : S × Outcome TransferError Task)
    → add_created i r c
      ≡ ((reply rid 201 c).0, add_reply created_item i request ((reply rid 201 c).1).content r)
unfolding add_reply write_task_service_error
create_step rid i request r (s, ok task) = ground arith
create_step rid i request r (s, err e) = ground arith

act_step :
    {S : Type 0} (rid : Text) (i : ℕ) (id : Text) (r : BatchTaskResult)
    (c : S × Outcome TransferError Task)
    → add_acted i id r c
      ≡ ((reply rid 200 c).0, add_reply acted_item i id ((reply rid 200 c).1).content r)
unfolding add_reply write_task_service_error
act_step rid i id r (s, ok task) = ground arith
act_step rid i id r (s, err e) = ground arith

batch_size : (n : ℕ) → 1 ≤ n → n ≤ 100 → is_batch_size n ≡ true
batch_size n p q = ground arith

module _ {S : Type 0} (tasks : TaskService S) (rid : Text) where
  -- The handler of a single task that does the batch's action.
  abbrev pub single_action : Text → Text → S → S × Reply Task
  single_action action id =
      if text_eq action (text "pause")
      then pause_task tasks rid id
      else if text_eq action (text "resume")
      then resume_task tasks rid id
      else cancel_task tasks rid id

  run_create :
      (requests : List CreateTaskRequest) (s : S)
      → for_range (create_one tasks) 0 requests s no_results ≡ (
        (sent (λ request. create_task tasks rid (whole request)) requests s).0,
        with_replies created_item 0
            (sent (λ request. create_task tasks rid (whole request)) requests s).1
            no_results,
      )
  unfolding create_task
  run_create requests s =
      for_range-sent (create_one tasks) (λ request. create_task tasks rid (whole request))
        (add_reply created_item) (λ i x s r. create_step rid i x r (tasks.create x s)) 0 requests s
        no_results
      ∙ ap (λ r. ((sent (λ request. create_task tasks rid (whole request)) requests s).0, r))
          (added-replies created_item 0
            (sent (λ request. create_task tasks rid (whole request)) requests s).1 no_results)

  action_step :
      (action : Text) (i : ℕ) (id : Text) (s : S) (r : BatchTaskResult)
      → act_on_one tasks action i id s r ≡ (
        (single_action action id s).0,
        add_reply acted_item i id ((single_action action id s).1).content r,
      )
  unfolding pause_task resume_task cancel_task
  action_step action i id s r = elim (Bool-cases (text_eq action (text "pause"))) [
    | inl p ↦ rw p (act_step rid i id r (tasks.pause id s))
    | inr p ↦ elim (Bool-cases (text_eq action (text "resume"))) [
      | inl q ↦ rw (p, q) (act_step rid i id r (tasks.resume id s))
      | inr q ↦ rw (p, q) (act_step rid i id r (tasks.cancel id s))
    ]
  ]

  run_act :
      (action : Text) (ids : List Text) (s : S)
      → for_range (act_on_one tasks action) 0 ids s no_results ≡ (
        (sent (single_action action) ids s).0,
        with_replies acted_item 0 (sent (single_action action) ids s).1 no_results,
      )
  run_act action ids s =
      for_range-sent (act_on_one tasks action) (single_action action) (add_reply acted_item)
        (action_step action) 0 ids s no_results
      ∙ ap (λ r. ((sent (single_action action) ids s).0, r))
          (added-replies acted_item 0 (sent (single_action action) ids s).1 no_results)

  -- A batch of 1 to 100 new tasks does what the requests to create them one by one do, in the order
  -- of the batch, and its reply is 200 with their tasks and errors, numbered from 0 and counted.
  pub batch_creates_singly :
      (requests : List CreateTaskRequest) (s : S)
      → 1 ≤ length requests
      → length requests ≤ 100
      → create_tasks_batch tasks rid (whole requests) s ≡ (
        (sent (λ request. create_task tasks rid (whole request)) requests s).0,
        write_json rid 200 (
            with_replies created_item 0
              (sent (λ request. create_task tasks rid (whole request)) requests s).1
              no_results),
      )
  unfolding create_tasks_batch
  batch_creates_singly requests s some_task few =
      rw (batch_size (length requests) some_task few) (ap (in_envelope rid) (run_create requests s))

  -- A batch of 1 to 100 IDs that are to be paused, resumed or canceled does what the requests for
  -- each of them do, sent one by one in the order of the batch, and its reply is 200 with their tasks
  -- and errors, numbered from 0 and counted.
  pub batch_acts_singly :
      (ids : List Text) (action : Text) (s : S)
      → 1 ≤ length ids
      → length ids ≤ 100
      → is_action action ≡ true
      → act_on_tasks_batch tasks rid (whole (record { ids = ids; action = action })) s ≡ (
        (sent (single_action action) ids s).0,
        write_json rid 200
            (with_replies acted_item 0 (sent (single_action action) ids s).1 no_results),
      )
  unfolding act_on_tasks_batch
  batch_acts_singly ids action s some_id few known =
      rw (batch_size (length ids) some_id few, known) (ap (in_envelope rid) (run_act action ids s))
