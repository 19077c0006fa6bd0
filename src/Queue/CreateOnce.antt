-- ===== src/Queue/CreateOnce.antt =====
-- createWorkflow of lib/workflows.ts under repetition and under a race for the same key.
use eutxo_l2_interop.Base.{ℕ, String, ◌≡◌, refl, none, some, Option-cases, inl, inr, eq_refl, true}
use eutxo_l2_interop.Store.{
  Sys, JsonObj, Workflow, WorkflowType, same_type, request_funds, buy_ticket, admin_head_operation,
  pay_random_winner,
}
use eutxo_l2_interop.Queue.Create.{
  create_workflow, find_workflow_by_idempotency, insert_workflow, new_workflow,
}
use eutxo_l2_interop.Queue.Steps.{append_event}

same_type_refl : (t : WorkflowType) → same_type t t ≡ true
same_type_refl request_funds = refl
same_type_refl buy_ticket = refl
same_type_refl admin_head_operation = refl
same_type_refl pay_random_winner = refl

pub find-insert_workflow :
    (id : ℕ) (type : WorkflowType) (actor key : String) (payload : JsonObj) (s : Sys)
    → find_workflow_by_idempotency type key (insert_workflow id type actor key payload s)
      ≡ some (new_workflow id type actor key payload)
unfolding find_workflow_by_idempotency insert_workflow append_event
find-insert_workflow id type actor key payload s = rw (same_type_refl type, eq_refl key) refl

-- What a creation returns is what a lookup by the key finds afterwards.
pub find-create_workflow :
    (others : Sys → Sys) (id : ℕ) (type : WorkflowType) (actor key : String) (payload : JsonObj)
    (s : Sys)
    → let (w, s') = create_workflow others id type actor key payload s in
      find_workflow_by_idempotency type key s' ≡ some w
unfolding create_workflow
find-create_workflow others id type actor key payload s =
    elim (Option-cases (find_workflow_by_idempotency type key s)) [
      | inr (w, e) ↦ rw (e, create_workflow) e
      | inl e ↦ elim (Option-cases (find_workflow_by_idempotency type key (others s))) [
        | inr (w, e') ↦ rw (e, create_workflow, e') e'
        | inl e' ↦
            rw (e, create_workflow, e') (find-insert_workflow id type actor key payload (others s))
      ]
    ]

-- Without interference a creation for a new key inserts the row.
pub create_workflow-new :
    (id : ℕ) (type : WorkflowType) (actor key : String) (payload : JsonObj) (s : Sys)
    → find_workflow_by_idempotency type key s ≡ none
    → create_workflow (λ t. t) id type actor key payload s
      ≡ (new_workflow id type actor key payload, insert_workflow id type actor key payload s)
unfolding create_workflow
create_workflow-new id type actor key payload s e = rw (e, create_workflow, e) refl

-- A creation that another process has overtaken returns the other's row.
pub create_workflow-overtaken :
    (others : Sys → Sys) (id : ℕ) (type : WorkflowType) (actor key : String) (payload : JsonObj)
    (s : Sys) (w : Workflow)
    → find_workflow_by_idempotency type key s ≡ none
    → find_workflow_by_idempotency type key (others s) ≡ some w
    → create_workflow others id type actor key payload s ≡ (w, others s)
unfolding create_workflow
create_workflow-overtaken others id type actor key payload s w e found =
    rw (e, create_workflow, found) refl

create_workflow-known :
    (others : Sys → Sys) (id : ℕ) (type : WorkflowType) (actor key : String) (payload : JsonObj)
    (s : Sys) (w : Workflow)
    → find_workflow_by_idempotency type key s ≡ some w
    → create_workflow others id type actor key payload s ≡ (w, s)
unfolding create_workflow
create_workflow-known others id type actor key payload s w e = rw (e, create_workflow) refl

-- createWorkflow is idempotent: whatever other processes do between its lookup and its
-- transaction, a later call for the same type and key, with any actor, payload and new id, returns
-- the row that the first call returned and changes nothing.
pub create_workflow-again :
    (others others' : Sys → Sys) (id id' : ℕ) (type : WorkflowType) (actor actor' key : String)
    (payload payload' : JsonObj) (s : Sys)
    → let (w, s') = create_workflow others id type actor key payload s in
      create_workflow others' id' type actor' key payload' s' ≡ (w, s')
create_workflow-again others others' id id' type actor actor' key payload payload' s =
    create_workflow-known others' id' type actor' key payload'
      ((create_workflow others id type actor key payload s).1)
      ((create_workflow others id type actor key payload s).0)
      (find-create_workflow others id type actor key payload s)
