-- ===== src/Queue/Create.antt =====
-- createWorkflow and findWorkflowByIdempotency of lib/workflows.ts.
use eutxo_l2_interop.Base.{ℕ, String, Bool, ◌&&◌, [], ◌∷◌, Option, none, some, find, str_eq}
use eutxo_l2_interop.Store.{
  Sys, Level, JsonObj, object, str, Workflow, WorkflowStep, WorkflowType, WorkflowStatus, StepName,
  same_type, request_funds, buy_ticket, admin_head_operation, pay_random_winner,
}
use eutxo_l2_interop.Queue.Steps.{append_event}

abbrev pub has_key : WorkflowType → String → Workflow → Bool
has_key type key w = same_type w.type type && str_eq w.idempotency_key key

unfoldable pub find_workflow_by_idempotency : WorkflowType → String → Sys → Option Workflow
find_workflow_by_idempotency type key s = find (has_key type key) s.workflows

abbrev pub new_step : ℕ → StepName → WorkflowStep
new_step workflow_id name = record {
  workflow_id = workflow_id;
  name = name;
  status = WorkflowStatus.pending;
  attempt = 0;
  started_at = none;
  finished_at = none;
  error_detail = none;
}

abbrev pub type_name : WorkflowType → String
type_name request_funds = "request_funds"
type_name buy_ticket = "buy_ticket"
type_name admin_head_operation = "admin_head_operation"
type_name pay_random_winner = "pay_random_winner"

-- The row that the transaction writes, with the schema's defaults; `id` is what the database
-- generates.
abbrev pub new_workflow : ℕ → WorkflowType → String → String → JsonObj → Workflow
new_workflow id type actor key payload = record {
  id = id;
  type = type;
  status = WorkflowStatus.pending;
  max_attempts = 5;
  actor = actor;
  correlation_id = id;
  idempotency_key = key;
  locked_by = none;
  lock_expires_at = none;
  started_at = none;
  completed_at = none;
  last_error_code = none;
  payload_json = object payload;
  result_json = none;
  error_message = none;
  attempt_count = 0;
  next_retry_at = none;
}

unfoldable pub insert_workflow : ℕ → WorkflowType → String → String → JsonObj → Sys → Sys
unfolding append_event
insert_workflow id type actor key payload s =
    append_event id Level.info "Workflow created"
      (some (("type", str (type_name type)) ∷ ("actor", str actor) ∷ []))
      (record s {
        workflows = new_workflow id type actor key payload ∷ s.workflows;
        steps =
            new_step id StepName.prepare
            ∷ new_step id StepName.submit
            ∷ new_step id StepName.confirm
            ∷ s.steps;
      })

-- `others` is what other processes do between the lookup and the transaction. If one of them
-- created the workflow, the unique index on (idempotencyKey, type) makes the transaction fail
-- (P2002) and the row that is there is returned.
unfoldable pub create_workflow :
    (Sys → Sys) → ℕ → WorkflowType → String → String → JsonObj → Sys → Workflow × Sys
unfolding insert_workflow find_workflow_by_idempotency
create_workflow others id type actor key payload s =
    elim (find_workflow_by_idempotency type key s) [
      | some existing ↦ (existing, s)
      | none ↦
          let s' = others s in
          elim (find_workflow_by_idempotency type key s') [
            | some first ↦ (first, s')
            | none ↦ (
              new_workflow id type actor key payload,
              insert_workflow id type actor key payload s',
            )
          ]
    ]
