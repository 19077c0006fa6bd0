-- ===== src/Interleaving.antt =====
-- Every way in which the workflow table of src/final-demo is written, as one type of operations:
-- any number of workers, administrators and requests, in any order, with time passing in between.
pub mod Rule
pub mod Invariant
pub mod Claims
pub mod Writes
pub mod Requeues
pub mod History
pub mod Consistency
pub mod Keys
pub mod Fencing
use eutxo_l2_interop.Base.{ℕ, ◌+◌, String, Bool, List, [], ◌∷◌, Option, none, some}
use eutxo_l2_interop.Store.{
  Sys, Workflow, WorkflowType, WorkflowStatus, StepName, Level, JsonObj, Value, M, update_where,
}
use eutxo_l2_interop.Queue.Steps.{append_event, update_step, update_step_with_event}
use eutxo_l2_interop.Queue.Create.{create_workflow, insert_workflow}
use eutxo_l2_interop.Queue.Claim.{claim_due_workflows, claim_loop, claim_one}
use eutxo_l2_interop.Queue.Lock.{
  refresh_workflow_lock, set_workflow_draft_result_locked, set_workflow_draft_result,
}
use eutxo_l2_interop.Queue.Outcome.{
  mark_workflow_succeeded, mark_workflow_succeeded_locked, mark_workflow_failed,
  mark_workflow_failed_locked, mark_workflow_deferred_locked, FailureOptions, DeferOptions,
}
use eutxo_l2_interop.Queue.Retry.{retry_workflow_now}
use eutxo_l2_interop.Queue.Reconcile.{reconcile_buy_ticket_claims}
use eutxo_l2_interop.Routes.HtlcSubmit.{persist_submission}
use eutxo_l2_interop.Routes.BuyTicket.{BuyTicketRequest, replay}

-- `create` has what others do between its lookup and its transaction, and `both` is for two
-- operations of others one after the other.
pub data Operation : Type 0 where
  time_passes : ℕ → Operation
  both : Operation → Operation → Operation
  create :
      (others : Operation) (id : ℕ) (type : WorkflowType) (actor key : String) (payload : JsonObj)
      → Operation
  claim : (order : List Workflow → List Workflow) (lock_ms limit worker : ℕ) → Operation
  refresh : (lock_ms id worker : ℕ) → Operation
  save_draft_locked : (id : ℕ) (result : JsonObj) (worker : ℕ) → Operation
  save_draft : (id : ℕ) (result : JsonObj) → Operation
  succeed_locked : (id : ℕ) (result : JsonObj) (worker : ℕ) → Operation
  succeed : (id : ℕ) (result : JsonObj) → Operation
  fail_locked : (id : ℕ) (reason : String) (worker : ℕ) (options : FailureOptions) → Operation
  fail : (id : ℕ) (reason : String) (options : FailureOptions) → Operation
  defer_locked : (id : ℕ) (reason : String) (worker : ℕ) (options : DeferOptions) → Operation
  retry : (id : ℕ) (force : Bool) (reason : Option String) → Operation
  reconcile :
      (order : List Workflow → List Workflow) (number_of : Value → Option ℕ) (max_env limit : ℕ)
      → Operation
  submit_artifacts : (tx_hash ref : String) (preimage key : Option String) → Operation
  replay_request : (request : BuyTicketRequest) (existing : Workflow) → Operation
  step :
      (id : ℕ) (name : StepName) (status : WorkflowStatus) (level : Level) (message : String)
      (meta : Option JsonObj) (detail : Option String)
      → Operation

-- The operations as the code performs them; a thrown exception leaves what was written.
unfoldable pub perform : Operation → Sys → Sys
perform (time_passes ms) s = record s { clock = s.clock + ms }
perform (both first second) s = perform second (perform first s)
perform (create others id type actor key payload) s =
    (create_workflow (λ s'. perform others s') id type actor key payload s).1
perform (claim order lock_ms limit worker) s = (claim_due_workflows order lock_ms limit worker s).1
perform (refresh lock_ms id worker) s = (refresh_workflow_lock lock_ms id worker s).1
perform (save_draft_locked id result worker) s =
    (set_workflow_draft_result_locked id result worker s).1
perform (save_draft id result) s = (set_workflow_draft_result id result s).1
perform (succeed_locked id result worker) s = (mark_workflow_succeeded_locked id result worker s).1
perform (succeed id result) s = (mark_workflow_succeeded id result s).1
perform (fail_locked id reason worker options) s =
    (mark_workflow_failed_locked id reason worker options s).1
perform (fail id reason options) s = (mark_workflow_failed id reason options s).1
perform (defer_locked id reason worker options) s =
    (mark_workflow_deferred_locked id reason worker options s).1
perform (retry id force reason) s = (retry_workflow_now id force reason s).1
perform (reconcile order number_of max_env limit) s =
    (reconcile_buy_ticket_claims order number_of max_env limit s).1
perform (submit_artifacts tx_hash ref preimage key) s =
    persist_submission tx_hash ref preimage key s
perform (replay_request request existing) s = replay request existing s
perform (step id name status level message meta detail) s =
    update_step_with_event id name status level message meta detail s

-- A history of operations, in the order in which they reach the database.
unfoldable pub perform_all : List Operation → Sys → Sys
unfolding perform
perform_all [] s = s
perform_all (op ∷ ops) s = perform_all ops (perform op s)
