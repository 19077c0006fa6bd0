-- ===== src/Interleaving/Invariant.antt =====
-- What holds of every workflow row between two operations, and that each change keeps it.
use eutxo_l2_interop.Base.{ℕ, ◌<◌, String, ◌≡◌, true, ◌||◌, some, arith, is_some}
use eutxo_l2_interop.Store.{
  Workflow, WorkflowType, JsonObj, object, is_running, is_failed, is_succeeded, is_cancelled,
}
use eutxo_l2_interop.Queue.Create.{new_workflow}
use eutxo_l2_interop.Queue.Claim.{claim_data}
use eutxo_l2_interop.Queue.Outcome.{succeeded_data, FailureOptions, failed_data, deferred_data}
use eutxo_l2_interop.Queue.Retry.{requeued_data, reset_data}
use eutxo_l2_interop.Routes.Payload.{attached_data, attached_running_data}
use eutxo_l2_interop.Queue.Reconcile.{reconciled_data}

-- A lock is held exactly while the workflow runs, a completion time stands exactly on a finished
-- workflow, and a failed one waits for a retry that it is still allowed.
pub record IsConsistent (w : Workflow) : Type 0 where
  pub locked : is_some w.locked_by ≡ is_running w.status
  pub expires : is_some w.lock_expires_at ≡ is_running w.status
  pub completed : is_some w.completed_at ≡ (is_succeeded w.status || is_cancelled w.status)
  pub retried : is_failed w.status ≡ true → is_some w.next_retry_at ≡ true
  pub allowed : is_failed w.status ≡ true → w.attempt_count < w.max_attempts
  pub explained :
      (is_failed w.status || is_cancelled w.status) ≡ true
      → (is_some w.error_message ≡ true) × (is_some w.last_error_code ≡ true)

pub claim_data-IsConsistent :
    (lock_ms now worker : ℕ) (wf w : Workflow)
    → IsConsistent w
    → IsConsistent (claim_data lock_ms now worker wf w)
unfolding claim_data
claim_data-IsConsistent lock_ms now worker wf w h = ground arith

pub succeeded_data-IsConsistent :
    (now : ℕ) (result : JsonObj) (w : Workflow) → IsConsistent (succeeded_data now result w)
unfolding succeeded_data
succeeded_data-IsConsistent now result w = ground arith

pub failed_data-IsConsistent :
    (now : ℕ) (reason : String) (options : FailureOptions) (w : Workflow)
    → IsConsistent (failed_data now reason options w)
unfolding failed_data
failed_data-IsConsistent now reason options w = ground arith

pub deferred_data-IsConsistent :
    (now delay : ℕ) (w : Workflow) → IsConsistent (deferred_data now delay w)
unfolding deferred_data
deferred_data-IsConsistent now delay w = ground arith

pub requeued_data-IsConsistent : (w : Workflow) → IsConsistent (requeued_data w)
unfolding requeued_data
requeued_data-IsConsistent w = ground arith

pub reset_data-IsConsistent : (w : Workflow) → IsConsistent (reset_data w)
unfolding reset_data
reset_data-IsConsistent w = ground arith

pub reconciled_data-IsConsistent :
    (nth : ℕ) (payload : JsonObj) (w : Workflow) → IsConsistent (reconciled_data nth payload w)
unfolding reconciled_data
reconciled_data-IsConsistent nth payload w = ground arith

pub attached_data-IsConsistent :
    (payload : JsonObj) (w : Workflow) → IsConsistent (attached_data payload w)
unfolding attached_data
attached_data-IsConsistent payload w = ground arith

pub created-IsConsistent :
    (id : ℕ) (type : WorkflowType) (actor key : String) (payload : JsonObj)
    → IsConsistent (new_workflow id type actor key payload)
created-IsConsistent id type actor key payload = ground arith

pub refreshed-IsConsistent :
    (t : ℕ) (w : Workflow)
    → is_running w.status ≡ true
    → IsConsistent w
    → IsConsistent (record w { lock_expires_at = some t })
refreshed-IsConsistent t w running h = ground arith

pub drafted-IsConsistent :
    (result : JsonObj) (w : Workflow)
    → IsConsistent w
    → IsConsistent (record w { result_json = some (object result) })
drafted-IsConsistent result w h = ground arith

pub attached_running_data-IsConsistent :
    (payload : JsonObj) (w : Workflow)
    → IsConsistent w
    → IsConsistent (attached_running_data payload w)
unfolding attached_running_data
attached_running_data-IsConsistent payload w h = ground arith
