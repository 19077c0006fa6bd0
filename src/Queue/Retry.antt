-- ===== src/Queue/Retry.antt =====
-- retryWorkflowNow of lib/workflows.ts: an administrator's re-queue.
use eutxo_l2_interop.Base.{
  ℕ, String, Bool, ◌&&◌, not, [], ◌∷◌, Option, none, some, ◌==◌, if◌then◌else◌, find,
}
use eutxo_l2_interop.Store.{
  Sys, Level, flag, str, null, Value, Workflow, WorkflowStep, WorkflowStatus, is_running,
  is_succeeded, is_failed, is_cancelled, pending, running, succeeded, failed, cancelled,
  update_where, Exception, plain, ok, throw, M,
}
use eutxo_l2_interop.Queue.Steps.{append_event}
use eutxo_l2_interop.Queue.Metrics.{record_manual_retry}

-- The columns that a re-queue resets.
unfoldable pub requeued_data : Workflow → Workflow
requeued_data w = record w {
  status = WorkflowStatus.pending;
  next_retry_at = none;
  lock_expires_at = none;
  locked_by = none;
  completed_at = none;
  error_message = none;
  last_error_code = none;
}

-- A forced re-queue of a succeeded workflow forgets its attempts and its result too.
unfoldable pub reset_data : Workflow → Workflow
unfolding requeued_data
reset_data w = record (requeued_data w) { attempt_count = 0; result_json = none }

abbrev pub reset_step : WorkflowStep → WorkflowStep
reset_step st = record st {
  status = WorkflowStatus.pending;
  attempt = 0;
  started_at = none;
  finished_at = none;
  error_detail = none;
}

abbrev pub status_name : WorkflowStatus → String
status_name pending = "pending"
status_name running = "running"
status_name succeeded = "succeeded"
status_name failed = "failed"
status_name cancelled = "cancelled"

abbrev pub text_or_null : Option String → Value
text_or_null none = null
text_or_null (some t) = str t

-- The checks before anything is written.
unfoldable pub retry_conflict : Bool → WorkflowStatus → Option Exception
retry_conflict force status =
    if not force && is_running status
    then some (plain "WORKFLOW_RETRY_CONFLICT_RUNNING")
    else if not force && is_succeeded status
    then some (plain "WORKFLOW_RETRY_CONFLICT_SUCCEEDED")
    else if not force && (not (is_failed status) && not (is_cancelled status))
    then some (plain "WORKFLOW_RETRY_CONFLICT_INVALID_STATUS")
    else none

-- The tables after the re-queue of a workflow that was read as `current`.
unfoldable pub requeue : Bool → Workflow → Sys → Sys
unfolding requeued_data reset_data update_where
requeue force current s =
    if force && is_succeeded current.status
    then record s {
      workflows = update_where (λ w. w.id == current.id) reset_data s.workflows;
      steps = update_where (λ st. st.workflow_id == current.id) reset_step s.steps;
    }
    else record s { workflows = update_where (λ w. w.id == current.id) requeued_data s.workflows }

unfoldable pub retry_workflow_now : ℕ → Bool → Option String → M (Unit {0})
unfolding retry_conflict requeue append_event record_manual_retry
retry_workflow_now id force reason s = elim (find (λ w. w.id == id) s.workflows) [
  | none ↦ (throw (plain "WORKFLOW_NOT_FOUND"), s)
  | some current ↦ elim (retry_conflict force current.status) [
    | some e ↦ (throw e, s)
    | none ↦ (
      ok tt,
      record_manual_retry force (
          append_event id Level.warn
            (if force then "Workflow manually force re-queued" else "Workflow manually re-queued")
            (some (
              ("force", flag force)
              ∷ ("previousStatus", str (status_name current.status))
              ∷ ("reason", text_or_null reason)
              ∷ []))
            (requeue force current s)),
    )
  ]
]
