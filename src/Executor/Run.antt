-- ===== src/Executor/Run.antt =====
-- executeWorkflow of lib/executor.ts.
use eutxo_l2_interop.Base.{ℕ, some, if◌then◌else◌}
use eutxo_l2_interop.Store.{
  WorkflowType, request_funds, buy_ticket, admin_head_operation, pay_random_winner, Exception,
  lock_lost, deferred, M, return, raise, catch,
}
use eutxo_l2_interop.Queue.Claim.{WorkflowWithSteps}
use eutxo_l2_interop.Queue.Outcome.{
  mark_workflow_failed_locked, mark_workflow_deferred_locked, FailureOptions,
}
use eutxo_l2_interop.Executor.Errors.{as_workflow_execution_error, WorkflowExecutionError}
use eutxo_l2_interop.Executor.Step.{is_lock_lost}
use eutxo_l2_interop.Executor.Workflows.{Services, execute_request_funds_workflow}
use eutxo_l2_interop.Executor.Purchase.{execute_buy_ticket_workflow}
use eutxo_l2_interop.Executor.Payout.{execute_pay_random_winner_workflow}
use eutxo_l2_interop.Executor.HeadOps.{execute_admin_head_operation_workflow}

-- The four types are all that there are, so the code behind the four tests is not reached.
unfoldable pub dispatch :
    WorkflowType → Services → (lock_ms : ℕ) → WorkflowWithSteps → (worker : ℕ) → M (Unit {0})
unfolding execute_request_funds_workflow execute_buy_ticket_workflow
    execute_admin_head_operation_workflow execute_pay_random_winner_workflow
dispatch request_funds = execute_request_funds_workflow
dispatch buy_ticket = execute_buy_ticket_workflow
dispatch admin_head_operation = execute_admin_head_operation_workflow
dispatch pay_random_winner = execute_pay_random_winner_workflow

-- A lost lock ends the execution silently, any other error is thrown on.
abbrev pub ignore_lock_lost : Exception → M (Unit {0})
ignore_lock_lost error = if is_lock_lost error then return tt else raise error

abbrev pub failure_options : WorkflowExecutionError → FailureOptions
failure_options err = record { error_code = err.error_code; retryable = err.retryable }

-- The `catch` of executeWorkflow.
unfoldable pub execution_error : (id worker : ℕ) → Exception → M (Unit {0})
unfolding as_workflow_execution_error mark_workflow_failed_locked mark_workflow_deferred_locked
execution_error id worker lock_lost = return tt
execution_error id worker (deferred message code base_retry_delay_sec step_name) =
    catch
      (mark_workflow_deferred_locked id message worker (record {
        error_code = code;
        base_retry_delay_sec = base_retry_delay_sec;
        step_name = some step_name;
      }))
      ignore_lock_lost
execution_error id worker error =
    let err = as_workflow_execution_error error in
    catch (mark_workflow_failed_locked id err.message worker (failure_options err)) ignore_lock_lost

unfoldable pub execute_workflow :
    Services → (lock_ms : ℕ) → WorkflowWithSteps → (worker : ℕ) → M (Unit {0})
unfolding dispatch execution_error
execute_workflow services lock_ms wf worker =
    catch (dispatch wf.row.type services lock_ms wf worker) (execution_error wf.row.id worker)
