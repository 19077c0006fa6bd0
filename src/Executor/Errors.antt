-- ===== src/Executor/Errors.antt =====
-- How lib/executor.ts tells errors apart: isDeferredPreconditionError and
-- asWorkflowExecutionError.
use Prim.Native.String.{◌++◌}
use Prim.Native.Char.{code}
use eutxo_l2_interop.Base.{
  String, Bool, true, false, ◌&&◌, ◌||◌, not, Option, none, some, ◌==◌, str_eq, is_empty,
}
use eutxo_l2_interop.Store.{
  Exception, lock_lost, deferred, head_operation, request_funds_error, ticket_error, plain,
}

abbrev pub starts_with : String → String → Bool
starts_with String.[] t = true
starts_with (String.◌∷◌ c s) String.[] = false
starts_with (String.◌∷◌ c s) (String.◌∷◌ d t) = code c == code d && starts_with s t

-- `t.includes(s)`.
unfoldable pub includes : String → String → Bool
includes s String.[] = is_empty s
includes s (String.◌∷◌ d t) = starts_with s (String.◌∷◌ d t) || includes s t

unfoldable pub is_deferred_precondition_error : Option String → Bool
is_deferred_precondition_error none = false
is_deferred_precondition_error (some code) =
    str_eq code "BUY_TICKET_REAL_ARTIFACTS_REQUIRED"
    || str_eq code "BUY_TICKET_TARGET_HTLC_NOT_FOUND"
    || str_eq code "BUY_TICKET_SOURCE_HTLC_NOT_FOUND"
    || str_eq code "BUY_TICKET_PREIMAGE_REQUIRED"

pub record WorkflowExecutionError : Type 0 where
  pub message : String
  pub error_code : Option String
  pub retryable : Option Bool

-- The details of a head operation's error are kept as the text that the message ends with.
abbrev pub detail_text : Option String → String
detail_text none = ""
detail_text (some details) = " " ++ details

unfoldable pub as_workflow_execution_error : Exception → WorkflowExecutionError
unfolding includes
as_workflow_execution_error (head_operation code message details) =
    let full = message ++ detail_text details in
    record {
      message = full;
      error_code = some code;
      retryable = some (
          not
            (includes "NoFuelUTXOFound" full || includes "HEAD_C_COMMIT_PRECONDITION_FAILED" full));
    }
as_workflow_execution_error (request_funds_error code message retryable) = record {
  message = message;
  error_code = some code;
  retryable = some retryable;
}
as_workflow_execution_error (ticket_error code message retryable) = record {
  message = message;
  error_code = some code;
  retryable = some retryable;
}
as_workflow_execution_error (plain message) = record {
  message = message;
  error_code = none;
  retryable = none;
}
as_workflow_execution_error lock_lost = record {
  message = "WORKFLOW_LOCK_OWNERSHIP_LOST";
  error_code = none;
  retryable = none;
}
as_workflow_execution_error (deferred message _ _ _) = record {
  message = message;
  error_code = none;
  retryable = none;
}
