-- ===== src/Executor/Step.antt =====
-- executeWorkflowStep of lib/executor.ts, and what it reads of a claimed workflow.
use eutxo_l2_interop.Base.{
  ℕ, ◌+◌, String, Bool, true, false, ◌&&◌, [], ◌∷◌, Option, none, some, any, if◌then◌else◌, or_else,
}
use eutxo_l2_interop.Store.{
  JsonObj, malformed, scalar, object, Value, null, num, str, flag, StepName, prepare, submit,
  confirm, Level, WorkflowStatus, same_step, is_succeeded, Exception, lock_lost, deferred, M, ◌>>=◌,
  ◌>>◌, return, raise, modify, catch,
}
use eutxo_l2_interop.Queue.Steps.{update_step_with_event}
use eutxo_l2_interop.Queue.Claim.{WorkflowWithSteps}
use eutxo_l2_interop.Queue.Lock.{refresh_workflow_lock}
use eutxo_l2_interop.Queue.Outcome.{step_text}
use eutxo_l2_interop.Executor.Errors.{
  as_workflow_execution_error, is_deferred_precondition_error, WorkflowExecutionError,
}

unfoldable pub has_succeeded_step : WorkflowWithSteps → StepName → Bool
has_succeeded_step wf name =
    any (λ step. same_step step.name name && is_succeeded step.status) wf.steps

-- The code stores objects only; what is no JSON is `null` for it.
unfoldable pub parse_draft_result : WorkflowWithSteps → Option JsonObj
parse_draft_result wf = elim wf.row.result_json [
  | none ↦ none
  | some text ↦ elim text [ malformed ↦ none | scalar ↦ none | object result ↦ some result ]
]

abbrev pub step_started : StepName → String
step_started prepare = "Step prepare started"
step_started submit = "Step submit started"
step_started confirm = "Step confirm started"

abbrev pub step_succeeded : StepName → String
step_succeeded prepare = "Step prepare succeeded"
step_succeeded submit = "Step submit succeeded"
step_succeeded confirm = "Step confirm succeeded"

abbrev pub step_waiting : StepName → String
step_waiting prepare = "Step prepare waiting for prerequisites"
step_waiting submit = "Step submit waiting for prerequisites"
step_waiting confirm = "Step confirm waiting for prerequisites"

abbrev pub step_failed : StepName → String
step_failed prepare = "Step prepare failed"
step_failed submit = "Step submit failed"
step_failed confirm = "Step confirm failed"

abbrev pub attempt_meta : StepName → ℕ → JsonObj
attempt_meta name attempt = ("step", str (step_text name)) ∷ ("attempt", num attempt) ∷ []

abbrev pub code_value : Option String → Value
code_value none = null
code_value (some code) = str code

abbrev pub flag_value : Option Bool → Value
flag_value none = null
flag_value (some b) = flag b

abbrev pub waiting_meta : StepName → ℕ → WorkflowExecutionError → JsonObj
waiting_meta name attempt err =
    ("step", str (step_text name))
    ∷ ("attempt", num attempt)
    ∷ ("errorCode", code_value err.error_code)
    ∷ ("reason", str err.message)
    ∷ []

abbrev pub failed_meta : StepName → ℕ → WorkflowExecutionError → JsonObj
failed_meta name attempt err =
    ("step", str (step_text name))
    ∷ ("attempt", num attempt)
    ∷ ("errorCode", code_value err.error_code)
    ∷ ("retryable", flag_value err.retryable)
    ∷ ("reason", str err.message)
    ∷ []

abbrev pub is_lock_lost : Exception → Bool
is_lock_lost lock_lost = true
is_lock_lost _ = false

-- The `catch` of a step: a lost lock and a failure are thrown on, missing prerequisites become a
-- deferral.
unfoldable pub step_error : {A : Type 0} → ℕ → StepName → ℕ → Exception → M A
unfolding update_step_with_event as_workflow_execution_error is_deferred_precondition_error
step_error id name attempt error =
    let err = as_workflow_execution_error error in
    if is_lock_lost error
    then raise error
    else if is_deferred_precondition_error err.error_code
    then modify (
        update_step_with_event id name WorkflowStatus.pending Level.info (step_waiting name)
          (some (waiting_meta name attempt err)) none)
      >> raise
          (deferred err.message (or_else err.error_code "WORKFLOW_WAITING_PREREQUISITES") 2 name)
    else modify (
        update_step_with_event id name WorkflowStatus.failed Level.error (step_failed name)
          (some (failed_meta name attempt err)) (some err.message))
      >> raise error

-- `run` returns what the source's closure assigns to `result`.
unfoldable pub execute_workflow_step :
    {A : Type 0} → (lock_ms id : ℕ) → StepName → (attempt worker : ℕ) → M A → M A
unfolding refresh_workflow_lock update_step_with_event step_error
execute_workflow_step lock_ms id name attempt worker run =
    refresh_workflow_lock lock_ms id worker
    >> (modify (
          update_step_with_event id name WorkflowStatus.running Level.info (step_started name)
            (some (attempt_meta name attempt)) none)
        >> catch
            (run >>= λ a.
              refresh_workflow_lock lock_ms id worker
              >> (modify (
                    update_step_with_event id name WorkflowStatus.succeeded Level.info
                      (step_succeeded name) (some (attempt_meta name attempt)) none)
                  >> return a))
            (step_error id name attempt))

-- A step that has succeeded in an earlier execution is not run again, and `kept` stays the result.
unfoldable pub unless_succeeded :
    {A : Type 0} → (lock_ms : ℕ) → WorkflowWithSteps → StepName → (worker : ℕ) → A → M A → M A
unfolding has_succeeded_step execute_workflow_step
unless_succeeded lock_ms wf name worker kept run =
    if has_succeeded_step wf name
    then return kept
    else execute_workflow_step lock_ms wf.row.id name (wf.row.attempt_count + 1) worker run
