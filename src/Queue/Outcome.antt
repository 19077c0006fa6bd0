-- ===== src/Queue/Outcome.antt =====
-- How an execution ends, in lib/workflows.ts: markWorkflowSucceeded, markWorkflowFailed and
-- markWorkflowDeferredLocked, with their locked forms and deriveErrorCode.
use Prim.Native.Char.{Char, code}
use eutxo_l2_interop.Base.{
  ℕ, ◌+◌, ◌-◌, ◌*◌, ◌^◌, min, max, String, Bool, true, false, ◌&&◌, ◌||◌, [], ◌∷◌, Option, none,
  some, ◌==◌, ltb, leb, if◌then◌else◌, find, or_else,
}
use eutxo_l2_interop.Store.{
  Sys, Level, JsonObj, object, null, num, str, flag, Value, Workflow, WorkflowStep, WorkflowStatus,
  StepName, prepare, submit, confirm, lock_lost, throw, M, ◌>>◌, modify,
}
use eutxo_l2_interop.Queue.Steps.{append_event, is_step}
use eutxo_l2_interop.Queue.Metrics.{record_failure_outcome}
use eutxo_l2_interop.Queue.Lock.{holds_lock, update_locked, update_by_id, record_not_found}

unfoldable pub succeeded_data : ℕ → JsonObj → Workflow → Workflow
succeeded_data now result w = record w {
  status = WorkflowStatus.succeeded;
  result_json = some (object result);
  next_retry_at = none;
  error_message = none;
  last_error_code = none;
  lock_expires_at = none;
  locked_by = none;
  completed_at = some now;
}

unfoldable pub mark_workflow_succeeded : ℕ → JsonObj → M (Unit {0})
unfolding update_by_id succeeded_data append_event
mark_workflow_succeeded id result s =
    (update_by_id id (succeeded_data s.clock result)
        >> modify (append_event id Level.info "Workflow execution completed" (some result)))
      s

unfoldable pub mark_workflow_succeeded_locked : ℕ → JsonObj → ℕ → M (Unit {0})
unfolding update_locked holds_lock succeeded_data append_event
mark_workflow_succeeded_locked id result worker s =
    (update_locked (holds_lock id worker) (succeeded_data s.clock result)
        >> modify (append_event id Level.info "Workflow execution completed" (some result)))
      s

abbrev pub is_upper : Char → Bool
is_upper c = leb b'A' (code c) && leb (code c) b'Z'

-- The class `[A-Z0-9_]`.
abbrev pub is_code_char : Char → Bool
is_code_char c = is_upper c || (leb b'0' (code c) && leb (code c) b'9') || code c == b'_'

-- The longest start of the text in that class.
unfoldable pub code_run : String → String
code_run String.[] = String.[]
code_run (String.◌∷◌ c s) = if is_code_char c then String.◌∷◌ c (code_run s) else String.[]

abbrev pub has_two : String → Bool
has_two (String.◌∷◌ _ (String.◌∷◌ _ _)) = true
has_two _ = false

-- The first match of `/[A-Z][A-Z0-9_]{2,}/`.
unfoldable pub match_code : String → Option String
unfolding code_run
match_code String.[] = none
match_code (String.◌∷◌ c s) =
    if is_upper c && has_two (code_run s) then some (String.◌∷◌ c (code_run s)) else match_code s

unfoldable pub derive_error_code : String → String
unfolding match_code
derive_error_code reason = or_else (match_code reason) "WORKFLOW_ERROR"

pub record FailureOptions : Type 0 where
  pub error_code : Option String
  pub retryable : Option Bool

-- `options?.retryable !== false`.
abbrev pub is_retryable : Option Bool → Bool
is_retryable (some false) = false
is_retryable _ = true

abbrev pub can_retry : FailureOptions → Workflow → Bool
can_retry options w = is_retryable options.retryable && ltb (w.attempt_count + 1) w.max_attempts

unfoldable pub failure_delay_sec : ℕ → ℕ
failure_delay_sec attempt = min 60 (2 ^ attempt)

unfoldable pub failed_data : ℕ → String → FailureOptions → Workflow → Workflow
unfolding failure_delay_sec
failed_data now reason options w = record w {
  status = if can_retry options w then WorkflowStatus.failed else WorkflowStatus.cancelled;
  error_message = some reason;
  last_error_code = some (or_else options.error_code (derive_error_code reason));
  attempt_count = w.attempt_count + 1;
  next_retry_at =
      if can_retry options w
      then some (now + failure_delay_sec (w.attempt_count + 1) * 1000)
      else none;
  lock_expires_at = none;
  locked_by = none;
  completed_at = if can_retry options w then none else some now;
}

abbrev pub failure_meta : String → FailureOptions → Workflow → JsonObj
failure_meta reason options w =
    ("reason", str reason)
    ∷ ("errorCode", str (or_else options.error_code (derive_error_code reason)))
    ∷ ("attempt", num (w.attempt_count + 1))
    ∷ (
      "retryDelaySec",
      if can_retry options w then num (failure_delay_sec (w.attempt_count + 1)) else null,
    )
    ∷ ("canRetry", flag (can_retry options w))
    ∷ ("retryable", flag (is_retryable options.retryable))
    ∷ ("maxAttempts", num w.max_attempts)
    ∷ []

-- What follows the update of a failed row; `current` is the row as it was read.
unfoldable pub report_failure : ℕ → String → FailureOptions → Workflow → Sys → Sys
unfolding append_event record_failure_outcome
report_failure id reason options current s = record_failure_outcome (can_retry options current) (
    append_event id Level.error "Workflow execution failed"
      (some (failure_meta reason options current)) s)

unfoldable pub mark_workflow_failed : ℕ → String → FailureOptions → M (Unit {0})
unfolding update_by_id failed_data report_failure
mark_workflow_failed id reason options s = elim (find (λ w. w.id == id) s.workflows) [
  | none ↦ (throw record_not_found, s)
  | some current ↦
      (update_by_id id (failed_data s.clock reason options)
          >> modify (report_failure id reason options current))
        s
]

unfoldable pub mark_workflow_failed_locked : ℕ → String → ℕ → FailureOptions → M (Unit {0})
unfolding update_locked holds_lock failed_data report_failure
mark_workflow_failed_locked id reason worker options s =
    elim (find (holds_lock id worker) s.workflows) [
      | none ↦ (throw lock_lost, s)
      | some current ↦
          (update_locked (holds_lock id worker) (failed_data s.clock reason options)
              >> modify (report_failure id reason options current))
            s
    ]

pub record DeferOptions : Type 0 where
  pub error_code : String
  pub base_retry_delay_sec : ℕ
  pub step_name : Option StepName

abbrev pub attempt_of : Option WorkflowStep → ℕ
attempt_of none = 1
attempt_of (some st) = st.attempt

unfoldable pub step_attempt : ℕ → Option StepName → Sys → ℕ
step_attempt id none s = 1
step_attempt id (some name) s = max 1 (attempt_of (find (is_step id name) s.steps))

unfoldable pub defer_delay_sec : (base attempt : ℕ) → ℕ
defer_delay_sec base attempt = max 1 (min 120 (base * 2 ^ (attempt - 1)))

unfoldable pub deferred_data : (now delay_sec : ℕ) → Workflow → Workflow
deferred_data now delay_sec w = record w {
  status = WorkflowStatus.pending;
  next_retry_at = some (now + delay_sec * 1000);
  lock_expires_at = none;
  locked_by = none;
  completed_at = none;
  error_message = none;
  last_error_code = none;
}

abbrev pub step_text : StepName → String
step_text prepare = "prepare"
step_text submit = "submit"
step_text confirm = "confirm"

abbrev pub step_value : Option StepName → Value
step_value none = null
step_value (some name) = str (step_text name)

unfoldable pub mark_workflow_deferred_locked : ℕ → String → ℕ → DeferOptions → M (Unit {0})
unfolding update_locked holds_lock deferred_data append_event step_attempt defer_delay_sec
mark_workflow_deferred_locked id reason worker options s =
    elim (find (holds_lock id worker) s.workflows) [
      | none ↦ (throw lock_lost, s)
      | some current ↦
          let attempt = step_attempt id options.step_name s in
          let delay = defer_delay_sec options.base_retry_delay_sec attempt in
          (update_locked (holds_lock id worker) (deferred_data s.clock delay)
              >> modify (
                  append_event id Level.info "Workflow execution deferred waiting for prerequisites"
                    (some (
                      ("reason", str reason)
                      ∷ ("errorCode", str options.error_code)
                      ∷ ("retryDelaySec", num delay)
                      ∷ ("stepName", step_value options.step_name)
                      ∷ ("stepAttempt", num attempt)
                      ∷ []))))
            s
    ]
