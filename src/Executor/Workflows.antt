-- ===== src/Executor/Workflows.antt =====
-- What the executors of lib/executor.ts share, and executeRequestFundsWorkflow.
use eutxo_l2_interop.Base.{
  ℕ, ◌+◌, String, Bool, true, false, ◌&&◌, not, [], Option, none, some, if◌then◌else◌, ◌==◌,
  is_empty, or_else,
}
use eutxo_l2_interop.Store.{
  JsonObj, JsonText, malformed, scalar, object, Value, null, num, str, strs, flag, other, get,
  text_of, prepare, submit, confirm, Level, HeadName, head_a, request_funds_error, plain, M, ◌>>=◌,
  ◌>>◌, return, raise, modify,
}
use eutxo_l2_interop.Heads.{upsert_head_state, Probe}
use eutxo_l2_interop.Queue.Steps.{append_event}
use eutxo_l2_interop.Queue.Claim.{WorkflowWithSteps}
use eutxo_l2_interop.Queue.Lock.{set_workflow_draft_result_locked}
use eutxo_l2_interop.Queue.Outcome.{mark_workflow_succeeded_locked}
use eutxo_l2_interop.Executor.Step.{unless_succeeded, parse_draft_result}
use eutxo_l2_interop.Executor.Funds.{Hydra, request_funds_service}
use eutxo_l2_interop.Executor.Ticket.{Ledger}

pub data HeadOperation : Type 0 where
  open_head_a open_head_b open_heads_ab commit_head_c_charlie commit_head_c_admin : HeadOperation

pub record ScriptOutput : Type 0 where
  pub stdout : String
  pub stderr : String

-- What the executors call: the two services' worlds, the two transactions of a payout, the script
-- of a head operation and the nodes' answers to a heartbeat.
pub record Services : Type 0 where
  pub hydra : Hydra
  pub ledger : Ledger
  pub submit_pay_random_winner : M JsonObj
  pub relay_pay_random_winner : JsonObj → M JsonObj
  pub run_head_operation : HeadOperation → M ScriptOutput
  pub probe_heads : M (Option (HeadName → Probe))

-- `!payload.key`.
abbrev pub is_truthy : Option Value → Bool
is_truthy none = false
is_truthy (some null) = false
is_truthy (some (flag b)) = b
is_truthy (some (num n)) = not (n == 0)
is_truthy (some (str t)) = not (is_empty t)
is_truthy (some (strs _)) = true
is_truthy (some (other _)) = true

-- `JSON.parse(workflow.payloadJson || "{}")`; a payload that is no object has none of the keys.
unfoldable pub parse_json : JsonText → M JsonObj
parse_json malformed = raise (plain "payloadJson is not JSON")
parse_json scalar = return []
parse_json (object payload) = return payload

abbrev pub parse_payload : WorkflowWithSteps → M JsonObj
parse_payload wf = parse_json wf.row.payload_json

abbrev pub draft_of : WorkflowWithSteps → JsonObj
draft_of wf = or_else (parse_draft_result wf) []

-- The service's result is stored before the step ends, so that a retry can resume behind it.
abbrev pub save_draft : (id worker : ℕ) → JsonObj → M JsonObj
save_draft id worker result = set_workflow_draft_result_locked id result worker >> return result

abbrev pub event : ℕ → String → JsonObj → M (Unit {0})
event id message meta = modify (append_event id Level.info message (some meta))

unfoldable pub execute_request_funds_workflow :
    Services → (lock_ms : ℕ) → WorkflowWithSteps → (worker : ℕ) → M (Unit {0})
unfolding parse_json unless_succeeded request_funds_service upsert_head_state
    mark_workflow_succeeded_locked get parse_draft_result append_event
    set_workflow_draft_result_locked
execute_request_funds_workflow services lock_ms wf worker = parse_payload wf >>= λ payload.
    unless_succeeded lock_ms wf prepare worker tt (
      if is_truthy (get "address" payload)
        && is_truthy (get "amountLovelace" payload)
        && is_truthy (get "submittedTxHash" payload)
      then return tt
      else raise (
          request_funds_error "REQUEST_FUNDS_INVALID_INPUT" "request_funds payload is incomplete"
            false))
    >> (unless_succeeded lock_ms wf submit worker (draft_of wf) (
          request_funds_service services.hydra (text_of (get "amountLovelace" payload))
            (text_of (get "submittedTxHash" payload)) (wf.row.attempt_count + 1)
          >>= save_draft wf.row.id worker)
        >>= λ result.
            unless_succeeded lock_ms wf confirm worker tt
              (modify (upsert_head_state head_a "open" "Custodial funding workflow completed"))
            >> mark_workflow_succeeded_locked wf.row.id result worker)
