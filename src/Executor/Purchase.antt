-- ===== src/Executor/Purchase.antt =====
-- executeBuyTicketWorkflow of lib/executor.ts.
use Prim.Native.String.{◌++◌}
use eutxo_l2_interop.Base.{
  ℕ, String, false, ◌&&◌, [], ◌∷◌, Option, none, some, if◌then◌else◌, str_eq,
}
use eutxo_l2_interop.Store.{
  null, JsonObj, Value, str, get, put, text_of, prepare, submit, confirm, HeadName, head_a, head_b,
  head_c, ticket_error, M, ◌>>=◌, ◌>>◌, return, raise, modify,
}
use eutxo_l2_interop.Heads.{upsert_head_state}
use eutxo_l2_interop.Queue.Steps.{append_event}
use eutxo_l2_interop.Queue.Claim.{WorkflowWithSteps}
use eutxo_l2_interop.Queue.Lock.{set_workflow_draft_result_locked}
use eutxo_l2_interop.Queue.Outcome.{mark_workflow_succeeded_locked}
use eutxo_l2_interop.Routes.Payload.{value_or_null}
use eutxo_l2_interop.Executor.Step.{unless_succeeded, parse_draft_result}
use eutxo_l2_interop.Executor.Ticket.{BuyTicketPayload, buy_ticket_service, source_head_of}
use eutxo_l2_interop.Executor.Workflows.{
  Services, is_truthy, parse_payload, parse_json, draft_of, save_draft, event,
}

abbrev pub payload_record : JsonObj → BuyTicketPayload
payload_record p = record {
  address = text_of (get "address" p);
  amount_lovelace = text_of (get "amountLovelace" p);
  source_head = text_of (get "sourceHead" p);
  htlc_hash = text_of (get "htlcHash" p);
  timeout_minutes = text_of (get "timeoutMinutes" p);
  preimage = text_of (get "preimage" p);
  submitted_source_tx_hash = text_of (get "submittedSourceTxHash" p);
  submitted_source_htlc_ref = text_of (get "submittedSourceHtlcRef" p);
}

-- The entry of an event's data that repeats one of the result.
abbrev pub entry : (name key : String) → JsonObj → String × Value
entry name key r = (name, value_or_null (get key r))

abbrev pub automation_message : JsonObj → String
automation_message r =
    if str_eq (text_of (get "headBAutomationAction" r)) "reused"
    then "head_b_automation_reused_existing_lock"
    else "head_b_automation_created_new_lock"

-- The six events of a finished submission.
unfoldable pub report_purchase : ℕ → JsonObj → M (Unit {0})
unfolding get append_event
report_purchase id r =
    event id "htlc_source_locked" (
      entry "sourceHead" "sourceHead" r
      ∷ entry "hashRef" "hashRef" r
      ∷ entry "sourceHtlcRef" "sourceHtlcRef" r
      ∷ [])
    >> event id "htlc_head_b_locked"
        (entry "hashRef" "hashRef" r ∷ entry "headBHtlcRef" "headBHtlcRef" r ∷ [])
    >> event id (automation_message r) (
        entry "hashRef" "hashRef" r
        ∷ entry "headBHtlcRef" "headBHtlcRef" r
        ∷ entry "action" "headBAutomationAction" r
        ∷ [])
    >> event id "ida_lock"
        (entry "action" "headBAutomationAction" r ∷ entry "headBHtlcRef" "headBHtlcRef" r ∷ [])
    >> event id "ida_claim_target" (
        entry "action" "headBClaimAction" r
        ∷ entry "txHash" "headBClaimTxHash" r
        ∷ entry "pairDetected" "pairDetected" r
        ∷ [])
    >> event id "ida_claim_source" (
        entry "action" "sourceClaimAction" r
        ∷ entry "txHash" "sourceClaimTxHash" r
        ∷ entry "claimOrder" "claimOrder" r
        ∷ [])

-- `value ?? default`.
abbrev pub coalesce : Option Value → Value → Value
coalesce none default = default
coalesce (some null) default = default
coalesce (some v) default = v

abbrev pub confirmed_meta : JsonObj → JsonObj → JsonObj
confirmed_meta p r =
    ("sourceHead", value_or_null (get "sourceHead" p))
    ∷ ("hashRef", coalesce (get "hashRef" r) (value_or_null (get "htlcHash" p)))
    ∷ entry "sourceHtlcRef" "sourceHtlcRef" r
    ∷ entry "headBHtlcRef" "headBHtlcRef" r
    ∷ entry "sourceClaimAction" "sourceClaimAction" r
    ∷ entry "headBClaimAction" "headBClaimAction" r
    ∷ entry "sourceClaimTxHash" "sourceClaimTxHash" r
    ∷ entry "headBClaimTxHash" "headBClaimTxHash" r
    ∷ []

abbrev pub detail_of_head : HeadName → String
detail_of_head head_a = "HTLC created for buy ticket from headA"
detail_of_head head_b = "HTLC created for buy ticket from headB"
detail_of_head head_c = "HTLC created for buy ticket from headC"

-- The snapshot of the source head, one of the two that a purchase can start on.
abbrev pub upsert_source : Option HeadName → M (Unit {0})
upsert_source none = return tt
upsert_source (some head) = modify (upsert_head_state head "open" (detail_of_head head))

abbrev pub ref_text : JsonObj → String
ref_text r = text_of (some (coalesce (get "sourceHtlcRef" r) (str "n/a")))

unfoldable pub confirm_purchase : (id worker : ℕ) → JsonObj → JsonObj → M JsonObj
unfolding get put append_event set_workflow_draft_result_locked upsert_head_state
confirm_purchase id worker p r =
    let result = put "status" (str "confirmed_with_real_artifacts") r in
    event id "ida_claimed_both_htlcs" (confirmed_meta p r)
    >> set_workflow_draft_result_locked id result worker
    >> upsert_source (source_head_of (text_of (get "sourceHead" p)))
    >> modify (
        upsert_head_state head_b "open" ("Buy ticket confirmed with sourceRef=" ++ ref_text result))
    >> return result

unfoldable pub execute_buy_ticket_workflow :
    Services → (lock_ms : ℕ) → WorkflowWithSteps → (worker : ℕ) → M (Unit {0})
unfolding parse_json unless_succeeded buy_ticket_service report_purchase confirm_purchase
    mark_workflow_succeeded_locked get parse_draft_result set_workflow_draft_result_locked
execute_buy_ticket_workflow services lock_ms wf worker = parse_payload wf >>= λ payload.
    unless_succeeded lock_ms wf prepare worker tt (
      if is_truthy (get "address" payload)
        && is_truthy (get "amountLovelace" payload)
        && is_truthy (get "sourceHead" payload)
        && is_truthy (get "htlcHash" payload)
        && is_truthy (get "timeoutMinutes" payload)
      then return tt
      else raise (ticket_error "BUY_TICKET_INVALID_INPUT" "buy_ticket payload is incomplete" false))
    >> (unless_succeeded lock_ms wf submit worker (draft_of wf) (
          buy_ticket_service services.ledger (payload_record payload) >>= λ r.
          report_purchase wf.row.id r >> save_draft wf.row.id worker r)
        >>= λ result.
            unless_succeeded lock_ms wf confirm worker result
              (confirm_purchase wf.row.id worker payload result)
            >>= λ final. mark_workflow_succeeded_locked wf.row.id final worker)
