-- ===== src/Admin/Upkeep.antt =====
-- The other handlers of app/api/admin that change the store: workflows/[id]/retry, reconcile and
-- lottery/reconcile.
use Prim.Native.Char.{code}
use eutxo_l2_interop.Base.{
  ℕ, ◌-◌, ◌==◌, String, Bool, true, false, ◌&&◌, List, [], ◌∷◌, Option, none, some, if◌then◌else◌,
  leb, count_where, utf16_length, str_eq, matches_all, is_hex, to_lower, trim,
}
use eutxo_l2_interop.Store.{
  Sys, Workflow, Value, LotteryInstance, Result, ok, throw, Exception, lock_lost, deferred,
  head_operation, request_funds_error, ticket_error, plain, head_b, is_pending,
}
use eutxo_l2_interop.Queue.Retry.{retry_workflow_now}
use eutxo_l2_interop.Queue.Reconcile.{reconcile_buy_ticket_claims}
use eutxo_l2_interop.Lottery.{register_active_lottery_for_head}
use eutxo_l2_interop.Admin.{
  Passwords, retried, registered, reconciled, RequestHeaders, admin, AdminResponse, api_error,
  guarded, require_role,
}

-- `slice(0, n)`; a character of two units at the cut is left out whole.
unfoldable pub slice : ℕ → String → String
slice n String.[] = ""
slice n (String.◌∷◌ c text) =
    let wide = if leb 0x10000 (code c) then 2 else 1 in
    let rest = slice (n - wide) text in if leb wide n then String.◌∷◌ c rest else ""

abbrev pub sliced_reason : Option String → Option String
sliced_reason none = none
sliced_reason (some reason) = some (slice 300 reason)

-- `text.startsWith(prefix)`.
unfoldable pub starts_with : (start : String) → String → Bool
starts_with String.[] text = true
starts_with (String.◌∷◌ c start) String.[] = false
starts_with (String.◌∷◌ c start) (String.◌∷◌ d text) = code c == code d && starts_with start text

-- The answer to what retryWorkflowNow throws.
unfoldable pub retry_error : String → AdminResponse
unfolding starts_with
retry_error message =
    if str_eq message "WORKFLOW_NOT_FOUND"
    then api_error 404 "WORKFLOW_NOT_FOUND"
    else if starts_with "WORKFLOW_RETRY_CONFLICT" message
    then api_error 409 message
    else api_error 500 "INTERNAL_ERROR"

-- `error.message`.
abbrev pub message_of : Exception → String
message_of lock_lost = "WORKFLOW_LOCK_OWNERSHIP_LOST"
message_of (deferred message _ _ _) = message
message_of (head_operation code message details) = message
message_of (request_funds_error code message retryable) = message
message_of (ticket_error code message retryable) = message
message_of (plain message) = message

abbrev pub retry_answer : ℕ → Bool → Result (Unit {0}) × Sys → AdminResponse × Sys
retry_answer id force (ok _, s) = (retried id force, s)
retry_answer id force (throw e, s) = (retry_error (message_of e), s)

-- `force` is whether the body says `true`, and `reason` its text, if it is one.
unfoldable pub retry_workflow :
    Passwords
    → RequestHeaders
    → (id : ℕ) → (force : Bool) → (reason : Option String) → Sys
    → AdminResponse × Sys
unfolding guarded require_role retry_workflow_now retry_error slice
retry_workflow passwords headers id force reason s =
    guarded (require_role passwords headers (admin ∷ []))
      (λ role s. retry_answer id force (retry_workflow_now id force (sliced_reason reason) s)) s

unfoldable pub reconcile :
    Passwords
    → (List Workflow → List Workflow)
    → (Value → Option ℕ)
    → (max_env : ℕ) → RequestHeaders
    → Sys
    → AdminResponse × Sys
unfolding guarded require_role reconcile_buy_ticket_claims
reconcile passwords order number_of max_env headers s =
    guarded (require_role passwords headers (admin ∷ []))
      (λ role s.
        let (buy_ticket, s') = reconcile_buy_ticket_claims order number_of max_env 50 s in
        (reconciled (count_where (λ w. is_pending w.status) s'.workflows) buy_ticket, s'))
      s

pub record LotteryBody : Type 0 where
  pub head_name : String
  pub policy_id : String
  pub token_name_hex : String
  pub mint_tx_hash : String
  pub contract_address : String

-- The constraints of the handler's schema.
unfoldable pub fits_lottery_schema : LotteryBody → Bool
unfolding matches_all utf16_length
fits_lottery_schema body =
    str_eq body.head_name "headB"
    && (utf16_length body.policy_id == 56)
    && matches_all is_hex body.policy_id
    && matches_all is_hex body.token_name_hex
    && matches_all is_hex body.mint_tx_hash
    && leb 8 (utf16_length body.contract_address)

abbrev pub registration_answer : Result LotteryInstance × Sys → AdminResponse × Sys
registration_answer (ok active, s) = (registered active, s)
registration_answer (throw e, s) = (api_error 500 "ADMIN_LOTTERY_RECONCILE_FAILED", s)

unfoldable pub register_lottery :
    Passwords
    → (others : Sys → Sys) → (id : ℕ) → RequestHeaders
    → LotteryBody
    → Sys
    → AdminResponse × Sys
unfolding guarded require_role fits_lottery_schema register_active_lottery_for_head to_lower trim
register_lottery passwords others id headers body s =
    guarded (require_role passwords headers (admin ∷ []))
      (λ role s.
        if fits_lottery_schema body
        then registration_answer (
            register_active_lottery_for_head others id
              (record {
                head_name = head_b;
                policy_id = to_lower body.policy_id;
                token_name_hex = to_lower body.token_name_hex;
                mint_tx_hash = to_lower body.mint_tx_hash;
                contract_address = trim body.contract_address;
              })
              s)
        else (api_error 400 "REQUEST_VALIDATION_FAILED", s))
      s
