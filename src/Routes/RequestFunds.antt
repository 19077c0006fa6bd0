-- ===== src/Routes/RequestFunds.antt =====
-- app/api/workflows/request-funds/route.ts: POST.
use eutxo_l2_interop.Base.{
  ℕ, String, Bool, true, false, ◌&&◌, ◌||◌, not, List, [], ◌∷◌, Option, none, some, if◌then◌else◌,
  leb, ltb, str_eq, is_empty, trim, to_lower, matches_all, is_digit, is_hex, utf16_length,
  number_of_digits,
}
use eutxo_l2_interop.Store.{Sys, JsonObj, Value, str, get, Workflow, WorkflowType}
use eutxo_l2_interop.Queue.Create.{create_workflow, find_workflow_by_idempotency}
use eutxo_l2_interop.Policy.{
  DemoActor, actor_name, resolve_actor_by_address, validate_request_funds_actor,
  required_heads_for_request_funds, get_closed_required_heads, request_funds_max_lovelace,
}
use eutxo_l2_interop.Routes.Payload.{Response, api_error, accepted, payload_of}

pub record RequestFundsRequest : Type 0 where
  pub actor : String
  pub idempotency_key : String
  pub address : String
  pub amount_lovelace : String
  pub submitted_tx_hash : String

-- The constraints of the handler's schema.
unfoldable pub fits_schema : RequestFundsRequest → Bool
unfolding matches_all utf16_length
fits_schema r =
    not (is_empty r.actor)
    && not (is_empty r.idempotency_key)
    && leb 8 (utf16_length r.address)
    && matches_all is_digit r.amount_lovelace
    && matches_all is_hex r.submitted_tx_hash

-- What the handler takes from outside: the digest of a text that it builds from the given parts,
-- the id of a new row, the staleness threshold and what other requests do between a lookup and
-- the transaction behind it.
pub record Outside : Type 0 where
  pub digest : List String → String
  pub fresh_id : ℕ
  pub stale_threshold_ms : ℕ
  pub others : Sys → Sys

unfoldable pub build_request_funds_hash :
    (List String → String) → (actor address amount : String) → String
unfolding trim to_lower
build_request_funds_hash digest actor address amount =
    digest (to_lower (trim actor) ∷ trim address ∷ trim amount ∷ [])

-- `String(value ?? "")`, on the texts that the handlers store.
abbrev pub string_of : Option Value → String
string_of (some (str t)) = t
string_of _ = ""

abbrev pub stored_hash : Option Value → String → String
stored_hash (some (str t)) computed = t
stored_hash _ computed = computed

unfoldable pub existing_hash : (List String → String) → Workflow → String
unfolding build_request_funds_hash get
existing_hash digest w = stored_hash (get "requestHash" (payload_of w)) (
    build_request_funds_hash digest w.actor (string_of (get "address" (payload_of w)))
      (string_of (get "amountLovelace" (payload_of w))))

abbrev pub is_mismatch : Option DemoActor → String → Bool
is_mismatch none actor = false
is_mismatch (some resolved) actor = not (str_eq (actor_name resolved) actor)

abbrev pub is_nil {ℓ} : {A : Type ℓ} → List A → Bool
is_nil [] = true
is_nil (_ ∷ _) = false

-- The checks before the queue is looked at; `none` lets the request through.
unfoldable pub refusal : Outside → RequestFundsRequest → Sys → Option Response
unfolding fits_schema number_of_digits validate_request_funds_actor resolve_actor_by_address
    get_closed_required_heads
refusal o r s =
    let amount = number_of_digits r.amount_lovelace in
    if not (fits_schema r)
    then some (api_error 400 "REQUEST_VALIDATION_FAILED")
    else if leb amount 0 || ltb request_funds_max_lovelace amount
    then some (api_error 400 "REQUEST_FUNDS_INVALID_AMOUNT")
    else if not (validate_request_funds_actor r.actor)
    then some (api_error 403 "REQUEST_FUNDS_FORBIDDEN_ACTOR")
    else if is_mismatch (resolve_actor_by_address r.address) r.actor
    then some (api_error 403 "ACTOR_ADDRESS_MISMATCH")
    else if not
        (is_nil (get_closed_required_heads o.stale_threshold_ms required_heads_for_request_funds s))
    then some (api_error 409 "HEADS_NOT_OPEN")
    else none

abbrev pub request_payload : String → RequestFundsRequest → JsonObj
request_payload hash r =
    ("requestHash", str hash)
    ∷ ("address", str r.address)
    ∷ ("amountLovelace", str r.amount_lovelace)
    ∷ ("submittedTxHash", str (to_lower r.submitted_tx_hash))
    ∷ []

unfoldable pub enqueue : Outside → RequestFundsRequest → Sys → Response × Sys
unfolding existing_hash build_request_funds_hash create_workflow find_workflow_by_idempotency
enqueue o r s =
    let hash = build_request_funds_hash o.digest r.actor r.address r.amount_lovelace in
    elim (find_workflow_by_idempotency WorkflowType.request_funds r.idempotency_key s) [
      | some existing ↦
          if not (str_eq (existing_hash o.digest existing) hash)
          then (api_error 409 "IDEMPOTENCY_KEY_PAYLOAD_MISMATCH", s)
          else (accepted existing.id existing.status true, s)
      | none ↦
          let (wf, s') =
            create_workflow o.others o.fresh_id WorkflowType.request_funds r.actor r.idempotency_key
              (request_payload hash r) s in
          (accepted wf.id wf.status false, s')
    ]

unfoldable pub post : Outside → RequestFundsRequest → Sys → Response × Sys
unfolding refusal enqueue
post o r s = elim (refusal o r s) [ some response ↦ (response, s) | none ↦ enqueue o r s ]
