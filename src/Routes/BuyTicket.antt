-- ===== src/Routes/BuyTicket.antt =====
-- app/api/workflows/buy-ticket/route.ts: POST.
use eutxo_l2_interop.Base.{
  ℕ, ◌^◌, ◌-◌, String, Bool, true, false, ◌&&◌, ◌||◌, not, List, [], ◌∷◌, Option, none, some,
  if◌then◌else◌, leb, ltb, str_eq, is_empty, trim, to_lower, matches_all, is_digit, is_hex,
  utf16_length, number_of_digits, is_some,
}
use eutxo_l2_interop.Store.{
  Sys, JsonObj, Value, str, flag, get, put, head_b, Workflow, WorkflowType, LotteryInstance, Result,
  ok,
}
use eutxo_l2_interop.Queue.Create.{create_workflow, find_workflow_by_idempotency}
use eutxo_l2_interop.Policy.{
  DemoActor, resolve_actor_by_address, validate_buy_ticket_actor, derive_source_head,
  required_heads_for_buy_ticket, get_closed_required_heads,
}
use eutxo_l2_interop.Lottery.{get_active_lottery_for_head, head_text}
use eutxo_l2_interop.Routes.Payload.{
  Response, api_error, accepted, payload_of, or_null_value, differs, trimmed_or_null, kept,
  attach_and_requeue,
}
use eutxo_l2_interop.Routes.RequestFunds.{Outside, string_of, stored_hash, is_mismatch, is_nil}

pub record BuyTicketRequest : Type 0 where
  pub actor : String
  pub idempotency_key : String
  pub address : String
  pub amount_lovelace : String
  pub htlc_hash : String
  pub timeout_minutes : String
  pub preimage : Option String
  pub submitted_source_tx_hash : Option String
  pub submitted_source_htlc_ref : Option String
  pub submitted_head_b_htlc_ref : Option String

abbrev pub max_amount_lovelace : ℕ
max_amount_lovelace = 10_000_000

-- `z.string()….optional()`.
abbrev pub optionally : (String → Bool) → Option String → Bool
optionally p none = true
optionally p (some t) = p t

unfoldable pub fits_schema : BuyTicketRequest → Bool
unfolding matches_all utf16_length
fits_schema r =
    not (is_empty r.actor)
    && not (is_empty r.idempotency_key)
    && leb 8 (utf16_length r.address)
    && matches_all is_digit r.amount_lovelace
    && matches_all is_hex r.htlc_hash
    && matches_all is_digit r.timeout_minutes
    && optionally (matches_all is_hex) r.submitted_source_tx_hash
    && optionally (λ t. not (is_empty t)) r.submitted_source_htlc_ref
    && optionally (λ t. not (is_empty t)) r.submitted_head_b_htlc_ref

-- From this number on, `Number` of a text of digits is Infinity.
unfoldable pub infinite_from : ℕ
infinite_from = 2 ^ 1024 - 2 ^ 970

unfoldable pub is_positive_finite : ℕ → Bool
unfolding infinite_from
is_positive_finite n = ltb 0 n && ltb n infinite_from

unfoldable pub build_buy_ticket_hash :
    (List String → String) → (actor address amount htlc_hash timeout source_head : String) → String
unfolding trim to_lower
build_buy_ticket_hash digest actor address amount htlc_hash timeout source_head = digest (
    to_lower (trim actor)
    ∷ trim address
    ∷ trim amount
    ∷ to_lower (trim htlc_hash)
    ∷ trim timeout
    ∷ to_lower (trim source_head)
    ∷ [])

-- `deriveSourceHead` of the actor column, which is compared with "charlie" alone.
abbrev pub source_head_of_text : String → String
source_head_of_text actor = if str_eq actor "charlie" then "headC" else "headA"

abbrev pub string_or : Option Value → String → String
string_or (some (str t)) default = t
string_or _ default = default

unfoldable pub existing_hash : (List String → String) → Workflow → String
unfolding build_buy_ticket_hash get
existing_hash digest w =
    let p = payload_of w in
    stored_hash (get "requestHash" p) (
      build_buy_ticket_hash digest w.actor (string_of (get "address" p))
        (string_of (get "amountLovelace" p)) (string_of (get "htlcHash" p))
        (string_of (get "timeoutMinutes" p))
        (string_or (get "sourceHead" p) (source_head_of_text w.actor)))

abbrev pub has_lottery : Result (Option LotteryInstance) → Bool
has_lottery (ok (some _)) = true
has_lottery _ = false

-- The checks before the queue is looked at, and the actor that passes them.
pub data Checked : Type 0 where
  refused : Response → Checked
  passed : DemoActor → Checked

-- The checks on the actor, its address and the heads that it needs.
unfoldable pub check_actor : Outside → BuyTicketRequest → Sys → Option DemoActor → Checked
unfolding resolve_actor_by_address required_heads_for_buy_ticket get_closed_required_heads
check_actor o r s none = refused (api_error 403 "BUY_TICKET_FORBIDDEN_ACTOR")
check_actor o r s (some actor) =
    if is_mismatch (resolve_actor_by_address r.address) r.actor
    then refused (api_error 403 "ACTOR_ADDRESS_MISMATCH")
    else if not (
        is_nil
          (get_closed_required_heads o.stale_threshold_ms (required_heads_for_buy_ticket actor) s))
    then refused (api_error 409 "HEADS_NOT_OPEN")
    else passed actor

unfoldable pub check : Outside → BuyTicketRequest → Sys → Checked
unfolding fits_schema number_of_digits get_active_lottery_for_head is_positive_finite check_actor
    validate_buy_ticket_actor
check o r s =
    let amount = number_of_digits r.amount_lovelace in
    if not (fits_schema r)
    then refused (api_error 400 "REQUEST_VALIDATION_FAILED")
    else if leb amount 0 || ltb max_amount_lovelace amount
    then refused (api_error 400 "BUY_TICKET_INVALID_AMOUNT")
    else if not (has_lottery (get_active_lottery_for_head head_b s))
    then refused (api_error 409 "NO_ACTIVE_LOTTERY")
    else if not (is_positive_finite (number_of_digits r.timeout_minutes))
    then refused (api_error 400 "BUY_TICKET_INVALID_TIMEOUT")
    else check_actor o r s (validate_buy_ticket_actor r.actor)

abbrev pub artifacts_of : BuyTicketRequest → Option (String × String)
artifacts_of r = elim r.submitted_source_tx_hash [
  | none ↦ none
  | some tx ↦ elim r.submitted_source_htlc_ref [ none ↦ none | some ref ↦ some (tx, ref) ]
]

abbrev pub artifacts_differ : JsonObj → Option (String × String) → Bool
artifacts_differ p none = false
artifacts_differ p (some (tx, ref)) =
    differs (get "submittedSourceTxHash" p) tx || differs (get "submittedSourceHtlcRef" p) ref

abbrev pub preimage_differs : JsonObj → Option String → Bool
preimage_differs p none = false
preimage_differs p (some t) = differs (get "preimage" p) t

unfoldable pub should_patch_submitted_artifacts : BuyTicketRequest → JsonObj → Bool
unfolding get trim
should_patch_submitted_artifacts r p =
    artifacts_differ p (artifacts_of r) || preimage_differs p (trimmed_or_null r.preimage)

abbrev pub with_artifacts :
    BuyTicketRequest → JsonObj → Option (String × String) → JsonObj → JsonObj
with_artifacts r p none q = q
with_artifacts r p (some (tx, ref)) q =
    put "submittedHeadBHtlcRef" (kept r.submitted_head_b_htlc_ref (get "submittedHeadBHtlcRef" p))
      (put "submittedSourceHtlcRef" (str ref) (put "submittedSourceTxHash" (str tx) q))

unfoldable pub patched_payload : BuyTicketRequest → JsonObj → JsonObj
unfolding get put trim
patched_payload r p =
    with_artifacts r p (artifacts_of r)
      (put "preimage" (kept (trimmed_or_null r.preimage) (get "preimage" p)) p)

-- A replay of a known request: the same payload, possibly with new artifacts.
unfoldable pub replay : BuyTicketRequest → Workflow → Sys → Sys
unfolding should_patch_submitted_artifacts patched_payload attach_and_requeue
replay r existing s =
    let p = payload_of existing in
    if should_patch_submitted_artifacts r p
    then attach_and_requeue existing.id (patched_payload r p)
        "buy_ticket submit artifacts attached; workflow re-queued"
        (("submittedSourceTxHash", or_null_value r.submitted_source_tx_hash)
          ∷ ("submittedSourceHtlcRef", or_null_value r.submitted_source_htlc_ref)
          ∷ ("persistedPreimage", flag (is_some (trimmed_or_null r.preimage)))
          ∷ [])
        s
    else s

abbrev pub request_payload : String → DemoActor → BuyTicketRequest → JsonObj
request_payload hash actor r =
    ("requestHash", str hash)
    ∷ ("address", str r.address)
    ∷ ("amountLovelace", str r.amount_lovelace)
    ∷ ("htlcHash", str (to_lower (trim r.htlc_hash)))
    ∷ ("timeoutMinutes", str r.timeout_minutes)
    ∷ ("preimage", or_null_value (trimmed_or_null r.preimage))
    ∷ ("sourceHead", str (head_text (derive_source_head actor)))
    ∷ ("submittedSourceTxHash", or_null_value r.submitted_source_tx_hash)
    ∷ ("submittedSourceHtlcRef", or_null_value r.submitted_source_htlc_ref)
    ∷ ("submittedHeadBHtlcRef", or_null_value r.submitted_head_b_htlc_ref)
    ∷ []

unfoldable pub enqueue : Outside → DemoActor → BuyTicketRequest → Sys → Response × Sys
unfolding existing_hash build_buy_ticket_hash create_workflow find_workflow_by_idempotency replay
enqueue o actor r s =
    let hash =
      build_buy_ticket_hash o.digest r.actor r.address r.amount_lovelace r.htlc_hash
        r.timeout_minutes (head_text (derive_source_head actor)) in
    elim (find_workflow_by_idempotency WorkflowType.buy_ticket r.idempotency_key s) [
      | some existing ↦
          if not (str_eq (existing_hash o.digest existing) hash)
          then (api_error 409 "IDEMPOTENCY_KEY_PAYLOAD_MISMATCH", s)
          else (accepted existing.id existing.status true, replay r existing s)
      | none ↦
          let (wf, s') =
            create_workflow o.others o.fresh_id WorkflowType.buy_ticket r.actor r.idempotency_key
              (request_payload hash actor r) s in
          (accepted wf.id wf.status false, s')
    ]

unfoldable pub post : Outside → BuyTicketRequest → Sys → Response × Sys
unfolding check enqueue
post o r s = elim (check o r s) [
  | refused response ↦ (response, s)
  | passed actor ↦ enqueue o actor r s
]
