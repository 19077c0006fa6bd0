-- ===== src/Executor/Ticket.antt =====
-- buyTicket of lib/services/ticket-service.ts: Ida's lock on head B and her two claims.
use Prim.Native.Char.{code}
use Prim.Native.String.{◌++◌}
use eutxo_l2_interop.Base.{
  ℕ, String, Bool, true, false, ◌&&◌, ◌||◌, not, List, [], ◌∷◌, Option, none, some, if◌then◌else◌,
  ◌==◌, leb, str_eq, is_empty, is_some, trim, to_lower, matches_all, is_digit, is_hex,
  number_of_digits,
}
use eutxo_l2_interop.Store.{
  JsonObj, Value, str, strs, null, flag, HeadName, head_a, head_b, head_c, Exception, ticket_error,
  plain, M, ◌>>=◌, ◌>>◌, return, raise, catch,
}
use eutxo_l2_interop.Routes.BuyTicket.{is_positive_finite}
use eutxo_l2_interop.Executor.Errors.{starts_with, as_workflow_execution_error}
use eutxo_l2_interop.Executor.Funds.{HydraAnswer, answers, silent}

pub record BuyTicketPayload : Type 0 where
  pub address : String
  pub amount_lovelace : String
  pub source_head : String
  pub htlc_hash : String
  pub timeout_minutes : String
  pub preimage : String
  pub submitted_source_tx_hash : String
  pub submitted_source_htlc_ref : String

pub record Utxo : Type 0 where
  pub tx_hash : String
  pub output_index : ℕ

-- What the service does through Lucid and the Hydra nodes: their answers, Ida's address, her lock
-- on head B (with whether it was there already), the lookup of an HTLC by transaction and hash,
-- and a claim, which gives its transaction's hash.
pub record Ledger : Type 0 where
  pub is_real_mode : Bool
  pub fetch_hydra_snapshot : HeadName → M HydraAnswer
  pub load_ida : M String
  pub ensure_head_b_ida_lock : (buyer htlc_hash timeout : String) → M (String × Bool)
  pub find_source_htlc : HeadName → (tx_hash htlc_hash : String) → M (Option Utxo)
  pub find_head_b_htlc : Option String → (htlc_hash : String) → M (Option Utxo)
  pub claim_ida_htlc : HeadName → Utxo → (preimage ida : String) → M String

-- The two heads where a purchase can start.
abbrev pub source_head_of : String → Option HeadName
source_head_of text =
    if str_eq text "headA" then some head_a else if str_eq text "headC" then some head_c else none

abbrev pub invalid_input : {A : Type 0} → String → M A
invalid_input message = raise (ticket_error "BUY_TICKET_INVALID_INPUT" message false)

abbrev pub with_head : Option HeadName → M HeadName
with_head none = invalid_input "sourceHead must be headA or headC"
with_head (some head) = return head

-- `BigInt` and `Number` are read for texts of digits, which is what the request handler lets
-- through; for any other text the first throws.
unfoldable pub validate_payload : BuyTicketPayload → M HeadName
unfolding matches_all number_of_digits trim is_positive_finite
validate_payload payload =
    if not (matches_all is_digit payload.amount_lovelace)
    then raise (plain "Cannot convert amountLovelace to a BigInt")
    else if leb (number_of_digits payload.amount_lovelace) 0
    then invalid_input "amountLovelace must be positive"
    else with_head (source_head_of payload.source_head) >>= λ head.
        if not (matches_all is_hex (trim payload.htlc_hash))
        then invalid_input "htlcHash must be a hex string"
        else if not (is_positive_finite (number_of_digits payload.timeout_minutes))
        then invalid_input "timeoutMinutes must be positive"
        else return head

abbrev pub drop_two : String → String
drop_two (String.◌∷◌ _ (String.◌∷◌ _ s)) = s
drop_two _ = ""

abbrev pub without_prefix : String → String
without_prefix s = if starts_with "0x" s then drop_two s else s

unfoldable pub normalize_preimage_hex : String → M String
unfolding trim matches_all to_lower
normalize_preimage_hex preimage =
    if matches_all is_hex (without_prefix (trim preimage))
    then return (to_lower (without_prefix (trim preimage)))
    else raise (plain "preimage must be a valid hex string")

-- What stands behind the first underscore.
abbrev pub after_underscore : String → String
after_underscore String.[] = String.[]
after_underscore (String.◌∷◌ c s) = if code c == b'_' then s else after_underscore s

unfoldable pub htlc_ref_to_tx_hash : String → Option String
unfolding trim
htlc_ref_to_tx_hash ref =
    if is_empty (trim (after_underscore ref)) then none else some (trim (after_underscore ref))

abbrev pub need : (code head : String) → HydraAnswer → M (Unit {0})
need code head answers = return tt
need code head (silent reason) =
    raise (ticket_error code (head ++ (" is not reachable: " ++ reason)) true)

-- The claims' tags in the result.
abbrev pub action_text : Option String → String
action_text none = "already_claimed"
action_text (some _) = "claimed"

abbrev pub hash_value : Option String → Value
hash_value none = null
hash_value (some tx_hash) = str tx_hash

abbrev pub lock_text : Bool → String
lock_text true = "reused"
lock_text false = "created"

abbrev pub claim_order : Option String → List String
claim_order none = "target_head_b" ∷ []
claim_order (some _) = "target_head_b" ∷ "source_head" ∷ []

unfoldable pub ticket_result :
    BuyTicketPayload
    → String × Bool
    → (head_b_claim : String) → (source_claim : Option String) → (pair_detected : Bool) → JsonObj
unfolding trim to_lower
ticket_result payload (lock_ref, reused) head_b_claim source_claim pair_detected =
    ("sourceHead", str payload.source_head)
    ∷ ("hashRef", str (to_lower (trim payload.htlc_hash)))
    ∷ ("sourceHtlcRef", str (trim payload.submitted_source_htlc_ref))
    ∷ ("headBHtlcRef", str lock_ref)
    ∷ ("headBAutomationAction", str (lock_text reused))
    ∷ ("amountLovelace", str payload.amount_lovelace)
    ∷ ("submittedSourceTxHash", str (trim payload.submitted_source_tx_hash))
    ∷ ("sourceClaimAction", str (action_text source_claim))
    ∷ ("headBClaimAction", str "claimed")
    ∷ ("sourceClaimTxHash", hash_value source_claim)
    ∷ ("headBClaimTxHash", str head_b_claim)
    ∷ ("pairDetected", flag pair_detected)
    ∷ ("claimOrder", strs (claim_order source_claim))
    ∷ []

abbrev pub required : (code message : String) → Option Utxo → M Utxo
required code message none = raise (ticket_error code message true)
required code message (some utxo) = return utxo

-- The second claim, if the source HTLC is still there.
abbrev pub claim_source :
    Ledger → HeadName → (preimage ida : String) → Option Utxo → M (Option String)
claim_source ledger head preimage ida none = return none
claim_source ledger head preimage ida (some utxo) =
    ledger.claim_ida_htlc head utxo preimage ida >>= λ tx_hash. return (some tx_hash)

-- The lookups and the two claims, head B's first.
unfoldable pub claim_pair :
    Ledger → BuyTicketPayload → HeadName → String × Bool → (preimage ida : String) → M JsonObj
unfolding htlc_ref_to_tx_hash ticket_result trim to_lower
claim_pair ledger payload head lock preimage ida =
    let htlc_hash = to_lower (trim payload.htlc_hash) in
    let source_tx = trim payload.submitted_source_tx_hash in
    let head_b_tx = htlc_ref_to_tx_hash lock.0 in
    ledger.find_source_htlc head source_tx htlc_hash >>= λ source.
    ledger.find_head_b_htlc head_b_tx htlc_hash >>= λ target.
    required "BUY_TICKET_SOURCE_HTLC_NOT_FOUND"
      "Waiting for source HTLC visibility on source head before Ida claim" source
    >> (required "BUY_TICKET_TARGET_HTLC_NOT_FOUND"
          "Waiting for matching headB HTLC visibility before Ida claim" target
        >>= λ utxo. ledger.claim_ida_htlc head_b utxo preimage ida >>= λ head_b_claim.
            ledger.find_source_htlc head source_tx htlc_hash >>= λ source_again.
            ledger.find_head_b_htlc head_b_tx htlc_hash >>= λ target_again.
            claim_source ledger head preimage ida source_again >>= λ source_claim. return (
              ticket_result payload lock head_b_claim source_claim
                (is_some source_again && is_some target_again)))

abbrev pub automation_failed : Exception → Exception
automation_failed error =
    ticket_error "BUY_TICKET_IDA_AUTOMATION_FAILED"
      ("Failed to automate Ida lock on headB: " ++ (as_workflow_execution_error error).message) true

unfoldable pub buy_ticket_service : Ledger → BuyTicketPayload → M JsonObj
unfolding validate_payload normalize_preimage_hex claim_pair trim to_lower
    as_workflow_execution_error
buy_ticket_service ledger payload = validate_payload payload >>= λ head.
    if not ledger.is_real_mode
    then raise (
        ticket_error "BUY_TICKET_REAL_MODE_REQUIRED"
          "buy_ticket requires HYDRA_ADAPTER_MODE=real; mock fallback is disabled" false)
    else ledger.fetch_hydra_snapshot head >>= λ source_probe.
        need "BUY_TICKET_SOURCE_HEAD_UNAVAILABLE" payload.source_head source_probe
        >> (ledger.fetch_hydra_snapshot head_b >>= λ head_b_probe.
            need "BUY_TICKET_HEAD_B_UNAVAILABLE" "headB" head_b_probe
            >> (if is_empty (trim payload.submitted_source_tx_hash)
                  || is_empty (trim payload.submitted_source_htlc_ref)
                then raise (
                    ticket_error "BUY_TICKET_REAL_ARTIFACTS_REQUIRED"
                      "Waiting for persisted source submit artifacts (submittedSourceTxHash + submittedSourceHtlcRef)"
                      true)
                else if is_empty (trim payload.preimage)
                then raise (
                    ticket_error "BUY_TICKET_PREIMAGE_REQUIRED"
                      "Waiting for persisted preimage before automated Ida claims" true)
                else catch
                    (ledger.ensure_head_b_ida_lock payload.address
                      (to_lower (trim payload.htlc_hash)) payload.timeout_minutes)
                    (λ error. raise (automation_failed error))
                  >>= λ lock. ledger.load_ida >>= λ ida.
                      normalize_preimage_hex (trim payload.preimage) >>= λ preimage.
                      claim_pair ledger payload head lock preimage ida))
