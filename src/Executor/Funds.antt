-- ===== src/Executor/Funds.antt =====
-- requestFunds of lib/services/request-funds.ts.
use eutxo_l2_interop.Base.{
  ℕ, String, Bool, true, false, not, [], ◌∷◌, Option, none, some, if◌then◌else◌, leb, trim,
}
use Prim.Native.String.{◌++◌}
use eutxo_l2_interop.Store.{
  JsonObj, str, HeadName, head_a, request_funds_error, M, ◌>>=◌, ◌>>◌, return, raise,
}
use eutxo_l2_interop.Policy.{parse_request_funds_lovelace_string, is_request_funds_amount_allowed}

pub data FailureMode : Type 0 where
  no_failure retryable_once retryable_always non_retryable : FailureMode

-- The answer of a Hydra node that is asked for its snapshot.
pub data HydraAnswer : Type 0 where
  answers : HydraAnswer
  silent : (reason : String) → HydraAnswer

-- What the services have of the world: the environment's modes, the nodes' answers and waiting.
-- Each call may find the store changed by others.
pub record Hydra : Type 0 where
  pub is_real_mode : Bool
  pub failure_mode : FailureMode
  pub fetch_hydra_snapshot : HeadName → M HydraAnswer
  pub mock_tx_hash : String → M String

abbrev pub is_allowed : Option ℕ → Bool
is_allowed none = false
is_allowed (some amount) = is_request_funds_amount_allowed amount

unfoldable pub validate_payload : String → M (Unit {0})
unfolding parse_request_funds_lovelace_string is_request_funds_amount_allowed
validate_payload amount_lovelace =
    if is_allowed (parse_request_funds_lovelace_string amount_lovelace)
    then return tt
    else raise (
        request_funds_error "REQUEST_FUNDS_INVALID_INPUT"
          "amountLovelace must be a positive numeric string within the request-funds cap" false)

unfoldable pub maybe_fail : FailureMode → (attempt : ℕ) → M (Unit {0})
maybe_fail retryable_always attempt = raise (
    request_funds_error "REQUEST_FUNDS_UNAVAILABLE" "Request funds provider temporarily unavailable"
      true)
maybe_fail retryable_once attempt =
    if leb attempt 1
    then raise (
        request_funds_error "REQUEST_FUNDS_RETRYABLE"
          "Temporary issue while preparing request funds" true)
    else return tt
maybe_fail non_retryable attempt =
    raise
      (request_funds_error "REQUEST_FUNDS_INVALID_INPUT" "Request funds rejected by policy" false)
maybe_fail no_failure attempt = return tt

abbrev pub funds_result : (tx_hash amount_lovelace : String) → JsonObj
funds_result tx_hash amount_lovelace =
    ("txHash", str tx_hash)
    ∷ ("head", str "A")
    ∷ ("amountLovelace", str (trim amount_lovelace))
    ∷ []

unfoldable pub request_funds_service :
    Hydra → (amount_lovelace submitted_tx_hash : String) → (attempt : ℕ) → M JsonObj
unfolding validate_payload maybe_fail trim
request_funds_service hydra amount_lovelace submitted_tx_hash attempt =
    validate_payload amount_lovelace
    >> (if not hydra.is_real_mode
        then maybe_fail hydra.failure_mode attempt
          >> (hydra.mock_tx_hash "fund" >>= λ tx_hash.
              return (funds_result tx_hash amount_lovelace))
        else (hydra.fetch_hydra_snapshot head_a >>= λ probe. elim probe [
          | answers ↦ return (funds_result submitted_tx_hash amount_lovelace)
          | silent reason ↦ raise (
              request_funds_error "REQUEST_FUNDS_HYDRA_UNAVAILABLE"
                ("Head A is not reachable: " ++ reason) true)
        ]))
