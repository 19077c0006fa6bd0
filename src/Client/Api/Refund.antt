-- ===== src/Client/Api/Refund.antt =====
-- app/api/hydra/[headRoute]/htlc/refund/route.ts of src/client.
use eutxo_l2_interop.Base.{ℕ, String, Bool, ◌&&◌, Option, none, some, if◌then◌else◌, str_eq}
use eutxo_l2_interop.Client.Api.{
  Flow, next, return, crash, ◌>>=◌, ◌>>◌, demand, found_or, is_given, text_or_empty, two_head_names,
  Reply, refused, Lucid, TxOutcome, unbuilt, unsigned, Utxo, answer_of,
}
use eutxo_l2_interop.Client.Api.Spend.{find_output}

pub record RefundRequest : Type 0 where
  pub is_json : Bool
  pub utxo_id : Option String
  pub sender_name : Option String

pub record RefundTx : Type 0 where
  pub node_url : String
  pub spends : Utxo
  pub valid_from : ℕ
  pub signer_key : String
  pub script_code : String

unfoldable pub refund_flow : Lucid → Option String → String → RefundRequest → Flow RefundTx
unfolding find_output
refund_flow lucid cookie head_route request = do
  if request.is_json then next tt else crash "Unexpected token in JSON"
  demand (is_given request.utxo_id && is_given request.sender_name) 400
      "Missing required fields: utxoId, senderName"
  found ←
      find_output lucid cookie head_route two_head_names (text_or_empty request.sender_name) "htlc"
        (text_or_empty request.utxo_id)
  datum ← found_or (lucid.htlc_from_data found.datum) (crash "Could not type cast to object")
  demand (str_eq datum.sender found.user_hash) 403 "You are not the sender of this HTLC"
  next (record {
    node_url = found.node_url;
    spends = found.utxo;
    valid_from = lucid.now;
    signer_key = found.user_hash;
    script_code = found.script_code;
  })

-- Building and signing share one `try`.
abbrev pub one_error : TxOutcome → RefundTx → Reply × Option RefundTx
one_error (unbuilt message) tx =
    (refused 500 "Failed to build or sign transaction" (some message), none)
one_error (unsigned message) tx =
    (refused 500 "Failed to build or sign transaction" (some message), none)
one_error outcome tx = answer_of tx outcome

unfoldable pub refund :
    Lucid
    → (RefundTx → TxOutcome)
    → Option String
    → String
    → RefundRequest
    → Reply × Option RefundTx
unfolding refund_flow
refund lucid outcome cookie head_route request =
    elim (refund_flow lucid cookie head_route request) [
      | next tx ↦ one_error (outcome tx) tx
      | return reply ↦ (reply, none)
      | crash message ↦ (refused 500 "Failed to refund HTLC" (some message), none)
    ]
