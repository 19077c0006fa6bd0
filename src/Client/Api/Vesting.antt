-- ===== src/Client/Api/Vesting.antt =====
-- app/api/hydra/[headRoute]/vesting/claim/route.ts of src/client.
use eutxo_l2_interop.Client.Numbers.{ℤ, pos, ◌+ℤ◌}
use eutxo_l2_interop.Base.{String, Bool, ◌&&◌, Option, if◌then◌else◌, str_eq}
use eutxo_l2_interop.Client.Users.{UserName}
use eutxo_l2_interop.Client.Api.{
  Flow, next, crash, ◌>>=◌, ◌>>◌, demand, found_or, is_given, text_or_empty, two_head_names, Reply,
  Lucid, TxOutcome, Utxo, finish,
}
use eutxo_l2_interop.Client.Api.Spend.{find_output}

pub record VestingRequest : Type 0 where
  pub is_json : Bool
  pub utxo_id : Option String
  pub claimer_name : Option String

pub record VestingTx : Type 0 where
  pub node_url : String
  pub spends : Utxo
  pub valid_from : ℤ
  pub signer : UserName
  pub script_code : String

-- `validFrom` lies a minute after the timeout, which is taken as a Number below 2 ^ 53.
unfoldable pub vesting_flow : Lucid → Option String → String → VestingRequest → Flow VestingTx
unfolding find_output
vesting_flow lucid cookie head_route request = do
  if request.is_json then next tt else crash "Unexpected token in JSON"
  demand (is_given request.utxo_id && is_given request.claimer_name) 400
      "Missing required fields: utxoId, claimerName"
  found ←
      find_output lucid cookie head_route two_head_names (text_or_empty request.claimer_name)
        "vesting" (text_or_empty request.utxo_id)
  datum ← found_or (lucid.vesting_from_data found.datum) (crash "Could not type cast to object")
  demand (str_eq datum.receiver found.user_hash) 403
      "You are not the receiver of this vesting contract"
  next (record {
    node_url = found.node_url;
    spends = found.utxo;
    valid_from = datum.timeout +ℤ pos 60000;
    signer = found.user;
    script_code = found.script_code;
  })

unfoldable pub claim_vesting :
    Lucid
    → (VestingTx → TxOutcome)
    → Option String
    → String
    → VestingRequest
    → Reply × Option VestingTx
unfolding vesting_flow finish
claim_vesting lucid outcome cookie head_route request =
    finish "Failed to claim vesting" outcome (vesting_flow lucid cookie head_route request)
