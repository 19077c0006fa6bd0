-- ===== src/Client/Api/Claim.antt =====
-- app/api/hydra/[headRoute]/htlc/claim/route.ts of src/client.
use eutxo_l2_interop.Base.{
  ℕ, ◌-◌, ◌*◌, String, Bool, ◌&&◌, Option, if◌then◌else◌, str_eq, is_hex, matches_all, suc, none,
  some, false,
}
use eutxo_l2_interop.Client.Users.{UserName}
use eutxo_l2_interop.Client.Assets.{Assets, data_pairs_to_assets}
use eutxo_l2_interop.Client.Api.{
  Flow, next, crash, ◌>>=◌, ◌>>◌, demand, found_or, is_given, text_or_empty, all_names, HtlcDatum,
  Reply, Lucid, TxOutcome, Utxo, data_address_to_bech32, finish, return, refused,
}
use eutxo_l2_interop.Client.Api.Ids.{without_0x}
use eutxo_l2_interop.Client.Api.Spend.{Spending, find_output}
use eutxo_l2_interop.Client.Numbers.{ℤ, negsuc, Number, finite, number_of, plus}

pub record ClaimRequest : Type 0 where
  pub is_json : Bool
  pub utxo_id : Option String
  pub preimage : Option String
  pub claimer_name : Option String

-- The transaction: the output that it spends with the preimage as redeemer, until when it is valid,
-- who signs it, and the one output that it pays.
pub record ClaimTx : Type 0 where
  pub node_url : String
  pub spends : Utxo
  pub preimage : String
  pub valid_to : ℕ
  pub signer : UserName
  pub script_code : String
  pub pays_to : String
  pub pays : Assets ℕ
  pub pays_datum : Option String

-- `validTo` lies 20 minutes before the timeout, in the arithmetic of Numbers.
unfoldable pub valid_to_of : ℤ → Number
unfolding number_of plus
valid_to_of timeout = plus (number_of timeout) (negsuc (20 * 60 * 1000 - 1))

-- A finite and positive `validTo`.
abbrev pub positive_of : Number → Option ℕ
positive_of (finite false (suc n)) = some (suc n)
positive_of _ = none

unfoldable pub claim_tx : Lucid → Spending → HtlcDatum → String → (valid_to : ℕ) → ClaimTx
unfolding data_address_to_bech32 data_pairs_to_assets
claim_tx lucid found datum preimage valid_to = record {
  node_url = found.node_url;
  spends = found.utxo;
  preimage = preimage;
  valid_to = valid_to;
  signer = found.user;
  script_code = found.script_code;
  pays_to = data_address_to_bech32 lucid datum.desired_output.address;
  pays = data_pairs_to_assets datum.desired_output.value;
  pays_datum = datum.desired_output.datum;
}

unfoldable pub claim_flow : Lucid → Option String → String → ClaimRequest → Flow ClaimTx
unfolding find_output claim_tx valid_to_of
claim_flow lucid cookie head_route request = do
  if request.is_json then next tt else crash "Unexpected token in JSON"
  demand (is_given request.utxo_id && is_given request.preimage && is_given request.claimer_name)
      400 "Missing required fields: utxoId, preimage, claimerName"
  found ←
      find_output lucid cookie head_route all_names (text_or_empty request.claimer_name) "htlc"
        (text_or_empty request.utxo_id)
  datum ← found_or (lucid.htlc_from_data found.datum) (crash "Could not type cast to object")
  demand (str_eq datum.receiver found.user_hash) 403 "You are not the receiver of this HTLC"
  let preimage_hex = without_0x (text_or_empty request.preimage)
  demand (matches_all is_hex preimage_hex) 400
      "Invalid preimage format. Must be a valid hex string."
  valid_to ←
      found_or (positive_of (valid_to_of datum.timeout))
        (return (refused 400 "Invalid timeout value. Transaction would be invalid." none))
  next (claim_tx lucid found datum preimage_hex valid_to)

unfoldable pub claim :
    Lucid → (ClaimTx → TxOutcome) → Option String → String → ClaimRequest → Reply × Option ClaimTx
unfolding claim_flow finish
claim lucid outcome cookie head_route request =
    finish "Failed to claim HTLC" outcome (claim_flow lucid cookie head_route request)
