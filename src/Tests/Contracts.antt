-- ===== src/Tests/Contracts.antt =====
-- The theorems on the client's HTLC and vesting handlers at concrete inputs.
use eutxo_l2_interop.Client.Numbers.{pos}
use eutxo_l2_interop.Client.Api.LeftOut.{refund-refused, accepted_name}
use mathlib.Core.Option.{some-injective}
use eutxo_l2_interop.Base.{
  sym, ◌∙◌, ap, false, All, matches_all, String, ◌≡◌, refl, inr, true, [], ◌∷◌, none, some,
}
use eutxo_l2_interop.Client.Api.Ids.{after_hash, parse_int, without_0x}
use eutxo_l2_interop.Client.Api.Listing.{contract_items}
use eutxo_l2_interop.Client.Api.Shown.{IsFound, contract_items-IsFound}
use eutxo_l2_interop.Client.Assets.{assets_to_data_pairs}
use eutxo_l2_interop.Executor.Errors.{includes}
use eutxo_l2_interop.Client.Users.{UserName, user_text}
use eutxo_l2_interop.Client.Api.{
  Lucid, HtlcDatum, VestingDatum, Utxo, TxOutcome, confirmed, user_named, all_names, Credential,
}
use eutxo_l2_interop.Client.Topologies.{HydraHeadConfig, c}
use eutxo_l2_interop.Client.Selection.{get_head_config_from_cookie}
use eutxo_l2_interop.Client.Api.Claim.{ClaimRequest, ClaimTx, claim}
use eutxo_l2_interop.Client.Api.Refund.{RefundRequest, RefundTx, refund}
use eutxo_l2_interop.Client.Api.Vesting.{VestingRequest, VestingTx}
use eutxo_l2_interop.Client.Api.Lock.{LockRequest, LockTx, lock}
use eutxo_l2_interop.Client.Api.Sent.{IsClaim, claim-IsClaim}
use eutxo_l2_interop.Client.Api.Returned.{IsRefund, refund-IsRefund}
use eutxo_l2_interop.Client.Api.Locked.{IsLock, lock-IsLock}

abbrev hash_of : Credential → String
hash_of (Credential.key hash) = hash
hash_of (Credential.script hash) = hash

abbrev pub demo_datum : HtlcDatum
demo_datum = record {
  hash = "00ff";
  timeout = pos 1801000;
  sender = "alice";
  receiver = "ida";
  desired_output = record {
    address = record { payment_credential = Credential.key "ida"; stake_credential = none };
    value = ("", ("", 5000000) ∷ []) ∷ [];
    datum = none;
  };
}

abbrev pub demo_vesting : VestingDatum
demo_vesting = record { timeout = pos 900; receiver = "ida" }

abbrev pub locked_output : Utxo
locked_output = record {
  tx_hash = "ab12";
  output_index = 0;
  lovelace = 5000000;
  datum = some "d8799f";
}

-- Keys are the users' names, an address is its credential's hash, and every datum is the same.
abbrev pub demo_lucid : Lucid
demo_lucid = record {
  now = 1000;
  connect = λ _. none;
  utxos_at = λ _ _. some (locked_output ∷ []);
  key_hash = λ user. some (user_text user);
  lovelace_of = λ _. some 5000000;
  from_unit = λ unit. (unit, none);
  to_address = λ credential _. hash_of credential;
  address_details = λ address. (some (Credential.key address), none);
  htlc_to_data = λ _. some "d8799f";
  htlc_from_data = λ _. some demo_datum;
  vesting_to_data = λ _. some "d8799f";
  vesting_from_data = λ _. some demo_vesting;
  validators =
      record { title = "htlc.htlc.spend"; compiled_code = "59"; hash = "h1" }
      ∷ record { title = "vesting.vesting.spend"; compiled_code = "5a"; hash = "h2" }
      ∷ [];
}

abbrev pub all_confirmed : {Tx : Type 0} → Tx → TxOutcome
all_confirmed tx = confirmed "cd34"

abbrev pub claim_request : ClaimRequest
claim_request = record {
  is_json = true;
  utxo_id = some "ab12#0";
  preimage = some "0xbeef";
  claimer_name = some "ida";
}

abbrev demo_claim : ClaimTx
demo_claim = record {
  node_url = "http://localhost:4011";
  spends = locked_output;
  preimage = "beef";
  valid_to = 601000;
  signer = UserName.ida;
  script_code = "59";
  pays_to = "ida";
  pays = ("lovelace", 5000000) ∷ [];
  pays_datum = none;
}

claim-IsClaim_example : IsClaim demo_lucid (some "two-heads") "head-a" claim_request demo_claim
unfolding claim get_head_config_from_cookie matches_all without_0x
claim-IsClaim_example =
    claim-IsClaim demo_lucid all_confirmed (some "two-heads") "head-a" claim_request demo_claim refl

abbrev refund_request : RefundRequest
refund_request = record { is_json = true; utxo_id = some "ab12#0"; sender_name = some "alice" }

abbrev demo_refund : RefundTx
demo_refund = record {
  node_url = "http://localhost:4011";
  spends = locked_output;
  valid_from = 1000;
  signer_key = "alice";
  script_code = "59";
}

refund-IsRefund_example : IsRefund demo_lucid (some "two-heads") "head-a" refund_request demo_refund
unfolding refund get_head_config_from_cookie
refund-IsRefund_example =
    refund-IsRefund demo_lucid all_confirmed (some "two-heads") "head-a" refund_request demo_refund
      refl

abbrev vesting_request : VestingRequest
vesting_request = record { is_json = true; utxo_id = some "ab12#0"; claimer_name = some "ida" }

abbrev vesting_claim : VestingTx
vesting_claim = record {
  node_url = "http://localhost:4011";
  spends = locked_output;
  valid_from = pos 60900;
  signer = UserName.ida;
  script_code = "5a";
}

abbrev jon_request : RefundRequest
jon_request = record { is_json = true; utxo_id = some "ab12#0"; sender_name = some "jon" }

abbrev head_c : HydraHeadConfig
head_c = record {
  name = "Head C";
  route = c;
  head_id = "0000000000000000000000000000000000000000000000000000000000000003";
  tag = "Open";
  nodes =
      (UserName.charlie, "http://localhost:4133") ∷ (UserName.jon, "http://localhost:4138") ∷ [];
}

abbrev jons_lucid : Lucid
jons_lucid = record demo_lucid { htlc_from_data = λ _. some (record demo_datum { sender = "jon" }) }

own_keys :
    (u v : UserName) (hash : String)
    → some (user_text u) ≡ some hash
    → some (user_text v) ≡ some hash
    → u ≡ v
own_keys u v hash e f = some-injective _ _ (
    sym (accepted_name u)
    ∙ ap (user_named all_names) (some-injective _ _ (e ∙ sym f))
    ∙ accepted_name v)

refund-refused_example :
    (user_named all_names "jon" ≡ some UserName.jon)
    × ((refund jons_lucid all_confirmed (some "single-path") "head-c" jon_request).1 ≡ none)
refund-refused_example =
    refund-refused jons_lucid all_confirmed (some "single-path") "head-c" jon_request UserName.jon
      own_keys (inr refl)
      (λ url htlc utxos utxo datum at listed found decoded.
        ap (λ d. some d.sender) (some-injective _ _ decoded))

abbrev pub lock_request : LockRequest
lock_request = record {
  content_type = some "application/json";
  is_json = true;
  sender_name = some "alice";
  recipient_name = some "ida";
  amount_ada = some "5";
  htlc_hash = some "00ff";
  timeout_minutes = some "28.5";
  desired_output =
      some (record { kind = some "user"; receiver = some "ida"; datum_timeout_minutes = none });
}

abbrev pub demo_lock : LockTx
demo_lock = record {
  node_url = "http://localhost:4011";
  signer = UserName.alice;
  script_code = "59";
  datum = record demo_datum { timeout = pos 1681000 };
  inline = "d8799f";
  pays = ("lovelace", 5000000) ∷ [];
}

lock-IsLock_example : IsLock demo_lucid (some "two-heads") "head-a" lock_request demo_lock
unfolding lock includes get_head_config_from_cookie parse_int matches_all without_0x
    assets_to_data_pairs
lock-IsLock_example =
    lock-IsLock demo_lucid all_confirmed (some "two-heads") "head-a" lock_request demo_lock refl

abbrev other_output : Utxo
other_output = record locked_output { output_index = 12 }

contract_items-IsFound_example :
    All
      (λ item. IsFound (locked_output ∷ other_output ∷ []) item.id)
      (contract_items demo_lucid false "h1" (locked_output ∷ other_output ∷ []))
unfolding after_hash
contract_items-IsFound_example =
    contract_items-IsFound demo_lucid false "h1" (locked_output ∷ other_output ∷ [])
      (refl, (refl, tt))
