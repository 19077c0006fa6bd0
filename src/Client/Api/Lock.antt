-- ===== src/Client/Api/Lock.antt =====
-- app/api/hydra/[headRoute]/htlc/lock/route.ts of src/client.
use eutxo_l2_interop.Base.{
  ℕ, String, Bool, ◌&&◌, ◌||◌, not, [], ◌∷◌, Option, none, some, if◌then◌else◌, str_eq, is_hex,
  matches_all, true, false,
}
use eutxo_l2_interop.Executor.Errors.{includes}
use eutxo_l2_interop.Client.Users.{UserName}
use eutxo_l2_interop.Client.Assets.{Assets, assets_to_data_pairs}
use eutxo_l2_interop.Client.Api.{
  Flow, next, return, crash, ◌>>=◌, ◌>>◌, demand, found_or, is_given, text_or_empty, user_named,
  all_names, key, script, HtlcOutput, HtlcDatum, Reply, refused, Lucid, TxOutcome,
  bech32_to_data_address, get_script_info, load_key, finish, user_or_400, head_of, open_head,
}
use eutxo_l2_interop.Client.Api.Ids.{ParsedInt, not_a_number, parsed, parse_int, without_0x}
use Prim.Native.String.{◌++◌}
use eutxo_l2_interop.Client.Numbers.{
  ℤ, pos, Number, nan, infinity, to_number, times, plus, to_bigint,
}

pub record DesiredOutput : Type 0 where
  pub kind : Option String
  pub receiver : Option String
  pub datum_timeout_minutes : Option String

-- The request: whether its body is JSON, and the fields of the body.
pub record LockRequest : Type 0 where
  pub content_type : Option String
  pub is_json : Bool
  pub sender_name : Option String
  pub recipient_name : Option String
  pub amount_ada : Option String
  pub htlc_hash : Option String
  pub timeout_minutes : Option String
  pub desired_output : Option DesiredOutput

-- The transaction: what it pays to which script, with which datum, at which node and signed by whom.
pub record LockTx : Type 0 where
  pub node_url : String
  pub signer : UserName
  pub script_code : String
  pub datum : HtlcDatum
  pub inline : String
  pub pays : Assets ℕ

-- The Number that `parseInt` returns.
unfoldable pub minutes_number : ParsedInt → Number
unfolding to_number
minutes_number not_a_number = nan
minutes_number (parsed negative n) = to_number negative n

-- `Date.now() + parseInt(minutes) * 60 * 1000`.
unfoldable pub deadline_number : Lucid → String → Number
unfolding minutes_number parse_int times plus
deadline_number lucid minutes =
    plus (times (times (minutes_number (parse_int minutes)) 60) 1000) (pos lucid.now)

abbrev pub number_name : Number → String
number_name (infinity false) = "Infinity"
number_name (infinity true) = "-Infinity"
number_name _ = "NaN"

-- `BigInt` of that, which throws for a Number that is no integer.
unfoldable pub deadline : Lucid → String → Flow ℤ
unfolding deadline_number to_bigint
deadline lucid minutes = found_or (to_bigint (deadline_number lucid minutes)) (
    crash (
      "The number "
      ++ number_name (deadline_number lucid minutes)
      ++ " cannot be converted to a BigInt because it is not an integer"))

abbrev pub lovelace_or_crash : Lucid → String → Flow ℕ
lovelace_or_crash lucid amount =
    found_or (lucid.lovelace_of amount)
      (crash "The number NaN cannot be converted to a BigInt because it is not an integer")

-- The datum of a vesting output: the receiver may take it after the deadline.
unfoldable pub vesting_output : Lucid → Assets ℕ → UserName → String → Flow HtlcOutput
unfolding bech32_to_data_address get_script_info deadline
vesting_output lucid pays receiver minutes = do
  receiver_hash ← load_key lucid receiver
  timeout ← deadline lucid minutes
  vesting ← get_script_info lucid "vesting"
  address ← bech32_to_data_address lucid (lucid.to_address (script vesting.hash) none)
  datum ←
      found_or (lucid.vesting_to_data (record { timeout = timeout; receiver = receiver_hash }))
        (crash "Could not serialize the data")
  next (record {
    address = address;
    value = assets_to_data_pairs lucid.from_unit pays;
    datum = some datum;
  })

unfoldable pub user_output : Lucid → Assets ℕ → UserName → Flow HtlcOutput
unfolding bech32_to_data_address
user_output lucid pays receiver = do
  receiver_hash ← load_key lucid receiver
  address ← bech32_to_data_address lucid (lucid.to_address (key receiver_hash) none)
  next (record {
    address = address;
    value = assets_to_data_pairs lucid.from_unit pays;
    datum = none;
  })

unfoldable pub build_output : Lucid → Assets ℕ → UserName → DesiredOutput → Flow HtlcOutput
unfolding user_output vesting_output
build_output lucid pays receiver desired =
    if str_eq (text_or_empty desired.kind) "user"
    then user_output lucid pays receiver
    else if str_eq (text_or_empty desired.kind) "vesting"
    then vesting_output lucid pays receiver (text_or_empty desired.datum_timeout_minutes)
    else return (refused 400 "Invalid desired output type" none)

-- The checks of the body's fields, before the cookie is read.
unfoldable pub check_fields : LockRequest → Flow DesiredOutput
check_fields request = do
  demand (includes "application/json" (text_or_empty request.content_type)) 400
      "Content-Type must be application/json"
  if request.is_json then next tt else crash "Unexpected token in JSON"
  demand
      (is_given request.sender_name
        && is_given request.recipient_name
        && is_given request.amount_ada
        && is_given request.htlc_hash
        && is_given request.timeout_minutes)
      400 "Missing required fields: senderName, recipientName, amountAda, htlcHash, timeoutMinutes"
  desired ← found_or request.desired_output (
      return
        (refused 400 "Missing required fields: desiredOutput.type, desiredOutput.receiver" none))
  demand (is_given desired.kind && is_given desired.receiver) 400
      "Missing required fields: desiredOutput.type, desiredOutput.receiver"
  demand
      (not (str_eq (text_or_empty desired.kind) "vesting")
        || is_given desired.datum_timeout_minutes)
      400 "Missing required field: desiredOutput.datumTimeoutMinutes (required for vesting type)"
  next desired

abbrev pub lovelace_only : ℕ → Assets ℕ
lovelace_only amount = ("lovelace", amount) ∷ []

-- The head's node, and the two users with the hashes of their keys.
pub record Parties : Type 0 where
  pub node_url : String
  pub sender : UserName
  pub sender_hash : String
  pub recipient : UserName
  pub recipient_hash : String

unfoldable pub find_parties : Lucid → Option String → String → LockRequest → Flow Parties
unfolding open_head user_named
find_parties lucid cookie head_route request = do
  config ← head_of cookie head_route
  sender ←
      user_or_400 (user_named all_names (text_or_empty request.sender_name)) "Invalid user name"
  recipient ←
      user_or_400 (user_named all_names (text_or_empty request.recipient_name)) "Invalid user name"
  url ← open_head lucid config
  sender_hash ← load_key lucid sender
  recipient_hash ← load_key lucid recipient
  next (record {
    node_url = url;
    sender = sender;
    sender_hash = sender_hash;
    recipient = recipient;
    recipient_hash = recipient_hash;
  })

-- The amount that is locked, and the datum.
unfoldable pub build_datum : Lucid → LockRequest → DesiredOutput → Parties → Flow (ℕ × HtlcDatum)
unfolding build_output user_named deadline
build_datum lucid request desired parties = do
  amount ← lovelace_or_crash lucid (text_or_empty request.amount_ada)
  timeout ← deadline lucid (text_or_empty request.timeout_minutes)
  receiver ←
      user_or_400 (user_named all_names (text_or_empty desired.receiver))
        "Invalid desired output receiver name"
  output ← build_output lucid (lovelace_only amount) receiver desired
  demand (matches_all is_hex (without_0x (text_or_empty request.htlc_hash))) 400
      "Invalid hash format. Must be a valid hex string."
  next (
    amount,
    record {
      hash = without_0x (text_or_empty request.htlc_hash);
      timeout = timeout;
      sender = parties.sender_hash;
      receiver = parties.recipient_hash;
      desired_output = output;
    },
  )

-- The handler up to the transaction.
unfoldable pub lock_flow : Lucid → Option String → String → LockRequest → Flow LockTx
unfolding check_fields find_parties build_datum get_script_info
lock_flow lucid cookie head_route request = do
  desired ← check_fields request
  parties ← find_parties lucid cookie head_route request
  terms ← build_datum lucid request desired parties
  inline ←
      found_or (lucid.htlc_to_data terms.1)
        (return (refused 500 "Failed to create HTLC datum" (some "Could not serialize the data")))
  htlc ← get_script_info lucid "htlc"
  next (record {
    node_url = parties.node_url;
    signer = parties.sender;
    script_code = htlc.compiled_code;
    datum = terms.1;
    inline = inline;
    pays = lovelace_only terms.0;
  })

unfoldable pub lock :
    Lucid → (LockTx → TxOutcome) → Option String → String → LockRequest → Reply × Option LockTx
unfolding lock_flow finish
lock lucid outcome cookie head_route request =
    finish "Failed to lock HTLC" outcome (lock_flow lucid cookie head_route request)
