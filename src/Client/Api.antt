-- ===== src/Client/Api.antt =====
-- app/api/hydra/[headRoute] of src/client: what its handlers share, with lib/hydra-utils.ts. Lucid,
-- the Hydra nodes and the credential files are parameters.
pub mod Ids
pub mod Lock
pub mod Inversion
pub mod Spend
pub mod Claim
pub mod Refund
pub mod Vesting
pub mod Validity
pub mod Sent
pub mod Returned
pub mod LeftOut
pub mod Locked
pub mod Listing
pub mod Digits
pub mod Shown
use eutxo_l2_interop.Client.Numbers.{ℤ}
use Prim.Native.String.{◌++◌}
use Prim.Native.Char.{Char, code}
use eutxo_l2_interop.Base.{
  ℕ, ◌+◌, ◌*◌, ◌-◌, ◌==◌, String, ◌≡◌, refl, Bool, true, false, ◌&&◌, List, [], ◌∷◌, Option, none,
  some, if◌then◌else◌, str_eq, find, is_empty, is_digit, is_space, trim_start, arith,
}
use eutxo_l2_interop.Store.{Result, ok, throw, plain}
use eutxo_l2_interop.Client.Users.{UserName, user_text, alice, bob, charlie, ida, jon}
use eutxo_l2_interop.Client.Topologies.{HydraHeadConfig}
use eutxo_l2_interop.Client.Selection.{get_head_config_from_cookie, get_head_node_url}
use eutxo_l2_interop.Client.Assets.{FromUnit, DataPairs}

-- What a handler answers.
pub data Reply : Type 0 where
  refused : (status : ℕ) (error : String) (details : Option String) → Reply
  success : (tx_hash : String) → Reply

-- The code of a handler up to its transaction: it goes on, returns an answer or throws.
pub data Flow (A : Type 0) : Type 0 where
  next : A → Flow A
  return : Reply → Flow A
  crash : (message : String) → Flow A

infixl 5 ◌>>=◌ ◌>>◌
abbrev pub ◌>>=◌ : {A B : Type 0} → Flow A → (A → Flow B) → Flow B
next a >>= f = f a
return r >>= f = return r
crash m >>= f = crash m

abbrev pub ◌>>◌ : {A B : Type 0} → Flow A → Flow B → Flow B
m >> k = m >>= λ _. k

-- `if (!test) return NextResponse.json({ error }, { status })`.
abbrev pub demand : Bool → ℕ → String → Flow (Unit {0})
demand true status error = next tt
demand false status error = return (refused status error none)

abbrev pub found_or : {A : Type 0} → Option A → Flow A → Flow A
found_or none other = other
found_or (some a) other = next a

-- A field of the body is falsy if it is missing or empty.
abbrev pub is_given : Option String → Bool
is_given none = false
is_given (some String.[]) = false
is_given (some (String.◌∷◌ ch rest)) = true

abbrev pub text_or_empty : Option String → String
text_or_empty none = ""
text_or_empty (some text) = text

-- `[...].includes(name)`, with the user that has the name.
unfoldable pub user_named : List UserName → String → Option UserName
user_named users text = find (λ user. str_eq (user_text user) text) users

abbrev pub all_names : List UserName
all_names = alice ∷ bob ∷ ida ∷ charlie ∷ jon ∷ []

-- The names that the handlers for refunds and vestings accept.
abbrev pub two_head_names : List UserName
two_head_names = alice ∷ bob ∷ ida ∷ []

pub data Credential : Type 0 where
  key script : (hash : String) → Credential

-- `AddressT`: an address in a datum.
pub record DataAddress : Type 0 where
  pub payment_credential : Credential
  pub stake_credential : Option Credential

-- Plutus data is represented by its CBOR text.
pub record HtlcOutput : Type 0 where
  pub address : DataAddress
  pub value : DataPairs ℕ
  pub datum : Option String

pub record HtlcDatum : Type 0 where
  pub hash : String
  pub timeout : ℤ
  pub sender : String
  pub receiver : String
  pub desired_output : HtlcOutput

pub record VestingDatum : Type 0 where
  pub timeout : ℤ
  pub receiver : String

pub record Utxo : Type 0 where
  pub tx_hash : String
  pub output_index : ℕ
  pub lovelace : ℕ
  pub datum : Option String

pub record Validator : Type 0 where
  pub title : String
  pub compiled_code : String
  pub hash : String

-- What the handlers ask of Lucid, of the node behind an address and of the file system.
-- `key_hash` is the hash of a user's public key, or `none` if the keys cannot be read; `connect`
-- says why a node cannot be used, and `utxos_at` is `none` where the query throws; `lovelace_of` is `BigInt(Math.floor(parseFloat(a) * 1_000_000))`,
-- or `none` where that throws, for amounts that are not negative.
pub record Lucid : Type 0 where
  pub now : ℕ
  pub connect : String → Option String
  pub utxos_at : String → Credential → Option (List Utxo)
  pub key_hash : UserName → Option String
  pub lovelace_of : String → Option ℕ
  pub from_unit : FromUnit
  pub to_address : Credential → Option Credential → String
  pub address_details : String → Option Credential × Option Credential
  pub htlc_to_data : HtlcDatum → Option String
  pub htlc_from_data : String → Option HtlcDatum
  pub vesting_to_data : VestingDatum → Option String
  pub vesting_from_data : String → Option VestingDatum
  pub validators : List Validator

-- What becomes of a transaction that a handler has put together.
pub data TxOutcome : Type 0 where
  unbuilt unsigned rejected : (message : String) → TxOutcome
  unconfirmed : (tx_hash message : String) → TxOutcome
  confirmed : (tx_hash : String) → TxOutcome

-- The address of a user or a script in a datum.
unfoldable pub bech32_to_data_address : Lucid → String → Flow DataAddress
bech32_to_data_address lucid address =
    let (payment, stake) = lucid.address_details address in
    elim payment [
      | none ↦ crash ("Address " ++ address ++ " missing payment credential")
      | some credential ↦
          next (record { payment_credential = credential; stake_credential = stake })
    ]

unfoldable pub data_address_to_bech32 : Lucid → DataAddress → String
data_address_to_bech32 lucid address =
    lucid.to_address address.payment_credential address.stake_credential

unfoldable pub get_script_info : Lucid → String → Flow Validator
get_script_info lucid name =
    found_or
      (find (λ validator. str_eq validator.title (name ++ "." ++ name ++ ".spend"))
        lucid.validators)
      (crash (name ++ " script not found in plutus.json"))

-- The key hash of a user whose keys are loaded.
abbrev pub load_key : Lucid → UserName → Flow String
load_key lucid user = found_or (lucid.key_hash user) (crash "ENOENT")

abbrev pub flow_of : {A : Type 0} → Result A → Flow A
flow_of (ok a) = next a
flow_of (throw (plain message)) = crash message
flow_of (throw _) = crash ""

-- The head of the cookie's topology, by the route in the request.
abbrev pub head_of : Option String → String → Flow HydraHeadConfig
head_of cookie head_route = elim (get_head_config_from_cookie cookie head_route) [
  | none ↦ return (refused 400 "Topology not selected or head not found" none)
  | some found ↦ next found.1
]

-- The node of the head, to which Lucid is connected.
unfoldable pub open_head : Lucid → HydraHeadConfig → Flow String
unfolding get_head_node_url
open_head lucid config = do
  url ← flow_of (get_head_node_url config)
  elim (lucid.connect url) [ none ↦ next url | some message ↦ crash message ]

abbrev pub user_or_400 : Option UserName → String → Flow UserName
user_or_400 found error = found_or found (return (refused 400 error none))

-- The answer, and the transaction if it was sent to the node.
abbrev pub answer_of : {Tx : Type 0} → Tx → TxOutcome → Reply × Option Tx
answer_of tx (unbuilt message) = (refused 500 "Failed to build transaction" (some message), none)
answer_of tx (unsigned message) = (refused 500 "Failed to sign transaction" (some message), none)
answer_of tx (rejected message) = (refused 500 "Failed to submit transaction" (some message), none)
answer_of tx (unconfirmed tx_hash message) =
    (refused 500 "Failed to submit transaction" (some message), some tx)
answer_of tx (confirmed tx_hash) = (success tx_hash, some tx)

-- The outer `try`: what is thrown is answered with the handler's own error.
unfoldable pub finish : {Tx : Type 0} → String → (Tx → TxOutcome) → Flow Tx → Reply × Option Tx
finish error outcome (next tx) = answer_of tx (outcome tx)
finish error outcome (return reply) = (reply, none)
finish error outcome (crash message) = (refused 500 error (some message), none)
