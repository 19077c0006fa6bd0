-- ===== src/Client/Api/Listing.antt =====
-- app/api/hydra/[headRoute]/utxos/route.ts of src/client: GET, the outputs of a head as the client
-- shows them and polls for them.
use eutxo_l2_interop.Client.Numbers.{ℤ}
use Prim.Native.String.{◌++◌}
use Prim.Native.Char.{Char}
use eutxo_l2_interop.Base.{
  ℕ, zero, suc, ◌/◌, ◌%◌, ◌==◌, ◌++◌ as ◌⧺◌, ltb, String, Bool, true, false, List, [], ◌∷◌, Option,
  none, some, if◌then◌else◌, map,
}
use eutxo_l2_interop.Client.Users.{UserName, User, get_all_users}
use eutxo_l2_interop.Client.Api.{
  Flow, next, crash, ◌>>=◌, found_or, is_given, text_or_empty, script, Lucid, get_script_info,
  head_of, open_head, Utxo, Validator,
}

-- The digit of a number below ten.
abbrev pub digit : ℕ → Char
digit d =
    if d == 0
    then "0"
    else if d == 1
    then "1"
    else if d == 2
    then "2"
    else if d == 3
    then "3"
    else if d == 4
    then "4"
    else if d == 5
    then "5"
    else if d == 6
    then "6"
    else if d == 7
    then "7"
    else if d == 8
    then "8"
    else "9"

-- The decimal digits of a number before `rest`; there are at most as many as the number and one.
unfoldable pub digits_before : (fuel n : ℕ) → String → String
digits_before zero n rest = rest
digits_before (suc fuel) n rest =
    let more = digits_before fuel (n / 10) (String.◌∷◌ (digit (n % 10)) rest) in
    if ltb n 10 then String.◌∷◌ (digit n) rest else more

-- A number in a template literal.
unfoldable pub number_text : ℕ → String
unfolding digits_before
number_text n = digits_before (suc n) n ""

pub data ItemKind : Type 0 where
  htlc vesting user : ItemKind

-- `UtxoItem` of the handler, with the amount in lovelace where the source divides by a million.
pub record ContractItem : Type 0 where
  pub id : String
  pub lovelace : ℕ
  pub address : String
  pub kind : ItemKind
  pub hash : Option String
  pub timeout : Option ℤ
  pub from : Option String
  pub to : Option String
  pub owner : Option UserName
  pub owner_vk_hash : Option String

unfoldable pub utxo_id : Utxo → String
unfolding number_text
utxo_id utxo = utxo.tx_hash ++ "#" ++ number_text utxo.output_index

-- A datum that is no datum of the contract, which throws, leaves the output out.
unfoldable pub vesting_item : Lucid → String → Utxo → (datum : String) → Option ContractItem
unfolding utxo_id
vesting_item lucid address utxo datum = elim (lucid.vesting_from_data datum) [
  | none ↦ none
  | some vested ↦ some (record {
    id = utxo_id utxo;
    lovelace = utxo.lovelace;
    address = address;
    kind = vesting;
    hash = none;
    timeout = some vested.timeout;
    from = none;
    to = some vested.receiver;
    owner = none;
    owner_vk_hash = none;
  })
]

unfoldable pub htlc_item : Lucid → String → Utxo → (datum : String) → Option ContractItem
unfolding utxo_id
htlc_item lucid address utxo datum = elim (lucid.htlc_from_data datum) [
  | none ↦ none
  | some locked ↦ some (record {
    id = utxo_id utxo;
    lovelace = utxo.lovelace;
    address = address;
    kind = htlc;
    hash = some locked.hash;
    timeout = some locked.timeout;
    from = some locked.sender;
    to = some locked.receiver;
    owner = none;
    owner_vk_hash = none;
  })
]

-- `!utxo.datum` holds for an empty datum too.
unfoldable pub utxo_to_contract_item :
    Lucid → (is_vesting : Bool) → (contract_address : String) → Utxo → Option ContractItem
unfolding vesting_item htlc_item
utxo_to_contract_item lucid is_vesting address utxo =
    if is_given utxo.datum
    then if is_vesting
      then vesting_item lucid address utxo (text_or_empty utxo.datum)
      else htlc_item lucid address utxo (text_or_empty utxo.datum)
    else none

unfoldable pub utxo_to_user_item : User → Utxo → ContractItem
unfolding utxo_id
utxo_to_user_item owner utxo = record {
  id = utxo_id utxo;
  lovelace = utxo.lovelace;
  address = owner.address;
  kind = user;
  hash = none;
  timeout = none;
  from = none;
  to = none;
  owner = some owner.name;
  owner_vk_hash = some owner.vk_hash;
}

-- The items that are there.
unfoldable pub contract_items : Lucid → Bool → String → List Utxo → List ContractItem
unfolding utxo_to_contract_item
contract_items lucid is_vesting address [] = []
contract_items lucid is_vesting address (utxo ∷ utxos) =
    let rest = contract_items lucid is_vesting address utxos in
    elim (utxo_to_contract_item lucid is_vesting address utxo) [
      | none ↦ rest
      | some item ↦ item ∷ rest
    ]

-- The outputs at the addresses of these users; `at_address` is what the node has at an address,
-- `none` where asking for it throws.
unfoldable pub user_items : (String → Option (List Utxo)) → List User → Flow (List ContractItem)
unfolding utxo_to_user_item
user_items at_address [] = next []
user_items at_address (owner ∷ users) = do
  utxos ← found_or (at_address owner.address) (crash "fetch failed")
  rest ← user_items at_address users
  next (map (utxo_to_user_item owner) utxos ⧺ rest)

-- The outputs at a contract's address.
unfoldable pub items_of_contract :
    Lucid → (url : String) → (is_vesting : Bool) → Validator → Flow (List ContractItem)
unfolding contract_items
items_of_contract lucid url is_vesting validator = do
  utxos ← found_or (lucid.utxos_at url (script validator.hash)) (crash "fetch failed")
  next (contract_items lucid is_vesting (lucid.to_address (script validator.hash) none) utxos)

unfoldable pub list_utxos :
    (lucid : Lucid) (at_address : (url : String) → String → Option (List Utxo))
    (cookie : Option String) (head_route : String)
    → Flow (List ContractItem)
unfolding open_head get_script_info items_of_contract user_items get_all_users
list_utxos lucid at_address cookie head_route = do
  config ← head_of cookie head_route
  url ← open_head lucid config
  htlc_validator ← get_script_info lucid "htlc"
  vesting_validator ← get_script_info lucid "vesting"
  htlc_items ← items_of_contract lucid url false htlc_validator
  vesting_items ← items_of_contract lucid url true vesting_validator
  users ← user_items (at_address url) get_all_users
  next (htlc_items ⧺ vesting_items ⧺ users)
