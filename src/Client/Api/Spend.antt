-- ===== src/Client/Api/Spend.antt =====
-- What the handlers of src/client that spend an output of a contract do first, in the same words:
-- htlc/claim, htlc/refund and vesting/claim below app/api/hydra/[headRoute].
use eutxo_l2_interop.Base.{String, Option, none, List}
use eutxo_l2_interop.Client.Users.{UserName}
use eutxo_l2_interop.Client.Api.{
  Flow, next, return, crash, ◌>>=◌, ◌>>◌, demand, found_or, is_given, text_or_empty, user_named,
  script, refused, Lucid, get_script_info, load_key, head_of, open_head, user_or_400, Utxo,
}
use eutxo_l2_interop.Client.Api.Ids.{utxo_with_id}

-- The node, the user with the hash of its key, the contract's code, and the output with its datum.
pub record Spending : Type 0 where
  pub node_url : String
  pub user : UserName
  pub user_hash : String
  pub script_code : String
  pub utxo : Utxo
  pub datum : String

-- An empty datum is falsy.
abbrev pub datum_of : Utxo → Flow String
datum_of utxo = do
  demand (is_given utxo.datum) 400 "UTXO has no datum"
  next (text_or_empty utxo.datum)

unfoldable pub find_output :
    (lucid : Lucid) (cookie : Option String) (head_route : String) (names : List UserName)
    (user_name contract id : String)
    → Flow Spending
unfolding open_head get_script_info user_named utxo_with_id
find_output lucid cookie head_route names user_name contract id = do
  config ← head_of cookie head_route
  user ← user_or_400 (user_named names user_name) "Invalid user name"
  url ← open_head lucid config
  user_hash ← load_key lucid user
  validator ← get_script_info lucid contract
  utxos ← found_or (lucid.utxos_at url (script validator.hash)) (crash "fetch failed")
  utxo ← found_or (utxo_with_id id utxos) (return (refused 404 "UTXO not found" none))
  datum ← datum_of utxo
  next (record {
    node_url = url;
    user = user;
    user_hash = user_hash;
    script_code = validator.compiled_code;
    utxo = utxo;
    datum = datum;
  })
