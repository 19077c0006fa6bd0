-- ===== src/Client/Api/Sent.antt =====
-- What holds of a transaction that the handlers for spending send.
use eutxo_l2_interop.Client.Api.{
  next, return, crash, demand, found_or, is_given, text_or_empty, user_named, script, refused,
  Lucid, get_script_info, load_key, head_of, open_head, user_or_400, Utxo, Validator, TxOutcome,
  HtlcDatum, all_names, data_address_to_bech32,
}
use mathlib.Core.Path.{subst}
use eutxo_l2_interop.Base.{
  ℕ, ◌+◌, ◌<◌, String, ◌≡◌, refl, true, ◌&&◌, List, Option, none, some, str_eq, eq_iff, is_hex,
  matches_all, false, ◌≤◌, ◌⊎◌,
}
use eutxo_l2_interop.Store.{ok}
use eutxo_l2_interop.Client.Users.{UserName, user_text}
use eutxo_l2_interop.Client.Topologies.{HydraHeadConfig, TopologyId}
use eutxo_l2_interop.Client.Selection.{get_head_config_from_cookie, get_head_node_url}
use eutxo_l2_interop.Client.Assets.{data_pairs_to_assets}
use eutxo_l2_interop.Client.Api.Ids.{utxo_with_id, without_0x}
use eutxo_l2_interop.Client.Api.Spend.{Spending, find_output, datum_of}
use eutxo_l2_interop.Client.Api.Claim.{
  ClaimRequest, ClaimTx, claim, claim_flow, claim_tx, valid_to_of, positive_of,
}
use eutxo_l2_interop.Client.Api.Inversion.{
  >>=-eq-next, found_or-next_of_return, found_or-next_of_crash, finish-sent, user_named-text,
  head_of-next, open_head-next, demand->>, json->>, next-injective,
}
use eutxo_l2_interop.Client.Numbers.{pos, finite, exact_bound}
use eutxo_l2_interop.Client.Api.Validity.{positive_of-some, in_time_of}

-- The output stands at the contract's script, at a node of the head that the request names, and has
-- the identifier and the datum; the user is the one who is named, with the hash of its key.
pub record IsOutput (lucid : Lucid) (cookie : Option String)
    (head_route user_name contract id : String) (found : Spending) : Type 0 where
  pub topology : TopologyId
  pub config : HydraHeadConfig
  pub in_head : get_head_config_from_cookie cookie head_route ≡ some (topology, config)
  pub at_node : get_head_node_url config ≡ ok found.node_url
  pub named : user_text found.user ≡ user_name
  pub has_key : lucid.key_hash found.user ≡ some found.user_hash
  pub validator : Validator
  pub of_contract : get_script_info lucid contract ≡ next validator
  pub utxos : List Utxo
  pub listed : lucid.utxos_at found.node_url (script validator.hash) ≡ some utxos
  pub identified : utxo_with_id id utxos ≡ some found.utxo
  pub has_datum : text_or_empty found.utxo.datum ≡ found.datum

datum_of-next :
    (utxo : Utxo) {datum : String} → datum_of utxo ≡ next datum → text_or_empty utxo.datum ≡ datum
datum_of-next utxo e =
    let (u, e1, r) = >>=-eq-next (demand (is_given utxo.datum) 400 "UTXO has no datum") _ e in cc

pub find_output-IsOutput :
    (lucid : Lucid) (cookie : Option String) (head_route : String) (names : List UserName)
    (user_name contract id : String) {found : Spending}
    → find_output lucid cookie head_route names user_name contract id ≡ next found
    → IsOutput lucid cookie head_route user_name contract id found
unfolding find_output
find_output-IsOutput lucid cookie head_route names user_name contract id {found} e =
    let (config, e1, r1) = >>=-eq-next (head_of cookie head_route) _ e in
    let (topology, in_head) = head_of-next cookie head_route e1 in
    let (user, e2, r2) =
      >>=-eq-next (user_or_400 (user_named names user_name) "Invalid user name") _ r1 in
    let (url, e3, r3) = >>=-eq-next (open_head lucid config) _ r2 in
    let (user_hash, e4, r4) = >>=-eq-next (load_key lucid user) _ r3 in
    let (validator, e5, r5) = >>=-eq-next (get_script_info lucid contract) _ r4 in
    let (utxos, e6, r6) =
      >>=-eq-next (found_or (lucid.utxos_at url (script validator.hash)) (crash "fetch failed")) _
        r5 in
    let (utxo, e7, r7) =
      >>=-eq-next (found_or (utxo_with_id id utxos) (return (refused 404 "UTXO not found" none))) _
        r6 in
    let (datum, e8, r8) = >>=-eq-next (datum_of utxo) _ r7 in
    subst (IsOutput lucid cookie head_route user_name contract id) (next-injective _ _ r8) (record {
      topology = topology;
      config = config;
      in_head = in_head;
      at_node = open_head-next lucid config e3;
      named = user_named-text names user_name (found_or-next_of_return _ _ e2);
      has_key = found_or-next_of_crash _ _ e4;
      validator = validator;
      of_contract = e5;
      utxos = utxos;
      listed = found_or-next_of_crash _ _ e6;
      identified = found_or-next_of_return _ _ e7;
      has_datum = datum_of-next utxo e8;
    })

-- A claim as it may be sent: of an output of the HTLC contract whose datum names the claimer's key
-- as receiver, valid until twenty minutes before the datum's timeout, exactly so unless it is 2 ^ 53 or
-- more, and paying what the datum desires.
pub record IsClaim (lucid : Lucid) (cookie : Option String) (head_route : String)
    (request : ClaimRequest) (tx : ClaimTx) : Type 0 where
  pub found : Spending
  pub output :
      IsOutput lucid cookie head_route
        (text_or_empty request.claimer_name)
        "htlc"
        (text_or_empty request.utxo_id)
        found
  pub spent : (tx.spends ≡ found.utxo) × (tx.node_url ≡ found.node_url) × (tx.signer ≡ found.user)
  pub datum : HtlcDatum
  pub decoded : lucid.htlc_from_data found.datum ≡ some datum
  pub by_receiver : datum.receiver ≡ found.user_hash
  pub revealed :
      (tx.preimage ≡ without_0x (text_or_empty request.preimage))
      × (matches_all is_hex tx.preimage ≡ true)
  pub in_time :
      (0 < tx.valid_to)
      × (valid_to_of datum.timeout ≡ finite false tx.valid_to)
      × ((timeout : ℕ) × (datum.timeout ≡ pos timeout)
          × ((tx.valid_to + 1200000 ≡ timeout) ⊎ (exact_bound ≤ timeout)))
  pub pays_desired :
      (tx.pays_to ≡ data_address_to_bech32 lucid datum.desired_output.address)
      × (tx.pays ≡ data_pairs_to_assets datum.desired_output.value)
      × (tx.pays_datum ≡ datum.desired_output.datum)

-- Every claim that the handler sends to a node, whether its confirmation is seen or not, is one that
-- may be sent: it spends the output that the request names, of the HTLC contract and in the head of
-- the cookie's topology; the claimer that the request names is the receiver in the output's datum;
-- the preimage is a hex text; its end is a finite and positive Number, the timeout less twenty
-- minutes in the arithmetic of Numbers (one of the source's comments says ten), where the timeout
-- is not negative and the difference is exact unless the timeout is 2 ^ 53 milliseconds or more;
-- and it pays the address, the value and the datum that the output's datum desires.
pub claim-IsClaim :
    (lucid : Lucid) (outcome : ClaimTx → TxOutcome) (cookie : Option String) (head_route : String)
    (request : ClaimRequest) (tx : ClaimTx)
    → (claim lucid outcome cookie head_route request).1 ≡ some tx
    → IsClaim lucid cookie head_route request tx
unfolding claim claim_flow claim_tx
claim-IsClaim lucid outcome cookie head_route request tx e =
    let e0 =
      finish-sent "Failed to claim HTLC" outcome (claim_flow lucid cookie head_route request) e in
    let r1 = json->> request.is_json "Unexpected token in JSON" _ e0 in
    let (_, r2) =
      demand->>
        (is_given request.utxo_id && is_given request.preimage && is_given request.claimer_name) 400
        "Missing required fields: utxoId, preimage, claimerName" _ r1 in
    let (found, e3, r3) =
      >>=-eq-next
        (find_output lucid cookie head_route all_names (text_or_empty request.claimer_name) "htlc"
          (text_or_empty request.utxo_id))
        _ r2 in
    let (datum, e4, r4) =
      >>=-eq-next
        (found_or (lucid.htlc_from_data found.datum) (crash "Could not type cast to object")) _
        r3 in
    let (e5, r5) =
      demand->> (str_eq datum.receiver found.user_hash) 403 "You are not the receiver of this HTLC"
        _ r4 in
    let (e6, r6) =
      demand->> (matches_all is_hex (without_0x (text_or_empty request.preimage))) 400
        "Invalid preimage format. Must be a valid hex string." _ r5 in
    let (valid_to, e7, r7) =
      >>=-eq-next
        (found_or (positive_of (valid_to_of datum.timeout))
          (return (refused 400 "Invalid timeout value. Transaction would be invalid." none)))
        _ r6 in
    let (positive, same) =
      positive_of-some (valid_to_of datum.timeout) (found_or-next_of_return _ _ e7) in
    subst (IsClaim lucid cookie head_route request) (next-injective _ _ r7) (record {
      found = found;
      output = find_output-IsOutput lucid cookie head_route all_names _ "htlc" _ e3;
      spent = (refl, refl, refl);
      datum = datum;
      decoded = found_or-next_of_crash _ _ e4;
      by_receiver = (eq_iff datum.receiver found.user_hash).0 e5;
      revealed = (refl, e6);
      in_time = (positive, same, in_time_of datum.timeout valid_to same);
      pays_desired = (refl, refl, refl);
    })
