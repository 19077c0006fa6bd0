-- ===== src/Client/Api/LeftOut.antt =====
-- The refunds that charlie and jon cannot have.
use eutxo_l2_interop.Client.Api.Inversion.{
  found_or-next_of_return, >>=-eq-next, found_or-next_of_crash, demand->>, json->>, next-injective,
}
use eutxo_l2_interop.Client.Api.{
  script, get_script_info, load_key, open_head, UserName, all_names, next, return, crash, found_or,
  is_given, text_or_empty, user_named, Lucid, TxOutcome, HtlcDatum, two_head_names, refused,
  head_of, user_or_400, Utxo, Validator,
}
use eutxo_l2_interop.Base.{
  List, ◌∙◌, ap, String, ◌≡◌, refl, ◌⊎◌, inl, inr, true, ◌&&◌, Option, none, some, str_eq, eq_iff,
  ◌≢◌, sym, Bool, false, if◌then◌else◌,
}
use mathlib.Core.Path.{subst}
use eutxo_l2_interop.Client.Api.Spend.{Spending, find_output, datum_of}
use eutxo_l2_interop.Client.Api.Refund.{RefundRequest, RefundTx, refund, refund_flow}
use eutxo_l2_interop.Client.Api.Sent.{IsOutput, find_output-IsOutput}
use mathlib.Core.Option.{some-injective}
use eutxo_l2_interop.Client.Users.{UserName, alice, bob, ida, charlie, jon, user_text}
use eutxo_l2_interop.Client.Api.Ids.{utxo_with_id}
use eutxo_l2_interop.Client.Api.Returned.{refund_answer, refund_answer-sent}

-- The user who spends is one of those that the handler knows.
find_output-among :
    (lucid : Lucid) (cookie : Option String) (head_route : String) (names : List UserName)
    (user_name contract id : String) {found : Spending}
    → find_output lucid cookie head_route names user_name contract id ≡ next found
    → user_named names user_name ≡ some found.user
unfolding find_output
find_output-among lucid cookie head_route names user_name contract id e =
    let (config, e1, r1) = >>=-eq-next (head_of cookie head_route) _ e in
    let (user, e2, r2) =
      >>=-eq-next (user_or_400 (user_named names user_name) "Invalid user name") _ r1 in
    let (url, e3, r3) = >>=-eq-next (open_head lucid config) _ r2 in
    let (user_hash, e4, r4) = >>=-eq-next (load_key lucid user) _ r3 in
    let (validator, e5, r5) = >>=-eq-next (get_script_info lucid contract) _ r4 in
    let (utxos, e6, r6) =
      >>=-eq-next (found_or (lucid.utxos_at url (script validator.hash)) (crash "fetch failed")) _
        r5 in
    let (utxo, e7, r7) =
      >>=-eq-next (found_or (utxo_with_id id utxos) (return (refused 404 "UTXO not found" none))) _
        r6 in
    let (datum, e8, r8) = >>=-eq-next (datum_of utxo) _ r7 in
    subst (λ (found : Spending). user_named names user_name ≡ some found.user)
      (next-injective _ _ r8) (found_or-next_of_return _ _ e2)

pub accepted_name : (owner : UserName) → user_named all_names (user_text owner) ≡ some owner
unfolding user_named
accepted_name alice = refl
accepted_name bob = refl
accepted_name ida = refl
accepted_name charlie = refl
accepted_name jon = refl

-- The names that the handler of refunds takes are of other users.
picked :
    (a b c : Bool) (user : UserName)
    → (if a
        then some UserName.alice
        else if b
        then some UserName.bob
        else if c
        then some UserName.ida
        else none)
      ≡ some user
    → (user ≡ UserName.alice) ⊎ (user ≡ UserName.bob) ⊎ (user ≡ UserName.ida)
picked true b c user e = inl (sym (some-injective _ _ e))
picked false true c user e = inr (inl (sym (some-injective _ _ e)))
picked false false true user e = inr (inr (sym (some-injective _ _ e)))
picked false false false user e = cc

-- A user of whom the handlers of locks take the name, and the handler of refunds does not.
abbrev pub IsLeftOut : UserName → Type 0
IsLeftOut owner = (owner ≡ UserName.charlie) ⊎ (owner ≡ UserName.jon)

not_left_out :
    (name : String) (owner : UserName)
    → IsLeftOut owner
    → user_named two_head_names name ≢ some owner
unfolding user_named
not_left_out name owner left e =
    let one_of = picked (str_eq "alice" name) (str_eq "bob" name) (str_eq "ida" name) owner e in
    elim left [
      | inl is ↦ elim one_of [ inl a ↦ cc | inr (inl b) ↦ cc | inr (inr c) ↦ cc ]
      | inr is ↦ elim one_of [ inl a ↦ cc | inr (inl b) ↦ cc | inr (inr c) ↦ cc ]
    ]

-- The outputs of the HTLC contract with this identifier have a datum whose sender is this user.
abbrev pub IsLockedBy : Lucid → (id : String) → UserName → Type 0
IsLockedBy lucid id owner =
    (url : String) (htlc : Validator) (utxos : List Utxo) (utxo : Utxo) (datum : HtlcDatum)
    → get_script_info lucid "htlc" ≡ next htlc
    → lucid.utxos_at url (script htlc.hash) ≡ some utxos
    → utxo_with_id id utxos ≡ some utxo
    → lucid.htlc_from_data (text_or_empty utxo.datum) ≡ some datum
    → lucid.key_hash owner ≡ some datum.sender

-- The sender of a refund that is sent has a name that the handler takes.
refund-among :
    (lucid : Lucid) (cookie : Option String) (head_route : String) (request : RefundRequest)
    (tx : RefundTx)
    → refund_flow lucid cookie head_route request ≡ next tx
    → (found : Spending) × (user_named two_head_names (text_or_empty request.sender_name)
        ≡ some found.user)
      × IsOutput lucid cookie head_route
          (text_or_empty request.sender_name)
          "htlc"
          (text_or_empty request.utxo_id)
          found
      × ((datum : HtlcDatum) × (lucid.htlc_from_data found.datum ≡ some datum)
          × (datum.sender ≡ found.user_hash))
unfolding refund_flow
refund-among lucid cookie head_route request tx e0 =
    let r1 = json->> request.is_json "Unexpected token in JSON" _ e0 in
    let (_, r2) =
      demand->> (is_given request.utxo_id && is_given request.sender_name) 400
        "Missing required fields: utxoId, senderName" _ r1 in
    let (found, e3, r3) =
      >>=-eq-next
        (find_output lucid cookie head_route two_head_names (text_or_empty request.sender_name)
          "htlc" (text_or_empty request.utxo_id))
        _ r2 in
    let (datum, e4, r4) =
      >>=-eq-next
        (found_or (lucid.htlc_from_data found.datum) (crash "Could not type cast to object")) _
        r3 in
    let (e5, r5) =
      demand->> (str_eq datum.sender found.user_hash) 403 "You are not the sender of this HTLC" _
        r4 in
    (
      found,
      find_output-among lucid cookie head_route two_head_names (text_or_empty request.sender_name)
          "htlc" (text_or_empty request.utxo_id) e3,
      find_output-IsOutput lucid cookie head_route two_head_names _ "htlc" _ e3,
      (datum, found_or-next_of_crash _ _ e4, (eq_iff datum.sender found.user_hash).0 e5),
    )

not_sent : (sent : Option RefundTx) → ((tx : RefundTx) → sent ≢ some tx) → sent ≡ none
not_sent none h = refl
not_sent (some tx) h = absurd (h tx refl)

-- If no two users have the same key, and the HTLC that a request names is charlie's or jon's, whose
-- names the handler for locks takes as senders, then no transaction is sent: whatever name the
-- request gives, whatever head it names and however long the timeout has passed.
pub refund-refused :
    (lucid : Lucid) (outcome : RefundTx → TxOutcome) (cookie : Option String) (head_route : String)
    (request : RefundRequest) (owner : UserName)
    → ((u v : UserName) (hash : String)
        → lucid.key_hash u ≡ some hash
        → lucid.key_hash v ≡ some hash
        → u ≡ v)
    → IsLeftOut owner
    → IsLockedBy lucid (text_or_empty request.utxo_id) owner
    → (user_named all_names (user_text owner) ≡ some owner)
      × ((refund lucid outcome cookie head_route request).1 ≡ none)
unfolding refund refund_answer
refund-refused lucid outcome cookie head_route request owner keys left locked = (
  accepted_name owner,
  not_sent (refund lucid outcome cookie head_route request).1 (λ tx e.
      let flow = refund_answer-sent (refund_flow lucid cookie head_route request) outcome e in
      let (found, among, output, (datum, decoded, by)) =
        refund-among lucid cookie head_route request tx flow in
      let same =
        keys owner found.user datum.sender
          (locked found.node_url output.validator output.utxos found.utxo datum output.of_contract
            output.listed output.identified (rw output.has_datum decoded))
          (output.has_key ∙ ap some (sym by)) in
      not_left_out (text_or_empty request.sender_name) owner left (among ∙ ap some (sym same))),
)
