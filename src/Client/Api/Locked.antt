-- ===== src/Client/Api/Locked.antt =====
-- What holds of the locks of HTLCs that their handler sends.
use eutxo_l2_interop.Client.Api.Lock.{
  build_datum, find_parties, Parties, LockRequest, LockTx, DesiredOutput, lock, lock_flow,
  check_fields, build_output, user_output, vesting_output, deadline, lovelace_or_crash,
  lovelace_only, deadline_number, minutes_number,
}
use mathlib.Core.Path.{subst}
use eutxo_l2_interop.Base.{
  ℕ, ◌+◌, ◌*◌, String, ◌≡◌, refl, sym, true, Option, none, some, arith, is_hex, matches_all, ◌<◌,
  Bool, ap, ◌∙◌, ◌≤◌, ◌⊎◌, inl, inr, ltb, Bool-cases,
}
use eutxo_l2_interop.Store.{ok}
use eutxo_l2_interop.Client.Users.{UserName, user_text}
use eutxo_l2_interop.Client.Topologies.{HydraHeadConfig, TopologyId}
use eutxo_l2_interop.Client.Selection.{get_head_config_from_cookie, get_head_node_url}
use eutxo_l2_interop.Client.Assets.{Assets, assets_to_data_pairs}
use eutxo_l2_interop.Client.Api.{
  next, return, found_or, text_or_empty, user_named, all_names, HtlcDatum, HtlcOutput, Lucid,
  TxOutcome, Validator, get_script_info, load_key, head_of, open_head, user_or_400, refused,
}
use eutxo_l2_interop.Client.Api.Ids.{parse_int, without_0x, not_a_number, parsed, ParsedInt}
use eutxo_l2_interop.Client.Api.Inversion.{
  >>=-eq-next, found_or-next_of_return, found_or-next_of_crash, finish-sent, demand->>,
  next-injective, user_named-text, head_of-next, open_head-next,
}
use mathlib.Core.Option.{some-injective}
use eutxo_l2_interop.Client.Numbers.{
  ℤ, pos, Number, exact_bound, signed, ◌+ℤ◌, to_bigint, plus, times, to_number-exact, times-exact,
  to_bigint-plus,
}

-- A number of minutes from now, as the handlers compute it: the text begins with an integer, and the
-- arithmetic is exact or beyond 2 ^ 53 milliseconds.
abbrev pub IsDeadline : Lucid → (minutes : String) → (timeout : ℤ) → Type 0
IsDeadline lucid minutes timeout =
    (to_bigint (deadline_number lucid minutes) ≡ some timeout)
    × ((negative : Bool) × (n : ℕ) × (parse_int minutes ≡ parsed negative n)
        × ((timeout ≡ signed negative (n * 60 * 1000) +ℤ pos lucid.now)
            ⊎ (exact_bound ≤ n * 60 * 1000 + lucid.now)))

minutes-exact :
    (lucid : Lucid) (minutes : String) (negative : Bool) (n : ℕ)
    → parse_int minutes ≡ parsed negative n
    → n * 60 * 1000 + lucid.now < exact_bound
    → to_bigint (deadline_number lucid minutes)
      ≡ some (signed negative (n * 60 * 1000) +ℤ pos lucid.now)
unfolding deadline_number minutes_number
minutes-exact lucid minutes negative n e h =
    let finish = λ (x : Number). to_bigint (plus x (pos lucid.now)) in
    ap (λ read. finish (times (times (minutes_number read) 60) 1000)) e
    ∙ ap (λ x. finish (times (times x 60) 1000)) (to_number-exact negative n (omega arith))
    ∙ ap (λ x. finish (times x 1000)) (times-exact negative n 60 (omega arith))
    ∙ ap finish (times-exact negative (n * 60) 1000 (omega arith))
    ∙ to_bigint-plus negative (n * 60 * 1000) lucid.now h

nan-crashes :
    (lucid : Lucid) (minutes : String)
    → parse_int minutes ≡ not_a_number
    → to_bigint (deadline_number lucid minutes) ≡ none
unfolding deadline_number minutes_number times plus to_bigint
nan-crashes lucid minutes e =
    ap (λ read. to_bigint (plus (times (times (minutes_number read) 60) 1000) (pos lucid.now))) e

below_or_beyond : (n m : ℕ) → (n < m) ⊎ (m ≤ n)
below_or_beyond n m = elim (Bool-cases (ltb n m)) [
  | inl e ↦ inl (ground arith)
  | inr e ↦ inr (ground arith)
]

-- The deadline of a text, by what parseInt reads of it.
by_minutes :
    (lucid : Lucid) (minutes : String) (timeout : ℤ) (read : ParsedInt)
    → parse_int minutes ≡ read
    → to_bigint (deadline_number lucid minutes) ≡ some timeout
    → IsDeadline lucid minutes timeout
by_minutes lucid minutes timeout not_a_number e found =
    let missing = nan-crashes lucid minutes e in cc
by_minutes lucid minutes timeout (parsed negative n) e found =
    elim (below_or_beyond (n * 60 * 1000 + lucid.now) exact_bound) [
      | inl small ↦ (
        found,
        (
          negative,
          n,
          e,
          inl (some-injective _ _ (sym found ∙ minutes-exact lucid minutes negative n e small)),
        ),
      )
      | inr beyond ↦ (found, (negative, n, e, inr beyond))
    ]

deadline-IsDeadline :
    (lucid : Lucid) (minutes : String) {timeout : ℤ}
    → deadline lucid minutes ≡ next timeout
    → IsDeadline lucid minutes timeout
unfolding deadline
deadline-IsDeadline lucid minutes {timeout} e =
    by_minutes lucid minutes timeout (parse_int minutes) refl (found_or-next_of_crash _ _ e)

-- Whatever output is desired, it has the whole value.
build_output-value :
    (lucid : Lucid) (pays : Assets ℕ) (receiver : UserName) (desired : DesiredOutput)
    {output : HtlcOutput}
    → build_output lucid pays receiver desired ≡ next output
    → output.value ≡ assets_to_data_pairs lucid.from_unit pays
unfolding build_output user_output vesting_output
build_output-value lucid pays receiver desired e = ground arith

-- The node is one of a head of the cookie's topology, and the users are those that are named.
pub record AreParties (lucid : Lucid) (cookie : Option String) (head_route : String)
    (request : LockRequest) (parties : Parties) : Type 0 where
  pub topology : TopologyId
  pub config : HydraHeadConfig
  pub in_head : get_head_config_from_cookie cookie head_route ≡ some (topology, config)
  pub at_node : get_head_node_url config ≡ ok parties.node_url
  pub is_sender :
      (user_text parties.sender ≡ text_or_empty request.sender_name)
      × (lucid.key_hash parties.sender ≡ some parties.sender_hash)
  pub is_recipient :
      (user_text parties.recipient ≡ text_or_empty request.recipient_name)
      × (lucid.key_hash parties.recipient ≡ some parties.recipient_hash)

-- What the datum says of the parties, the hash, the deadline and the value is what the request says.
pub record AreTerms (lucid : Lucid) (request : LockRequest) (parties : Parties)
    (terms : ℕ × HtlcDatum) : Type 0 where
  pub of_parties :
      (terms.1.sender ≡ parties.sender_hash) × (terms.1.receiver ≡ parties.recipient_hash)
  pub has_amount : lucid.lovelace_of (text_or_empty request.amount_ada) ≡ some terms.0
  pub keeps_value :
      terms.1.desired_output.value ≡ assets_to_data_pairs lucid.from_unit (lovelace_only terms.0)
  pub has_deadline : IsDeadline lucid (text_or_empty request.timeout_minutes) terms.1.timeout
  pub has_hash :
      (terms.1.hash ≡ without_0x (text_or_empty request.htlc_hash))
      × (matches_all is_hex terms.1.hash ≡ true)

find_parties-AreParties :
    (lucid : Lucid) (cookie : Option String) (head_route : String) (request : LockRequest)
    {parties : Parties}
    → find_parties lucid cookie head_route request ≡ next parties
    → AreParties lucid cookie head_route request parties
unfolding find_parties
find_parties-AreParties lucid cookie head_route request e0 =
    let (config, e2, r2) = >>=-eq-next (head_of cookie head_route) _ e0 in
    let (topology, in_head) = head_of-next cookie head_route e2 in
    let (sender, e3, r3) =
      >>=-eq-next
        (user_or_400 (user_named all_names (text_or_empty request.sender_name)) "Invalid user name")
        _ r2 in
    let (recipient, e4, r4) =
      >>=-eq-next
        (user_or_400 (user_named all_names (text_or_empty request.recipient_name))
          "Invalid user name")
        _ r3 in
    let (url, e5, r5) = >>=-eq-next (open_head lucid config) _ r4 in
    let (sender_hash, e6, r6) = >>=-eq-next (load_key lucid sender) _ r5 in
    let (recipient_hash, e7, r7) = >>=-eq-next (load_key lucid recipient) _ r6 in
    subst (AreParties lucid cookie head_route request) (next-injective _ _ r7) (record {
      topology = topology;
      config = config;
      in_head = in_head;
      at_node = open_head-next lucid config e5;
      is_sender = (
        user_named-text all_names _ (found_or-next_of_return _ _ e3),
        found_or-next_of_crash _ _ e6,
      );
      is_recipient = (
        user_named-text all_names _ (found_or-next_of_return _ _ e4),
        found_or-next_of_crash _ _ e7,
      );
    })

build_datum-AreTerms :
    (lucid : Lucid) (request : LockRequest) (desired : DesiredOutput) (parties : Parties)
    {terms : ℕ × HtlcDatum}
    → build_datum lucid request desired parties ≡ next terms
    → AreTerms lucid request parties terms
unfolding build_datum
build_datum-AreTerms lucid request desired parties e0 =
    let (amount, e8, r8) =
      >>=-eq-next (lovelace_or_crash lucid (text_or_empty request.amount_ada)) _ e0 in
    let (timeout, e9, r9) =
      >>=-eq-next (deadline lucid (text_or_empty request.timeout_minutes)) _ r8 in
    let (receiver, e10, r10) =
      >>=-eq-next
        (user_or_400 (user_named all_names (text_or_empty desired.receiver))
          "Invalid desired output receiver name")
        _ r9 in
    let (output, e11, r11) =
      >>=-eq-next (build_output lucid (lovelace_only amount) receiver desired) _ r10 in
    let (e12, r12) =
      demand->> (matches_all is_hex (without_0x (text_or_empty request.htlc_hash))) 400
        "Invalid hash format. Must be a valid hex string." _ r11 in
    subst (AreTerms lucid request parties) (next-injective _ _ r12) (record {
      of_parties = (refl, refl);
      has_amount = found_or-next_of_crash _ _ e8;
      keeps_value = build_output-value lucid (lovelace_only amount) receiver desired e11;
      has_deadline = deadline-IsDeadline lucid (text_or_empty request.timeout_minutes) e9;
      has_hash = (refl, e12);
    })

-- A lock as it may be sent.
pub record IsLock (lucid : Lucid) (cookie : Option String) (head_route : String)
    (request : LockRequest) (tx : LockTx) : Type 0 where
  pub parties : Parties
  pub are_parties : AreParties lucid cookie head_route request parties
  pub by_sender : (tx.signer ≡ parties.sender) × (tx.node_url ≡ parties.node_url)
  pub amount : ℕ
  pub are_terms : AreTerms lucid request parties (amount, tx.datum)
  pub pays_amount : tx.pays ≡ lovelace_only amount
  pub inline_datum : lucid.htlc_to_data tx.datum ≡ some tx.inline
  pub htlc : Validator
  pub of_contract :
      (get_script_info lucid "htlc" ≡ next htlc) × (tx.script_code ≡ htlc.compiled_code)

-- Every lock that the handler sends to a node is the one that the request describes: in a head of
-- the cookie's topology; signed by the sender that is named, whose key the datum names, for the
-- recipient that is named; the whole amount is paid to the HTLC contract, and is what the desired
-- output has; the deadline is as many minutes from now as the integer that the request's text
-- begins with, its sign and a hexadecimal prefix included, in the arithmetic of Numbers, which is
-- exact unless the numbers reach 2 ^ 53 milliseconds; the hash is a hex text; and what is put on
-- the ledger is the serialized datum.
pub lock-IsLock :
    (lucid : Lucid) (outcome : LockTx → TxOutcome) (cookie : Option String) (head_route : String)
    (request : LockRequest) (tx : LockTx)
    → (lock lucid outcome cookie head_route request).1 ≡ some tx
    → IsLock lucid cookie head_route request tx
unfolding lock lock_flow
lock-IsLock lucid outcome cookie head_route request tx e =
    let e0 =
      finish-sent "Failed to lock HTLC" outcome (lock_flow lucid cookie head_route request) e in
    let (desired, e1, r1) = >>=-eq-next (check_fields request) _ e0 in
    let (parties, e2, r2) = >>=-eq-next (find_parties lucid cookie head_route request) _ r1 in
    let (terms, e3, r3) = >>=-eq-next (build_datum lucid request desired parties) _ r2 in
    let (inline, e4, r4) =
      >>=-eq-next
        (found_or (lucid.htlc_to_data terms.1) (
          return (refused 500 "Failed to create HTLC datum" (some "Could not serialize the data"))))
        _ r3 in
    let (htlc, e5, r5) = >>=-eq-next (get_script_info lucid "htlc") _ r4 in
    subst (IsLock lucid cookie head_route request) (next-injective _ _ r5) (record {
      parties = parties;
      are_parties = find_parties-AreParties lucid cookie head_route request e2;
      by_sender = (refl, refl);
      amount = terms.0;
      are_terms = build_datum-AreTerms lucid request desired parties e3;
      pays_amount = refl;
      inline_datum = found_or-next_of_return _ _ e4;
      htlc = htlc;
      of_contract = (e5, refl);
    })
