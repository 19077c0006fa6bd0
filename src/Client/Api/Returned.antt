-- ===== src/Client/Api/Returned.antt =====
-- What holds of the refunds of HTLCs and of the claims of vestings that their handlers send.
use eutxo_l2_interop.Client.Numbers.{pos, ◌+ℤ◌}
use eutxo_l2_interop.Client.Api.Inversion.{
  >>=-eq-next, found_or-next_of_crash, demand->>, json->>, next-injective,
}
use eutxo_l2_interop.Client.Api.{
  Flow, next, return, crash, found_or, is_given, text_or_empty, Lucid, TxOutcome, unbuilt, unsigned,
  rejected, unconfirmed, confirmed, HtlcDatum, VestingDatum, two_head_names, Reply, refused,
}
use eutxo_l2_interop.Base.{String, ◌≡◌, refl, ◌&&◌, Option, none, some, str_eq, eq_iff}
use mathlib.Core.Path.{subst}
use eutxo_l2_interop.Client.Api.Spend.{Spending, find_output}
use eutxo_l2_interop.Client.Api.Refund.{RefundRequest, RefundTx, refund, refund_flow, one_error}
use eutxo_l2_interop.Client.Api.Vesting.{VestingRequest, VestingTx}
use eutxo_l2_interop.Client.Api.Sent.{IsOutput, find_output-IsOutput}

-- A refund as it may be sent: of an output of the HTLC contract whose datum names the sender's key,
-- signed with it, and not valid before the present.
pub record IsRefund (lucid : Lucid) (cookie : Option String) (head_route : String)
    (request : RefundRequest) (tx : RefundTx) : Type 0 where
  pub found : Spending
  pub output :
      IsOutput lucid cookie head_route
        (text_or_empty request.sender_name)
        "htlc"
        (text_or_empty request.utxo_id)
        found
  pub spent : (tx.spends ≡ found.utxo) × (tx.node_url ≡ found.node_url)
  pub datum : HtlcDatum
  pub decoded : lucid.htlc_from_data found.datum ≡ some datum
  pub by_sender : (datum.sender ≡ found.user_hash) × (tx.signer_key ≡ datum.sender)
  pub from_now : tx.valid_from ≡ lucid.now

one_error-sent :
    (o : TxOutcome) (tx : RefundTx) {sent : RefundTx} → (one_error o tx).1 ≡ some sent → tx ≡ sent
one_error-sent (unbuilt m) tx e = cc
one_error-sent (unsigned m) tx e = cc
one_error-sent (rejected m) tx e = cc
one_error-sent (unconfirmed h m) tx e = cc
one_error-sent (confirmed h) tx e = cc

unfoldable pub refund_answer : Flow RefundTx → (RefundTx → TxOutcome) → Reply × Option RefundTx
refund_answer flow outcome = elim flow [
  | next tx ↦ one_error (outcome tx) tx
  | return reply ↦ (reply, none)
  | crash message ↦ (refused 500 "Failed to refund HTLC" (some message), none)
]

pub refund_answer-sent :
    (flow : Flow RefundTx) (outcome : RefundTx → TxOutcome) {sent : RefundTx}
    → (refund_answer flow outcome).1 ≡ some sent
    → flow ≡ next sent
unfolding refund_answer
refund_answer-sent (next tx) outcome e = let same = one_error-sent (outcome tx) tx e in rw same
refund_answer-sent (return reply) outcome e = cc
refund_answer-sent (crash message) outcome e = cc

-- Every refund that the handler sends to a node is one that may be sent: it spends the output that
-- the request names, of the HTLC contract and in the head of the cookie's topology; the user that
-- the request names is the sender in the output's datum, whose key signs it; and it is valid from
-- the present on.
pub refund-IsRefund :
    (lucid : Lucid) (outcome : RefundTx → TxOutcome) (cookie : Option String) (head_route : String)
    (request : RefundRequest) (tx : RefundTx)
    → (refund lucid outcome cookie head_route request).1 ≡ some tx
    → IsRefund lucid cookie head_route request tx
unfolding refund refund_flow refund_answer
refund-IsRefund lucid outcome cookie head_route request tx e =
    let e0 = refund_answer-sent (refund_flow lucid cookie head_route request) outcome e in
    let r1 = json->> request.is_json "Unexpected token in JSON" _ e0 in
    let (_, r2) =
      demand->> (is_given request.utxo_id && is_given request.sender_name) 400
        "Missing required fields: utxoId, senderName" _ r1 in
    let (found, e3, r3) =
      >>=-eq-next
        (find_output lucid cookie head_route two_head_names (text_or_empty request.sender_name)
          "htlc" (text_or_empty request.utxo_id))
        _ r2 in
    let (datum, e4, r4) =
      >>=-eq-next
        (found_or (lucid.htlc_from_data found.datum) (crash "Could not type cast to object")) _
        r3 in
    let (e5, r5) =
      demand->> (str_eq datum.sender found.user_hash) 403 "You are not the sender of this HTLC" _
        r4 in
    let same = (eq_iff datum.sender found.user_hash).0 e5 in
    subst (IsRefund lucid cookie head_route request) (next-injective _ _ r5) (record {
      found = found;
      output = find_output-IsOutput lucid cookie head_route two_head_names _ "htlc" _ e3;
      spent = (refl, refl);
      datum = datum;
      decoded = found_or-next_of_crash _ _ e4;
      by_sender = (same, cc);
      from_now = refl;
    })

-- A claim of a vesting as it may be sent: of an output of the vesting contract whose datum names the
-- claimer's key, and not valid before a minute after its timeout.
pub record IsVestingClaim (lucid : Lucid) (cookie : Option String) (head_route : String)
    (request : VestingRequest) (tx : VestingTx) : Type 0 where
  pub found : Spending
  pub output :
      IsOutput lucid cookie head_route
        (text_or_empty request.claimer_name)
        "vesting"
        (text_or_empty request.utxo_id)
        found
  pub spent : (tx.spends ≡ found.utxo) × (tx.node_url ≡ found.node_url) × (tx.signer ≡ found.user)
  pub datum : VestingDatum
  pub decoded : lucid.vesting_from_data found.datum ≡ some datum
  pub by_receiver : datum.receiver ≡ found.user_hash
  pub after_timeout : tx.valid_from ≡ datum.timeout +ℤ pos 60000
