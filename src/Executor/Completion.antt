-- ===== src/Executor/Completion.antt =====
-- What buyTicket reports of its two claims, and what the reconciler makes of it.
use mathlib.Core.Path.{subst}
use eutxo_l2_interop.Base.{
  String, ◌≡◌, Bool, true, ◌&&◌, ◌||◌, not, Option, none, some, if_rule, is_empty, is_some, trim,
  arith, inl, inr, false, ◌≢◌, if◌then◌else◌, ℕ,
}
use eutxo_l2_interop.Store.{
  bind-ok, bind-throw, Sys, Result, ok, throw, M, ◌>>=◌, ◌>>◌, JsonObj, get, HeadName, object,
  Value, Workflow, parse_json_object, answer-cases,
}
use eutxo_l2_interop.Queue.Reconcile.{
  is_missing_data, verdict_of_count, count_of, verdict, Verdict, requeue_as, missing_data,
  already_claimed, has_claim_completion,
}
use eutxo_l2_interop.Executor.Ticket.{
  Ledger, BuyTicketPayload, buy_ticket_service, claim_pair, ticket_result,
}

-- Every result that is returned has the property.
abbrev IfOk : {A : Type 0} → (A → Type 0) → Result A → Type 0
IfOk P (ok a) = P a
IfOk P (throw e) = Unit

abbrev pub Returns : {A : Type 0} → (A → Type 0) → M A → Type 0
Returns P m = (s : Sys) → IfOk P (m s).0

bind-Returns :
    {A B : Type 0} (P : B → Type 0) (m : M A) (f : A → M B)
    → ((a : A) → Returns P (f a))
    → Returns P (m >>= f)
bind-Returns P m f h s = elim (answer-cases (m s)) [
  | inl (a, e) ↦ rw (bind-ok m f s (m s).1 a e) (h a (m s).1)
  | inr (error, e) ↦ rw (bind-throw m f s (m s).1 error e) tt
]

then-Returns :
    {A B : Type 0} (P : B → Type 0) (m : M A) (k : M B) → Returns P k → Returns P (m >> k)
unfolding ◌>>◌
then-Returns P m k h = bind-Returns P m (λ _. k) (λ _. h)

abbrev IsComplete : JsonObj → Type 0
IsComplete r = has_claim_completion r ≡ true

ticket_result-IsComplete :
    (payload : BuyTicketPayload) (lock_ref : String) (reused : Bool) (head_b_claim : String)
    (source_claim : Option String) (pair_detected : Bool)
    → IsComplete (ticket_result payload (lock_ref, reused) head_b_claim source_claim pair_detected)
unfolding has_claim_completion ticket_result get
ticket_result-IsComplete payload lock_ref reused head_b_claim none pair_detected = ground arith
ticket_result-IsComplete payload lock_ref reused head_b_claim (some t) pair_detected = ground arith

claim_pair-Returns :
    (ledger : Ledger) (payload : BuyTicketPayload) (head : HeadName) (lock_ref : String)
    (reused : Bool) (preimage ida : String)
    → Returns IsComplete (claim_pair ledger payload head (lock_ref, reused) preimage ida)
unfolding claim_pair
claim_pair-Returns ledger payload head lock_ref reused preimage ida =
    bind-Returns IsComplete _ _ (λ source. bind-Returns IsComplete _ _ (λ target.
      then-Returns IsComplete _ _ (
        bind-Returns IsComplete _ _ (λ utxo. bind-Returns IsComplete _ _ (λ head_b_claim.
          bind-Returns IsComplete _ _ (λ source_again. bind-Returns IsComplete _ _ (λ target_again.
            bind-Returns IsComplete _ _ (λ source_claim s.
              ticket_result-IsComplete payload lock_ref reused head_b_claim source_claim
                (is_some source_again && is_some target_again)))))))))

requeue_not_claimed :
    (missing : Bool) (v : Verdict) (nth : ℕ)
    → (if missing then missing_data else if true then already_claimed else v) ≢ requeue_as nth
requeue_not_claimed true v nth h = cc
requeue_not_claimed false v nth h = cc

verdict-claimed :
    (number_of : Value → Option ℕ) (max_requeues nth : ℕ) (w : Workflow) (r : JsonObj)
    → w.result_json ≡ some (object r)
    → has_claim_completion r ≡ true
    → verdict number_of max_requeues w ≢ requeue_as nth
unfolding verdict parse_json_object
verdict-claimed number_of max_requeues nth w r stored claimed =
    rw (stored, verdict, claimed)
      (requeue_not_claimed (is_missing_data (parse_json_object (some w.payload_json)))
        (verdict_of_count max_requeues
          (count_of number_of (get "reconcileRequeues" (parse_json_object (some w.payload_json)))))
        nth)

-- Whatever the ledger answers, a ticket purchase that returns a result reports both claims as done
-- in it, and a workflow that has this result stored is never queued again by the reconciler,
-- whatever its payload and the limit on re-queues are.
pub buy_ticket_service-IsComplete :
    (ledger : Ledger) (payload : BuyTicketPayload) (s s' : Sys) (r : JsonObj)
    (number_of : Value → Option ℕ) (max_requeues nth : ℕ) (w : Workflow)
    → buy_ticket_service ledger payload s ≡ (ok r, s')
    → w.result_json ≡ some (object r)
    → (has_claim_completion r ≡ true) × (verdict number_of max_requeues w ≢ requeue_as nth)
unfolding buy_ticket_service
buy_ticket_service-IsComplete ledger payload s s' r number_of max_requeues nth w h stored =
    let complete : Returns IsComplete (buy_ticket_service ledger payload) =
      bind-Returns IsComplete _ _ (λ head.
        if_rule (Returns IsComplete) (not ledger.is_real_mode) (λ t. tt)
          (bind-Returns IsComplete _ _ (λ source_probe. then-Returns IsComplete _ _ (
            bind-Returns IsComplete _ _ (λ head_b_probe. then-Returns IsComplete _ _ (
              if_rule (Returns IsComplete)
                (is_empty (trim payload.submitted_source_tx_hash)
                  || is_empty (trim payload.submitted_source_htlc_ref))
                (λ t. tt)
                (if_rule (Returns IsComplete) (is_empty (trim payload.preimage)) (λ t. tt)
                  (bind-Returns IsComplete _ _ (λ lock. bind-Returns IsComplete _ _ (λ ida.
                    bind-Returns IsComplete _ _ (λ preimage.
                      claim_pair-Returns ledger payload head lock.0 lock.1 preimage
                        ida))))))))))) in
    let claimed = subst (λ x. IfOk IsComplete x.0) h (complete s) in
    (claimed, verdict-claimed number_of max_requeues nth w r stored claimed)
