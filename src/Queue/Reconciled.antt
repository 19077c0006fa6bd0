-- ===== src/Queue/Reconciled.antt =====
-- reconcileBuyTicketClaims of lib/workflows.ts: its accounts and its bound.
use mathlib.Core.Option.{some-injective}
use eutxo_l2_interop.Base.{
  ℕ, suc, ◌+◌, ◌*◌, ◌≤◌, ◌≡◌, refl, sym, ◌∙◌, List, [], ◌∷◌, Option, none, some, Bool, true, false,
  if◌then◌else◌, max, inl, inr, ◌⊎◌, arith, filter, take,
}
use eutxo_l2_interop.Store.{
  Sys, Workflow, Value, num, get, put, get-put, JsonObj, parse_json_object,
}
use eutxo_l2_interop.Queue.Reconcile.{
  Reconciliation, Verdict, missing_data, already_claimed, max_requeues_reached, requeue_as, verdict,
  verdict_of_count, count_of, reconcile_one, reconcile_loop, reconcile_buy_ticket_claims,
  reconciled_data, nothing_reconciled, is_reconcilable, has_claim_completion, is_missing_data,
}
use eutxo_l2_interop.Queue.Retry.{requeued_data}

-- The counts of a report add up.
abbrev pub IsBalanced : Reconciliation → Type 0
IsBalanced r =
    r.scanned
    ≡ r.requeued + r.skipped_missing_data + r.skipped_already_claimed + r.skipped_max_requeues

verdict-cases :
    (v : Verdict)
    → (v ≡ missing_data)
      ⊎ (v ≡ already_claimed)
      ⊎ (v ≡ max_requeues_reached)
      ⊎ ((nth : ℕ) × (v ≡ requeue_as nth))
verdict-cases missing_data = inl refl
verdict-cases already_claimed = inr (inl refl)
verdict-cases max_requeues_reached = inr (inr (inl refl))
verdict-cases (requeue_as nth) = inr (inr (inr (nth, refl)))

reconcile_one-counts :
    (number_of : Value → Option ℕ) (max_requeues : ℕ) (wf : Workflow) (acc : Reconciliation × Sys)
    → IsBalanced acc.0
    → let r = (reconcile_one number_of max_requeues wf acc).0 in
      IsBalanced r × (r.requeued ≤ acc.0.requeued + 1)
unfolding reconcile_one
reconcile_one-counts number_of max_requeues wf (r, s) h =
    elim (verdict-cases (verdict number_of max_requeues wf)) [
      | inl e ↦ rw (e, reconcile_one) (omega (arith, h), omega arith)
      | inr (inl e) ↦ rw (e, reconcile_one) (omega (arith, h), omega arith)
      | inr (inr (inl e)) ↦ rw (e, reconcile_one) (omega (arith, h), omega arith)
      | inr (inr (inr (nth, e))) ↦ rw (e, reconcile_one) (omega (arith, h), omega arith)
    ]

reconcile_loop-counts :
    (number_of : Value → Option ℕ) (max_requeues limit : ℕ) (wfs : List Workflow)
    (acc : Reconciliation × Sys)
    → IsBalanced acc.0
    → acc.0.requeued ≤ limit
    → let r = (reconcile_loop number_of max_requeues limit wfs acc).0 in
      IsBalanced r × (r.requeued ≤ limit)
unfolding reconcile_loop
reconcile_loop-counts number_of max_requeues limit [] acc h bound = (h, bound)
reconcile_loop-counts number_of max_requeues limit (wf ∷ wfs) acc h bound =
    let (balanced, more) = reconcile_one-counts number_of max_requeues wf acc h in
    ground (
      arith,
      reconcile_loop-counts number_of max_requeues limit wfs
          (reconcile_one number_of max_requeues wf acc) balanced,
    )

-- What the reconciler reports: every scanned purchase is counted under exactly one of re-queued,
-- data missing, claims already recorded and re-queues used up, and no more than `limit` are
-- re-queued.
pub reconcile_buy_ticket_claims-counts :
    (order : List Workflow → List Workflow) (number_of : Value → Option ℕ) (max_env limit : ℕ)
    (s : Sys)
    → let r = (reconcile_buy_ticket_claims order number_of max_env limit s).0 in
      IsBalanced r × (r.requeued ≤ limit)
unfolding reconcile_buy_ticket_claims
reconcile_buy_ticket_claims-counts order number_of max_env limit s =
    reconcile_loop-counts number_of (max 1 max_env) limit
      (take (max (limit * 3) limit) (order (filter is_reconcilable s.workflows)))
      (nothing_reconciled, s) refl (omega arith)

verdict_of_count-requeue_as :
    (max_requeues nth : ℕ) (missing claimed : Bool) (count : Option ℕ)
    → (if missing
        then missing_data
        else if claimed
        then already_claimed
        else verdict_of_count max_requeues count)
      ≡ requeue_as nth
    → (n : ℕ) × (count ≡ some n) × (nth ≡ suc n) × (nth ≤ max_requeues)
verdict_of_count-requeue_as max_requeues nth true claimed count h = cc
verdict_of_count-requeue_as max_requeues nth false true count h = cc
verdict_of_count-requeue_as max_requeues nth false false none h = cc
verdict_of_count-requeue_as max_requeues nth false false (some n) h =
    (n, refl, ground arith, ground arith)

-- A purchase is queued again a bounded number of times: where the environment's `Number` gives a
-- number back as itself, a workflow that a re-queue has marked as the `nth` can be re-queued by
-- the next run only as the one after it, and no later than the `max_requeues`-th.
pub verdict-reconciled_data :
    (number_of : Value → Option ℕ) (max_requeues nth nth' : ℕ) (payload : JsonObj) (w : Workflow)
    → ((n : ℕ) → number_of (num n) ≡ some n)
    → verdict number_of max_requeues (reconciled_data nth payload w) ≡ requeue_as nth'
    → (nth' ≡ suc nth) × (nth' ≤ max_requeues)
unfolding verdict reconciled_data requeued_data parse_json_object
verdict-reconciled_data number_of max_requeues nth nth' payload w numbers again =
    let count : Option ℕ =
      count_of number_of (get "reconcileRequeues" (put "reconcileRequeues" (num nth) payload)) in
    let (n, e, next, bound) =
      verdict_of_count-requeue_as max_requeues nth'
        (is_missing_data (put "reconcileRequeues" (num nth) payload))
        (has_claim_completion (parse_json_object w.result_json)) count again in
    let kept : count ≡ some nth =
      rw (get-put "reconcileRequeues" "reconcileRequeues" (num nth) payload) (numbers nth) in
    let same : n ≡ nth = some-injective _ _ (sym e ∙ kept) in (omega (arith, next, same), bound)
