-- ===== src/Queue/Reconcile.antt =====
-- reconcileBuyTicketClaims of lib/workflows.ts: finished ticket purchases whose two HTLC claims
-- are not recorded are queued again, a bounded number of times each.
use eutxo_l2_interop.Base.{
  ℕ, ◌+◌, ◌*◌, max, String, Bool, true, ◌&&◌, ◌||◌, not, List, [], ◌∷◌, Option, none, some, ◌==◌,
  leb, if◌then◌else◌, filter, take, is_empty, str_eq, trim,
}
use eutxo_l2_interop.Store.{
  Sys, Level, JsonObj, object, Value, num, str, flag, null, get, put, text_of, trimmed,
  parse_json_object, Workflow, same_type, buy_ticket, is_cancelled, is_succeeded, update_where,
}
use eutxo_l2_interop.Queue.Steps.{append_event, is_replayed, replayed_step}
use eutxo_l2_interop.Queue.Retry.{requeued_data}

abbrev pub is_claim_done : String → String → Bool
is_claim_done tx_hash action =
    not (is_empty tx_hash) || str_eq action "claimed" || str_eq action "already_claimed"

unfoldable pub has_claim_completion : JsonObj → Bool
unfolding get trim
has_claim_completion result =
    is_claim_done (trimmed (get "sourceClaimTxHash" result))
      (text_of (get "sourceClaimAction" result))
    && is_claim_done (trimmed (get "headBClaimTxHash" result))
        (text_of (get "headBClaimAction" result))

-- `status: { in: [cancelled, succeeded] }` of the candidates' query.
abbrev pub is_reconcilable : Workflow → Bool
is_reconcilable w = same_type w.type buy_ticket && (is_cancelled w.status || is_succeeded w.status)

pub record Reconciliation : Type 0 where
  pub scanned : ℕ
  pub requeued : ℕ
  pub skipped_missing_data : ℕ
  pub skipped_already_claimed : ℕ
  pub skipped_max_requeues : ℕ

abbrev pub nothing_reconciled : Reconciliation
nothing_reconciled = record {
  scanned = 0;
  requeued = 0;
  skipped_missing_data = 0;
  skipped_already_claimed = 0;
  skipped_max_requeues = 0;
}

pub data Verdict : Type 0 where
  missing_data already_claimed max_requeues_reached : Verdict
  requeue_as : (nth : ℕ) → Verdict

-- `Number(value ?? 0)`, where `number_of` is ECMAScript's `Number` on the values that are there,
-- with `none` for a number that is not finite.
abbrev pub count_of : (Value → Option ℕ) → Option Value → Option ℕ
count_of number_of none = some 0
count_of number_of (some null) = some 0
count_of number_of (some v) = number_of v

abbrev pub is_missing_data : JsonObj → Bool
is_missing_data payload =
    is_empty (trimmed (get "submittedSourceTxHash" payload))
    || is_empty (trimmed (get "submittedSourceHtlcRef" payload))
    || is_empty (trimmed (get "preimage" payload))

abbrev pub verdict_of_count : ℕ → Option ℕ → Verdict
verdict_of_count max_requeues none = max_requeues_reached
verdict_of_count max_requeues (some n) =
    if leb max_requeues n then max_requeues_reached else requeue_as (n + 1)

-- The checks of the loop on one candidate, in their order.
unfoldable pub verdict : (Value → Option ℕ) → ℕ → Workflow → Verdict
unfolding get trim parse_json_object has_claim_completion
verdict number_of max_requeues w =
    let payload = parse_json_object (some w.payload_json) in
    if is_missing_data payload
    then missing_data
    else if has_claim_completion (parse_json_object w.result_json)
    then already_claimed
    else verdict_of_count max_requeues (count_of number_of (get "reconcileRequeues" payload))

unfoldable pub reconciled_data : ℕ → JsonObj → Workflow → Workflow
unfolding requeued_data put
reconciled_data nth payload w = record (requeued_data w) {
  payload_json = object (put "reconcileRequeues" (num nth) payload);
}

-- The transaction that queues the candidate `wf` again.
unfoldable pub requeue_claims : (max_requeues nth : ℕ) → Workflow → Sys → Sys
unfolding reconciled_data update_where append_event parse_json_object
requeue_claims max_requeues nth wf s =
    let payload = parse_json_object (some wf.payload_json) in
    append_event wf.id Level.info "buy_ticket reconciler re-queued workflow for HTLC claims"
      (some (
        ("sourceTxHash", str (trimmed (get "submittedSourceTxHash" payload)))
        ∷ ("sourceRef", str (trimmed (get "submittedSourceHtlcRef" payload)))
        ∷ ("hasPreimage", flag true)
        ∷ ("reconcileRequeues", num nth)
        ∷ ("maxRequeues", num max_requeues)
        ∷ []))
      (record s {
        workflows = update_where (λ w. w.id == wf.id) (reconciled_data nth payload) s.workflows;
        steps = update_where (is_replayed wf.id) replayed_step s.steps;
      })

-- One round of the loop, past its test of the limit.
unfoldable pub reconcile_one :
    (Value → Option ℕ) → ℕ → Workflow → Reconciliation × Sys → Reconciliation × Sys
unfolding verdict requeue_claims
reconcile_one number_of max_requeues wf (r, s) =
    let seen : Reconciliation = record r { scanned = r.scanned + 1 } in
    elim (verdict number_of max_requeues wf) [
      | missing_data ↦ (record seen { skipped_missing_data = seen.skipped_missing_data + 1 }, s)
      | already_claimed ↦
          (record seen { skipped_already_claimed = seen.skipped_already_claimed + 1 }, s)
      | max_requeues_reached ↦
          (record seen { skipped_max_requeues = seen.skipped_max_requeues + 1 }, s)
      | requeue_as nth ↦
          (record seen { requeued = seen.requeued + 1 }, requeue_claims max_requeues nth wf s)
    ]

unfoldable pub reconcile_loop :
    (Value → Option ℕ)
    → (max_requeues limit : ℕ) → List Workflow
    → Reconciliation × Sys
    → Reconciliation × Sys
unfolding reconcile_one
reconcile_loop number_of max_requeues limit [] acc = acc
reconcile_loop number_of max_requeues limit (wf ∷ wfs) acc =
    let rest =
      reconcile_loop number_of max_requeues limit wfs
        (reconcile_one number_of max_requeues wf acc) in
    if leb limit acc.0.requeued then acc else rest

-- `order` stands for the database's `orderBy: updatedAt desc`, `max_env` for the environment's
-- BUY_TICKET_RECONCILE_MAX_REQUEUES.
unfoldable pub reconcile_buy_ticket_claims :
    (List Workflow → List Workflow)
    → (Value → Option ℕ)
    → (max_env limit : ℕ) → Sys
    → Reconciliation × Sys
unfolding reconcile_loop
reconcile_buy_ticket_claims order number_of max_env limit s =
    reconcile_loop number_of (max 1 max_env) limit
      (take (max (limit * 3) limit) (order (filter is_reconcilable s.workflows)))
      (nothing_reconciled, s)
