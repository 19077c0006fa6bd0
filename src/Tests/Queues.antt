-- ===== src/Tests/Queues.antt =====
-- The theorems on the queue and on its histories at concrete inputs.
use eutxo_l2_interop.Base.{
  ℕ, String, ◌+◌, ◌≤◌, ◌≡◌, ◌≢◌, refl, ◌⊎◌, true, false, ◌&&◌, not, List, [], ◌∷◌, none, some, All,
  leb, arith, ◌==◌,
}
use eutxo_l2_interop.Store.{WorkflowType, JsonObj, str, ok, throw, lock_lost, is_cancelled}
use eutxo_l2_interop.Queue.Metrics.{is_claimable}
use eutxo_l2_interop.Queue.Create.{create_workflow}
use eutxo_l2_interop.Queue.Claim.{claim_due_workflows}
use eutxo_l2_interop.Queue.Lock.{
  holds_lock, refresh_workflow_lock, set_workflow_draft_result_locked,
}
use eutxo_l2_interop.Queue.Outcome.{
  mark_workflow_succeeded_locked, mark_workflow_failed_locked, mark_workflow_deferred_locked,
  failed_data, can_retry, FailureOptions, deferred_data, defer_delay_sec,
}
use eutxo_l2_interop.Queue.Retry.{retry_workflow_now}
use eutxo_l2_interop.Queue.Reconcile.{reconcile_buy_ticket_claims, verdict, reconciled_data}
use eutxo_l2_interop.Queue.Exclusive.{claim_due_workflows-IsOwn, IsOwn, HasUniqueIds}
use eutxo_l2_interop.Queue.CreateOnce.{create_workflow-again}
use eutxo_l2_interop.Queue.Retries.{
  failed_data-is_claimable, fail_all, fail_all-is_cancelled, deferred_data-is_claimable,
  retry_workflow_now-outcome,
}
use eutxo_l2_interop.Queue.Reconciled.{
  reconcile_buy_ticket_claims-counts, verdict-reconciled_data, IsBalanced,
}
use eutxo_l2_interop.Interleaving.{perform_all}
use eutxo_l2_interop.Interleaving.Invariant.{IsConsistent}
use eutxo_l2_interop.Interleaving.Consistency.{perform_all-IsConsistent}
use eutxo_l2_interop.Interleaving.Keys.{perform_all-HasUniqueKeys, HasUniqueKeys}
use eutxo_l2_interop.Interleaving.Fencing.{lost_lock-stays_lost}
use eutxo_l2_interop.Tests.{
  empty_store, same_order, funds_payload, funds_row, pending_store, failed_row, plain_failure,
  short_deferral, history, others_history, number_value,
}

perform_all-IsConsistent_example : All IsConsistent (perform_all history empty_store).workflows
perform_all-IsConsistent_example = perform_all-IsConsistent history empty_store tt

perform_all-HasUniqueKeys_example : HasUniqueKeys (perform_all history empty_store).workflows
perform_all-HasUniqueKeys_example = perform_all-HasUniqueKeys history empty_store tt

lost_lock-stays_lost_example :
    let now = perform_all others_history pending_store in
    (refresh_workflow_lock 30000 7 1 now ≡ (throw lock_lost, now))
    × (set_workflow_draft_result_locked 7 funds_payload 1 now ≡ (throw lock_lost, now))
    × (mark_workflow_succeeded_locked 7 funds_payload 1 now ≡ (throw lock_lost, now))
    × (mark_workflow_failed_locked 7 "no answer" 1 plain_failure now ≡ (throw lock_lost, now))
    × (mark_workflow_deferred_locked 7 "no answer" 1 short_deferral now ≡ (throw lock_lost, now))
unfolding holds_lock
lost_lock-stays_lost_example =
    lost_lock-stays_lost 7 1 others_history pending_store 30000 funds_payload "no answer"
      plain_failure short_deferral (tt, ((λ e. omega (arith, e)), (tt, tt))) (refl, tt)

unique_ids : HasUniqueIds pending_store.workflows
unique_ids id = ground arith

claim_due_workflows-IsOwn_example :
    All
      (IsOwn 30000 1000 1 (claim_due_workflows same_order 30000 10 1 pending_store).1)
      (claim_due_workflows same_order 30000 10 1 pending_store).0
claim_due_workflows-IsOwn_example =
    claim_due_workflows-IsOwn same_order 30000 10 1 pending_store unique_ids

create_workflow-again_example :
    let type = WorkflowType.request_funds in
    let (w, s') = create_workflow (λ s. s) 8 type "user" "key-8" funds_payload pending_store in
    create_workflow (λ s. s) 9 type "ida" "key-8" [] s' ≡ (w, s')
create_workflow-again_example =
    create_workflow-again (λ s. s) (λ s. s) 8 9 WorkflowType.request_funds "user" "ida" "key-8"
      funds_payload [] pending_store

failed_data-is_claimable_example :
    let w' = failed_data 1000 "no answer" plain_failure funds_row in
    (delay : ℕ) × (2000 ≤ delay)
    × (delay ≤ 60000)
    × (is_claimable 2000 w' ≡ (can_retry plain_failure funds_row && leb (1000 + delay) 2000))
    × (is_cancelled w'.status ≡ not (can_retry plain_failure funds_row))
failed_data-is_claimable_example =
    failed_data-is_claimable 1000 2000 "no answer" plain_failure funds_row

abbrev five_failures : List (ℕ × String × FailureOptions)
five_failures =
    (1, "a", plain_failure)
    ∷ (2, "b", plain_failure)
    ∷ (3, "c", plain_failure)
    ∷ (4, "d", plain_failure)
    ∷ (5, "e", plain_failure)
    ∷ []

fail_all-is_cancelled_example : is_cancelled (fail_all five_failures funds_row).status ≡ true
fail_all-is_cancelled_example =
    fail_all-is_cancelled five_failures funds_row (omega arith) (omega arith)

deferred_data-is_claimable_example :
    let w' = deferred_data 1000 (defer_delay_sec 2 3) funds_row in
    (delay : ℕ) × (1000 ≤ delay)
    × (delay ≤ 120000)
    × (w'.next_retry_at ≡ some (1000 + delay))
    × (is_claimable 1000 w' ≡ true)
    × (w'.attempt_count ≡ 0)
deferred_data-is_claimable_example = deferred_data-is_claimable 1000 2 3 1000 funds_row

retry_workflow_now-outcome_example :
    let (r, s') =
      retry_workflow_now 7 false none (record pending_store { workflows = failed_row ∷ [] }) in
    (true ≡ false) × (r ≢ ok tt) × (s' ≡ record pending_store { workflows = failed_row ∷ [] })
    ⊎ (true ≡ true)
      × (r ≡ ok tt)
      × All (λ w. (w.id == 7) ≡ true → (t : ℕ) → is_claimable t w ≡ true) s'.workflows
retry_workflow_now-outcome_example =
    retry_workflow_now-outcome 7 false none (record pending_store { workflows = failed_row ∷ [] })
      failed_row refl

reconcile_buy_ticket_claims-counts_example :
    let r = (reconcile_buy_ticket_claims same_order number_value 3 10 pending_store).0 in
    IsBalanced r × (r.requeued ≤ 10)
reconcile_buy_ticket_claims-counts_example =
    reconcile_buy_ticket_claims-counts same_order number_value 3 10 pending_store

abbrev ticket_payload : JsonObj
ticket_payload =
    ("submittedSourceTxHash", str "ab")
    ∷ ("submittedSourceHtlcRef", str "headA_ab")
    ∷ ("preimage", str "cd")
    ∷ []

verdict-reconciled_data_example : let two : ℕ = 2 in (two ≡ 2) × (two ≤ 3)
unfolding verdict reconciled_data
verdict-reconciled_data_example =
    verdict-reconciled_data number_value 3 1 2 ticket_payload funds_row (λ n. refl) refl
