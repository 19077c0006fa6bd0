-- ===== src/Interleaving/History.antt =====
-- The rule of Interleaving.Rule for whole histories.
use eutxo_l2_interop.Base.{ℕ, List, [], ◌∷◌, All, Option-cases, inl, inr, find}
use eutxo_l2_interop.Store.{Sys, Workflow}
use eutxo_l2_interop.Queue.Steps.{update_step_with_event, is_step}
use eutxo_l2_interop.Interleaving.{
  Operation, time_passes, both, create, claim, refresh, save_draft_locked, save_draft,
  succeed_locked, succeed, fail_locked, fail, defer_locked, retry, reconcile, submit_artifacts,
  replay_request, step, perform, perform_all,
}
use eutxo_l2_interop.Interleaving.Rule.{Keeps}
use eutxo_l2_interop.Interleaving.Claims.{create_workflow-Keeps, claim_due_workflows-Keeps}
use eutxo_l2_interop.Interleaving.Writes.{
  refresh_workflow_lock-Keeps, set_workflow_draft_result_locked-Keeps,
  set_workflow_draft_result-Keeps, mark_workflow_succeeded-Keeps,
  mark_workflow_succeeded_locked-Keeps, mark_workflow_failed-Keeps,
  mark_workflow_failed_locked-Keeps, mark_workflow_deferred_locked-Keeps,
}
use eutxo_l2_interop.Interleaving.Requeues.{
  retry_workflow_now-Keeps, reconcile_buy_ticket_claims-Keeps, replay-Keeps,
  persist_submission-Keeps,
}

-- Claims are made by the workers of `May` alone.
abbrev pub ClaimsBy : (ℕ → Type 0) → Operation → Type 0
ClaimsBy May (claim order lock_ms limit worker) = May worker
ClaimsBy May (both first second) = ClaimsBy May first × ClaimsBy May second
ClaimsBy May (create others id type actor key payload) = ClaimsBy May others
ClaimsBy May _ = Unit

module _ (May : ℕ → Type 0) (T : List Workflow → Type 0) (k : Keeps May T) where
  pub perform-Keeps :
      (op : Operation) (s : Sys) → ClaimsBy May op → T s.workflows → T (perform op s).workflows
  unfolding perform update_step_with_event
  perform-Keeps (time_passes ms) s may h = h
  perform-Keeps (both first second) s (m, n) h =
      perform-Keeps second (perform first s) n (perform-Keeps first s m h)
  perform-Keeps (create others id type actor key payload) s may h =
      create_workflow-Keeps May T k (perform others) id type actor key payload s
        (λ s' h'. perform-Keeps others s' may h') h
  perform-Keeps (claim order lock_ms limit worker) s may h =
      claim_due_workflows-Keeps May T k order lock_ms limit worker s may h
  perform-Keeps (refresh lock_ms id worker) s may h =
      refresh_workflow_lock-Keeps May T k lock_ms id worker s h
  perform-Keeps (save_draft_locked id result worker) s may h =
      set_workflow_draft_result_locked-Keeps May T k id result worker s h
  perform-Keeps (save_draft id result) s may h =
      set_workflow_draft_result-Keeps May T k id result s h
  perform-Keeps (succeed_locked id result worker) s may h =
      mark_workflow_succeeded_locked-Keeps May T k id result worker s h
  perform-Keeps (succeed id result) s may h = mark_workflow_succeeded-Keeps May T k id result s h
  perform-Keeps (fail_locked id reason worker options) s may h =
      mark_workflow_failed_locked-Keeps May T k id reason worker options s h
  perform-Keeps (fail id reason options) s may h =
      mark_workflow_failed-Keeps May T k id reason options s h
  perform-Keeps (defer_locked id reason worker options) s may h =
      mark_workflow_deferred_locked-Keeps May T k id reason worker options s h
  perform-Keeps (retry id force reason) s may h =
      retry_workflow_now-Keeps May T k id force reason s h
  perform-Keeps (reconcile order number_of max_env limit) s may h =
      reconcile_buy_ticket_claims-Keeps May T k order number_of max_env limit s h
  perform-Keeps (submit_artifacts tx_hash ref preimage key) s may h =
      persist_submission-Keeps May T k tx_hash ref preimage key s h
  perform-Keeps (replay_request request existing) s may h =
      replay-Keeps May T k request existing s h
  perform-Keeps (step id name status level message meta detail) s may h =
      elim (Option-cases (find (is_step id name) s.steps)) [
        | inl e ↦ rw (e, update_step_with_event) h
        | inr (st, e) ↦ rw (e, update_step_with_event) h
      ]

  -- Such a property of the table holds after every history.
  pub perform_all-Keeps :
      (ops : List Operation) (s : Sys)
      → All (ClaimsBy May) ops
      → T s.workflows
      → T (perform_all ops s).workflows
  unfolding perform_all
  perform_all-Keeps [] s may h = h
  perform_all-Keeps (op ∷ ops) s (m, may) h =
      perform_all-Keeps ops (perform op s) may (perform-Keeps op s m h)
