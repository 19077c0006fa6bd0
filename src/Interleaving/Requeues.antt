-- ===== src/Interleaving/Requeues.antt =====
-- The re-queues of administrators, of the reconciler and of requests keep what the rule keeps.
use eutxo_l2_interop.Base.{
  ℕ, String, ◌≡◌, refl, ◌⊎◌, Bool, ◌&&◌, List, [], ◌∷◌, Option, none, some, ◌==◌, Option-cases, inl,
  inr, arith, if_rule, find, leb, max,
}
use eutxo_l2_interop.Store.{
  parse_json_object, Sys, Workflow, WorkflowType, JsonObj, Value, is_running, is_succeeded,
}
use eutxo_l2_interop.Queue.Create.{find_workflow_by_idempotency}
use eutxo_l2_interop.Queue.Retry.{
  retry_workflow_now, requeued_data, reset_data, requeue, retry_conflict,
}
use eutxo_l2_interop.Queue.Reconcile.{
  reconcile_buy_ticket_claims, reconcile_loop, reconcile_one, requeue_claims, Verdict, verdict,
  Reconciliation, missing_data, already_claimed, max_requeues_reached, requeue_as,
  nothing_reconciled,
}
use eutxo_l2_interop.Routes.Payload.{
  attached_data, attached_running_data, attach_and_requeue, attach_only,
}
use eutxo_l2_interop.Routes.HtlcSubmit.{persist_submission}
use eutxo_l2_interop.Routes.BuyTicket.{BuyTicketRequest, replay}
use eutxo_l2_interop.Interleaving.Rule.{requeued, reset, reconciled, attached, annotated, Keeps}

verdict-cases :
    (number_of : Value → Option ℕ) (max_requeues : ℕ) (wf : Workflow)
    → ((nth : ℕ) × (verdict number_of max_requeues wf ≡ requeue_as nth))
      ⊎ ((r : Reconciliation) (s : Sys) → (reconcile_one number_of max_requeues wf (r, s)).1 ≡ s)
unfolding reconcile_one
verdict-cases number_of max_requeues wf = go (verdict number_of max_requeues wf) refl
  where
    go :
        (v : Verdict)
        → verdict number_of max_requeues wf ≡ v
        → ((nth : ℕ) × (verdict number_of max_requeues wf ≡ requeue_as nth))
          ⊎ ((r : Reconciliation) (s : Sys)
              → (reconcile_one number_of max_requeues wf (r, s)).1 ≡ s)
    go missing_data e = inr (λ r s. rw (e, reconcile_one))
    go already_claimed e = inr (λ r s. rw (e, reconcile_one))
    go max_requeues_reached e = inr (λ r s. rw (e, reconcile_one))
    go (requeue_as nth) e = inl (nth, e)

module _ (May : ℕ → Type 0) (T : List Workflow → Type 0) (k : Keeps May T) where
  requeue-Keeps :
      (force : Bool) (current : Workflow) (s : Sys)
      → T s.workflows
      → T (requeue force current s).workflows
  unfolding requeue
  requeue-Keeps force current s h =
      if_rule (λ (s' : Sys). T s'.workflows) (force && is_succeeded current.status)
        (k.updated (λ w. w.id == current.id) reset_data (λ w _. reset w) s.workflows h)
        (k.updated (λ w. w.id == current.id) requeued_data (λ w _. requeued w) s.workflows h)

  pub retry_workflow_now-Keeps :
      (id : ℕ) (force : Bool) (reason : Option String) (s : Sys)
      → T s.workflows
      → T ((retry_workflow_now id force reason s).1).workflows
  unfolding retry_workflow_now
  retry_workflow_now-Keeps id force reason s h =
      elim (Option-cases (find (λ w. w.id == id) s.workflows)) [
        | inl e ↦ rw (e, retry_workflow_now) h
        | inr (w, e) ↦ elim (Option-cases (retry_conflict force w.status)) [
          | inl fine ↦ ground (arith, requeue-Keeps force w s h)
          | inr (x, bad) ↦ ground arith
        ]
      ]

  pub requeue_claims-Keeps :
      (max_requeues nth : ℕ) (wf : Workflow) (s : Sys)
      → T s.workflows
      → T (requeue_claims max_requeues nth wf s).workflows
  unfolding requeue_claims
  requeue_claims-Keeps max_requeues nth wf s h =
      k.updated (λ w. w.id == wf.id) _
        (λ w _. reconciled nth (parse_json_object (some wf.payload_json)) w) s.workflows h

  pub attach_and_requeue-Keeps :
      (id : ℕ) (payload : JsonObj) (message : String) (meta : JsonObj) (s : Sys)
      → T s.workflows
      → T (attach_and_requeue id payload message meta s).workflows
  unfolding attach_and_requeue
  attach_and_requeue-Keeps id payload message meta s h =
      k.updated (λ w. w.id == id) (attached_data payload) (λ w _. attached payload w) s.workflows h

  pub attach_only-Keeps :
      (id : ℕ) (payload : JsonObj) (message : String) (meta : JsonObj) (s : Sys)
      → T s.workflows
      → T (attach_only id payload message meta s).workflows
  unfolding attach_only
  attach_only-Keeps id payload message meta s h =
      k.updated (λ w. w.id == id) (attached_running_data payload) (λ w _. annotated payload w)
        s.workflows h

  reconcile_one-Keeps :
      (number_of : Value → Option ℕ) (max_requeues : ℕ) (wf : Workflow) (r : Reconciliation)
      (s : Sys)
      → T s.workflows
      → T ((reconcile_one number_of max_requeues wf (r, s)).1).workflows
  unfolding reconcile_one
  reconcile_one-Keeps number_of max_requeues wf r s h =
      elim (verdict-cases number_of max_requeues wf) [
        | inl (nth, e) ↦ rw (e, reconcile_one) (requeue_claims-Keeps max_requeues nth wf s h)
        | inr unchanged ↦ rw (unchanged r s) h
      ]

  reconcile_loop-Keeps :
      (number_of : Value → Option ℕ) (max_requeues limit : ℕ) (wfs : List Workflow)
      (r : Reconciliation) (s : Sys)
      → T s.workflows
      → T ((reconcile_loop number_of max_requeues limit wfs (r, s)).1).workflows
  unfolding reconcile_loop
  reconcile_loop-Keeps number_of max_requeues limit [] r s h = h
  reconcile_loop-Keeps number_of max_requeues limit (wf ∷ wfs) r s h =
      if_rule (λ (c : Reconciliation × Sys). T c.1.workflows) (leb limit r.requeued) h
        (reconcile_loop-Keeps number_of max_requeues limit wfs _ _
          (reconcile_one-Keeps number_of max_requeues wf r s h))

  pub reconcile_buy_ticket_claims-Keeps :
      (order : List Workflow → List Workflow) (number_of : Value → Option ℕ) (max_env limit : ℕ)
      (s : Sys)
      → T s.workflows
      → T ((reconcile_buy_ticket_claims order number_of max_env limit s).1).workflows
  unfolding reconcile_buy_ticket_claims
  reconcile_buy_ticket_claims-Keeps order number_of max_env limit s h =
      reconcile_loop-Keeps number_of (max 1 max_env) limit _ nothing_reconciled s h

  pub replay-Keeps :
      (r : BuyTicketRequest) (existing : Workflow) (s : Sys)
      → T s.workflows
      → T (replay r existing s).workflows
  unfolding replay
  replay-Keeps r existing s h =
      if_rule (λ (s' : Sys). T s'.workflows) _ (attach_and_requeue-Keeps _ _ "" [] s h) h

  pub persist_submission-Keeps :
      (tx_hash ref : String) (preimage key : Option String) (s : Sys)
      → T s.workflows
      → T (persist_submission tx_hash ref preimage key s).workflows
  unfolding persist_submission
  persist_submission-Keeps tx_hash ref preimage none s h = h
  persist_submission-Keeps tx_hash ref preimage (some key) s h =
      elim (Option-cases (find_workflow_by_idempotency WorkflowType.buy_ticket key s)) [
        | inl e ↦ rw (e, persist_submission) h
        | inr (w, e) ↦
            rw (e, persist_submission)
              (if_rule (λ (s' : Sys). T s'.workflows) _
                (if_rule (λ (s' : Sys). T s'.workflows) (is_running w.status)
                  (attach_only-Keeps _ _ "" [] s h) (attach_and_requeue-Keeps _ _ "" [] s h))
                h)
      ]
