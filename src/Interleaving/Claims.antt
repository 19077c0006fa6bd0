-- ===== src/Interleaving/Claims.antt =====
-- Creating and claiming workflows keeps what the rule keeps.
use eutxo_l2_interop.Base.{ℕ, String, List, [], ◌∷◌, arith, and_parts, Option-cases, inl, inr}
use eutxo_l2_interop.Store.{Sys, Workflow, WorkflowType, JsonObj}
use eutxo_l2_interop.Queue.Create.{create_workflow, find_workflow_by_idempotency, insert_workflow}
use eutxo_l2_interop.Queue.Claim.{
  claim_due_workflows, claim_loop, started, claim_one, claim_data, claims, Claimed, candidates,
}
use eutxo_l2_interop.Queue.Steps.{append_event}
use eutxo_l2_interop.Interleaving.Rule.{claimed, Keeps}

module _ (May : ℕ → Type 0) (T : List Workflow → Type 0) (k : Keeps May T) where
  pub create_workflow-Keeps :
      (others : Sys → Sys) (id : ℕ) (type : WorkflowType) (actor key : String) (payload : JsonObj)
      (s : Sys)
      → ((s : Sys) → T s.workflows → T (others s).workflows)
      → T s.workflows
      → T ((create_workflow others id type actor key payload s).1).workflows
  unfolding create_workflow find_workflow_by_idempotency insert_workflow append_event
  create_workflow-Keeps others id type actor key payload s keeps h =
      elim (Option-cases (find_workflow_by_idempotency type key s)) [
        | inr (w, e) ↦ rw (e, create_workflow) h
        | inl e ↦ elim (Option-cases (find_workflow_by_idempotency type key (others s))) [
          | inr (w, e') ↦ rw (e, create_workflow, e') (keeps s h)
          | inl e' ↦
              rw (e, create_workflow, e')
                (k.created id type actor key payload (others s).workflows e' (keeps s h))
        ]
      ]

  pub claim_one-Keeps :
      (lock_ms now worker : ℕ) (wf : Workflow) (s : Sys)
      → May worker
      → T s.workflows
      → T ((claim_one lock_ms now worker wf s).1).workflows
  unfolding claim_one
  claim_one-Keeps lock_ms now worker wf s may h =
      k.updated (claims now wf.id) (claim_data lock_ms now worker wf)
        (λ w e. claimed lock_ms now worker wf w may (and_parts _ _ e).1) s.workflows h

  pub claim_loop-Keeps :
      (lock_ms now worker limit : ℕ) (wfs : List Workflow) (acc : Claimed)
      → May worker
      → T acc.sys.workflows
      → T ((claim_loop lock_ms now worker limit wfs acc).sys).workflows
  unfolding claim_loop
  claim_loop-Keeps lock_ms now worker limit [] acc may h = h
  claim_loop-Keeps lock_ms now worker limit (wf ∷ wfs) acc may h =
      let s = (claim_one lock_ms now worker wf acc.sys).1 in
      let kept = claim_one-Keeps lock_ms now worker wf acc.sys may h in
      ground (
        arith,
        kept,
        claim_loop-Keeps lock_ms now worker limit wfs (record acc { sys = s }) may kept,
        claim_loop-Keeps lock_ms now worker limit wfs (started wf s acc) may kept,
      )

  pub claim_due_workflows-Keeps :
      (order : List Workflow → List Workflow) (lock_ms limit worker : ℕ) (s : Sys)
      → May worker
      → T s.workflows
      → T ((claim_due_workflows order lock_ms limit worker s).1).workflows
  unfolding claim_due_workflows
  claim_due_workflows-Keeps order lock_ms limit worker s may h =
      let kept =
        claim_loop-Keeps lock_ms s.clock worker limit (candidates order limit s)
          (record { ids = []; stale = 0; sys = s }) may h in
      ground arith
