-- ===== src/Interleaving/Rule.antt =====
-- The changes that the code makes to one workflow row, and the rule for properties of the table
-- that survive them.
use eutxo_l2_interop.Base.{ℕ, String, ◌≡◌, Bool, true, List, ◌∷◌, none, some, All, find}
use eutxo_l2_interop.Store.{
  Workflow, WorkflowType, JsonObj, object, All-update_where, update_where, is_running,
}
use eutxo_l2_interop.Queue.Metrics.{is_claimable}
use eutxo_l2_interop.Queue.Create.{new_workflow, has_key}
use eutxo_l2_interop.Queue.Claim.{claim_data}
use eutxo_l2_interop.Queue.Outcome.{FailureOptions, succeeded_data, failed_data, deferred_data}
use eutxo_l2_interop.Queue.Retry.{requeued_data, reset_data}
use eutxo_l2_interop.Queue.Reconcile.{reconciled_data}
use eutxo_l2_interop.Routes.Payload.{attached_data, attached_running_data}

-- The changes of a single row. `May` says which workers claim; a lock is written by a claim alone.
pub data RowStep (May : ℕ → Type 0) : Workflow → Workflow → Type 0 where
  claimed :
      (lock_ms now worker : ℕ) (wf w : Workflow)
      → May worker
      → is_claimable now w ≡ true
      → RowStep May w (claim_data lock_ms now worker wf w)
  refreshed :
      (t : ℕ) (w : Workflow)
      → is_running w.status ≡ true
      → RowStep May w (record w { lock_expires_at = some t })
  drafted :
      (result : JsonObj) (w : Workflow)
      → RowStep May w (record w { result_json = some (object result) })
  succeeded :
      (now : ℕ) (result : JsonObj) (w : Workflow) → RowStep May w (succeeded_data now result w)
  failed :
      (now : ℕ) (reason : String) (options : FailureOptions) (w : Workflow)
      → RowStep May w (failed_data now reason options w)
  deferred : (now delay : ℕ) (w : Workflow) → RowStep May w (deferred_data now delay w)
  requeued : (w : Workflow) → RowStep May w (requeued_data w)
  reset : (w : Workflow) → RowStep May w (reset_data w)
  reconciled :
      (nth : ℕ) (payload : JsonObj) (w : Workflow) → RowStep May w (reconciled_data nth payload w)
  attached : (payload : JsonObj) (w : Workflow) → RowStep May w (attached_data payload w)
  annotated : (payload : JsonObj) (w : Workflow) → RowStep May w (attached_running_data payload w)

-- A property of the table that survives the insertion of a workflow with a new key and every
-- conditional update that changes rows by such steps.
pub record Keeps (May : ℕ → Type 0) (T : List Workflow → Type 0) : Type 0 where
  pub created :
      (id : ℕ) (type : WorkflowType) (actor key : String) (payload : JsonObj) (ws : List Workflow)
      → find (has_key type key) ws ≡ none
      → T ws
      → T (new_workflow id type actor key payload ∷ ws)
  pub updated :
      (p : Workflow → Bool) (f : Workflow → Workflow)
      → ((w : Workflow) → p w ≡ true → RowStep May w (f w))
      → (ws : List Workflow) → T ws
      → T (update_where p f ws)

-- For a property of single rows it is enough that each step keeps it.
pub Keeps-All :
    (May : ℕ → Type 0) (P : Workflow → Type 0)
    → ((id : ℕ) (type : WorkflowType) (actor key : String) (payload : JsonObj)
        → P (new_workflow id type actor key payload))
    → ((v w : Workflow) → RowStep May v w → P v → P w)
    → Keeps May (All P)
Keeps-All May P new step = record {
  created = λ id type actor key payload ws _ h. (new id type actor key payload, h);
  updated = λ p f change ws h. All-update_where P p f (λ w e q. step w (f w) (change w e) q) ws h;
}
