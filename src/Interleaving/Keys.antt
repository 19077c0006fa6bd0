-- ===== src/Interleaving/Keys.antt =====
-- The pair of type and idempotency key names one workflow.
use eutxo_l2_interop.Base.{
  ℕ, String, ◌≡◌, refl, Bool, true, List, [], ◌∷◌, none, find, arith, Bool-cases, inl, inr,
}
use eutxo_l2_interop.Store.{Sys, Workflow, WorkflowType, same_type, update_where}
use eutxo_l2_interop.Queue.Create.{has_key}
use eutxo_l2_interop.Queue.Claim.{claim_data}
use eutxo_l2_interop.Queue.Outcome.{succeeded_data, failed_data, deferred_data}
use eutxo_l2_interop.Queue.Retry.{requeued_data, reset_data}
use eutxo_l2_interop.Queue.Reconcile.{reconciled_data}
use eutxo_l2_interop.Routes.Payload.{attached_data, attached_running_data}
use eutxo_l2_interop.Interleaving.{Operation, perform_all}
use eutxo_l2_interop.Interleaving.Rule.{
  RowStep, claimed, refreshed, drafted, succeeded, failed, deferred, requeued, reset, reconciled,
  attached, annotated, Keeps,
}
use eutxo_l2_interop.Interleaving.History.{perform_all-Keeps}
use eutxo_l2_interop.Interleaving.Consistency.{AnyWorker, any_worker}

-- No later row of the table has the key of an earlier one.
abbrev pub HasUniqueKeys : List Workflow → Type 0
HasUniqueKeys [] = Unit
HasUniqueKeys (w ∷ ws) = (find (has_key w.type w.idempotency_key) ws ≡ none) × HasUniqueKeys ws

pub RowStep-identity :
    {May : ℕ → Type 0} (v w : Workflow)
    → RowStep May v w
    → (w.id ≡ v.id) × (w.type ≡ v.type) × (w.idempotency_key ≡ v.idempotency_key)
unfolding claim_data succeeded_data failed_data deferred_data requeued_data reset_data
    reconciled_data attached_data attached_running_data
RowStep-identity v w (claimed lock_ms now worker wf _ _ _) = (refl, refl, refl)
RowStep-identity v w (refreshed t _ _) = (refl, refl, refl)
RowStep-identity v w (drafted result _) = (refl, refl, refl)
RowStep-identity v w (succeeded now result _) = (refl, refl, refl)
RowStep-identity v w (failed now reason options _) = (refl, refl, refl)
RowStep-identity v w (deferred now delay _) = (refl, refl, refl)
RowStep-identity v w (requeued _) = (refl, refl, refl)
RowStep-identity v w (reset _) = (refl, refl, refl)
RowStep-identity v w (reconciled nth payload _) = (refl, refl, refl)
RowStep-identity v w (attached payload _) = (refl, refl, refl)
RowStep-identity v w (annotated payload _) = (refl, refl, refl)

module _ (p : Workflow → Bool) (f : Workflow → Workflow)
    (same : (w : Workflow)
      → p w ≡ true
      → ((f w).id ≡ w.id)
        × ((f w).type ≡ w.type)
        × ((f w).idempotency_key ≡ w.idempotency_key)) where
  find-update_where :
      (type : WorkflowType) (key : String) (ws : List Workflow)
      → find (has_key type key) ws ≡ none
      → find (has_key type key) (update_where p f ws) ≡ none
  unfolding update_where
  find-update_where type key [] h = refl
  find-update_where type key (w ∷ ws) h = elim (Bool-cases (p w)) [
    | inl e ↦
        let (_, same_type, same_key) = same w e in
        rw (e, same_type, same_key) (ground (arith, find-update_where type key ws))
    | inr e ↦ rw e (ground (arith, find-update_where type key ws))
  ]

  HasUniqueKeys-update_where :
      (ws : List Workflow) → HasUniqueKeys ws → HasUniqueKeys (update_where p f ws)
  unfolding update_where
  HasUniqueKeys-update_where [] h = tt
  HasUniqueKeys-update_where (w ∷ ws) (h, hs) = elim (Bool-cases (p w)) [
    | inl e ↦
        let (_, same_type, same_key) = same w e in
        rw (e, same_type, same_key)
          (find-update_where w.type w.idempotency_key ws h, HasUniqueKeys-update_where ws hs)
    | inr e ↦
        rw e (find-update_where w.type w.idempotency_key ws h, HasUniqueKeys-update_where ws hs)
  ]

HasUniqueKeys-Keeps : Keeps AnyWorker HasUniqueKeys
HasUniqueKeys-Keeps = record {
  created = λ id type actor key payload ws absent h. (absent, h);
  updated = λ p f change ws h.
      HasUniqueKeys-update_where p f (λ w e. RowStep-identity w (f w) (change w e)) ws h;
}

-- After every history of operations no two workflows share type and idempotency key, if no two did
-- before, also where others create workflows, with the same key or another, between the lookup and
-- the transaction of a creation.
pub perform_all-HasUniqueKeys :
    (ops : List Operation) (s : Sys)
    → HasUniqueKeys s.workflows
    → HasUniqueKeys (perform_all ops s).workflows
perform_all-HasUniqueKeys ops s h =
    perform_all-Keeps AnyWorker HasUniqueKeys HasUniqueKeys-Keeps ops s (any_worker ops) h
