-- ===== src/Interleaving/Consistency.antt =====
-- Status, lock, completion time and retry time of a workflow agree, whatever happens.
use eutxo_l2_interop.Base.{ℕ, List, [], ◌∷◌, All}
use eutxo_l2_interop.Store.{Sys, Workflow}
use eutxo_l2_interop.Interleaving.Invariant.{
  IsConsistent, claim_data-IsConsistent, succeeded_data-IsConsistent, failed_data-IsConsistent,
  deferred_data-IsConsistent, requeued_data-IsConsistent, reset_data-IsConsistent,
  refreshed-IsConsistent, drafted-IsConsistent, created-IsConsistent, reconciled_data-IsConsistent,
  attached_data-IsConsistent, attached_running_data-IsConsistent,
}
use eutxo_l2_interop.Interleaving.{Operation, both, create, claim, perform_all, time_passes}
use eutxo_l2_interop.Interleaving.Rule.{
  RowStep, claimed, refreshed, drafted, succeeded, failed, deferred, requeued, reset, reconciled,
  attached, annotated, Keeps-All,
}
use eutxo_l2_interop.Interleaving.History.{ClaimsBy, perform_all-Keeps}

abbrev pub AnyWorker : ℕ → Type 0
AnyWorker worker = Unit

RowStep-IsConsistent : (v w : Workflow) → RowStep AnyWorker v w → IsConsistent v → IsConsistent w
RowStep-IsConsistent v w (claimed lock_ms now worker wf _ _ _) h =
    claim_data-IsConsistent lock_ms now worker wf _ h
RowStep-IsConsistent v w (refreshed t _ running) h = refreshed-IsConsistent t _ running h
RowStep-IsConsistent v w (drafted result _) h = drafted-IsConsistent result _ h
RowStep-IsConsistent v w (succeeded now result _) h = succeeded_data-IsConsistent now result _
RowStep-IsConsistent v w (failed now reason options _) h =
    failed_data-IsConsistent now reason options _
RowStep-IsConsistent v w (deferred now delay _) h = deferred_data-IsConsistent now delay _
RowStep-IsConsistent v w (requeued _) h = requeued_data-IsConsistent _
RowStep-IsConsistent v w (reset _) h = reset_data-IsConsistent _
RowStep-IsConsistent v w (reconciled nth payload _) h = reconciled_data-IsConsistent nth payload _
RowStep-IsConsistent v w (attached payload _) h = attached_data-IsConsistent payload _
RowStep-IsConsistent v w (annotated payload _) h = attached_running_data-IsConsistent payload _ h

ClaimsBy-any : (op : Operation) → ClaimsBy AnyWorker op
ClaimsBy-any (claim order lock_ms limit worker) = tt
ClaimsBy-any (time_passes ms) = tt
ClaimsBy-any (both first second) = (ClaimsBy-any first, ClaimsBy-any second)
ClaimsBy-any (create others id type actor key payload) = ClaimsBy-any others
ClaimsBy-any _ = tt

pub any_worker : (ops : List Operation) → All (ClaimsBy AnyWorker) ops
any_worker [] = tt
any_worker (op ∷ ops) = (ClaimsBy-any op, any_worker ops)

-- After every history of operations each workflow row is consistent, if each was before: it holds
-- a lock with an expiry exactly while it runs, it has a completion time exactly if it succeeded or
-- was cancelled, a failed one has a retry time and attempts left, and a failed or cancelled one
-- has an error message and an error code.
pub perform_all-IsConsistent :
    (ops : List Operation) (s : Sys)
    → All IsConsistent s.workflows
    → All IsConsistent (perform_all ops s).workflows
perform_all-IsConsistent ops s h =
    perform_all-Keeps AnyWorker (All IsConsistent)
      (Keeps-All AnyWorker IsConsistent created-IsConsistent RowStep-IsConsistent) ops s
      (any_worker ops) h
