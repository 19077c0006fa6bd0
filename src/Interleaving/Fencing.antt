-- ===== src/Interleaving/Fencing.antt =====
-- A worker that has lost the lock of a workflow can write nothing to it.
use eutxo_l2_interop.Base.{
  ℕ, String, ◌≡◌, refl, ◌≢◌, Bool, false, ◌&&◌, List, [], ◌∷◌, none, some, All, find, count_where,
  arith,
}
use eutxo_l2_interop.Store.{
  ◌>>◌, ◌>>=◌, Sys, Workflow, WorkflowType, JsonObj, lock_lost, throw,
  update_where-eq_of_count_zero, bind-throw, modify, Level,
}
use eutxo_l2_interop.Queue.Steps.{append_event}
use eutxo_l2_interop.Queue.Create.{new_workflow}
use eutxo_l2_interop.Queue.Claim.{claim_data}
use eutxo_l2_interop.Queue.Lock.{
  holds_lock, update_locked, refresh_workflow_lock, set_workflow_draft_result_locked, is_later,
}
use eutxo_l2_interop.Queue.Outcome.{
  succeeded_data, failed_data, deferred_data, mark_workflow_succeeded_locked,
  mark_workflow_failed_locked, mark_workflow_deferred_locked, FailureOptions, DeferOptions,
}
use eutxo_l2_interop.Queue.Retry.{requeued_data, reset_data}
use eutxo_l2_interop.Queue.Reconcile.{reconciled_data}
use eutxo_l2_interop.Routes.Payload.{attached_data, attached_running_data}
use eutxo_l2_interop.Interleaving.{Operation, perform_all}
use eutxo_l2_interop.Interleaving.Rule.{
  RowStep, claimed, refreshed, drafted, succeeded, failed, deferred, requeued, reset, reconciled,
  attached, annotated, Keeps-All,
}
use eutxo_l2_interop.Interleaving.History.{ClaimsBy, perform_all-Keeps}

abbrev pub OtherThan : ℕ → ℕ → Type 0
OtherThan worker other = other ≢ worker

module _ (id worker : ℕ) where
  abbrev pub IsFree : Workflow → Type 0
  IsFree w = holds_lock id worker w ≡ false

  RowStep-IsFree : (v w : Workflow) → RowStep (OtherThan worker) v w → IsFree v → IsFree w
  unfolding holds_lock claim_data succeeded_data failed_data deferred_data requeued_data reset_data
      reconciled_data attached_data attached_running_data
  RowStep-IsFree v w (claimed lock_ms now other wf _ differs _) h = ground arith
  RowStep-IsFree v w (refreshed t _ _) h = h
  RowStep-IsFree v w (drafted result _) h = h
  RowStep-IsFree v w (succeeded now result _) h = ground arith
  RowStep-IsFree v w (failed now reason options _) h = ground arith
  RowStep-IsFree v w (deferred now delay _) h = ground arith
  RowStep-IsFree v w (requeued _) h = ground arith
  RowStep-IsFree v w (reset _) h = ground arith
  RowStep-IsFree v w (reconciled nth payload _) h = ground arith
  RowStep-IsFree v w (attached payload _) h = ground arith
  RowStep-IsFree v w (annotated payload _) h = h

  created-IsFree :
      (new : ℕ) (type : WorkflowType) (actor key : String) (payload : JsonObj)
      → IsFree (new_workflow new type actor key payload)
  unfolding holds_lock
  created-IsFree new type actor key payload = ground arith

  pub perform_all-IsFree :
      (ops : List Operation) (s : Sys)
      → All (ClaimsBy (OtherThan worker)) ops
      → All IsFree s.workflows
      → All IsFree (perform_all ops s).workflows
  perform_all-IsFree ops s others h =
      perform_all-Keeps (OtherThan worker) (All IsFree)
        (Keeps-All (OtherThan worker) IsFree created-IsFree RowStep-IsFree) ops s others h

  none_held :
      (q : Workflow → Bool) (ws : List Workflow)
      → All IsFree ws
      → (count_where (λ w. holds_lock id worker w && q w) ws ≡ 0)
  none_held q [] h = refl
  none_held q (w ∷ ws) (h, hs) = ground (arith, none_held q ws hs)

  none_found :
      (ws : List Workflow)
      → All IsFree ws
      → (find (holds_lock id worker) ws ≡ none) × (count_where (holds_lock id worker) ws ≡ 0)
  none_found [] h = (refl, refl)
  none_found (w ∷ ws) (h, hs) = ground (arith, none_found ws hs)

  update_locked-lost :
      (p : Workflow → Bool) (f : Workflow → Workflow) (s : Sys)
      → count_where p s.workflows ≡ 0
      → update_locked p f s ≡ (throw lock_lost, s)
  unfolding update_locked
  update_locked-lost p f s e = rw (e, update_where-eq_of_count_zero p f s.workflows e)

  pub locked_writes-lost :
      (lock_ms : ℕ) (result : JsonObj) (reason : String) (failure : FailureOptions)
      (waiting : DeferOptions) (s : Sys)
      → All IsFree s.workflows
      → (refresh_workflow_lock lock_ms id worker s ≡ (throw lock_lost, s))
        × (set_workflow_draft_result_locked id result worker s ≡ (throw lock_lost, s))
        × (mark_workflow_succeeded_locked id result worker s ≡ (throw lock_lost, s))
        × (mark_workflow_failed_locked id reason worker failure s ≡ (throw lock_lost, s))
        × (mark_workflow_deferred_locked id reason worker waiting s ≡ (throw lock_lost, s))
  unfolding refresh_workflow_lock set_workflow_draft_result_locked mark_workflow_succeeded_locked
      mark_workflow_failed_locked mark_workflow_deferred_locked ◌>>◌ ◌>>=◌
  locked_writes-lost lock_ms result reason failure waiting s h =
      let (not_found, no_row) = none_found s.workflows h in
      (
        update_locked-lost (λ w. holds_lock id worker w && is_later s.clock w.lock_expires_at) _ s
            (none_held (λ w. is_later s.clock w.lock_expires_at) s.workflows h),
        update_locked-lost (holds_lock id worker) _ s no_row,
        bind-throw (update_locked (holds_lock id worker) (succeeded_data s.clock result))
            (λ _. modify (append_event id Level.info "Workflow execution completed" (some result)))
            s s lock_lost (update_locked-lost (holds_lock id worker) _ s no_row),
        rw (not_found, mark_workflow_failed_locked),
        rw (not_found, mark_workflow_deferred_locked),
      )

-- A worker that does not hold a workflow's lock, and claims nothing in the meantime, cannot write
-- to the workflow after any history of operations by others: each of its five locked operations
-- throws the lock error and leaves the whole store as it is.
pub lost_lock-stays_lost :
    (id worker : ℕ) (ops : List Operation) (s : Sys) (lock_ms : ℕ) (result : JsonObj)
    (reason : String) (failure : FailureOptions) (waiting : DeferOptions)
    → All (ClaimsBy (OtherThan worker)) ops
    → All (λ w. holds_lock id worker w ≡ false) s.workflows
    → let now = perform_all ops s in
      (refresh_workflow_lock lock_ms id worker now ≡ (throw lock_lost, now))
      × (set_workflow_draft_result_locked id result worker now ≡ (throw lock_lost, now))
      × (mark_workflow_succeeded_locked id result worker now ≡ (throw lock_lost, now))
      × (mark_workflow_failed_locked id reason worker failure now ≡ (throw lock_lost, now))
      × (mark_workflow_deferred_locked id reason worker waiting now ≡ (throw lock_lost, now))
lost_lock-stays_lost id worker ops s lock_ms result reason failure waiting others h =
    locked_writes-lost id worker lock_ms result reason failure waiting (perform_all ops s)
      (perform_all-IsFree id worker ops s others h)
