-- ===== src/Interleaving/Writes.antt =====
-- The writes of a worker, locked or not, keep what the rule keeps.
use eutxo_l2_interop.Base.{ℕ, ◌+◌, String, ◌≡◌, true, ◌&&◌, List, some, ◌==◌, arith, and_parts}
use eutxo_l2_interop.Store.{◌>>◌, ◌>>=◌, Sys, Workflow, JsonObj, object, is_running}
use eutxo_l2_interop.Queue.Lock.{
  holds_lock, refresh_workflow_lock, set_workflow_draft_result_locked, set_workflow_draft_result,
  update_by_id, is_later,
}
use eutxo_l2_interop.Queue.Outcome.{
  mark_workflow_succeeded, mark_workflow_succeeded_locked, mark_workflow_failed,
  mark_workflow_failed_locked, mark_workflow_deferred_locked, FailureOptions, DeferOptions,
  succeeded_data, failed_data, deferred_data, step_attempt, defer_delay_sec,
}
use eutxo_l2_interop.Interleaving.Rule.{
  RowStep, refreshed, drafted, succeeded, failed, deferred, Keeps,
}

holds_lock-is_running :
    (id worker : ℕ) (w : Workflow) → holds_lock id worker w ≡ true → is_running w.status ≡ true
unfolding holds_lock
holds_lock-is_running id worker w h = ground arith

module _ (May : ℕ → Type 0) (T : List Workflow → Type 0) (k : Keeps May T) where
  pub refresh_workflow_lock-Keeps :
      (lock_ms id worker : ℕ) (s : Sys)
      → T s.workflows
      → T ((refresh_workflow_lock lock_ms id worker s).1).workflows
  unfolding refresh_workflow_lock
  refresh_workflow_lock-Keeps lock_ms id worker s h =
      k.updated (λ w. holds_lock id worker w && is_later s.clock w.lock_expires_at)
        (λ w. record w { lock_expires_at = some (s.clock + lock_ms) })
        (λ w e. refreshed _ w (holds_lock-is_running id worker w (and_parts _ _ e).0)) s.workflows h

  pub set_workflow_draft_result_locked-Keeps :
      (id : ℕ) (result : JsonObj) (worker : ℕ) (s : Sys)
      → T s.workflows
      → T ((set_workflow_draft_result_locked id result worker s).1).workflows
  unfolding set_workflow_draft_result_locked
  set_workflow_draft_result_locked-Keeps id result worker s h =
      k.updated (holds_lock id worker) _ (λ w _. drafted result w) s.workflows h

  pub update_by_id-Keeps :
      (id : ℕ) (f : Workflow → Workflow) (s : Sys)
      → ((w : Workflow) → RowStep May w (f w))
      → T s.workflows
      → T ((update_by_id id f s).1).workflows
  unfolding update_by_id
  update_by_id-Keeps id f s keep h =
      let after = k.updated (λ w. w.id == id) f (λ w _. keep w) s.workflows h in ground arith

  pub set_workflow_draft_result-Keeps :
      (id : ℕ) (result : JsonObj) (s : Sys)
      → T s.workflows
      → T ((set_workflow_draft_result id result s).1).workflows
  unfolding set_workflow_draft_result
  set_workflow_draft_result-Keeps id result s h =
      update_by_id-Keeps id (λ w. record w { result_json = some (object result) }) s
        (λ w. drafted result w) h

  pub mark_workflow_succeeded-Keeps :
      (id : ℕ) (result : JsonObj) (s : Sys)
      → T s.workflows
      → T ((mark_workflow_succeeded id result s).1).workflows
  unfolding mark_workflow_succeeded ◌>>◌ ◌>>=◌
  mark_workflow_succeeded-Keeps id result s h =
      let after =
        update_by_id-Keeps id (succeeded_data s.clock result) s (λ w. succeeded s.clock result w)
          h in
      ground arith

  pub mark_workflow_succeeded_locked-Keeps :
      (id : ℕ) (result : JsonObj) (worker : ℕ) (s : Sys)
      → T s.workflows
      → T ((mark_workflow_succeeded_locked id result worker s).1).workflows
  unfolding mark_workflow_succeeded_locked ◌>>◌ ◌>>=◌
  mark_workflow_succeeded_locked-Keeps id result worker s h =
      let after =
        k.updated (holds_lock id worker) (succeeded_data s.clock result)
          (λ w _. succeeded s.clock result w) s.workflows h in
      ground arith

  pub mark_workflow_failed-Keeps :
      (id : ℕ) (reason : String) (options : FailureOptions) (s : Sys)
      → T s.workflows
      → T ((mark_workflow_failed id reason options s).1).workflows
  unfolding mark_workflow_failed ◌>>◌ ◌>>=◌
  mark_workflow_failed-Keeps id reason options s h =
      let after =
        update_by_id-Keeps id (failed_data s.clock reason options) s
          (λ w. failed s.clock reason options w) h in
      ground arith

  pub mark_workflow_failed_locked-Keeps :
      (id : ℕ) (reason : String) (worker : ℕ) (options : FailureOptions) (s : Sys)
      → T s.workflows
      → T ((mark_workflow_failed_locked id reason worker options s).1).workflows
  unfolding mark_workflow_failed_locked ◌>>◌ ◌>>=◌
  mark_workflow_failed_locked-Keeps id reason worker options s h =
      let after =
        k.updated (holds_lock id worker) (failed_data s.clock reason options)
          (λ w _. failed s.clock reason options w) s.workflows h in
      ground arith

  pub mark_workflow_deferred_locked-Keeps :
      (id : ℕ) (reason : String) (worker : ℕ) (options : DeferOptions) (s : Sys)
      → T s.workflows
      → T ((mark_workflow_deferred_locked id reason worker options s).1).workflows
  unfolding mark_workflow_deferred_locked ◌>>◌ ◌>>=◌
  mark_workflow_deferred_locked-Keeps id reason worker options s h =
      let delay =
        defer_delay_sec options.base_retry_delay_sec (step_attempt id options.step_name s) in
      let after =
        k.updated (holds_lock id worker) (deferred_data s.clock delay)
          (λ w _. deferred s.clock delay w) s.workflows h in
      ground arith
