-- ===== src/Executor/Ticks.antt =====
-- No error leaves an execution, so a tick comes to its end.
use eutxo_l2_interop.Base.{
  ℕ, String, ◌≡◌, refl, ap, ◌⊎◌, inl, inr, Bool, List, [], ◌∷◌, some, Bool-cases, Option-cases,
  count_where, find, ◌==◌,
}
use eutxo_l2_interop.Store.{
  Sys, Workflow, Result, ok, throw, M, ◌>>=◌, ◌>>◌, bind-ok, catch, Exception, lock_lost, deferred,
  head_operation, request_funds_error, ticket_error, plain, modify, answer-cases,
}
use eutxo_l2_interop.Queue.Claim.{WorkflowWithSteps}
use eutxo_l2_interop.Queue.Lock.{update_locked, holds_lock}
use eutxo_l2_interop.Queue.Outcome.{
  mark_workflow_failed_locked, mark_workflow_deferred_locked, FailureOptions, DeferOptions,
}
use eutxo_l2_interop.Executor.LockLoss.{catch-throw}
use eutxo_l2_interop.Executor.Errors.{as_workflow_execution_error}
use eutxo_l2_interop.Executor.Workflows.{Services}
use eutxo_l2_interop.Executor.Run.{
  failure_options, execute_workflow, execution_error, dispatch, ignore_lock_lost,
}
use eutxo_l2_interop.Executor.Worker.{execute_all, Settings}

-- An update under the lock is done, or the lock is lost.
abbrev EndsLocked : M (Unit {0}) → Type 0
EndsLocked m = (s : Sys) → ((m s).0 ≡ ok tt) ⊎ ((m s).0 ≡ throw lock_lost)

-- Always returned, never thrown.
abbrev AlwaysReturns : M (Unit {0}) → Type 0
AlwaysReturns m = (s : Sys) → (m s).0 ≡ ok tt

update_locked-EndsLocked :
    (p : Workflow → Bool) (f : Workflow → Workflow) (g : Sys → Sys)
    → EndsLocked (update_locked p f >> modify g)
unfolding update_locked ◌>>◌ ◌>>=◌
update_locked-EndsLocked p f g s = elim (Bool-cases (count_where p s.workflows == 1)) [
  | inl e ↦ rw (e, update_locked, ◌>>◌, ◌>>=◌) (inl refl)
  | inr e ↦ rw (e, update_locked, ◌>>◌, ◌>>=◌) (inr refl)
]

failed-EndsLocked :
    (id : ℕ) (reason : String) (worker : ℕ) (options : FailureOptions)
    → EndsLocked (mark_workflow_failed_locked id reason worker options)
unfolding mark_workflow_failed_locked
failed-EndsLocked id reason worker options s =
    elim (Option-cases (find (holds_lock id worker) s.workflows)) [
      | inl e ↦ rw (e, mark_workflow_failed_locked) (inr refl)
      | inr (current, e) ↦
          rw (e, mark_workflow_failed_locked)
            (update_locked-EndsLocked (holds_lock id worker) _ _ s)
    ]

deferred-EndsLocked :
    (id : ℕ) (reason : String) (worker : ℕ) (options : DeferOptions)
    → EndsLocked (mark_workflow_deferred_locked id reason worker options)
unfolding mark_workflow_deferred_locked
deferred-EndsLocked id reason worker options s =
    elim (Option-cases (find (holds_lock id worker) s.workflows)) [
      | inl e ↦ rw (e, mark_workflow_deferred_locked) (inr refl)
      | inr (current, e) ↦
          rw (e, mark_workflow_deferred_locked)
            (update_locked-EndsLocked (holds_lock id worker) _ _ s)
    ]

catch-ok :
    (m : M (Unit {0})) (handler : Exception → M (Unit {0})) (s : Sys)
    → (m s).0 ≡ ok tt
    → (catch m handler s).0 ≡ ok tt
unfolding catch
catch-ok m handler s h = λ i.
    (elim (h i) as (λ _. Result (Unit {0}) × Sys) [
      | ok a ↦ (ok a, (m s).1)
      | throw e ↦ handler e (m s).1
    ]).0

ignored-AlwaysReturns : (m : M (Unit {0})) → EndsLocked m → AlwaysReturns (catch m ignore_lock_lost)
ignored-AlwaysReturns m h s = elim (h s) [
  | inl e ↦ catch-ok m ignore_lock_lost s e
  | inr e ↦ rw (catch-throw m ignore_lock_lost s (m s).1 lock_lost (λ i. (e i, (m s).1))) refl
]

fail-AlwaysReturns :
    (id worker : ℕ) (error : Exception)
    → let err = as_workflow_execution_error error in
      AlwaysReturns (
        catch
          (mark_workflow_failed_locked id err.message worker (failure_options err))
          ignore_lock_lost)
fail-AlwaysReturns id worker error =
    let err = as_workflow_execution_error error in
    ignored-AlwaysReturns (mark_workflow_failed_locked id err.message worker (failure_options err))
      (failed-EndsLocked id err.message worker (failure_options err))

execution_error-AlwaysReturns :
    (id worker : ℕ) (error : Exception) → AlwaysReturns (execution_error id worker error)
unfolding execution_error
execution_error-AlwaysReturns id worker lock_lost = λ s. refl
execution_error-AlwaysReturns id worker (deferred message code delay name) =
    let options : DeferOptions = record {
      error_code = code;
      base_retry_delay_sec = delay;
      step_name = some name;
    } in
    ignored-AlwaysReturns (mark_workflow_deferred_locked id message worker options)
      (deferred-EndsLocked id message worker options)
execution_error-AlwaysReturns id worker (head_operation code message details) =
    fail-AlwaysReturns id worker (head_operation code message details)
execution_error-AlwaysReturns id worker (request_funds_error code message retryable) =
    fail-AlwaysReturns id worker (request_funds_error code message retryable)
execution_error-AlwaysReturns id worker (ticket_error code message retryable) =
    fail-AlwaysReturns id worker (ticket_error code message retryable)
execution_error-AlwaysReturns id worker (plain message) =
    fail-AlwaysReturns id worker (plain message)

execute_workflow-AlwaysReturns :
    (services : Services) (lock_ms : ℕ) (wf : WorkflowWithSteps) (worker : ℕ)
    → AlwaysReturns (execute_workflow services lock_ms wf worker)
unfolding execute_workflow
execute_workflow-AlwaysReturns services lock_ms wf worker s =
    let run = dispatch wf.row.type services lock_ms wf worker in
    elim (answer-cases (run s)) [
      | inl (_, e) ↦ catch-ok run (execution_error wf.row.id worker) s (ap (λ x. x.0) e)
      | inr (error, e) ↦
          rw (catch-throw run (execution_error wf.row.id worker) s (run s).1 error e)
            (execution_error-AlwaysReturns wf.row.id worker error (run s).1)
    ]

execute_all-AlwaysReturns :
    (services : Services) (settings : Settings) (wfs : List WorkflowWithSteps)
    → AlwaysReturns (execute_all services settings wfs)
unfolding execute_all ◌>>◌
execute_all-AlwaysReturns services settings [] s = refl
execute_all-AlwaysReturns services settings (wf ∷ wfs) s =
    let run = execute_workflow services settings.lock_ms wf settings.worker in
    let first = execute_workflow-AlwaysReturns services settings.lock_ms wf settings.worker s in
    rw
      (bind-ok run (λ _. execute_all services settings wfs) s (run s).1 tt
        (λ i. (first i, (run s).1)))
      (execute_all-AlwaysReturns services settings wfs (run s).1)

-- The executions of a tick do not stop one another: whatever the services answer or throw, each
-- claimed workflow is executed in the state that the one before it has left, and no error comes
-- out of the loop.
pub execute_all-each :
    (services : Services) (settings : Settings) (wf : WorkflowWithSteps)
    (wfs : List WorkflowWithSteps) (s : Sys)
    → let s' = (execute_workflow services settings.lock_ms wf settings.worker s).1 in
      (execute_all services settings (wf ∷ wfs) s ≡ execute_all services settings wfs s')
      × ((execute_all services settings wfs s').0 ≡ ok tt)
unfolding execute_all ◌>>◌
execute_all-each services settings wf wfs s =
    let run = execute_workflow services settings.lock_ms wf settings.worker in
    let first = execute_workflow-AlwaysReturns services settings.lock_ms wf settings.worker s in
    (
      bind-ok run (λ _. execute_all services settings wfs) s (run s).1 tt
          (λ i. (first i, (run s).1)),
      execute_all-AlwaysReturns services settings wfs (run s).1,
    )
