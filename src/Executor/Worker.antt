-- ===== src/Executor/Worker.antt =====
-- The tick of worker.ts.
use eutxo_l2_interop.Base.{
  ℕ, ◌+◌, ◌%◌, Bool, false, List, [], ◌∷◌, Option, ◌==◌, if◌then◌else◌, max,
}
use eutxo_l2_interop.Store.{Sys, Value, Workflow, Result, ok, M, ◌>>=◌, ◌>>◌, return, modify, when}
use eutxo_l2_interop.Queue.Claim.{WorkflowWithSteps, claim_due_workflows}
use eutxo_l2_interop.Queue.Reconcile.{reconcile_buy_ticket_claims}
use eutxo_l2_interop.Executor.Workflows.{Services}
use eutxo_l2_interop.Executor.Run.{execute_workflow}

-- The settings of the process, the database's two orderings and ECMAScript's `Number`.
pub record Settings : Type 0 where
  pub worker : ℕ
  pub lock_ms : ℕ
  pub reconcile_every : ℕ
  pub reconcile_limit : ℕ
  pub max_requeues : ℕ
  pub claim_order : List Workflow → List Workflow
  pub reconcile_order : List Workflow → List Workflow
  pub number_of : Value → Option ℕ

pub record WorkerState : Type 0 where
  pub tick_in_flight : Bool
  pub tick_count : ℕ

unfoldable pub execute_all : Services → Settings → List WorkflowWithSteps → M (Unit {0})
unfolding execute_workflow
execute_all services settings [] = return tt
execute_all services settings (wf ∷ wfs) =
    execute_workflow services settings.lock_ms wf settings.worker
    >> execute_all services settings wfs

abbrev pub claim_ten : Settings → M (List WorkflowWithSteps)
claim_ten settings s =
    let (claimed, s') =
      claim_due_workflows settings.claim_order settings.lock_ms 10 settings.worker s in
    (ok claimed, s')

-- The `try` of a tick; the settings are at least 1.
unfoldable pub tick_work : Services → Settings → (tick_count : ℕ) → M (Unit {0})
unfolding reconcile_buy_ticket_claims claim_due_workflows execute_all
tick_work services settings tick_count =
    when (tick_count % max 1 settings.reconcile_every == 0) (
      modify (λ s.
        (reconcile_buy_ticket_claims settings.reconcile_order settings.number_of
          settings.max_requeues (max 1 settings.reconcile_limit) s).1))
    >> (claim_ten settings >>= execute_all services settings)

-- A tick that finds another one under way does nothing; `finally` takes the flag down again.
unfoldable pub tick :
    Services → Settings → WorkerState → Sys → (Result (Unit {0}) × WorkerState) × Sys
unfolding tick_work
tick services settings state s =
    let count = state.tick_count + 1 in
    let (r, s') = tick_work services settings count s in
    if state.tick_in_flight
    then ((ok tt, state), s)
    else ((r, record { tick_in_flight = false; tick_count = count }), s')
