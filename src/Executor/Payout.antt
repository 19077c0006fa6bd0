-- ===== src/Executor/Payout.antt =====
-- executePayRandomWinnerWorkflow of lib/executor.ts.
use eutxo_l2_interop.Base.{ℕ, String, [], ◌∷◌, if◌then◌else◌}
use eutxo_l2_interop.Store.{
  JsonObj, Value, get, prepare, submit, confirm, plain, M, ◌>>=◌, ◌>>◌, return, raise,
}
use eutxo_l2_interop.Queue.Steps.{append_event}
use eutxo_l2_interop.Queue.Claim.{WorkflowWithSteps}
use eutxo_l2_interop.Queue.Lock.{set_workflow_draft_result_locked}
use eutxo_l2_interop.Queue.Outcome.{mark_workflow_succeeded_locked}
use eutxo_l2_interop.Routes.Payload.{value_or_null}
use eutxo_l2_interop.Executor.Step.{unless_succeeded, parse_draft_result}
use eutxo_l2_interop.Executor.Workflows.{Services, is_truthy, draft_of, save_draft, event}

-- `parseDraftResult(workflow)`, where `workflow` is the row as it was claimed.
unfoldable pub relay_payout : Services → WorkflowWithSteps → M JsonObj
unfolding parse_draft_result get
relay_payout services wf =
    if is_truthy (get "hashRef" (draft_of wf))
    then services.relay_pay_random_winner (draft_of wf)
    else raise (plain "pay_random_winner confirm missing draft result")

abbrev pub copied : String → JsonObj → String × Value
copied key r = (key, value_or_null (get key r))

unfoldable pub execute_pay_random_winner_workflow :
    Services → (lock_ms : ℕ) → WorkflowWithSteps → (worker : ℕ) → M (Unit {0})
unfolding unless_succeeded relay_payout mark_workflow_succeeded_locked get parse_draft_result
    append_event set_workflow_draft_result_locked
execute_pay_random_winner_workflow services lock_ms wf worker =
    unless_succeeded lock_ms wf prepare worker tt (return tt)
    >> (unless_succeeded lock_ms wf submit worker (draft_of wf) (
          services.submit_pay_random_winner >>= λ r.
          event wf.row.id "pay_random_winner_submitted"
            (copied "hashRef" r ∷ copied "ticketCandidates" r ∷ copied "txHash" r ∷ [])
          >> save_draft wf.row.id worker r)
        >>= λ result.
            unless_succeeded lock_ms wf confirm worker result (
              relay_payout services wf >>= λ r.
              event wf.row.id "pay_random_winner_relay_completed" (
                copied "hashRef" r
                ∷ copied "targetHead" r
                ∷ copied "targetClaimTxHash" r
                ∷ copied "sourceClaimTxHash" r
                ∷ [])
              >> save_draft wf.row.id worker r)
            >>= λ final. mark_workflow_succeeded_locked wf.row.id final worker)
