-- ===== src/Tests/Executions.antt =====
-- The theorems on executions at concrete inputs.
use eutxo_l2_interop.Base.{[], ◌∷◌, ◌≢◌, ◌≡◌, refl, true, false, some}
use eutxo_l2_interop.Store.{Workflow, object, ok, JsonObj, get, ◌>>=◌, ◌>>◌, catch}
use eutxo_l2_interop.Queue.Reconcile.{verdict, requeue_as, has_claim_completion}
use eutxo_l2_interop.Tests.{
  running_row, number_value, same_order, running_store, test_services, test_ledger, broken_services,
  submitted_claim, fresh_claim,
}
use eutxo_l2_interop.Queue.Lock.{holds_lock}
use eutxo_l2_interop.Executor.Step.{has_succeeded_step, parse_draft_result}
use eutxo_l2_interop.Executor.Ticket.{BuyTicketPayload, buy_ticket_service, ticket_result}
use eutxo_l2_interop.Executor.Workflows.{execute_request_funds_workflow}
use eutxo_l2_interop.Executor.Purchase.{execute_buy_ticket_workflow}
use eutxo_l2_interop.Executor.Payout.{execute_pay_random_winner_workflow}
use eutxo_l2_interop.Executor.Worker.{Settings, execute_all}
use eutxo_l2_interop.Executor.Ticks.{execute_all-each}
use eutxo_l2_interop.Executor.Run.{execute_workflow}
use eutxo_l2_interop.Executor.LockLoss.{execute_workflow-lost}
use eutxo_l2_interop.Executor.Resume.{
  is_ok, execute_pay_random_winner-first, execute_request_funds-resumes, execute_buy_ticket-resumes,
}
use eutxo_l2_interop.Executor.Completion.{buy_ticket_service-IsComplete}

-- Worker 2 was handed the workflow that worker 1 runs.
execute_workflow-lost_example :
    execute_workflow test_services 30000 fresh_claim 2 running_store ≡ (ok tt, running_store)
unfolding holds_lock
execute_workflow-lost_example =
    execute_workflow-lost test_services 30000 2 fresh_claim running_store (refl, tt)

execute_pay_random_winner-first_example :
    is_ok (execute_pay_random_winner_workflow test_services 30000 fresh_claim 1 running_store).0
    ≡ false
unfolding has_succeeded_step get parse_draft_result
execute_pay_random_winner-first_example =
    execute_pay_random_winner-first test_services 30000 1 fresh_claim running_store refl refl

execute_request_funds-resumes_example :
    execute_request_funds_workflow test_services 30000 submitted_claim 1
    ≡ execute_request_funds_workflow broken_services 30000 submitted_claim 1
unfolding has_succeeded_step
execute_request_funds-resumes_example =
    execute_request_funds-resumes test_services broken_services 30000 1 submitted_claim refl

execute_buy_ticket-resumes_example :
    execute_buy_ticket_workflow test_services 30000 submitted_claim 1
    ≡ execute_buy_ticket_workflow broken_services 30000 submitted_claim 1
unfolding has_succeeded_step
execute_buy_ticket-resumes_example =
    execute_buy_ticket-resumes test_services broken_services 30000 1 submitted_claim refl

abbrev ticket : BuyTicketPayload
ticket = record {
  address = "61aa0011";
  amount_lovelace = "5000000";
  source_head = "headA";
  htlc_hash = "aa";
  timeout_minutes = "60";
  preimage = "bb";
  submitted_source_tx_hash = "ab12";
  submitted_source_htlc_ref = "headA_ab12";
}

abbrev both_claimed : JsonObj
both_claimed = ticket_result ticket ("headB_cd34", false) "ef56" (some "ef56") true

abbrev purchased_row : Workflow
purchased_row = record running_row { result_json = some (object both_claimed) }

buy_ticket_service-IsComplete_example :
    (has_claim_completion both_claimed ≡ true)
    × (verdict number_value 3 purchased_row ≢ requeue_as 1)
unfolding buy_ticket_service ◌>>=◌ ◌>>◌ catch
buy_ticket_service-IsComplete_example =
    buy_ticket_service-IsComplete test_ledger ticket running_store running_store both_claimed
      number_value 3 1 purchased_row refl refl

abbrev settings : Settings
settings = record {
  worker = 1;
  lock_ms = 30000;
  reconcile_every = 5;
  reconcile_limit = 10;
  max_requeues = 3;
  claim_order = same_order;
  reconcile_order = same_order;
  number_of = number_value;
}

execute_all-each_example :
    let s' = (execute_workflow broken_services 30000 fresh_claim 1 running_store).1 in
    (execute_all broken_services settings (fresh_claim ∷ submitted_claim ∷ []) running_store
      ≡ execute_all broken_services settings (submitted_claim ∷ []) s')
    × ((execute_all broken_services settings (submitted_claim ∷ []) s').0 ≡ ok tt)
execute_all-each_example =
    execute_all-each broken_services settings fresh_claim (submitted_claim ∷ []) running_store
