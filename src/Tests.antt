-- ===== src/Tests.antt =====
-- Concrete stores, requests and services, on which the theorems are tried out.
pub mod Queues
pub mod Requests
pub mod Executions
pub mod Payments
pub mod Contracts
pub mod Runs
use eutxo_l2_interop.Base.{ℕ, String, Bool, true, false, List, [], ◌∷◌, Option, none, some}
use eutxo_l2_interop.Store.{
  Sys, Workflow, WorkflowStatus, WorkflowType, WorkflowStep, StepName, JsonObj, object, str, num,
  null, flag, strs, other, Value, HeadName, M, return, plain, raise, Level,
}
use eutxo_l2_interop.Queue.Metrics.{empty_counters}
use eutxo_l2_interop.Queue.Create.{new_workflow, new_step}
use eutxo_l2_interop.Queue.Claim.{WorkflowWithSteps, claim_data}
use eutxo_l2_interop.Queue.Outcome.{FailureOptions, DeferOptions}
use eutxo_l2_interop.Interleaving.{
  Operation, create, claim, time_passes, fail_locked, retry, step, refresh, succeed_locked,
}
use eutxo_l2_interop.Executor.Funds.{Hydra, no_failure, HydraAnswer, answers}
use eutxo_l2_interop.Executor.Ticket.{Ledger, Utxo}
use eutxo_l2_interop.Executor.Workflows.{Services, ScriptOutput, HeadOperation}
use eutxo_l2_interop.Heads.{Probe}

abbrev pub empty_store : Sys
empty_store = record {
  workflows = [];
  steps = [];
  events = [];
  heads = [];
  lotteries = [];
  totals = empty_counters;
  since_last = empty_counters;
  clock = 1000;
}

abbrev pub same_order : List Workflow → List Workflow
same_order ws = ws

abbrev pub funds_payload : JsonObj
funds_payload =
    ("address", str "61aa0011")
    ∷ ("amountLovelace", str "5000000")
    ∷ ("submittedTxHash", str "ab12")
    ∷ []

abbrev pub funds_row : Workflow
funds_row = new_workflow 7 WorkflowType.request_funds "user" "key-7" funds_payload

-- The row while worker 1 runs it.
abbrev pub running_row : Workflow
running_row = record funds_row {
  status = WorkflowStatus.running;
  locked_by = some 1;
  lock_expires_at = some 31000;
  started_at = some 1000;
}

abbrev pub pending_store : Sys
pending_store = record empty_store {
  workflows = funds_row ∷ [];
  steps =
      new_step 7 StepName.prepare ∷ new_step 7 StepName.submit ∷ new_step 7 StepName.confirm ∷ [];
}

abbrev pub running_store : Sys
running_store = record pending_store { workflows = running_row ∷ [] }

abbrev pub failed_row : Workflow
failed_row = record funds_row {
  status = WorkflowStatus.failed;
  attempt_count = 1;
  error_message = some "no answer";
  last_error_code = some "WORKFLOW_ERROR";
  next_retry_at = some 3000;
}

abbrev pub plain_failure : FailureOptions
plain_failure = record { error_code = none; retryable = none }

abbrev pub short_deferral : DeferOptions
short_deferral = record {
  error_code = "BUY_TICKET_PREIMAGE_REQUIRED";
  base_retry_delay_sec = 2;
  step_name = some StepName.submit;
}

-- A request, two workers, a failure, an administrator and a success.
abbrev pub history : List Operation
history =
    create (create (time_passes 5) 8 WorkflowType.request_funds "user" "key-7" funds_payload) 7
      WorkflowType.request_funds "user" "key-7" funds_payload
    ∷ claim same_order 30000 10 1
    ∷ time_passes 31000
    ∷ claim same_order 30000 10 2
    ∷ fail_locked 7 "no answer" 1 plain_failure
    ∷ fail_locked 7 "no answer" 2 plain_failure
    ∷ retry 7 false none
    ∷ claim same_order 30000 10 2
    ∷ succeed_locked 7 [] 2
    ∷ []

-- The operations of worker 2 alone.
abbrev pub others_history : List Operation
others_history = time_passes 5 ∷ claim same_order 30000 10 2 ∷ succeed_locked 7 [] 2 ∷ []

-- ECMAScript's `Number` on the values that are numbers here.
abbrev pub number_value : Value → Option ℕ
number_value (num n) = some n
number_value _ = none

abbrev pub test_hydra : Hydra
test_hydra = record {
  is_real_mode = true;
  failure_mode = no_failure;
  fetch_hydra_snapshot = λ head. return answers;
  mock_tx_hash = λ prefix. return prefix;
}

abbrev pub test_ledger : Ledger
test_ledger = record {
  is_real_mode = true;
  fetch_hydra_snapshot = λ head. return answers;
  load_ida = return "ida";
  ensure_head_b_ida_lock = λ buyer hash timeout. return ("headB_cd34", false);
  find_source_htlc =
      λ head tx_hash hash. return (some (record { tx_hash = tx_hash; output_index = 0 }));
  find_head_b_htlc = λ tx_hash hash. return (some (record { tx_hash = "cd34"; output_index = 0 }));
  claim_ida_htlc = λ head utxo preimage ida. return "ef56";
}

abbrev pub test_services : Services
test_services = record {
  hydra = test_hydra;
  ledger = test_ledger;
  submit_pay_random_winner = return (("hashRef", str "aa") ∷ []);
  relay_pay_random_winner = λ draft. return draft;
  run_head_operation = λ operation. return (record { stdout = ""; stderr = "" });
  probe_heads = return none;
}

-- Services that always fail.
abbrev pub broken_services : Services
broken_services = record test_services {
  hydra = record test_hydra { fetch_hydra_snapshot = λ head. raise (plain "down") };
  ledger = record test_ledger { load_ida = raise (plain "no credentials") };
}

-- A claimed workflow whose submission has succeeded, and one with nothing done.
abbrev pub submitted_claim : WorkflowWithSteps
submitted_claim = record {
  row = running_row;
  steps = record (new_step 7 StepName.submit) { status = WorkflowStatus.succeeded } ∷ [];
}

abbrev pub fresh_claim : WorkflowWithSteps
fresh_claim = record { row = running_row; steps = [] }
