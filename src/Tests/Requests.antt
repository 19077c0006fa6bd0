-- ===== src/Tests/Requests.antt =====
-- The theorems on the request handlers, the heads and the lotteries at concrete inputs.
use eutxo_l2_interop.Admin.{AdminOutside, RequestHeaders, admin, require_role}
use eutxo_l2_interop.Admin.Payout.{fields, pay_random_winner}
use eutxo_l2_interop.Admin.Single.{undisturbed, IsPayout, pay_random_winner-IsPayout}
use eutxo_l2_interop.Base.{
  ℕ, String, ◌≤◌, ◌≡◌, refl, ◌⊎◌, true, false, List, [], ◌∷◌, none, some, All, length, arith, ◌==◌,
  map, false,
}
use eutxo_l2_interop.Store.{str, WorkflowType, Sys, WorkflowStatus, head_a, head_b, get, Workflow}
use eutxo_l2_interop.Queue.Metrics.{is_claimable}
use eutxo_l2_interop.Queue.Lock.{holds_lock}
use eutxo_l2_interop.Routes.Payload.{accepted, api_error}
use eutxo_l2_interop.Routes.RequestFunds.{
  is_mismatch, Outside, RequestFundsRequest, enqueue, post, existing_hash, build_request_funds_hash,
}
use eutxo_l2_interop.Routes.BuyTicket.{
  check, has_lottery, BuyTicketRequest, replay, should_patch_submitted_artifacts,
}
use eutxo_l2_interop.Routes.HtlcSubmit.{persist}
use eutxo_l2_interop.Routes.Replays.{
  request_funds-effect, enqueue-again, replay-is_claimable, persist-holds_lock, is_refused,
  as_replay, alone,
}
use eutxo_l2_interop.Queue.Create.{find_workflow_by_idempotency, new_workflow}
use eutxo_l2_interop.Routes.Overtaken.{enqueue-overtaken}
use eutxo_l2_interop.Policy.{
  user, validate_buy_ticket_actor, resolve_actor_by_address, derive_source_head,
}
use eutxo_l2_interop.Routes.Gate.{check-passed}
use eutxo_l2_interop.Policy.Gate.{is_head_open}
use eutxo_l2_interop.Lottery.{
  new_lottery, get_active_lottery_for_head, LotteryInput, register_active_lottery_for_head,
}
use eutxo_l2_interop.Lottery.Race.{
  register_active_lottery_for_head-one, register_active_lottery_for_head-race, active_count, is_ok,
}
use eutxo_l2_interop.Tests.{empty_store, pending_store, running_store, running_row}

-- A digest that forgets nothing of the first part.
abbrev first_part : List String → String
first_part [] = ""
first_part (part ∷ parts) = part

abbrev outside : Outside
outside = record { digest = first_part; fresh_id = 8; stale_threshold_ms = 20000; others = λ s. s }

abbrev request : RequestFundsRequest
request = record {
  actor = "user";
  idempotency_key = "key-8";
  address = "61aa00112233445566778899aabbccddeeff00112233445566778899";
  amount_lovelace = "5000000";
  submitted_tx_hash = "ab12";
}

abbrev open_store : Sys
open_store = record pending_store {
  heads =
      record { head_name = head_a; status = "open"; detail = none; updated_at = 900 }
      ∷ record { head_name = head_b; status = "idle"; detail = none; updated_at = 900 }
      ∷ [];
}

request_funds-effect_example :
    let (response, s') = post (alone outside) request open_store in
    (is_refused response ≡ true) × (s' ≡ open_store)
    ⊎ ((id : ℕ) × (status : WorkflowStatus) × (response ≡ accepted id status true)
        × (s' ≡ open_store))
    ⊎ ((id : ℕ) × (status : WorkflowStatus) × (response ≡ accepted id status false)
        × (length s'.workflows ≡ 2))
request_funds-effect_example = request_funds-effect outside request open_store

enqueue-again_example :
    let (response, s') = enqueue (alone outside) request open_store in
    enqueue (record (alone outside) { fresh_id = 9 }) request s' ≡ (as_replay response, s')
unfolding enqueue
enqueue-again_example = enqueue-again outside 9 request open_store refl

-- Another request with the same key and another amount.
abbrev other_row : Workflow
other_row =
    new_workflow 9 WorkflowType.request_funds "user" "key-8"
      (("requestHash", str "other") ∷ ("amountLovelace", str "1") ∷ [])

abbrev overtaken : Outside
overtaken = record outside { others = λ s. record s { workflows = other_row ∷ s.workflows } }

enqueue-overtaken_example :
    (enqueue overtaken request (overtaken.others open_store)
      ≡ (api_error 409 "IDEMPOTENCY_KEY_PAYLOAD_MISMATCH", overtaken.others open_store))
    × (enqueue overtaken request open_store
        ≡ (accepted 9 WorkflowStatus.pending false, overtaken.others open_store))
unfolding find_workflow_by_idempotency existing_hash build_request_funds_hash get
enqueue-overtaken_example = enqueue-overtaken overtaken request open_store other_row refl refl refl

abbrev ticket_request : BuyTicketRequest
ticket_request = record {
  actor = "user";
  idempotency_key = "key-7";
  address = "61aa00112233445566778899aabbccddeeff00112233445566778899";
  amount_lovelace = "5000000";
  htlc_hash = "aa";
  timeout_minutes = "60";
  preimage = none;
  submitted_source_tx_hash = some "ab12";
  submitted_source_htlc_ref = some "headA_ab12";
  submitted_head_b_htlc_ref = none;
}

-- Worker 1 runs the workflow and loses it to the request.
replay-is_claimable_example :
    All
      (λ w.
        (w.id == 7) ≡ true
        → ((t : ℕ) → is_claimable t w ≡ true) × ((worker : ℕ) → holds_lock 7 worker w ≡ false))
      (replay ticket_request running_row running_store).workflows
unfolding should_patch_submitted_artifacts
replay-is_claimable_example = replay-is_claimable ticket_request running_row running_store refl

persist-holds_lock_example :
    let s' = persist "ab12" "headA_ab12" none running_row running_store in
    (map (holds_lock 7 1) s'.workflows ≡ map (holds_lock 7 1) running_store.workflows)
    × (s'.steps ≡ running_store.steps)
persist-holds_lock_example =
    persist-holds_lock "ab12" "headA_ab12" none running_row running_store refl 7 1

abbrev lottery : LotteryInput
lottery = record {
  head_name = head_b;
  policy_id = "00112233445566778899aabbccddeeff00112233445566778899aabb";
  token_name_hex = "aa";
  mint_tx_hash = "bb";
  contract_address = "addr";
}

register_active_lottery_for_head-one_example :
    let (r, s') = register_active_lottery_for_head (λ t. t) 1 lottery empty_store in
    (active_count s' ≤ 1) × (active_count empty_store ≡ 1 → is_ok r ≡ false)
register_active_lottery_for_head-one_example =
    register_active_lottery_for_head-one 1 lottery empty_store (omega arith)

register_active_lottery_for_head-race_example :
    let other : Sys → Sys = λ t. (register_active_lottery_for_head (λ u. u) 2 lottery t).1 in
    let (r, s') = register_active_lottery_for_head other 1 lottery empty_store in
    (is_ok r ≡ true) × (active_count s' ≡ 2)
unfolding register_active_lottery_for_head
register_active_lottery_for_head-race_example =
    register_active_lottery_for_head-race 1 2 lottery lottery empty_store refl refl

-- Heads A and B are open, and a lottery is active.
abbrev selling_store : Sys
selling_store = record pending_store {
  heads =
      record { head_name = head_a; status = "open"; detail = none; updated_at = 900 }
      ∷ record { head_name = head_b; status = "open"; detail = none; updated_at = 900 }
      ∷ [];
  lotteries = new_lottery 1 900 "aa" "bb" "cc" "addr" ∷ [];
}

check-passed_example :
    (validate_buy_ticket_actor ticket_request.actor ≡ some user)
    × (is_mismatch (resolve_actor_by_address ticket_request.address) ticket_request.actor ≡ false)
    × (has_lottery (get_active_lottery_for_head head_b selling_store) ≡ true)
    × ((is_head_open 20000 selling_store (derive_source_head user) ≡ true)
        × (is_head_open 20000 selling_store head_b ≡ true))
unfolding check
check-passed_example = check-passed outside ticket_request selling_store user refl

abbrev admin_outside : AdminOutside
admin_outside = record {
  passwords = record { admin_password = some " secret "; charlie_password = none };
  newest_first = λ ws. ws;
  random_key = "admin:pay_random_winner:1";
  fresh_id = 9;
  between = λ s. s;
  others = λ s. s;
}

abbrev admin_headers : RequestHeaders
admin_headers = record { role = some "Admin"; password = some "secret" }

pay_random_winner-IsPayout_example :
    IsPayout
      (require_role admin_outside.passwords admin_headers (admin ∷ []))
      admin_outside.random_key
      (fields none)
      pending_store
      (pay_random_winner (undisturbed admin_outside) admin_headers (fields none) pending_store)
pay_random_winner-IsPayout_example =
    pay_random_winner-IsPayout admin_outside admin_headers (fields none) pending_store (λ ws. refl)
