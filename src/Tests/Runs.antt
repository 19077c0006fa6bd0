-- ===== src/Tests/Runs.antt =====
-- The theorems on payments over several heads at a concrete path and concrete answers.
use eutxo_l2_interop.Base.{
  ◌≤◌, String, ◌≡◌, refl, true, false, List, [], ◌∷◌, none, some, ◌⊎◌, count_where,
}
use eutxo_l2_interop.Client.Users.{UserName, get_user}
use eutxo_l2_interop.Client.Topologies.{PaymentStep}
use eutxo_l2_interop.Client.Payment.{PaymentConfig, Run, World, UtxoItem, locked, utxos}
use eutxo_l2_interop.Client.Payment.Execute.{execute_payment, thrown}
use eutxo_l2_interop.Client.Payment.Order.{InOrder}
use eutxo_l2_interop.Client.Payment.Ordered.{IsFor, IsSight, execute_payment-InOrder}
use eutxo_l2_interop.Client.Payment.Bounds.{shows_running, execute_payment-ends}
use eutxo_l2_interop.Client.Payment.Counts.{is_request}
use eutxo_l2_interop.Client.Payment.Complete.{AllAccepted, execute_payment-AllAccepted}

abbrev hop : UserName → UserName → String → PaymentStep
hop u v h = record { from = record { name = u; head = h }; to = record { name = v; head = h } }

abbrev two_hops : List PaymentStep
two_hops = hop UserName.alice UserName.ida "a" ∷ hop UserName.ida UserName.bob "b" ∷ []

abbrev htlc_for : UserName → UtxoItem
htlc_for u = record {
  id = "aa#0";
  kind = "htlc";
  hash = some "77";
  to = some (get_user u).vk_hash;
  lovelace = some 5000000;
}

-- Every lock succeeds, and both HTLCs show at once.
abbrev kind_world : World
kind_world = record {
  lock_answer = λ n body. locked "aa";
  poll_answer = λ n route. utxos (htlc_for UserName.ida ∷ htlc_for UserName.bob ∷ []);
  during = λ n h. h;
  lovelace_of = λ text. some 5000000;
  step_timeout = λ minutes i. minutes;
}

abbrev five_ada : PaymentConfig
five_ada = record {
  amount_ada = "5";
  htlc_hash = "77";
  timeout_minutes = "60";
  final_receiver = UserName.bob;
  preimage = none;
}

abbrev idle : Run
idle = record {
  hook = record { payment_state = none; aborted = none; is_executing = false; current_steps = [] };
  log = [];
  awaits = 0;
}

execute_payment-InOrder_example :
    InOrder
      (IsFor kind_world five_ada two_hops)
      (IsSight kind_world five_ada two_hops)
      (execute_payment kind_world five_ada two_hops idle).1.log
execute_payment-InOrder_example = execute_payment-InOrder kind_world five_ada two_hops idle refl

execute_payment-ends_example :
    ((execute_payment kind_world five_ada two_hops idle).1.awaits ≤ 256)
    × (count_where is_request (execute_payment kind_world five_ada two_hops idle).1.log ≤ 8)
    × ((idle.hook.is_executing ≡ true)
          × (execute_payment kind_world five_ada two_hops idle
              ≡ (thrown "A payment is already in progress", idle))
        ⊎ (idle.hook.is_executing ≡ false)
          × (shows_running (execute_payment kind_world five_ada two_hops idle).1.hook ≡ false))
execute_payment-ends_example = execute_payment-ends kind_world five_ada two_hops idle

execute_payment-AllAccepted_example :
    AllAccepted 0 two_hops (execute_payment kind_world five_ada two_hops idle).1.log
unfolding execute_payment get_user
execute_payment-AllAccepted_example =
    execute_payment-AllAccepted kind_world five_ada two_hops idle (λ n h e. e) refl
