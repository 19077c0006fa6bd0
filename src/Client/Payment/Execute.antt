-- ===== src/Client/Payment/Execute.antt =====
-- executePayment: the steps of a payment one after the other, and what it leaves behind. The
-- callback onStepUpdate repeats the changes of the state and is left out, and so are the numbers of
-- steps and attempts in the messages.
use eutxo_l2_interop.Client.Payment.Attempts.{
  text_or, lock_body, attempts, max_attempts, Attempted, done, gave_up,
}
use eutxo_l2_interop.Base.{
  ℕ, zero, suc, String, Bool, true, false, not, List, [], ◌∷◌, Option, none, some, if◌then◌else◌,
  is_empty,
}
use eutxo_l2_interop.Client.Topologies.{PaymentStep}
use eutxo_l2_interop.Client.Paths.{is_automated_step}
use eutxo_l2_interop.Client.Payment.{
  PaymentConfig, PaymentStepState, pending, in_progress, failed, seen, Hook, Run, World,
  record_event, set_step, set_current_index, stop_executing, is_aborted,
}
use eutxo_l2_interop.Client.Payment.Polls.{wait_for_step_confirmation}

-- How a part of executePayment ends.
pub data Ending : Type 0 where
  finished : Ending
  thrown : (message : String) → Ending

-- What follows a part is run only if the part did not throw.
abbrev pub then_run : Ending × Run → (Run → Ending × Run) → Ending × Run
then_run (finished, r) next = next r
then_run (thrown message, r) next = (thrown message, r)

abbrev pub confirmed_or : String → ℕ → Bool × Run → Ending × Run
confirmed_or message i (true, r) = (finished, record_event (seen i) r)
confirmed_or message i (false, r) = (thrown message, r)

-- Waiting for the HTLC of a step; an amount that is no number throws at once.
unfoldable pub confirm_amount :
    World → PaymentConfig → String → ℕ → PaymentStep → Option ℕ → Run → Ending × Run
unfolding wait_for_step_confirmation
confirm_amount world config message i step none r =
    (thrown "The number NaN cannot be converted to a BigInt because it is not an integer", r)
confirm_amount world config message i step (some expected) r =
    confirmed_or message i (wait_for_step_confirmation world step config.htlc_hash expected r)

unfoldable pub confirm : World → PaymentConfig → String → ℕ → PaymentStep → Run → Ending × Run
unfolding confirm_amount
confirm world config message i step r =
    confirm_amount world config message i step (world.lovelace_of config.amount_ada) r

-- `currentStepsRef.current[i]?.txHash`.
unfoldable pub tx_hash_at : ℕ → List PaymentStepState → Option String
tx_hash_at i [] = none
tx_hash_at zero (s ∷ states) = s.tx_hash
tx_hash_at (suc i) (s ∷ states) = tx_hash_at i states

abbrev pub has_hash : Option String → Bool
has_hash none = false
has_hash (some tx_hash) = not (is_empty tx_hash)

-- An automated step waits once more for the step before it.
unfoldable pub await_previous : World → PaymentConfig → ℕ → PaymentStep → Run → Ending × Run
unfolding tx_hash_at set_step confirm
await_previous world config i previous r =
    if has_hash (tx_hash_at i r.hook.current_steps)
    then confirm world config "Previous step was not confirmed in time" i previous
        (set_step (suc i) (λ s. record s { status = in_progress }) r)
    else (thrown "Previous step has no transaction hash", r)

unfoldable pub before_step :
    World
    → PaymentConfig
    → (i : ℕ) → (previous : Option PaymentStep) → PaymentStep
    → Run
    → Ending × Run
unfolding await_previous is_automated_step
before_step world config zero previous step r = (finished, r)
before_step world config (suc i) none step r = (finished, r)
before_step world config (suc i) (some previous) step r =
    if is_automated_step step then await_previous world config i previous r else (finished, r)

-- The end of the attempts: a step that has no transaction is marked as failed, and this throws.
abbrev pub attempted_or_failed : ℕ → Attempted × Run → Ending × Run
attempted_or_failed i (done, r) = (finished, r)
attempted_or_failed i (gave_up none, r) = (
  thrown "Step execution failed after retries",
  set_step i (λ s. record s { status = failed; error = some "Step execution failed" }) r,
)
attempted_or_failed i (gave_up (some message), r) = (
  thrown message,
  set_step i
      (λ s. record s {
        status = failed;
        error = some (text_or (some message) "Step execution failed");
      })
      r,
)

abbrev pub is_last : List PaymentStep → Bool
is_last [] = true
is_last (next ∷ rest) = false

unfoldable pub after_step :
    World → PaymentConfig → ℕ → PaymentStep → (rest : List PaymentStep) → Run → Ending × Run
unfolding confirm
after_step world config i step [] r = (finished, r)
after_step world config i step (next ∷ rest) r =
    confirm world config "Step was not confirmed in time" i step r

-- One round of the loop.
unfoldable pub run_step :
    World
    → PaymentConfig
    → (i : ℕ) → (previous : Option PaymentStep) → PaymentStep
    → (rest : List PaymentStep) → Run
    → Ending × Run
unfolding set_current_index before_step lock_body attempts after_step
run_step world config i previous step rest r =
    then_run (before_step world config i previous step (set_current_index i r)) λ ready.
      then_run
        (attempted_or_failed i (
          attempts world i (lock_body world config (is_last rest) i step) max_attempts 0 none
            ready))
        λ locked. after_step world config i step rest locked

-- The loop, which an abort leaves as if it were done.
unfoldable pub run_steps :
    World
    → PaymentConfig
    → (i : ℕ) → (previous : Option PaymentStep) → List PaymentStep
    → Run
    → Ending × Run
unfolding run_step
run_steps world config i previous [] r = (finished, r)
run_steps world config i previous (step ∷ rest) r =
    let go =
      then_run (run_step world config i previous step rest r)
        λ r'. run_steps world config (suc i) (some step) rest r' in
    if is_aborted r.hook then (finished, r) else go

unfoldable pub initial_steps : ℕ → List PaymentStep → List PaymentStepState
initial_steps i [] = []
initial_steps i (step ∷ steps) =
    record {
      step = step;
      step_index = i;
      status = pending;
      tx_hash = none;
      error = none;
      retry_count = 0;
    }
    ∷ initial_steps (suc i) steps

unfoldable pub start_payment : List PaymentStep → Hook
unfolding initial_steps
start_payment steps = record {
  payment_state =
      some
        (record { steps = initial_steps 0 steps; is_executing = true; current_step_index = none });
  aborted = some false;
  is_executing = true;
  current_steps = initial_steps 0 steps;
}

-- Whether the payment throws or not, it ends by clearing the two flags.
abbrev pub stopped : Ending × Run → Ending × Run
stopped (ending, r) = (ending, record r { hook = stop_executing r.hook })

-- The claims behind a finished payment run in the background and change nothing here.
unfoldable pub execute_payment : World → PaymentConfig → List PaymentStep → Run → Ending × Run
unfolding run_steps start_payment stop_executing
execute_payment world config steps r =
    if r.hook.is_executing
    then (thrown "A payment is already in progress", r)
    else stopped (run_steps world config 0 none steps (record r { hook = start_payment steps }))
