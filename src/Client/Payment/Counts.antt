-- ===== src/Client/Payment/Counts.antt =====
-- How many awaits and requests the parts of a payment's step take at most.
use eutxo_l2_interop.Client.Payment.Polls.{
  ask, Sight, poll, wait_for_step_confirmation, shows, poll_max_attempts,
}
use eutxo_l2_interop.Client.Payment.Attempts.{
  after_answer, attempts, Attempted, begin_attempt, accept, answer_to, StepResult, tx, error,
}
use eutxo_l2_interop.Base.{
  ℕ, zero, suc, ◌+◌, ◌*◌, ◌≤◌, String, Bool, true, false, Option, none, some, if◌then◌else◌, arith,
  ltb, if_rule, count_where,
}
use eutxo_l2_interop.Client.Topologies.{PaymentStep}
use eutxo_l2_interop.Client.Paths.{is_automated_step}
use eutxo_l2_interop.Client.Payment.{
  PaymentConfig, PaymentStepState, Event, sent, Run, World, LockBody, pause, set_step,
  set_current_index, is_aborted, in_progress,
}
use eutxo_l2_interop.Client.Payment.Execute.{
  Ending, confirm, confirm_amount, confirmed_or, await_previous, before_step, has_hash, tx_hash_at,
}

abbrev pub is_request : Event → Bool
is_request (sent i body) = true
is_request _ = false

-- From one state of a run to a later one there are at most so many awaits and requests.
abbrev pub Within : Run → ℕ → ℕ → Run → Type 0
Within r waits requests r' =
    (r'.awaits ≤ r.awaits + waits)
    × (count_where is_request r'.log ≤ count_where is_request r.log + requests)

set_step-Within :
    (i : ℕ) (f : PaymentStepState → PaymentStepState) (r : Run) → Within r 0 0 (set_step i f r)
unfolding set_step
set_step-Within i f r = ground arith

pub set_current_index-Within : (i : ℕ) (r : Run) → Within r 0 0 (set_current_index i r)
unfolding set_current_index
set_current_index-Within i r = ground arith

poll-Within :
    (world : World) (test : Sight → Bool) (step : PaymentStep) (hash : String) (expected n : ℕ)
    (r : Run)
    → Within r (2 * n) 0 (poll world test step hash expected n r).1
unfolding poll ask pause
poll-Within world test step hash expected zero r = omega arith
poll-Within world test step hash expected (suc n) r =
    ground (arith, poll-Within world test step hash expected n (pause world (ask world step r)))

confirmed_or-Within :
    (message : String) (i : ℕ) (r : Run) (answer : Bool × Run) (waits : ℕ)
    → Within r waits 0 answer.1
    → Within r waits 0 (confirmed_or message i answer).1
confirmed_or-Within message i r (true, r') waits h = h
confirmed_or-Within message i r (false, r') waits h = h

confirm_amount-Within :
    (world : World) (config : PaymentConfig) (message : String) (i : ℕ) (step : PaymentStep)
    (amount : Option ℕ) (r : Run)
    → Within r 60 0 (confirm_amount world config message i step amount r).1
unfolding confirm_amount wait_for_step_confirmation
confirm_amount-Within world config message i step none r = omega arith
confirm_amount-Within world config message i step (some expected) r =
    confirmed_or-Within message i r _ 60
      (poll-Within world shows step config.htlc_hash expected poll_max_attempts r)

pub confirm-Within :
    (world : World) (config : PaymentConfig) (message : String) (i : ℕ) (step : PaymentStep)
    (r : Run)
    → Within r 60 0 (confirm world config message i step r).1
unfolding confirm
confirm-Within world config message i step r =
    confirm_amount-Within world config message i step (world.lovelace_of config.amount_ada) r

await_previous-Within :
    (world : World) (config : PaymentConfig) (i : ℕ) (previous : PaymentStep) (r : Run)
    → Within r 60 0 (await_previous world config i previous r).1
unfolding await_previous
await_previous-Within world config i previous r =
    let f = λ (s : PaymentStepState). record s { status = in_progress } in
    let first = set_step-Within (suc i) f r in
    let second =
      confirm-Within world config "Previous step was not confirmed in time" i previous
        (set_step (suc i) f r) in
    if_rule (λ (out : Ending × Run). Within r 60 0 out.1)
      (has_hash (tx_hash_at i r.hook.current_steps)) (omega arith) (omega arith)

pub before_step-Within :
    (world : World) (config : PaymentConfig) (i : ℕ) (previous : Option PaymentStep)
    (step : PaymentStep) (r : Run)
    → Within r 60 0 (before_step world config i previous step r).1
unfolding before_step
before_step-Within world config zero previous step r = omega arith
before_step-Within world config (suc i) none step r = omega arith
before_step-Within world config (suc i) (some previous) step r =
    if_rule (λ (out : Ending × Run). Within r 60 0 out.1) (is_automated_step step)
      (await_previous-Within world config i previous r) (omega arith)

begin_attempt-Within :
    (world : World) (i : ℕ) (body : LockBody) (retry : ℕ) (r : Run)
    → Within r 1 1 (begin_attempt world i body retry r)
unfolding begin_attempt pause set_step
begin_attempt-Within world i body retry r = ground arith

accept-Within : (i : ℕ) (tx_hash : String) (r : Run) → Within r 0 0 (accept i tx_hash r)
unfolding accept set_step
accept-Within i tx_hash r = ground arith

after_answer-Within :
    (i : ℕ) (r begun : Run) (left : ℕ) (next : String → Attempted × Run)
    → Within r 1 1 begun
    → ((message : String) → Within r (2 * suc left) (suc left) (next message).1)
    → (result : StepResult)
    → Within r (2 * suc left) (suc left) (after_answer i begun next result).1
unfolding after_answer
after_answer-Within i r begun left next b ih (tx tx_hash) =
    let a = accept-Within i tx_hash begun in (omega arith, omega arith)
after_answer-Within i r begun left next b ih (error message) = ih message

pub attempts-Within :
    (world : World) (i : ℕ) (body : LockBody) (left retry : ℕ) (last_error : Option String)
    (r : Run)
    → Within r (2 * left) left (attempts world i body left retry last_error r).1
unfolding attempts pause
attempts-Within world i body zero retry last_error r = omega arith
attempts-Within world i body (suc left) retry last_error r =
    let begun = begin_attempt world i body retry r in
    let later = if ltb 0 left then pause world begun else begun in
    let b = begin_attempt-Within world i body retry r in
    let p : Within begun 1 0 later =
      if_rule (Within begun 1 0) (ltb 0 left) (omega arith) (omega arith) in
    let again =
      λ (message : String). attempts-Within world i body left (suc retry) (some message) later in
    if_rule (λ (out : Attempted × Run). Within r (2 * suc left) (suc left) out.1)
      (is_aborted r.hook) (omega arith)
      (after_answer-Within i r begun left
        (λ message. attempts world i body left (suc retry) (some message) later) b
        (λ message. let a = again message in (omega arith, omega arith)) (answer_to world body r))
