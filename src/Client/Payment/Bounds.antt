-- ===== src/Client/Payment/Bounds.antt =====
-- How long a payment takes at most, and what it leaves behind however it ends.
use eutxo_l2_interop.Client.Payment.Attempts.{
  lock_body, attempts, max_attempts, Attempted, done, gave_up,
}
use eutxo_l2_interop.Base.{
  ℕ, suc, ◌+◌, ◌*◌, ◌≤◌, ◌≡◌, refl, ◌⊎◌, inl, inr, Bool, true, false, ◌||◌, List, [], ◌∷◌, Option,
  none, some, if◌then◌else◌, arith, if_rule, length, count_where,
}
use eutxo_l2_interop.Client.Topologies.{PaymentStep}
use eutxo_l2_interop.Client.Payment.{
  PaymentConfig, Hook, Run, World, set_step, set_current_index, stop_executing, is_aborted,
}
use eutxo_l2_interop.Client.Payment.Execute.{
  Ending, finished, thrown, then_run, before_step, attempted_or_failed, is_last, after_step,
  run_step, run_steps, execute_payment, start_payment, stopped,
}
use eutxo_l2_interop.Client.Payment.Counts.{
  is_request, Within, set_current_index-Within, confirm-Within, before_step-Within, attempts-Within,
}

attempted_or_failed-Within :
    (i waits requests : ℕ) (r : Run) (attempted : Attempted × Run)
    → Within r waits requests attempted.1
    → Within r waits requests (attempted_or_failed i attempted).1
unfolding set_step
attempted_or_failed-Within i waits requests r (done, r') h = h
attempted_or_failed-Within i waits requests r (gave_up none, r') h = ground arith
attempted_or_failed-Within i waits requests r (gave_up (some message), r') h = ground arith

after_step-Within :
    (world : World) (config : PaymentConfig) (i : ℕ) (step : PaymentStep) (rest : List PaymentStep)
    (r : Run)
    → Within r 60 0 (after_step world config i step rest r).1
unfolding after_step
after_step-Within world config i step [] r = omega arith
after_step-Within world config i step (next ∷ rest) r =
    confirm-Within world config "Step was not confirmed in time" i step r

then_run-Within :
    (r : Run) (w q w' q' : ℕ) (out : Ending × Run) (next : Run → Ending × Run)
    → Within r w q out.1
    → ((now : Run) → Within now w' q' (next now).1)
    → Within r (w + w') (q + q') (then_run out next).1
then_run-Within r w q w' q' (finished, now) next h rule = let k = rule now in omega arith
then_run-Within r w q w' q' (thrown message, now) next h rule = omega arith

run_step-Within :
    (world : World) (config : PaymentConfig) (i : ℕ) (previous : Option PaymentStep)
    (step : PaymentStep) (rest : List PaymentStep) (r : Run)
    → Within r 128 4 (run_step world config i previous step rest r).1
unfolding run_step
run_step-Within world config i previous step rest r =
    let body = lock_body world config (is_last rest) i step in
    let start = set_current_index i r in
    let a = set_current_index-Within i r in
    let b = before_step-Within world config i previous step start in
    then_run-Within r 60 0 68 4 (before_step world config i previous step start) _
      (omega arith, omega arith)
      (λ now.
        then_run-Within now 8 4 60 0
          (attempted_or_failed i (attempts world i body max_attempts 0 none now))
          (after_step world config i step rest)
          (attempted_or_failed-Within i 8 4 now (attempts world i body max_attempts 0 none now)
            (attempts-Within world i body max_attempts 0 none now))
          (after_step-Within world config i step rest))

run_steps-Within :
    (world : World) (config : PaymentConfig) (i : ℕ) (previous : Option PaymentStep)
    (steps : List PaymentStep) (r : Run)
    → Within r (128 * length steps) (4 * length steps) (run_steps world config i previous steps r).1
unfolding run_steps
run_steps-Within world config i previous [] r = omega arith
run_steps-Within world config i previous (step ∷ rest) r =
    let both =
      then_run-Within r 128 4 (128 * length rest) (4 * length rest)
        (run_step world config i previous step rest r)
        (run_steps world config (suc i) (some step) rest)
        (run_step-Within world config i previous step rest r)
        (run_steps-Within world config (suc i) (some step) rest) in
    if_rule
      (λ (out : Ending × Run).
        Within r (128 * length (step ∷ rest)) (4 * length (step ∷ rest)) out.1)
      (is_aborted r.hook) (omega arith, omega arith) (omega arith, omega arith)

-- Whether the hook shows a payment as running.
abbrev pub shows_running : Hook → Bool
shows_running h = elim h.payment_state [
  | none ↦ h.is_executing
  | some prev ↦ prev.is_executing || h.is_executing
]

stop_executing-shows : (h : Hook) → shows_running (stop_executing h) ≡ false
unfolding stop_executing
stop_executing-shows h = ground arith

-- What the flag decides: the refusal, or the end of the payment.
ended :
    (waits requests : ℕ) (r start : Run) (out : Ending × Run) (flag : Bool)
    → r.hook.is_executing ≡ flag
    → Within r 0 0 start
    → Within start waits requests out.1
    → let result = if flag then (thrown "A payment is already in progress", r) else stopped out in
      Within r waits requests result.1
      × ((r.hook.is_executing ≡ true) × (result ≡ (thrown "A payment is already in progress", r))
          ⊎ (r.hook.is_executing ≡ false) × (shows_running result.1.hook ≡ false))
ended waits requests r start out true e same within = (omega arith, inl (e, refl))
ended waits requests r start out false e same within =
    (omega arith, inr (e, stop_executing-shows out.1.hook))

-- A payment comes to an end, with or without an error: after at most 128 awaits (an answer with its
-- body is one) and 4 requests for each step, whatever the server answers and whatever happens
-- meanwhile. If another payment was running it throws and changes nothing; otherwise the hook shows
-- no running payment afterwards.
pub execute_payment-ends :
    (world : World) (config : PaymentConfig) (steps : List PaymentStep) (r : Run)
    → ((execute_payment world config steps r).1.awaits ≤ r.awaits + 128 * length steps)
      × (count_where is_request (execute_payment world config steps r).1.log
          ≤ count_where is_request r.log + 4 * length steps)
      × ((r.hook.is_executing ≡ true)
            × (execute_payment world config steps r
                ≡ (thrown "A payment is already in progress", r))
          ⊎ (r.hook.is_executing ≡ false)
            × (shows_running (execute_payment world config steps r).1.hook ≡ false))
unfolding execute_payment
execute_payment-ends world config steps r =
    let start = record r { hook = start_payment steps } in
    let (within, end) =
      ended (128 * length steps) (4 * length steps) r start
        (run_steps world config 0 none steps start) r.hook.is_executing refl (omega arith)
        (run_steps-Within world config 0 none steps start) in
    (within.0, within.1, end)
