-- ===== src/Client/Payment/Complete.antt =====
-- What a payment that ends without an error has done, if nobody aborts it.
use eutxo_l2_interop.Client.Payment.{
  PaymentConfig, Event, Run, World, set_current_index, is_aborted,
}
use eutxo_l2_interop.Base.{
  ℕ, suc, ◌≡◌, refl, Bool, true, false, List, [], ◌∷◌, Option, none, some, if◌then◌else◌, any,
  if_rule,
}
use eutxo_l2_interop.Client.Topologies.{PaymentStep}
use eutxo_l2_interop.Client.Payment.Attempts.{
  lock_body, attempts, max_attempts, Attempted, done, gave_up,
}
use eutxo_l2_interop.Client.Payment.Execute.{
  Ending, finished, thrown, then_run, before_step, attempted_or_failed, is_last, after_step,
  run_step, run_steps, execute_payment, start_payment, stopped,
}
use eutxo_l2_interop.Client.Payment.Order.{is_accepted}
use eutxo_l2_interop.Client.Payment.Keeps.{
  Keeps, Keeps-refl, Keeps-trans, set_current_index-Keeps, Gains, Gains-after, NoAbort,
  before_step-Keeps, after_step-Keeps, attempts-Gains,
}

-- A part that does not throw ends in a state with the property.
abbrev Completes : (Run → Type 0) → Ending × Run → Type 0
Completes P (finished, r) = P r
Completes P (thrown message, r) = Unit

Completes-keeps : (r : Run) (out : Ending × Run) → Keeps r out.1 → Completes (Keeps r) out
Completes-keeps r (finished, r') k = k
Completes-keeps r (thrown message, r') k = tt

unless_aborted :
    (P : Run → Type 0) (flag : Bool) (r : Run) (out : Ending × Run)
    → flag ≡ false
    → Completes P out
    → Completes P (if flag then (finished, r) else out)
unless_aborted P true r out e c = cc
unless_aborted P false r out e c = c

then_run-Completes :
    (P Q : Run → Type 0) (out : Ending × Run) (next : Run → Ending × Run)
    → Completes P out
    → ((r : Run) → P r → Completes Q (next r))
    → Completes Q (then_run out next)
then_run-Completes P Q (finished, r) next p rule = rule r p
then_run-Completes P Q (thrown message, r) next p rule = tt

-- The steps, of which the first has this number, are all accepted.
abbrev pub AllAccepted : ℕ → List PaymentStep → List Event → Type 0
AllAccepted i [] log = Unit
AllAccepted i (step ∷ steps) log = (any (is_accepted i) log ≡ true) × AllAccepted (suc i) steps log

-- A step that does not throw is accepted, and keeps what is given.
abbrev StepDone : ℕ → Run → Run → Type 0
StepDone i r r' = Keeps r r' × (any (is_accepted i) r'.log ≡ true)

attempted_or_failed-Completes :
    (i : ℕ) (r : Run) (attempted : Attempted × Run)
    → Gains i r attempted
    → Completes (StepDone i r) (attempted_or_failed i attempted)
attempted_or_failed-Completes i r (done, r') g = g
attempted_or_failed-Completes i r (gave_up none, r') g = tt
attempted_or_failed-Completes i r (gave_up (some message), r') g = tt

module _ (world : World) (quiet : NoAbort world) where
  run_step-Completes :
      (config : PaymentConfig) (i : ℕ) (previous : Option PaymentStep) (step : PaymentStep)
      (rest : List PaymentStep) (r : Run)
      → Completes (StepDone i r) (run_step world config i previous step rest r)
  unfolding run_step
  run_step-Completes config i previous step rest r =
      let body = lock_body world config (is_last rest) i step in
      let start = set_current_index i r in
      let before = before_step world config i previous step start in
      then_run-Completes (Keeps r) (StepDone i r) before _
        (Completes-keeps r before (
          Keeps-trans r start before.1 (set_current_index-Keeps i r)
            (before_step-Keeps world quiet config i previous step start)))
        (λ now k.
          then_run-Completes (StepDone i r) (StepDone i r)
            (attempted_or_failed i (attempts world i body max_attempts 0 none now))
            (after_step world config i step rest)
            (attempted_or_failed-Completes i r (attempts world i body max_attempts 0 none now) (
              Gains-after i r now (attempts world i body max_attempts 0 none now) k
                (attempts-Gains world quiet i body max_attempts 0 none now)))
            (λ locked d. confirmed_later config i step rest r locked d))
    where
      confirmed_later :
          (config : PaymentConfig) (i : ℕ) (step : PaymentStep) (rest : List PaymentStep)
          (r locked : Run)
          → StepDone i r locked
          → Completes (StepDone i r) (after_step world config i step rest locked)
      confirmed_later config i step rest r locked (k, a) =
          let out = after_step world config i step rest locked in
          let l = after_step-Keeps world quiet config i step rest locked in
          by_out out (Keeps-trans r locked out.1 k l) (l.1 i a)
        where
          by_out :
              (out : Ending × Run)
              → Keeps r out.1
              → any (is_accepted i) out.1.log ≡ true
              → Completes (StepDone i r) out
          by_out (finished, r') k a = (k, a)
          by_out (thrown message, r') k a = tt

  -- What run_steps has done when it does not throw.
  abbrev RunDone : ℕ → List PaymentStep → Run → Run → Type 0
  RunDone i steps r r' = Keeps r r' × AllAccepted i steps r'.log

  run_steps-Completes :
      (config : PaymentConfig) (i : ℕ) (previous : Option PaymentStep) (steps : List PaymentStep)
      (r : Run)
      → is_aborted r.hook ≡ false
      → Completes (RunDone i steps r) (run_steps world config i previous steps r)
  unfolding run_steps
  run_steps-Completes config i previous [] r open' = (Keeps-refl r, tt)
  run_steps-Completes config i previous (step ∷ rest) r open' =
      let P = RunDone i (step ∷ rest) r in
      let out = run_step world config i previous step rest r in
      let more = run_steps world config (suc i) (some step) rest in
      unless_aborted P (is_aborted r.hook) r (then_run out more) open' (
        then_run-Completes (StepDone i r) P out more
          (run_step-Completes config i previous step rest r)
          (λ now d.
            all_done i step rest r now (more now) d
              (run_steps-Completes config (suc i) (some step) rest now (d.0.0 open'))))
    where
      all_done :
          (i : ℕ) (step : PaymentStep) (rest : List PaymentStep) (r now : Run) (out : Ending × Run)
          → StepDone i r now
          → Completes (RunDone (suc i) rest now) out
          → Completes (RunDone i (step ∷ rest) r) out
      all_done i step rest r now (finished, r') (k, a) (l, all) =
          (Keeps-trans r now r' k l, (l.1 i a, all))
      all_done i step rest r now (thrown message, r') d c = tt

  Completes-accepted :
      (steps : List PaymentStep) (start : Run) (out : Ending × Run)
      → Completes (RunDone 0 steps start) out
      → (stopped out).0 ≡ finished
      → AllAccepted 0 steps (stopped out).1.log
  Completes-accepted steps start (finished, r) (k, all) e = all
  Completes-accepted steps start (thrown message, r) c e = cc

-- A payment that ends without an error, and whose awaits nobody uses to abort it, has had an answer
-- of the server with the hash of a transaction to a request for every one of its steps.
pub execute_payment-AllAccepted :
    (world : World) (config : PaymentConfig) (steps : List PaymentStep) (r : Run)
    → NoAbort world
    → (execute_payment world config steps r).0 ≡ finished
    → AllAccepted 0 steps (execute_payment world config steps r).1.log
unfolding execute_payment
execute_payment-AllAccepted world config steps r quiet =
    let start = record r { hook = start_payment steps } in
    let out = run_steps world config 0 none steps start in
    if_rule (λ (o : Ending × Run). o.0 ≡ finished → AllAccepted 0 steps o.1.log) r.hook.is_executing
      (λ e. cc)
      (Completes-accepted world quiet steps start out
        (run_steps-Completes world quiet config 0 none steps start refl))
