-- ===== src/Client/Payment/Ordered.antt =====
-- The attempts, the steps and the whole of a payment keep the order of its exchange.
use eutxo_l2_interop.Client.Payment.Attempts.{
  after_answer, lock_body, attempts, max_attempts, Attempted, done, gave_up, begin_attempt, accept,
  answer_to, step_result, text_or,
}
use eutxo_l2_interop.Base.{
  ℕ, zero, suc, ◌≤◌, ◌==◌, String, ◌≡◌, refl, ap, true, List, [], ◌∷◌, Option, none, some,
  if◌then◌else◌, any, arith, ltb, if_rule,
}
use eutxo_l2_interop.Client.Topologies.{PaymentStep}
use eutxo_l2_interop.Client.Payment.{
  PaymentConfig, PaymentStepState, Event, sent, replied, LockAnswer, locked, refused_json,
  refused_other, unreachable, Run, World, LockBody, pause, set_current_index, is_aborted, failed,
}
use eutxo_l2_interop.Client.Payment.Execute.{
  Ending, finished, thrown, before_step, attempted_or_failed, is_last, after_step, run_step,
  run_steps, execute_payment, start_payment, stopped,
}
use eutxo_l2_interop.Client.Payment.Order.{
  is_accepted, is_sent, ready, InOrder, Ends, set_step-log, set_current_index-log, then_run-Ends,
  confirm-Ends, before_step-Ends, Preceded,
}
use eutxo_l2_interop.Client.Payment.Sights.{ShowsStep}
use Prim.Native.Char.{Char}

pub begin_attempt-log :
    (world : World) (i : ℕ) (body : LockBody) (retry : ℕ) (r : Run)
    → (begin_attempt world i body retry r).log
      ≡ (replied i (world.lock_answer r.awaits body) ∷ sent i body ∷ r.log)
unfolding begin_attempt pause
begin_attempt-log world i body retry r =
    ap (λ log. replied i (world.lock_answer r.awaits body) ∷ sent i body ∷ log) (set_step-log i _ r)

ready-replied :
    (i : ℕ) (answer : LockAnswer) (body : LockBody) (log : List Event)
    → ready i (replied i answer ∷ sent i body ∷ log) ≡ ready i log
ready-replied zero answer body log = refl
ready-replied (suc i) answer body log = refl

any_sent : (i : ℕ) (body : LockBody) (log : List Event) → any (is_sent i) (sent i body ∷ log) ≡ true
any_sent i body log = ground arith

pub any_accepted :
    (i : ℕ) (ch : Char) (rest : String) (log : List Event)
    → any (is_accepted i) (replied i (locked (String.◌∷◌ ch rest)) ∷ log) ≡ true
any_accepted i ch rest log = ground arith

module _ (Body : ℕ → LockBody → Type 0) (Shown : ℕ → Event → Type 0) where
  -- A part that makes attempts ends in order, and if it is done its request was accepted.
  abbrev AttemptEnds : ℕ → Attempted × Run → Type 0
  AttemptEnds i (done, r) = InOrder Body Shown r.log × (any (is_accepted i) r.log ≡ true)
  AttemptEnds i (gave_up last_error, r) = InOrder Body Shown r.log

  answered-AttemptEnds :
      (i : ℕ) (log : List Event) (begun : Run) (again : String → Attempted × Run)
      (answer : LockAnswer)
      → begun.log ≡ (replied i answer ∷ log)
      → InOrder Body Shown (replied i answer ∷ log)
      → ((message : String) → AttemptEnds i (again message))
      → AttemptEnds i (after_answer i begun again (step_result answer))
  unfolding after_answer step_result accept
  answered-AttemptEnds i log begun again (locked String.[]) same order ih = ih _
  answered-AttemptEnds i log begun again (locked (String.◌∷◌ ch rest)) same order ih =
      rw (set_step-log i _ begun, same) (order, any_accepted i ch rest log)
  answered-AttemptEnds i log begun again (refused_json err details) same order ih = ih _
  answered-AttemptEnds i log begun again (refused_other status_text) same order ih = ih _
  answered-AttemptEnds i log begun again (unreachable message) same order ih = ih _

  attempts-AttemptEnds :
      (world : World) (i : ℕ) (body : LockBody) (left retry : ℕ) (last_error : Option String)
      (r : Run)
      → Body i body
      → InOrder Body Shown r.log
      → ready i r.log ≡ true
      → AttemptEnds i (attempts world i body left retry last_error r)
  unfolding attempts answer_to
  attempts-AttemptEnds world i body zero retry last_error r fits order h = order
  attempts-AttemptEnds world i body (suc left) retry last_error r fits order h =
      let begun = begin_attempt world i body retry r in
      let answer = world.lock_answer r.awaits body in
      let same = begin_attempt-log world i body retry r in
      let later = if ltb 0 left then pause world begun else begun in
      let same' : later.log ≡ (replied i answer ∷ sent i body ∷ r.log) =
        if_rule (λ (x : Run). x.log ≡ (replied i answer ∷ sent i body ∷ r.log)) (ltb 0 left) same
          same in
      let order' : InOrder Body Shown (replied i answer ∷ sent i body ∷ r.log) =
        (any_sent i body r.log, (fits, h, order)) in
      let h' : ready i later.log ≡ true = rw (same', ready-replied i answer body r.log) h in
      if_rule (AttemptEnds i) (is_aborted r.hook) order (
        answered-AttemptEnds i (sent i body ∷ r.log) begun
          (λ message. attempts world i body left (suc retry) (some message) later) answer same
          order'
          (λ message.
            attempts-AttemptEnds world i body left (suc retry) (some message) later fits
              (rw same' order') h'))

  attempted_or_failed-Ends :
      (i : ℕ) (attempted : Attempted × Run)
      → AttemptEnds i attempted
      → Ends Body Shown (λ log. any (is_accepted i) log ≡ true) (attempted_or_failed i attempted)
  attempted_or_failed-Ends i (done, r) h = h
  attempted_or_failed-Ends i (gave_up none, r) order =
      rw
        (set_step-log i
          (λ (s : PaymentStepState). record s {
            status = failed;
            error = some "Step execution failed";
          })
          r)
        order
  attempted_or_failed-Ends i (gave_up (some message), r) order =
      rw
        (set_step-log i
          (λ (s : PaymentStepState). record s {
            status = failed;
            error = some (text_or (some message) "Step execution failed");
          })
          r)
        order

  -- Before the next step, if there is one, this one has been seen.
  abbrev Passed : ℕ → List PaymentStep → List Event → Type 0
  Passed i [] log = Unit
  Passed i (next ∷ rest) log = ready (suc i) log ≡ true

  after_step-Ends :
      (world : World) (config : PaymentConfig) (i : ℕ) (step : PaymentStep)
      (rest : List PaymentStep) (r : Run)
      → ((event : Event) → ShowsStep world config step event → Shown i event)
      → InOrder Body Shown r.log
      → any (is_accepted i) r.log ≡ true
      → Ends Body Shown (Passed i rest) (after_step world config i step rest r)
  unfolding after_step
  after_step-Ends world config i step [] r shown order acc = (order, tt)
  after_step-Ends world config i step (next ∷ rest) r shown order acc =
      confirm-Ends Body Shown world config "Step was not confirmed in time" i step r shown order acc

  run_step-Ends :
      (world : World) (config : PaymentConfig) (i : ℕ) (previous : Option PaymentStep)
      (step : PaymentStep) (rest : List PaymentStep) (r : Run)
      → Body i (lock_body world config (is_last rest) i step)
      → ((event : Event) → ShowsStep world config step event → Shown i event)
      → Preceded Body Shown world config i previous
      → InOrder Body Shown r.log
      → ready i r.log ≡ true
      → Ends Body Shown (Passed i rest) (run_step world config i previous step rest r)
  unfolding run_step
  run_step-Ends world config i previous step rest r fits shown preceded order h =
      let same = set_current_index-log i r in
      let body = lock_body world config (is_last rest) i step in
      then_run-Ends Body Shown (λ log. ready i log ≡ true) (Passed i rest)
        (before_step world config i previous step (set_current_index i r)) _
        (before_step-Ends Body Shown world config i previous step (set_current_index i r) preceded
          (rw same order) (rw same h))
        (λ now order' h'.
          then_run-Ends Body Shown (λ log. any (is_accepted i) log ≡ true) (Passed i rest)
            (attempted_or_failed i (attempts world i body max_attempts 0 none now))
            (after_step world config i step rest)
            (attempted_or_failed-Ends i (attempts world i body max_attempts 0 none now)
              (attempts-AttemptEnds world i body max_attempts 0 none now fits order' h'))
            (λ locked'. after_step-Ends world config i step rest locked' shown))

  -- Every request of these steps, the first of which has this number, is the one that belongs to it,
  -- and so is every answer that shows a step's HTLC.
  abbrev Fits : World → PaymentConfig → ℕ → List PaymentStep → Type 0
  Fits world config i [] = Unit
  Fits world config i (step ∷ rest) =
      Body i (lock_body world config (is_last rest) i step)
      × ((event : Event) → ShowsStep world config step event → Shown i event)
      × Fits world config (suc i) rest

  abbrev Whatever : List Event → Type 0
  Whatever log = Unit

  run_steps-Ends :
      (world : World) (config : PaymentConfig) (i : ℕ) (previous : Option PaymentStep)
      (steps : List PaymentStep) (r : Run)
      → Fits world config i steps
      → Preceded Body Shown world config i previous
      → InOrder Body Shown r.log
      → ready i r.log ≡ true
      → Ends Body Shown Whatever (run_steps world config i previous steps r)
  unfolding run_steps
  run_steps-Ends world config i previous [] r fits before order h = (order, tt)
  run_steps-Ends world config i previous (step ∷ []) r (fit, shown, fits) before order h =
      if_rule (Ends Body Shown Whatever) (is_aborted r.hook) (order, tt)
        (then_run-Ends Body Shown (Passed i []) Whatever
          (run_step world config i previous step [] r)
          (run_steps world config (suc i) (some step) [])
          (run_step-Ends world config i previous step [] r fit shown before order h)
          (λ now order' p. (order', tt)))
  run_steps-Ends world config i previous (step ∷ next ∷ rest) r (fit, shown, fits) before order h =
      if_rule (Ends Body Shown Whatever) (is_aborted r.hook) (order, tt)
        (then_run-Ends Body Shown (Passed i (next ∷ rest)) Whatever
          (run_step world config i previous step (next ∷ rest) r)
          (run_steps world config (suc i) (some step) (next ∷ rest))
          (run_step-Ends world config i previous step (next ∷ rest) r fit shown before order h)
          (λ now order' p.
            run_steps-Ends world config (suc i) (some step) (next ∷ rest) now fits shown order' p))

  Ends-log :
      (out : Ending × Run) → Ends Body Shown Whatever out → InOrder Body Shown (stopped out).1.log
  Ends-log (finished, r) (order, _) = order
  Ends-log (thrown message, r) order = order

-- The request for the step with a number, of steps of which the first has the number `base`.
abbrev pub body_of : World → PaymentConfig → (base : ℕ) → List PaymentStep → ℕ → Option LockBody
body_of world config base [] i = none
body_of world config base (step ∷ rest) i =
    if i == base
    then some (lock_body world config (is_last rest) base step)
    else body_of world config (suc base) rest i

-- A request is the one for its step.
abbrev pub IsFor : World → PaymentConfig → List PaymentStep → ℕ → LockBody → Type 0
IsFor world config steps i body = body_of world config 0 steps i ≡ some body

-- The step with a number, of steps of which the first has the number `base`.
abbrev pub step_at : (base : ℕ) → List PaymentStep → ℕ → Option PaymentStep
step_at base [] i = none
step_at base (step ∷ rest) i = if i == base then some step else step_at (suc base) rest i

-- An answer of the head of the step with a number that lists the step's HTLC.
abbrev pub IsSight : World → PaymentConfig → List PaymentStep → ℕ → Event → Type 0
IsSight world config steps i event =
    (step : PaymentStep) × (step_at 0 steps i ≡ some step) × ShowsStep world config step event

Fits-IsFor :
    (world : World) (config : PaymentConfig) (all steps : List PaymentStep) (i : ℕ)
    → ((j : ℕ) → i ≤ j → body_of world config i steps j ≡ body_of world config 0 all j)
    → ((j : ℕ) → i ≤ j → step_at i steps j ≡ step_at 0 all j)
    → Fits (IsFor world config all) (IsSight world config all) world config i steps
Fits-IsFor world config all [] i same same_step = tt
Fits-IsFor world config all (step ∷ rest) i same same_step = (
  ground (arith, same i),
  λ event shows. (step, ground (arith, same_step i), shows),
  Fits-IsFor world config all rest (suc i) (λ j h. ground (arith, same j))
      (λ j h. ground (arith, same_step j)),
)

-- Whatever the server answers and whatever happens to the hook during the awaits, a payment locks
-- in order: each request is the one for its step of the path, and is sent only after the HTLC of
-- the step before has been seen in its head, in an answer that lists it under the payment's hash,
-- for the step's receiver and with at least the payment's amount; and a step counts as seen only
-- after the server answered a request for it with the hash of a transaction.
pub execute_payment-InOrder :
    (world : World) (config : PaymentConfig) (steps : List PaymentStep) (r : Run)
    → r.log ≡ []
    → InOrder
        (IsFor world config steps)
        (IsSight world config steps)
        (execute_payment world config steps r).1.log
unfolding execute_payment
execute_payment-InOrder world config steps r fresh =
    let start = record r { hook = start_payment steps } in
    let Body = IsFor world config steps in
    let Shown = IsSight world config steps in
    if_rule (λ (out : Ending × Run). InOrder Body Shown out.1.log) r.hook.is_executing (rw fresh tt)
      (Ends-log Body Shown (run_steps world config 0 none steps start) (
        run_steps-Ends Body Shown world config 0 none steps start
          (Fits-IsFor world config steps steps 0 (λ j h. refl) (λ j h. refl)) tt (rw fresh tt)
          refl))
